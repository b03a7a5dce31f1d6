-- ===== src/Launch/Child.antt =====
-- src/job/launch.cxx: the child's side of `start`, up to the new program. What the system calls and
-- `wordexp` answer is an argument.
use job.File.{is_empty}
use job.Number.{ℤ}
use job.Prelude.{
  ℕ, zero, suc, Bool, false, not, ◌&&◌, ◌||◌, List, [], ◌∷◌, ◌++◌, Option, none, some, Bytes, codes,
  ◌==◌, if◌then◌else◌,
}

-- What a `launch` object is asked to run; the environment is the parent's.
pub record Task : Type 0 where
  pub command : Bytes
  pub niceness : ℤ
  pub logfile : Bytes
  pub procname : Bytes
  pub append : Bool
  pub kill_kids : Bool
  pub uid : ℕ
  pub gid : ℕ

-- The user and group ids of a process: real, effective and saved.
pub record Ids : Type 0 where
  pub ruid : ℕ
  pub euid : ℕ
  pub suid : ℕ
  pub rgid : ℕ
  pub egid : ℕ
  pub sgid : ℕ

-- What `wordexp` answers.
pub data Expanded : Type 0 where
  words : List Bytes → Expanded
  bad_char no_space syntax other : Expanded

pub record Answers : Type 0 where
  pub prctl_fails : Bool
  pub log_fd : Option ℕ
  pub out_fails : Bool
  pub err_fails : Bool
  pub sync : List (Option ℕ)
  pub exec_fails : Bool

pub data ChildError : Type 0 where
  no_prctl no_logfile no_redirect no_sync : ChildError
  bad_char no_space syntax other : ChildError
  no_exec : ChildError

-- The names of the files that a process has open, by their descriptors.
abbrev pub Descriptors : Type 0
Descriptors = ℕ → Option Bytes

unfoldable pub set_fd : ℕ → Option Bytes → Descriptors → Descriptors
set_fd i file fds j = if i == j then file else fds j

-- `dup2(logfd, fd)`.
unfoldable pub dup2 : ℕ → ℕ → Descriptors → Descriptors
unfolding set_fd
dup2 logfd fd fds = set_fd fd (fds logfd) fds

-- `open(logfile)`, the two `dup2`s for standard output and standard error, and `close(logfd)`.
unfoldable pub redirect : ℕ → Bytes → Descriptors → Descriptors
unfolding set_fd dup2
redirect logfd logfile fds =
    set_fd logfd none (dup2 logfd 2 (dup2 logfd 1 (set_fd logfd (some logfile) fds)))

-- The new program, with the files that it has open, and whether the one that gets its output has been
-- emptied.
pub record Program : Type 0 where
  pub bin : Bytes
  pub argv : List Bytes
  pub ids : Ids
  pub files : Descriptors
  pub truncates : Bool

-- The child dies, runs the new program, or makes a text of the null pointer, which C++ leaves
-- undefined.
pub data ChildEnd : Type 0 where
  dies : ChildError → ChildEnd
  execs : Program → ChildEnd
  undefined : ChildEnd

-- `SYNC_ACK`, and whether a `read` of the pipe has got it.
unfoldable pub is_ack : Option ℕ → Bool
is_ack none = false
is_ack (some c) = c == 6

-- The loop that waits for the go-ahead, with the rounds that are left; a `read` that is not listed has
-- got nothing.
unfoldable pub sync_loop : ℕ → List (Option ℕ) → Bool
unfolding is_ack
sync_loop zero replies = false
sync_loop (suc left) [] = false
sync_loop (suc left) (r ∷ replies) = is_ack r || sync_loop left replies

-- `SYNC_MAX`.
abbrev pub sync_max : ℕ
sync_max = 7

-- `argv[0]`, which has the process name if there is one.
unfoldable pub shown_name : Bytes → Bytes → Bytes
unfolding is_empty
shown_name procname bin = if is_empty procname then bin else procname ++ (codes ": " ++ bin)

unfoldable pub change_ids : (ℕ → Ids → Ids) → (ℕ → Ids → Ids) → Task → Ids → Ids
change_ids setuid setgid t c =
    let c' = if t.uid == 0 then c else setuid t.uid c in if t.gid == 0 then c' else setgid t.gid c'

-- From the words of the command on.
unfoldable pub exec_words : Answers → Task → Ids → Descriptors → Expanded → ChildEnd
unfolding shown_name
exec_words w t c fds bad_char = dies bad_char
exec_words w t c fds no_space = dies no_space
exec_words w t c fds syntax = dies syntax
exec_words w t c fds other = dies other
exec_words w t c fds (words []) = undefined
exec_words w t c fds (words (bin ∷ args)) =
    if w.exec_fails
    then dies no_exec
    else execs (record {
      bin = bin;
      argv = shown_name t.procname bin ∷ args;
      ids = c;
      files = fds;
      truncates = not t.append;
    })

-- From the log file on. `wordexp` reads the command after the change of the ids.
unfoldable pub log_opened :
    (ℕ → Ids → Ids)
    → (ℕ → Ids → Ids)
    → (Bytes → Expanded)
    → Answers
    → Task
    → Ids
    → Descriptors
    → Option ℕ
    → ChildEnd
unfolding redirect sync_loop change_ids exec_words
log_opened setuid setgid wordexp w t c fds none = dies no_logfile
log_opened setuid setgid wordexp w t c fds (some logfd) =
    if w.out_fails || w.err_fails
    then dies no_redirect
    else if not (sync_loop sync_max w.sync)
    then dies no_sync
    else exec_words w t (change_ids setuid setgid t c) (redirect logfd t.logfile fds)
        (wordexp t.command)

-- The child, with the files that the parent has open.
unfoldable pub child :
    (ℕ → Ids → Ids)
    → (ℕ → Ids → Ids)
    → (Bytes → Expanded)
    → Answers
    → Task
    → Ids
    → Descriptors
    → ChildEnd
unfolding log_opened
child setuid setgid wordexp w t c fds =
    if t.kill_kids && w.prctl_fails
    then dies no_prctl
    else log_opened setuid setgid wordexp w t c fds w.log_fd
