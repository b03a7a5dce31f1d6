-- ===== src/Queman/Startup.antt =====
-- src/queman.cxx: `main` up to the rounds, and the end of `yearn_for_queues`.
use job.Config.{Config, geti}
use job.Daemon.{Replies, Process, Daemonised, goes_on, exits, handled, daemonise}
use job.Launch.{Table, ChildStatus, LaunchError, err_ok, kill}
use job.Number.{ℤ, pos, negsuc, str2int}
use job.Prelude.{
  ℕ, zero, suc, Bool, true, false, not, ◌&&◌, List, [], ◌∷◌, ◌++◌, Option, none, some, Bytes, codes,
  ltb, ◌==◌, if◌then◌else◌, length, is_alnum,
}
use job.Queman.{Queman, reap_managers}
use job.Text.Replace.{replace_all, qqif}

unfoldable pub all_alnum : Bytes → Bool
all_alnum [] = true
all_alnum (c ∷ cs) = is_alnum c && all_alnum cs

-- `--test-prefix`.
unfoldable pub prefix_ok : Bytes → Bool
unfolding all_alnum
prefix_ok p = not (ltb 7 (length p)) && all_alnum p

unfoldable pub full_prefix : Bytes → Bytes
full_prefix [] = []
full_prefix (c ∷ cs) = (c ∷ cs) ++ codes "-"

-- The arguments, each behind a blank.
unfoldable pub quoted_args : List Bytes → Bytes
unfolding qqif
quoted_args [] = []
quoted_args (a ∷ rest) = b' ' ∷ (qqif a ++ quoted_args rest)

-- The command of the job managers: this one's, with `jobman` for the first `queman`.
unfoldable pub jobman_command : Bytes → List Bytes → Bytes
unfolding quoted_args qqif replace_all
jobman_command av0 av = replace_all (qqif av0) (codes "queman") (codes "jobman") 1 ++ quoted_args av

-- `if (next_check < 1) next_check = 1`.
unfoldable pub at_least_1 : ℤ → ℕ
at_least_1 (negsuc n) = 1
at_least_1 (pos zero) = 1
at_least_1 (pos (suc n)) = suc n

unfoldable pub next_check : Option Bytes → Config → ℕ
unfolding at_least_1 geti
next_check none cfg = at_least_1 (geti cfg (codes "job") (codes "queue-watch-secs") (pos 180))
next_check (some v) cfg = at_least_1 (str2int v)

-- What `flock` on the configuration file answers.
pub data LockReply : Type 0 where
  locked would_block other_error : LockReply

pub data StartError : Type 0 where
  extra_args bad_prefix no_config no_handler no_lockfile already_running no_lock not_root :
      StartError

-- What `main` finds. `config` is the overall configuration, if it can be loaded; `foreground` is `-D`.
pub record Found : Type 0 where
  pub args : List Bytes
  pub prefix : Bytes
  pub poll : Option Bytes
  pub config : Option Config
  pub handlers_set : Bool
  pub lockfile_opens : Bool
  pub lock : LockReply
  pub foreground : Bool
  pub uid : ℕ
  pub av0 : Bytes
  pub av : List Bytes

-- What the rounds are started with, and the process name.
pub record Settings : Type 0 where
  pub jobmancmd : Bytes
  pub next_check : ℕ
  pub process_name : Bytes

pub data Start : Type 0 where
  started : Settings → Start
  refused : StartError → Start

unfoldable pub settings : Found → Config → Settings
unfolding jobman_command full_prefix
settings m cfg = record {
  jobmancmd = jobman_command m.av0 m.av;
  next_check = next_check m.poll cfg;
  process_name = full_prefix m.prefix ++ codes "queman";
}

unfoldable pub no_args : List Bytes → Bool
no_args [] = true
no_args (x ∷ xs) = false

unfoldable pub lock_error : LockReply → Option StartError
lock_error locked = none
lock_error would_block = some already_running
lock_error other_error = some no_lock

-- Behind the lock.
unfoldable pub daemonised : Found → Config → Start
unfolding settings
daemonised m cfg =
    if not m.foreground && not (m.uid == 0) then refused not_root else started (settings m cfg)

unfoldable pub locked_start : Found → Config → Option StartError → Start
unfolding daemonised
locked_start m cfg (some e) = refused e
locked_start m cfg none = daemonised m cfg

unfoldable pub configured : Found → Option Config → Start
unfolding locked_start lock_error
configured m none = refused no_config
configured m (some cfg) =
    if not m.handlers_set
    then refused no_handler
    else if not m.lockfile_opens
    then refused no_lockfile
    else locked_start m cfg (lock_error m.lock)

unfoldable pub start_up : Found → Start
unfolding configured no_args prefix_ok
start_up m =
    if not (no_args m.args)
    then refused extra_args
    else if not (prefix_ok m.prefix)
    then refused bad_prefix
    else configured m m.config

-- The end of `yearn_for_queues`: every manager is sent `SIGKILL`, and those that end are reaped. `reply`
-- is what `kill` answers for each.
unfoldable pub was_sent : LaunchError → Bool
was_sent err_ok = true
was_sent _ = false

unfoldable pub kill_all : (ℕ → ℕ) → Table Bytes → Table Bytes × List ℕ
unfolding kill was_sent
kill_all reply [] = ([], [])
kill_all reply (p ∷ t) =
    let (rest, sent) = kill_all reply t in
    let (p', e) = kill (reply p.pid) p in (p' ∷ rest, if was_sent e then p.pid ∷ sent else sent)

unfoldable pub stop_all : (ℕ → ℕ) → List (ℕ × ChildStatus) → Queman → Queman
unfolding kill_all reap_managers
stop_all reply ends s =
    let (table, sent) = kill_all reply s.table in
    reap_managers ends (record s { table = table; killed = s.killed ++ sent })

-- From the handler of `SIGHUP` to the rounds: the process becomes a daemon after the handler is set,
-- if it is root's, and otherwise it exits with 1.
unfoldable pub detach : Found → Replies → Process → Daemonised
unfolding daemonise
detach m w p =
    let p' = record p { hup = handled } in
    if m.foreground then goes_on p' else if not (m.uid == 0) then exits 1 else daemonise w p'
