-- ===== src/Launch/Runs.antt =====
-- When the child of `launch::start` becomes the new program, and whose rights it has.
use job.Launch.Child.{
  Task, Ids, Expanded, words, Answers, ChildError, no_prctl, no_logfile, no_redirect, no_sync,
  no_exec, Program, ChildEnd, dies, execs, undefined, is_ack, sync_loop, sync_max, shown_name,
  change_ids, exec_words, child, Descriptors, set_fd, dup2, redirect, log_opened,
}
use job.Prelude.{
  ℕ, zero, suc, ◌<◌, Bool, true, false, not, ◌&&◌, ◌||◌, List, [], ◌∷◌, ◌++◌, Option, none, some,
  Bytes, ◌==◌, length, ◌≡◌, ◌≢◌, refl, ap, sym, ◌∙◌, arith, Bool-cases, inl, inr,
}
use mathlib.Core.Bool.{false≢true}

-- The parent's go-ahead, the byte 6, is among the first `k` replies.
pub record HasAck (k : ℕ) (replies : List (Option ℕ)) : Type 0 where
  pub before : List (Option ℕ)
  pub after : List (Option ℕ)
  pub split_is : replies ≡ before ++ some 6 ∷ after
  pub in_time : length before < k

is_ack_lem : (r : Option ℕ) → is_ack r ≡ true → r ≡ some 6
unfolding is_ack
is_ack_lem none h = absurd (false≢true h)
is_ack_lem (some c) h = ap some (ground (arith, h))

sync_loop-HasAck : (k : ℕ) (rs : List (Option ℕ)) → sync_loop k rs ≡ true → HasAck k rs
unfolding sync_loop
sync_loop-HasAck zero rs h = absurd (false≢true h)
sync_loop-HasAck (suc k) [] h = absurd (false≢true h)
sync_loop-HasAck (suc k) (r ∷ rs) h = elim (Bool-cases (is_ack r)) [
  | inl a ↦ record {
    before = [];
    after = rs;
    split_is = ap (λ (x : Option ℕ). x ∷ rs) (is_ack_lem r a);
    in_time = omega arith;
  }
  | inr a ↦
      (let i = sync_loop-HasAck k rs (sym (rw a) ∙ h) in
        record {
          before = r ∷ i.before;
          after = i.after;
          split_is = ap (λ (l : List (Option ℕ)). r ∷ l) i.split_is;
          in_time = omega (arith, i.in_time);
        })
]

-- What holds when the child has become the program `p`.
pub record Runs (setuid setgid : ℕ → Ids → Ids) (wordexp : Bytes → Expanded) (w : Answers)
    (t : Task) (c : Ids) (fds : Descriptors) (p : Program) : Type 0 where
  pub death_signal : (t.kill_kids && w.prctl_fails) ≡ false
  pub logfd : ℕ
  pub log_is : w.log_fd ≡ some logfd
  pub files_are : p.files ≡ redirect logfd t.logfile fds
  pub redirected : (w.out_fails || w.err_fails) ≡ false
  pub acked : HasAck sync_max w.sync
  pub args : List Bytes
  pub command_is : wordexp t.command ≡ words (p.bin ∷ args)
  pub argv_is : p.argv ≡ shown_name t.procname p.bin ∷ args
  pub ids_are : p.ids ≡ change_ids setuid setgid t c
  pub log_kept : p.truncates ≡ not t.append

is_exec : ChildEnd → Bool
is_exec (execs p) = true
is_exec (dies e) = false
is_exec undefined = false

dies_not : (e : ChildError) (p : Program) → dies e ≡ execs p → ⊥
unfolding is_exec
dies_not e p h = false≢true (ap is_exec h)

execs_injective : {p q : Program} → execs p ≡ execs q → p ≡ q
execs_injective e = cc

module _ (setuid setgid : ℕ → Ids → Ids) (wordexp : Bytes → Expanded) (w : Answers) (t : Task)
    (c : Ids) (fds : Descriptors) (p : Program) where
  words-Runs :
      (x : Expanded) (n : ℕ)
      → (t.kill_kids && w.prctl_fails) ≡ false
      → w.log_fd ≡ some n
      → (w.out_fails || w.err_fails) ≡ false
      → HasAck sync_max w.sync
      → wordexp t.command ≡ x
      → exec_words w t (change_ids setuid setgid t c) (redirect n t.logfile fds) x ≡ execs p
      → Runs setuid setgid wordexp w t c fds p
  unfolding exec_words is_exec
  words-Runs Expanded.bad_char n a b d e k h = absurd (dies_not _ p h)
  words-Runs Expanded.no_space n a b d e k h = absurd (dies_not _ p h)
  words-Runs Expanded.syntax n a b d e k h = absurd (dies_not _ p h)
  words-Runs Expanded.other n a b d e k h = absurd (dies_not _ p h)
  words-Runs (words []) n a b d e k h = absurd (false≢true (ap is_exec h))
  words-Runs (words (bin ∷ args)) n a b d e k h = elim (Bool-cases w.exec_fails) [
    | inl x ↦ absurd (dies_not no_exec p (sym (rw x) ∙ h))
    | inr x ↦
        (let same = execs_injective (sym (rw x) ∙ h) in
          let bin_is = ap (λ (q : Program). q.bin) same in
          record {
            death_signal = a;
            logfd = n;
            log_is = b;
            files_are = ap (λ (q : Program). q.files) (sym same);
            redirected = d;
            acked = e;
            args = args;
            command_is = k ∙ ap (λ y. words (y ∷ args)) bin_is;
            argv_is =
                ap (λ (q : Program). q.argv) (sym same)
                ∙ ap (λ y. shown_name t.procname y ∷ args) bin_is;
            ids_are = ap (λ (q : Program). q.ids) (sym same);
            log_kept = ap (λ (q : Program). q.truncates) (sym same);
          })
  ]

  log_opened-Runs :
      (o : Option ℕ)
      → (t.kill_kids && w.prctl_fails) ≡ false
      → w.log_fd ≡ o
      → log_opened setuid setgid wordexp w t c fds o ≡ execs p
      → Runs setuid setgid wordexp w t c fds p
  unfolding log_opened
  log_opened-Runs none a b h = absurd (dies_not no_logfile p h)
  log_opened-Runs (some n) a b h = elim (Bool-cases (w.out_fails || w.err_fails)) [
    | inl d ↦ absurd (dies_not no_redirect p (sym (rw d) ∙ h))
    | inr d ↦ elim (Bool-cases (sync_loop sync_max w.sync)) [
      | inl e ↦
          words-Runs (wordexp t.command) n a b d (sync_loop-HasAck sync_max w.sync e) refl
            (sym (rw (d, e)) ∙ h)
      | inr e ↦ absurd (dies_not no_sync p (sym (rw (d, e)) ∙ h))
    ]
  ]

  child-Runs :
      child setuid setgid wordexp w t c fds ≡ execs p → Runs setuid setgid wordexp w t c fds p
  unfolding child
  child-Runs h = elim (Bool-cases (t.kill_kids && w.prctl_fails)) [
    | inl a ↦ absurd (dies_not no_prctl p (sym (rw a) ∙ h))
    | inr a ↦ log_opened-Runs w.log_fd a refl (sym (rw a) ∙ h)
  ]

-- The descriptor is not one of the standard three, and standard output and standard error lead to the
-- log file.
redirect_lem :
    (n : ℕ) (logfile : Bytes) (fds : Descriptors)
    → (n == 1) ≡ false
    → (n == 2) ≡ false
    → (redirect n logfile fds 1 ≡ some logfile) × (redirect n logfile fds 2 ≡ some logfile)
unfolding redirect dup2 set_fd
redirect_lem n logfile fds a b =
    let s : (n == n) ≡ true = ground arith in
    let d : (1 == n) ≡ false = ground (arith, a) in (rw (a, s) refl, rw (b, d, s) refl)

-- The calls before the new program, as the manual has them: `open` gives a descriptor that is not in
-- use.
abbrev pub OpensUnused : Answers → Descriptors → Type 0
OpensUnused w fds = (n : ℕ) → w.log_fd ≡ some n → fds n ≡ none

used_apart : (n k : ℕ) (fds : Descriptors) → fds n ≡ none → fds k ≢ none → (n == k) ≡ false
used_apart n k fds e f = elim (Bool-cases (n == k)) [
  | inl s ↦ (let same : n ≡ k = ground (arith, s) in absurd (f (sym (ap fds same) ∙ e)))
  | inr s ↦ s
]

-- Where the parent has its standard output and standard error open, and `open` gives a descriptor that
-- is not in use, the child becomes a new program only after the parent's go-ahead, which it has got
-- within seven reads; the program's standard output and standard error are the task's log file, which
-- has been emptied only where the task does not append; and it is the first word of the command, its
-- arguments being the words, the first of them with the process name before it.
pub child_logs :
    (setuid setgid : ℕ → Ids → Ids) (wordexp : Bytes → Expanded) (w : Answers) (t : Task) (c : Ids)
    (fds : Descriptors) (p : Program)
    → fds 1 ≢ none
    → fds 2 ≢ none
    → OpensUnused w fds
    → child setuid setgid wordexp w t c fds ≡ execs p
    → (p.files 1 ≡ some t.logfile)
      × (p.files 2 ≡ some t.logfile)
      × (p.truncates ≡ not t.append)
      × HasAck sync_max w.sync
      × ((args : List Bytes) × (wordexp t.command ≡ words (p.bin ∷ args))
          × (p.argv ≡ shown_name t.procname p.bin ∷ args))
child_logs setuid setgid wordexp w t c fds p out err unused h =
    let r = child-Runs setuid setgid wordexp w t c fds p h in
    let free = unused r.logfd r.log_is in
    let (a, b) =
      redirect_lem r.logfd t.logfile fds (used_apart r.logfd 1 fds free out)
        (used_apart r.logfd 2 fds free err) in
    (
      ap (λ (f : Descriptors). f 1) r.files_are ∙ a,
      ap (λ (f : Descriptors). f 2) r.files_are ∙ b,
      r.log_kept,
      r.acked,
      (r.args, r.command_is, r.argv_is),
    )

-- What the manual says of `setuid` and `setgid`: root's `setuid` changes all three user ids, and
-- `setgid` by anybody else fails unless the group is the real or the saved one.
pub record IsPosix (setuid setgid : ℕ → Ids → Ids) : Type 0 where
  pub drops :
      (u : ℕ) (c : Ids) → c.euid ≡ 0 → setuid u c ≡ record c { ruid = u; euid = u; suid = u }
  pub denied : (g : ℕ) (c : Ids) → c.euid ≢ 0 → c.rgid ≢ g → c.sgid ≢ g → setgid g c ≡ c

-- A job of a user other than root, with a group other than the job manager's, is run by root's job
-- manager with that user's id, but with the manager's group: the user id is given up before the
-- group is to be changed.
pub child_group :
    (setuid setgid : ℕ → Ids → Ids) (wordexp : Bytes → Expanded) (w : Answers) (t : Task) (c : Ids)
    (fds : Descriptors) (p : Program)
    → IsPosix setuid setgid
    → c.euid ≡ 0
    → t.uid ≢ 0
    → c.rgid ≢ t.gid
    → c.sgid ≢ t.gid
    → child setuid setgid wordexp w t c fds ≡ execs p
    → (p.ids.euid ≡ t.uid) × (p.ids.egid ≡ c.egid)
unfolding change_ids
child_group setuid setgid wordexp w t c fds p posix root user rgid sgid h =
    let dropped : Ids = record c { ruid = t.uid; euid = t.uid; suid = t.uid } in
    let is_user : (t.uid == 0) ≡ false = ground (arith, user) in
    let ids : p.ids ≡ dropped =
      (child-Runs setuid setgid wordexp w t c fds p h).ids_are
      ∙ rw is_user (elim (Bool-cases (t.gid == 0)) [
        | inl g ↦ rw g (posix.drops t.uid c root)
        | inr g ↦ rw g (
            ap (setgid t.gid) (posix.drops t.uid c root)
            ∙ posix.denied t.gid dropped user rgid sgid)
      ]) in
    (ap (λ (x : Ids). x.euid) ids, ap (λ (x : Ids). x.egid) ids)
