-- ===== src/Tests/Children.antt =====
-- The child of a job manager, and the terminals of users, at concrete inputs.
use job.Launch.Child.{
  Task, Ids, Expanded, words, Answers, Program, execs, undefined, child, Descriptors, redirect,
  sync_max, shown_name,
}
use job.Jobman.Notify.{device}
use job.Launch.Runs.{HasAck, OpensUnused, IsPosix, child_logs, child_group}
use job.Number.{pos}
use job.Prelude.{
  ℕ, true, false, [], ◌∷◌, ◌++◌, none, some, Bytes, codes, replicate, ◌||◌, ◌≡◌, List, not, ap, sym,
  some_injective, refl, arith, if◌then◌else◌, ◌==◌,
}

abbrev pub task : Task
task = record {
  command = codes "ls -l";
  niceness = pos 5;
  logfile = codes "/j/fast/run/t1700000000.p5.j0000017.ann";
  procname = codes "job 17";
  append = true;
  kill_kids = true;
  uid = 7;
  gid = 8;
}

-- A kernel's `setuid` and `setgid`.
abbrev setuid : ℕ → Ids → Ids
setuid u c =
    if c.euid == 0
    then record c { ruid = u; euid = u; suid = u }
    else if c.ruid == u || c.suid == u
    then record c { euid = u }
    else c

abbrev setgid : ℕ → Ids → Ids
setgid g c =
    if c.euid == 0
    then record c { rgid = g; egid = g; sgid = g }
    else if c.rgid == g || c.sgid == g
    then record c { egid = g }
    else c

posix : IsPosix setuid setgid
posix = record {
  drops = λ u c e. (let s : (c.euid == 0) ≡ true = ground (arith, e) in rw s);
  denied = λ g c e a b.
      (let s : (c.euid == 0) ≡ false = ground (arith, e) in
        let r : (c.rgid == g) ≡ false = ground (arith, a) in
        let t : (c.sgid == g) ≡ false = ground (arith, b) in rw (s, r, t));
}

abbrev root_ids : Ids
root_ids = record { ruid = 0; euid = 0; suid = 0; rgid = 0; egid = 0; sgid = 0 }

abbrev wordexp : Bytes → Expanded
wordexp s = words (codes "ls" ∷ (codes "-l" ∷ []))

abbrev answers : Answers
answers = record {
  prctl_fails = false;
  log_fd = some 4;
  out_fails = false;
  err_fails = false;
  sync = none ∷ (some 6 ∷ []);
  exec_fails = false;
}

abbrev terminal : Descriptors
terminal n = if n == 0 || (n == 1 || n == 2) then some (codes "/dev/null") else none

abbrev program : Program
program = record {
  bin = codes "ls";
  argv = codes "job 17: ls" ∷ (codes "-l" ∷ []);
  ids = record root_ids { ruid = 7; euid = 7; suid = 7 };
  files = redirect 4 task.logfile terminal;
  truncates = false;
}

executed : child setuid setgid wordexp answers task root_ids terminal ≡ execs program
unfolding child
executed = refl

four_unused : OpensUnused answers terminal
four_unused n e = ap terminal (sym (some_injective e))

child_logs_example :
    (program.files 1 ≡ some task.logfile)
    × (program.files 2 ≡ some task.logfile)
    × (program.truncates ≡ not task.append)
    × HasAck sync_max answers.sync
    × ((args : List Bytes) × (wordexp task.command ≡ words (program.bin ∷ args))
        × (program.argv ≡ shown_name task.procname program.bin ∷ args))
child_logs_example =
    child_logs setuid setgid wordexp answers task root_ids terminal program (λ e. cc) (λ e. cc)
      four_unused executed

child_group_example : (program.ids.euid ≡ 7) × (program.ids.egid ≡ 0)
child_group_example =
    child_group setuid setgid wordexp answers task root_ids terminal program posix refl (λ e. cc)
      (λ e. cc) (λ e. cc) executed

no_words :
    child setuid setgid
      (λ s. words [])
      answers
      (record task { command = codes "$UNSET" })
      root_ids
      terminal
    ≡ undefined
unfolding child
no_words = refl

-- A terminal with a name of 32 bytes.
long_line : device (replicate 32 b'x') ≡ codes "/dev/" ++ replicate 31 b'x'
unfolding device
long_line = refl
