-- ===== src/Tests/Moves.antt =====
-- src/job/file.cxx at concrete inputs: locks and renames.
use job.File.Moves.Race.Taking.{Moves}
use job.File.Moves.Race.{
  Place, runs, waits, idle, opened, locked, loaded, running, System, update, rename_fails,
}
use job.File.Moves.Renamed.{Repathed, repath-Repathed}
use job.File.Moves.{Fs, Faults, Handle, err_ok, lock, lock_fd, open_fd, flock_fd, repath}
use job.File.Object.Taken.{Shows, TakesIt, to_run, lock_repath-TakesIt}
use job.File.{is_empty, NameAttrs, PathAttrs, name, state2str}
use job.File
use job.Number.{pos}
use job.Prelude.{◌≡◌, true, false, Bytes, codes, some, none, refl, str_eq, if◌then◌else◌}

abbrev begun : System
begun = record { place = waits 0; owner = none; pc = λ i. idle }

abbrev has_opened : System
has_opened = record begun { pc = update begun.pc 4 (opened (waits 0)) }

abbrev has_locked : System
has_locked = record has_opened { owner = some 4; pc = update has_opened.pc 4 (locked (waits 0)) }

abbrev has_loaded : System
has_loaded = record has_locked { pc = update has_locked.pc 4 (loaded (waits 0)) }

abbrev has_started : System
has_started = record has_loaded { pc = update has_loaded.pc 4 (running (waits 0)) }

abbrev waiting_path : PathAttrs
waiting_path = record {
  queue = codes "fast";
  state = File.State.run;
  attrs = record { run_time = pos 1700000000; priority = pos 5; id = 42; submitter = codes "ann" };
}

abbrev old_name : Bytes
old_name = codes "/var/spool/job/fast/pend/t1700000000.p5.j0000042.ann"

abbrev tree : Fs
tree = record { names = λ q. if str_eq old_name q then some 9 else none; locked = λ i. none }

abbrev none_fail : Faults
none_fail = record {
  open_fails = false;
  flock_fails = false;
  rename_fails = false;
  remove_fails = false;
}

abbrev found : Handle
found = record { me = 1; path = waiting_path; oldnam = old_name; lockfd = none; error = err_ok }

repath-Repathed_example :
    Repathed
      (codes "/var/spool/job/")
      tree
      found
      (repath none_fail (codes "/var/spool/job/") tree found)
repath-Repathed_example = repath-Repathed none_fail (codes "/var/spool/job/") tree found tt

-- The same file, with the path of the waiting job.
abbrev waiting_job : Handle
waiting_job = record found { me = 4; path = record waiting_path { state = File.State.pend } }

abbrev place_of : Bytes → Place
place_of q = if str_eq old_name q then waits 0 else runs

begun-Shows : Shows place_of 9 old_name tree begun
unfolding str_eq
begun-Shows = record { stands = refl; place_is = refl; owner_is = refl }

run_place : place_of (name (codes "/var/spool/job/") (to_run waiting_job).path) ≡ runs
unfolding name str_eq state2str
run_place = refl

is_locked : (lock none_fail tree waiting_job).1.error ≡ err_ok
unfolding lock lock_fd open_fd flock_fd str_eq
is_locked = refl

-- The renaming fails.
lock_repath-TakesIt_example : TakesIt place_of 9 4 begun (
    repath
      (record none_fail { rename_fails = true })
      (codes "/var/spool/job/")
      (lock none_fail tree waiting_job).0
      (to_run (lock none_fail tree waiting_job).1))
lock_repath-TakesIt_example =
    lock_repath-TakesIt place_of 9 begun tree waiting_job begun-Shows refl (unfold is_empty in refl)
      (record none_fail { rename_fails = true }) (codes "/var/spool/job/") run_place none_fail refl
      is_locked
