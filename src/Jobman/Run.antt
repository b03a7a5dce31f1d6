-- ===== src/Jobman/Run.antt =====
-- `run_a_job`, on the disk, the table of child processes and the environment.
pub mod Released
pub mod Starts
use job.Config.{Config}
use job.File.Moves.{
  Fs, Faults, Handle, Error, err_ok, err_moved, err_locked, err_sys, lock, unlock, repath,
}
use job.File.Object.Disks.{
  Disk, StoreFaults, StoreError, stored, not_written, not_owned, FileLoaded, loaded, no_file,
  bad_line, load, store,
}
use job.File.Object.{JobFile, file_at, handle_of}
use job.File.{PathAttrs, Result, run, done, name}
use job.Jobman.Break.{GroupCalls, in_state, give_up, break_up}
use job.Jobman.Command.{job_command, close_output, open_output}
use job.Jobman.Environment.{Environ, Passwd, job_environ}
use job.Jobman.Slots.{Status}
use job.Launch.Child.{Task}
use job.Launch.{Pad, Table, Forked, LaunchError, start, erase, update, new}
use job.Launch
use job.Number.{ℤ, pos, int2str}
use job.Prelude.{
  ℕ, Bool, true, false, List, [], ◌∷◌, ◌++◌, Option, none, some, Bytes, codes, ltb, length,
  if◌then◌else◌,
}

-- What `run_a_job` finds and leaves.
pub record World : Type 0 where
  pub disk : Disk
  pub table : Table JobFile
  pub environ : Environ

-- What the calls answer: those in `lock`, in `store`, and in the `repath` that moves a job to done;
-- the text of `get_uuid`; the times; those for a group job; `getpwuid`; `fork` and what follows it; and `kill`. `me` tells
-- the new object from others, and `unread` is what its constructor has set where it has failed.
pub record Calls : Type 0 where
  pub me : ℕ
  pub unread : PathAttrs
  pub in_lock : Faults
  pub in_store : Faults
  pub in_text : StoreFaults
  pub in_done : Faults
  pub uuid : Bytes
  pub tim2str : ℤ → Bytes
  pub end_time : ℤ
  pub start_time : ℤ
  pub getpwuid : ℕ → Option Passwd
  pub group : GroupCalls
  pub forked : Forked
  pub killed : ℕ

-- How it ends, and what the child that was started is to do.
pub record Ran : Type 0 where
  pub world : World
  pub status : Status
  pub task : Option Task

unfoldable pub refuse : Calls → Bytes → World → Handle → Status → Ran
unfolding give_up
refuse w jobdir x h st = record {
  world = record x { disk = give_up w.in_done jobdir x.disk h };
  status = st;
  task = none;
}

unfoldable pub task_of : Bytes → JobFile → Bytes → Task
task_of jobdir f cmd = record {
  command = cmd;
  niceness = f.handle.path.attrs.priority;
  logfile = name jobdir f.handle.path;
  procname = codes "job " ++ int2str f.handle.path.attrs.id;
  append = true;
  kill_kids = true;
  uid = f.uid;
  gid = f.gid;
}

-- The object without the sections.
abbrev pub cleared : JobFile → JobFile
cleared f = record f { parts = record (f.parts) { sections = [] } }

abbrev pub with_pid : ℕ → JobFile → JobFile
with_pid pid f = record f { header = record (f.header) { pid = pos pid } }

-- Behind `pad->start()`, with the new pad, the table and the error.
unfoldable pub launched :
    Calls → Bytes → World → JobFile → Task → Pad JobFile × Table JobFile × LaunchError → Ran
unfolding refuse erase update
launched w jobdir x f task (q, t, LaunchError.err_ok) = record {
  world = record x { table = update q.pid (record q { ua = with_pid q.pid f }) t };
  status = Status.err_ok;
  task = some task;
}
launched w jobdir x f task (q, t, e) =
    refuse w jobdir (record x { table = erase q.pid t }) f.handle Status.err_abort

unfoldable pub new_pad : JobFile → Pad JobFile
new_pad f = record { pid = 0; state = new; xsig = 0; xstat = 0; has_callback = true; ua = f }

-- From the stored file on.
unfoldable pub launch_job : Calls → Bytes → Bytes → World → JobFile → StoreError → Ran
unfolding launched start new_pad task_of refuse
launch_job w jobdir cmd x f stored =
    launched w jobdir x (cleared f) (task_of jobdir f cmd)
      (start w.killed w.forked (new_pad (cleared f)) x.table)
launch_job w jobdir cmd x f not_written = refuse w jobdir x f.handle Status.err_abort
launch_job w jobdir cmd x f not_owned = refuse w jobdir x f.handle Status.err_abort

-- The section for the output, and the try.
unfoldable pub new_try : Calls → JobFile → JobFile
unfolding open_output
new_try w f =
    let (count, sections) = open_output f.try_count (w.tim2str w.start_time) f.parts.sections in
    record f { try_count = count; parts = record (f.parts) { sections = sections; closed = false } }

-- From the command on. The environment is set while the job is still in its old state.
unfoldable pub run_command : Calls → Bytes → World → JobFile → Option Bytes → Ran
unfolding new_try job_environ store launch_job refuse
run_command w jobdir x f none = refuse w jobdir x f.handle Status.err_again
run_command w jobdir x f (some cmd) =
    let f1 = new_try w f in
    let environ = job_environ jobdir w.tim2str w.getpwuid f1 x.environ in
    let f2 = record f1 { handle = in_state run f1.handle } in
    let (d, f3, e) = store w.in_store w.in_text jobdir w.uuid x.disk f2 in
    launch_job w jobdir cmd (record x { disk = d; environ = environ }) f3 e

-- `none` is `cmd` where it is empty, or its type is unknown.
unfoldable pub close_try : Calls → JobFile → JobFile
unfolding close_output
close_try w f = record f {
  parts = record (f.parts) {
    sections = close_output f.handle.path.state f.try_count (w.tim2str w.end_time) f.parts.sections;
  };
}

-- A job that has been loaded.
unfoldable pub run_loaded : Config → Calls → Bytes → World → JobFile → Ran
unfolding run_command close_try job_command break_up
run_loaded quecfg w jobdir x f =
    let (d, st) = break_up w.group jobdir x.disk f in
    let f' = close_try w f in
    let single =
      run_command w jobdir x f' (job_command quecfg f.header.type f.header.command f.header.args) in
    if ltb 1 (length f.header.ties)
    then record { world = record x { disk = d }; status = st; task = none }
    else single

-- After `load`, which takes the name anew in any case.
unfoldable pub run_file : Config → Calls → Bytes → World → Handle → FileLoaded → Ran
unfolding run_loaded refuse
run_file quecfg w jobdir x h (loaded f) = run_loaded quecfg w jobdir x f
run_file quecfg w jobdir x h no_file =
    refuse w jobdir x (record h { oldnam = name jobdir h.path }) Status.err_again
run_file quecfg w jobdir x h (bad_line e n) =
    refuse w jobdir x (record h { oldnam = name jobdir h.path }) Status.err_again

-- After `lock`. Where another manager was faster, the object is not deleted.
unfoldable pub run_locked : Config → Calls → Bytes → World → JobFile → Error → Ran
unfolding run_file load refuse
run_locked quecfg w jobdir x f err_ok = run_file quecfg w jobdir x f.handle (load jobdir x.disk f)
run_locked quecfg w jobdir x f err_moved = record {
  world = x;
  status = Status.err_moved;
  task = none;
}
run_locked quecfg w jobdir x f err_locked = record {
  world = x;
  status = Status.err_locked;
  task = none;
}
run_locked quecfg w jobdir x f err_sys = refuse w jobdir x f.handle Status.err_again

unfoldable pub run_made : Config → Calls → Bytes → World → Bytes → Result JobFile → Ran
unfolding run_locked lock refuse
run_made quecfg w jobdir x filename (Result.err e) =
    refuse w jobdir x (handle_of w.me w.unread filename) Status.err_again
run_made quecfg w jobdir x filename (Result.ok f) =
    let (fs, h) = lock w.in_lock x.disk.fs f.handle in
    run_locked quecfg w jobdir (record x { disk = record (x.disk) { fs = fs } })
      (record f { handle = h }) h.error

unfoldable pub run_a_job : Config → Calls → Bytes → World → Bytes → Ran
unfolding run_made file_at
run_a_job quecfg w jobdir x filename = run_made quecfg w jobdir x filename (file_at w.me filename)
