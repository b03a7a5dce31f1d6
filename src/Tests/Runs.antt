-- ===== src/Tests/Runs.antt =====
-- `run_a_job`, its child and `try_done` at concrete inputs.
use job.File.Moves.Owner.{OwnsIts, Free}
use job.File.Moves.{Faults}
use job.File.Object.Disks.{Disk, StoreFaults, load}
use job.File.Object.{JobFile, one_section, handle_of, new_header}
use job.File.{PathAttrs, name, pend, run, init_from_path, Result, str2state, parse, state2str}
use job.Text.Split.{split}
use job.Text.Search.{find}
use job.Text.Trim.{ltrim, rtrim, trim, lc}
use job.Multipart.Load.{fgets_lines}
use job.Multipart.Load as Reader
use job.Multipart.Scan.{scan_line, scan_loop, is_id}
use job.Multipart.Section.{set_tag, caseless, same_key}
use job.Multipart.Print.{to_string}
use job.File.Header.{load_header}
use job.Jobman.Command.{job_command}
use job.Jobman.Break.{KidCalls}
use job.Jobman.Environment.{job_environ, is_among, user_names, job_names, job_environ_fresh}
use job.Jobman.Finish.{EndCalls, IsFinished, finish, finish-IsFinished}
use job.Jobman.Run.Released.{run_a_job-Free}
use job.Jobman.Run.Starts.{IsStarted, run_a_job-Starts}
use job.Jobman.Run.{World, Calls, run_a_job}
use job.Launch.{started}
use job.Number.{
  pos, read_sign, read_digits, signed, padded, siz2str, print_int, str2int, str2boo, to_int,
  int2str,
}
use job.Prelude.{
  false, [], ◌∷◌, none, some, Bytes, codes, str_eq, ◌||◌, ap, sym, ◌∙◌, Bool-cases, inl, inr,
  is_space, is_digit, is_alnum, is_blank, to_lower, ◌≡◌, refl, arith, if◌then◌else◌, ◌==◌,
}
use job.Tests.Children.{task}

abbrev pending : PathAttrs
pending = record {
  queue = codes "fast";
  state = pend;
  attrs = record { run_time = pos 1700000000; priority = pos 5; id = 17; submitter = codes "ann" };
}

abbrev file_name : Bytes
file_name = codes "/j/fast/pend/t1700000000.p5.j0000017.ann"

abbrev disk : Disk
disk = record {
  fs = record { names = λ p. if str_eq p file_name then some 3 else none; locked = λ i. none };
  content = λ i. if i == 3 then codes "Command: ls -l\n" else [];
  owner = λ i. (7, 8);
  fresh = 4;
}

abbrev no_faults : Faults
no_faults = record {
  open_fails = false;
  flock_fails = false;
  rename_fails = false;
  remove_fails = false;
}

abbrev no_text_faults : StoreFaults
no_text_faults = record {
  create_fails = false;
  written = none;
  flushed = none;
  stat_fails = false;
  chown_fails = false;
}

abbrev world : World
world = record { disk = disk; table = []; environ = λ k. none }

abbrev kid : KidCalls
kid = record {
  me = 2;
  number = some 50;
  in_store = no_faults;
  in_text = no_text_faults;
  in_repath = no_faults;
  in_remove = no_faults;
  uuid = codes "9";
}

abbrev calls : Calls
calls = record {
  me = 1;
  unread = pending;
  in_lock = no_faults;
  in_store = no_faults;
  in_text = no_text_faults;
  in_done = no_faults;
  uuid = codes "7";
  tim2str = λ t. codes "now";
  end_time = pos 1700000001;
  start_time = pos 1700000001;
  getpwuid = λ u. none;
  group = record {
    in_store = no_faults;
    in_text = no_text_faults;
    in_done = no_faults;
    uuid = codes "8";
    zone = pos 0;
    kid_calls = kid ∷ [];
  };
  forked = started 99;
  killed = 0;
}

is_read : init_from_path file_name ≡ Result.ok pending
unfolding init_from_path split find str2state str_eq parse read_sign ltrim is_space is_digit
    read_digits signed
is_read = refl

is_named : name (codes "/j/") pending ≡ file_name
unfolding name state2str padded siz2str print_int
is_named = refl

is_started : (run_a_job [] calls (codes "/j/") world file_name).task ≡ some task
unfolding run_a_job init_from_path split find str2state str_eq parse read_sign ltrim is_space
    is_digit read_digits signed state2str padded siz2str print_int Reader.load fgets_lines scan_line
    scan_loop is_id is_alnum is_blank set_tag caseless same_key to_lower lc str2int str2boo
    load_header to_int int2str trim rtrim job_command to_string
is_started = refl

run_a_job-Starts_example :
    IsStarted calls
      (codes "/j/")
      pending
      task
      (run_a_job [] calls (codes "/j/") world file_name).world
run_a_job-Starts_example =
    run_a_job-Starts [] calls (codes "/j/") world file_name pending task is_read (sym is_named)
      is_started

-- Nobody has a lock.
Free-none : Free 1 disk.fs
Free-none i e = cc

stray_idle : (run_a_job [] calls (codes "/j/") world (codes "/j/fast/pend/stray")).task ≡ none
unfolding run_a_job init_from_path split find str2state str_eq parse
stray_idle = refl

run_a_job-Free_example :
    Free 1 (run_a_job [] calls (codes "/j/") world (codes "/j/fast/pend/stray")).world.disk.fs
run_a_job-Free_example =
    run_a_job-Free [] calls (codes "/j/") world (codes "/j/fast/pend/stray") ((λ e. cc), tt)
      Free-none stray_idle

-- The job, while it runs.
abbrev running : JobFile
running = record {
  handle = record (handle_of 1 (record pending { state = run }) task.logfile) { lockfd = some 3 };
  header = new_header;
  parts = one_section;
  try_count = pos 1;
  uid = 7;
  gid = 8;
}

job_environ_fresh_example :
    job_environ (codes "/j/") (λ t. codes "now") (λ u. none) running (λ k. none) (codes "HOME") ≡ (
      if is_among user_names (codes "HOME") || is_among job_names (codes "HOME")
      then job_environ
          (codes "/j/")
          (λ t. codes "now")
          (λ u. none)
          running
          (λ k. some (codes "/root"))
          (codes "HOME")
      else none)
job_environ_fresh_example =
    job_environ_fresh (codes "/j/") (λ t. codes "now") (λ u. none) running (λ k. none)
      (λ k. some (codes "/root")) (codes "HOME")

abbrev end_calls : EndCalls
end_calls = record {
  now = 1700000100;
  end_time = codes "later";
  in_store = no_faults;
  in_text = no_text_faults;
  uuid = codes "7";
}

-- The disk while the job runs; its file has been lost from its name.
abbrev locked_disk : Disk
locked_disk = record disk {
  fs = record { names = λ p. none; locked = λ i. if i == 3 then some 1 else none };
}

owns : OwnsIts 1 (locked_disk.fs, running.handle)
owns = record {
  me_is = refl;
  own = λ i l. elim (Bool-cases (i == 3)) [
    | inl e ↦ ap some (ground (arith, e))
    | inr e ↦ (let k : none ≡ some 1 = sym (rw e) ∙ l in cc)
  ];
}

finish-IsFinished_example :
    IsFinished 1 locked_disk
      (load (codes "/j/") locked_disk running)
      (finish end_calls (codes "/j/") 0 0 locked_disk running)
finish-IsFinished_example = finish-IsFinished end_calls (codes "/j/") 0 0 locked_disk running owns
