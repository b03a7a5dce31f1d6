-- ===== src/Tests/Requests.antt =====
-- The command lines of src/mkjob.cxx, src/queman.cxx and src/jobman.cxx at concrete inputs.
use job.Config.{Config}
use job.Daemon.{Process, Replies, child, goes_on, default, ignored}
use job.File.{scan_int, parse, base_name, NameAttrs, Result, bad_format}
use job.Jobman.Startup as Worker
use job.File.Object.{job_asap}
use job.Multipart.Section.{find_tag, same_key}
use job.Mkjob.Cmdline.{AllOthers}
use job.Mkjob.Found.{find_jobman-start_up}
use job.Mkjob.Signal.{find_jobman, pid_number, has_cmdline, first_is}
use job.Mkjob.Signal as Signals
use job.Mkjob.{Request, Values, good, check}
use job.Number.{pos, negsuc, str2int, read_sign, read_digits, signed, padded, siz2str, print_int}
use job.Text.Trim.{ltrim}
use job.Launch.Name.{set_process_name}
use job.Prelude.{
  to_lower, true, false, [], ◌∷◌, ◌++◌, str_eq, is_space, is_digit, none, some, codes, ◌≡◌, refl,
  arith,
}
use job.Queman.Startup.{full_prefix, prefix_ok}
use job.Queman.Startup as Watcher
use job.Queman.Starts.{detach_deaf}
use job.Tests.Deciders.{all_plain-AllPlain}

abbrev request : Request
request = record {
  at_time = none;
  group = some (codes "east,west");
  notify = false;
  priority = some (codes "3");
  queue = none;
  try_limit = none;
  submitter = none;
  type = none;
  args = codes "make" ∷ (codes "all" ∷ []);
  user = some (codes "ann");
  uid = 7;
  gid = 8;
}

abbrev config : Config
config = (codes "job", (codes "default-queue", codes "fast") ∷ []) ∷ []

abbrev asked : Values
asked = record {
  queue = codes "fast";
  priority = pos 3;
  command = codes "make";
  args = codes "all" ∷ [];
  submitter = codes "ann";
  run_time = job_asap;
  try_limit = pos 100;
}

is_asked : check (λ s. negsuc 0) (λ q. true) config request ≡ good asked
unfolding check str2int is_space is_digit same_key to_lower find_tag
is_asked = refl

abbrev manager : Watcher.Found
manager = record {
  args = [];
  prefix = [];
  poll = none;
  config = some config;
  handlers_set = true;
  lockfile_opens = true;
  lock = Watcher.locked;
  foreground = false;
  uid = 0;
  av0 = codes "queman";
  av = [];
}

abbrev survived : Replies
survived = record {
  parent_is_init = false;
  first = child;
  setsid_fails = false;
  second = child;
  child_lives = true;
  null_opens = true;
}

abbrev shell : Process
shell = record { hup = default; umask = 18; leads_session = false }

abbrev grandchild : Process
grandchild = record { hup = ignored; umask = 0; leads_session = false }

detached : Watcher.detach manager survived shell ≡ goes_on grandchild
unfolding Watcher.detach
detached = refl

detach_deaf_example : grandchild.hup ≡ ignored
detach_deaf_example = detach_deaf manager survived shell grandchild refl refl detached

abbrev fast_manager : Worker.Found
fast_manager = record {
  args = codes "fast" ∷ [];
  prefix = [];
  max_run = some (codes "4");
  poll = some (codes "30");
  jobcfg = some config;
  handlers_set = true;
  quecfg = λ p. some [];
}

abbrev fast_settings : Worker.Settings
fast_settings = record {
  qname = codes "fast";
  maxjobs = pos 4;
  next_poll = 30;
  process_name = codes "jobman fast";
}

fast_started : Worker.start_up fast_manager (codes "/etc/") ≡ Worker.started fast_settings
unfolding Worker.start_up str2int is_space is_digit
fast_started = refl

abbrev init_process : Signals.Process
init_process = record { d_name = codes "1"; cmdline = some (codes "init") }

other : AllOthers (full_prefix [] ++ (codes "jobman " ++ codes "fast")) (init_process ∷ [])
unfolding has_cmdline str_eq full_prefix
other = (refl, tt)

pid_77 : pid_number (scan_int (codes "77")) ≡ some (pos 77)
unfolding pid_number scan_int read_sign ltrim is_space is_digit read_digits signed
pid_77 = refl

find_jobman-start_up_example :
    find_jobman (full_prefix []) (codes "fast") (
      (init_process ∷ [])
      ++ record { d_name = codes "77"; cmdline = some (set_process_name 64 (codes "jobman fast")) }
        ∷ [])
    ≡ pos 77
find_jobman-start_up_example =
    find_jobman-start_up fast_manager fast_settings (codes "/etc/") 64 (init_process ∷ []) []
      (codes "77") (pos 77) fast_started (all_plain-AllPlain (codes "jobman fast") refl)
      (omega arith) (omega arith) other pid_77

-- A job without a submitter gets a name that is no job's.
abbrev nameless : NameAttrs
nameless = record { run_time = pos 1700000000; priority = pos 5; id = 17; submitter = [] }

parse-nameless : parse (base_name nameless) ≡ Result.err bad_format
unfolding parse base_name read_sign ltrim padded siz2str is_space is_digit read_digits print_int
parse-nameless = refl
