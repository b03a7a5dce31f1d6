-- ===== src/Mkjob.antt =====
-- src/mkjob.cxx: `main` from the parsed command line to the job that it asks for.
pub mod Submit
pub mod Signal
pub mod Cmdline
pub mod Found
pub mod Checks
pub mod Storing
pub mod Pending
pub mod Arrival
pub mod Submitted
use job.Config.{Config, get, geti}
use job.File.Header.{Header}
use job.File.Moves.{Faults, Fs, Handle, Error, remove, repath, is_ok}
use job.File.Object.Disks.{Disk, StoreFaults, StoreError, stored, store}
use job.File.Object.{JobFile, FileError, Made, made, unmade, new_file, job_asap, tie_to}
use job.File.{State, hold, pend, PathAttrs, priority_ok, scan_int, is_empty}
use job.Multipart.Load.{fgets_lines, c_str}
use job.Number.{ℤ, pos, negsuc, str2int}
use job.Prelude.{
  ℕ, Bool, true, false, not, ◌&&◌, ◌||◌, List, [], ◌∷◌, ◌++◌, Option, none, some, Bytes, codes, ltb,
  ◌==◌, if◌then◌else◌, str_eq,
}
use job.Text.Split.{split}

-- The options and arguments, with the environment's `USER` and the caller's user and group. The log
-- level is left out, and the root, which makes `jobdir`.
pub record Request : Type 0 where
  pub at_time : Option Bytes
  pub group : Option Bytes
  pub notify : Bool
  pub priority : Option Bytes
  pub queue : Option Bytes
  pub try_limit : Option Bytes
  pub submitter : Option Bytes
  pub type : Option Bytes
  pub args : List Bytes
  pub user : Option Bytes
  pub uid : ℕ
  pub gid : ℕ

pub data Refusal : Type 0 where
  no_queue bad_priority no_command bad_run_time bad_try_limit : Refusal
  no_file : FileError → Refusal

pub data Checked {ℓ} (A : Type ℓ) : Type ℓ where
  good : A → Checked A
  quit : Refusal → Checked A

infixl 5 ◌>>=◌
abbrev pub ◌>>=◌ {ℓ κ} : {A : Type ℓ} {B : Type κ} → Checked A → (A → Checked B) → Checked B
good a >>= f = f a
quit r >>= f = quit r

unfoldable pub unless : Bool → Refusal → Checked (Unit {0})
unless true r = good tt
unless false r = quit r

unfoldable pub or_default : Option Bytes → Bytes → Bytes
or_default none dfl = dfl
or_default (some v) dfl = v

unfoldable pub int_or : Option Bytes → ℤ → ℤ
int_or none dfl = dfl
int_or (some v) dfl = str2int v

unfoldable pub time_or_asap : (Bytes → ℤ) → Option Bytes → ℤ
time_or_asap str2tim none = job_asap
time_or_asap str2tim (some t) = str2tim t

unfoldable pub is_given : Option Bytes → Bool
is_given none = false
is_given (some v) = true

unfoldable pub has_args : List Bytes → Bool
has_args [] = false
has_args (x ∷ xs) = true

-- `command` and the remaining arguments: without a type, the first argument is the command.
unfoldable pub command_of : Option Bytes → List Bytes → Bytes × List Bytes
command_of none [] = ([], [])
command_of none (x ∷ xs) = (x, xs)
command_of (some t) xs = ([], xs)

unfoldable pub not_negative : ℤ → Bool
not_negative (pos n) = true
not_negative (negsuc n) = false

unfoldable pub at_least_one : ℤ → Bool
at_least_one (pos n) = ltb 0 n
at_least_one (negsuc n) = false

-- The values that the job is made of.
pub record Values : Type 0 where
  pub queue : Bytes
  pub priority : ℤ
  pub command : Bytes
  pub args : List Bytes
  pub submitter : Bytes
  pub run_time : ℤ
  pub try_limit : ℤ

-- The checks, in their order. `is_queue` is `queue::exists`.
unfoldable pub check : (Bytes → ℤ) → (Bytes → Bool) → Config → Request → Checked Values
unfolding unless or_default int_or time_or_asap is_given has_args command_of not_negative
    at_least_one priority_ok get
check str2tim is_queue cfg r = do
  let qnam = or_default r.queue (get cfg (codes "job") (codes "default-queue") (codes "batch"))
  _ ← unless (is_queue qnam) no_queue
  let prio = int_or r.priority (pos 5)
  _ ← unless (priority_ok prio) bad_priority
  _ ← unless (is_given r.type || has_args r.args) no_command
  let command = command_of r.type r.args
  let submitter = or_default r.submitter (or_default r.user [])
  let rtime = time_or_asap str2tim r.at_time
  _ ← unless (not_negative rtime) bad_run_time
  let try_limit = int_or r.try_limit (pos 100)
  _ ← unless (at_least_one try_limit) bad_try_limit
  good (record {
    queue = qnam;
    priority = prio;
    command = command.0;
    args = command.1;
    submitter = submitter;
    run_time = rtime;
    try_limit = try_limit;
  })
