-- ===== src/Mkjob/Checks.antt =====
-- Which requests `mkjob` takes.
use job.Config.{Config, get}
use job.File.{priority_ok}
use job.Mkjob.{
  Request, no_queue, bad_priority, no_command, bad_run_time, bad_try_limit, Values, Checked, good,
  quit, ◌>>=◌, unless, or_default, int_or, time_or_asap, is_given, has_args, command_of,
  not_negative, at_least_one,
}
use job.Number.{ℤ, pos, str2int}
use job.File.Object.{job_asap}
use job.Prelude.{
  ℕ, ◌≤◌, Bool, true, false, ◌||◌, List, [], ◌∷◌, Option, none, some, Bytes, codes, ◌≡◌,
}

abbrev is_good : Checked Values → Bool
is_good (good v) = true
is_good (quit q) = false

-- The checks on their results alone.
abbrev checks : Bool → Bool → Bool → Bool → Bool → Values → Checked Values
checks a b c d e x = do
  _ ← unless a no_queue
  _ ← unless b bad_priority
  _ ← unless c no_command
  _ ← unless d bad_run_time
  _ ← unless e bad_try_limit
  good x

abbrev pub IsText : Option Bytes → Bytes → Bytes → Type 0
IsText none dfl v = v ≡ dfl
IsText (some t) dfl v = v ≡ t

abbrev pub IsValue : (Bytes → ℤ) → Option Bytes → ℤ → ℤ → Type 0
IsValue read none dfl v = v ≡ dfl
IsValue read (some t) dfl v = v ≡ read t

-- Without a type the first argument is the command.
abbrev pub IsCommand : Option Bytes → List Bytes → Bytes → List Bytes → Type 0
IsCommand none [] command args = ⊥
IsCommand none (x ∷ xs) command args = (command ≡ x) × (args ≡ xs)
IsCommand (some t) xs command args = (command ≡ []) × (args ≡ xs)

-- The `--submitter`, or else the user.
abbrev pub IsSubmitter : Option Bytes → Option Bytes → Bytes → Type 0
IsSubmitter (some s) user v = v ≡ s
IsSubmitter none (some u) v = v ≡ u
IsSubmitter none none v = v ≡ []

-- The job that a request asks for. What is not given is the default: the queue the one of the
-- configuration, or `batch`; priority 5 and limit 100; and the time `job_asap`.
pub record Asks (str2tim : Bytes → ℤ) (is_queue : Bytes → Bool) (cfg : Config) (r : Request)
    (v : Values) : Type 0 where
  pub queue_is :
      IsText r.queue (get cfg (codes "job") (codes "default-queue") (codes "batch")) v.queue
  pub exists : is_queue v.queue ≡ true
  pub priority_is : IsValue str2int r.priority (pos 5) v.priority
  pub in_range : (n : ℕ) × (v.priority ≡ pos n) × (1 ≤ n) × (n ≤ 9)
  pub command_is : IsCommand r.type r.args v.command v.args
  pub submitter_is : IsSubmitter r.submitter r.user v.submitter
  pub time_is : IsValue str2tim r.at_time job_asap v.run_time
  pub not_before : (n : ℕ) × (v.run_time ≡ pos n)
  pub limit_is : IsValue str2int r.try_limit (pos 100) v.try_limit
  pub tries : (n : ℕ) × (v.try_limit ≡ pos n) × (1 ≤ n)

module _ (str2tim : Bytes → ℤ) (is_queue : Bytes → Bool) (cfg : Config) (r : Request) where
  abbrev queue_default : Bytes
  queue_default = get cfg (codes "job") (codes "default-queue") (codes "batch")

  abbrev queue_of : Bytes
  queue_of = or_default r.queue queue_default

  abbrev values_of : Values
  values_of = record {
    queue = queue_of;
    priority = int_or r.priority (pos 5);
    command = (command_of r.type r.args).0;
    args = (command_of r.type r.args).1;
    submitter = or_default r.submitter (or_default r.user []);
    run_time = time_or_asap str2tim r.at_time;
    try_limit = int_or r.try_limit (pos 100);
  }

  abbrev Conditions : Type 0
  Conditions =
      (is_queue queue_of ≡ true)
      × (priority_ok (int_or r.priority (pos 5)) ≡ true)
      × ((is_given r.type || has_args r.args) ≡ true)
      × (not_negative (time_or_asap str2tim r.at_time) ≡ true)
      × (at_least_one (int_or r.try_limit (pos 100)) ≡ true)
