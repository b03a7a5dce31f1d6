-- ===== src/Jobman/Startup.antt =====
-- src/jobman.cxx: `main` up to the work loop, and the signal handler.
use job.Config.{Config, geti}
use job.Number.{ℤ, pos, str2int}
use job.Prelude.{
  ℕ, Bool, true, false, not, List, [], ◌∷◌, ◌++◌, Option, none, some, Bytes, codes, ◌==◌,
  if◌then◌else◌,
}
use job.Queman.Startup.{prefix_ok, full_prefix, at_least_1}

-- `signal_handler`: the flags `check_soon` and `run_jobs` after a signal.
unfoldable pub signal_handler : ℕ → Bool × Bool → Bool × Bool
signal_handler sig (check_soon, running) =
    if sig == 1
    then (true, running)
    else if sig == 15
    then (check_soon, false)
    else (check_soon, running)

-- The number of the option, or that of the queue's configuration, or of the overall one, or `dfl`.
unfoldable pub limit_of : Option Bytes → Config → Config → Bytes → ℤ → ℤ
unfolding geti
limit_of none quecfg jobcfg tag dfl =
    geti quecfg (codes "queue") tag (geti jobcfg (codes "job") tag dfl)
limit_of (some v) quecfg jobcfg tag dfl = str2int v

pub data StartError : Type 0 where
  not_one_queue bad_prefix no_config no_handler no_queue_config : StartError

-- What `main` finds; a configuration is there if it can be loaded.
pub record Found : Type 0 where
  pub args : List Bytes
  pub prefix : Bytes
  pub max_run : Option Bytes
  pub poll : Option Bytes
  pub jobcfg : Option Config
  pub handlers_set : Bool
  pub quecfg : Bytes → Option Config

-- What the work loop is started with, and the process name.
pub record Settings : Type 0 where
  pub qname : Bytes
  pub maxjobs : ℤ
  pub next_poll : ℕ
  pub process_name : Bytes

pub data Start : Type 0 where
  started : Settings → Start
  refused : StartError → Start

unfoldable pub settings : Found → Bytes → Config → Config → Settings
unfolding limit_of full_prefix at_least_1
settings m qname jobcfg quecfg = record {
  qname = qname;
  maxjobs = limit_of m.max_run quecfg jobcfg (codes "run-limit") (pos 10);
  next_poll = at_least_1 (limit_of m.poll quecfg jobcfg (codes "poll-secs") (pos 60));
  process_name = full_prefix m.prefix ++ (codes "jobman " ++ qname);
}

unfoldable pub with_queue : Found → Bytes → Config → Option Config → Start
unfolding settings
with_queue m qname jobcfg none = refused no_queue_config
with_queue m qname jobcfg (some quecfg) = started (settings m qname jobcfg quecfg)

-- `qcfdir` is `path.qcfdir`.
unfoldable pub with_config : Found → Bytes → Bytes → Option Config → Start
unfolding with_queue
with_config m qcfdir qname none = refused no_config
with_config m qcfdir qname (some jobcfg) =
    if not m.handlers_set
    then refused no_handler
    else with_queue m qname jobcfg (m.quecfg (qcfdir ++ (qname ++ codes ".conf")))

unfoldable pub start_queue : Found → Bytes → List Bytes → Start
unfolding with_config prefix_ok
start_queue m qcfdir (qname ∷ []) =
    if not (prefix_ok m.prefix) then refused bad_prefix else with_config m qcfdir qname m.jobcfg
start_queue m qcfdir _ = refused not_one_queue

unfoldable pub start_up : Found → Bytes → Start
unfolding start_queue
start_up m qcfdir = start_queue m qcfdir m.args
