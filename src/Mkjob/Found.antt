-- ===== src/Mkjob/Found.antt =====
-- `mkjob` finds the job manager of its queue by the process name that the manager takes.
use job.File.{scan_int}
use job.Jobman.Startup.{
  Found, Settings, Start, started, refused, StartError, not_one_queue, bad_prefix, no_config,
  no_handler, no_queue_config, settings, with_queue, with_config, start_queue, start_up,
}
use job.Launch.Name.{set_process_name}
use job.Mkjob.Cmdline.{AllOthers, find_jobman_skip, has_cmdline_named}
use job.Mkjob.Signal.{Process, pid_number, has_cmdline, find_jobman}
use job.Multipart.Scanning.{AllPlain}
use job.Number.{ℤ}
use job.Config.{Config}
use job.Prelude.{
  ℕ, ◌+◌, ◌<◌, ◌≤◌, Bool, true, false, not, subst, List, [], ◌∷◌, ◌++◌, Option, none, some, Bytes,
  codes, length, ◌≡◌, ap, sym, ◌∙◌, arith, Bool-cases, inl, inr,
}
use job.Queman.Startup.{full_prefix, prefix_ok}
use mathlib.Core.Bool.{false≢true}

started_injective : {s t : Settings} → started s ≡ started t → s ≡ t
started_injective e = cc

is_started : Start → Bool
is_started (started s) = true
is_started (refused e) = false

refused_not : (s : Settings) (e : StartError) → refused e ≡ started s → ⊥
unfolding is_started
refused_not s e h = false≢true (ap is_started h)

-- The process name of a job manager that has been started.
abbrev Names : Found → Settings → Type 0
Names m s = s.process_name ≡ full_prefix m.prefix ++ (codes "jobman " ++ s.qname)

with_queue-Names :
    (m : Found) (s : Settings) (q : Bytes) (c : Config) (o : Option Config)
    → with_queue m q c o ≡ started s
    → Names m s
unfolding with_queue settings
with_queue-Names m s q c none h = absurd (refused_not s no_queue_config h)
with_queue-Names m s q c (some d) h =
    let same : settings m q c d ≡ s = started_injective h in
    ap (λ (x : Settings). x.process_name) (sym same)
    ∙ ap (λ (x : Settings). full_prefix m.prefix ++ (codes "jobman " ++ x.qname)) same

with_config-Names :
    (m : Found) (s : Settings) (dir q : Bytes) (o : Option Config)
    → with_config m dir q o ≡ started s
    → Names m s
unfolding with_config
with_config-Names m s dir q none h = absurd (refused_not s no_config h)
with_config-Names m s dir q (some c) h = elim (Bool-cases (not m.handlers_set)) [
  | inl e ↦ absurd (refused_not s no_handler (sym (rw e) ∙ h))
  | inr e ↦ with_queue-Names m s q c (m.quecfg (dir ++ (q ++ codes ".conf"))) (sym (rw e) ∙ h)
]

start_queue-Names :
    (m : Found) (s : Settings) (dir : Bytes) (args : List Bytes)
    → start_queue m dir args ≡ started s
    → Names m s
unfolding start_queue
start_queue-Names m s dir [] h = absurd (refused_not s not_one_queue h)
start_queue-Names m s dir (q ∷ (r ∷ rest)) h = absurd (refused_not s not_one_queue h)
start_queue-Names m s dir (q ∷ []) h = elim (Bool-cases (not (prefix_ok m.prefix))) [
  | inl e ↦ absurd (refused_not s bad_prefix (sym (rw e) ∙ h))
  | inr e ↦ with_config-Names m s dir q m.jobcfg (sym (rw e) ∙ h)
]

named_found :
    (prefix q : Bytes) (size : ℕ) (text : Bytes)
    → text ≡ prefix ++ (codes "jobman " ++ q)
    → AllPlain text
    → length text < 4094
    → length text + 2 ≤ size
    → has_cmdline (prefix ++ (codes "jobman " ++ q)) (some (set_process_name size text)) ≡ true
named_found [] q size text e p short fits =
    ap (λ x. has_cmdline (codes "jobman " ++ q) (some (set_process_name size x))) e
    ∙ has_cmdline_named size b'j' (codes "obman " ++ q) (subst AllPlain e p)
        (omega (arith, ap length e, short)) (omega (arith, ap length e, fits))
named_found (c ∷ cs) q size text e p short fits =
    ap (λ x. has_cmdline ((c ∷ cs) ++ (codes "jobman " ++ q)) (some (set_process_name size x))) e
    ∙ has_cmdline_named size c (cs ++ (codes "jobman " ++ q)) (subst AllPlain e p)
        (omega (arith, ap length e, short)) (omega (arith, ap length e, fits))

-- `mkjob` with the same test prefix finds the job manager that was started for its queue: it gets the
-- number of the process whose command line is the name that the manager took. The name has no end of
-- line or NUL, is shorter than the buffer and fits the space for it; the directory's name is a number;
-- and no process before it in the list has that command line.
pub find_jobman-start_up :
    (m : Found) (s : Settings) (qcfdir : Bytes) (size : ℕ) (before after : List Process)
    (d_name : Bytes) (pid : ℤ)
    → start_up m qcfdir ≡ started s
    → AllPlain s.process_name
    → length s.process_name < 4094
    → length s.process_name + 2 ≤ size
    → AllOthers (full_prefix m.prefix ++ (codes "jobman " ++ s.qname)) before
    → pid_number (scan_int d_name) ≡ some pid
    → find_jobman (full_prefix m.prefix) s.qname (
        before
        ++ record { d_name = d_name; cmdline = some (set_process_name size s.process_name) }
          ∷ after)
      ≡ pid
unfolding start_up
find_jobman-start_up m s qcfdir size before after d_name pid h plain short fits others e =
    find_jobman_skip (full_prefix m.prefix) s.qname before
      (record { d_name = d_name; cmdline = some (set_process_name size s.process_name) }) after pid
      others e
      (named_found (full_prefix m.prefix) s.qname size s.process_name
        (start_queue-Names m s qcfdir m.args h) plain short fits)
