-- ===== src/Queman/Starts.antt =====
-- When the queue manager starts its rounds.
use job.Config.{Config, geti}
use job.Daemon.{Replies, Process, goes_on, exits, handled, ignored, daemonise_iff}
use job.Number.{ℤ, pos, negsuc, str2int}
use job.Prelude.{
  ℕ, zero, suc, Bool, true, false, not, ◌&&◌, Option, none, some, Bytes, codes, ◌==◌, ◌≡◌, refl, ap,
  sym, ◌∙◌, Bool-cases, inl, inr,
}
use mathlib.Core.Bool.{false≢true}
use job.Queman.Startup.{
  Found, Settings, Start, started, refused, StartError, extra_args, bad_prefix, no_config,
  no_handler, no_lockfile, already_running, no_lock, not_root, LockReply, locked, would_block,
  other_error, prefix_ok, at_least_1, next_check, settings, no_args, lock_error, daemonised,
  locked_start, configured, start_up, detach,
}

-- What the rounds are started for.
pub record MayStart (m : Found) (s : Settings) : Type 0 where
  pub prefix_is : prefix_ok m.prefix ≡ true
  pub alone : m.lock ≡ locked
  pub interval : (n : ℕ) × (s.next_check ≡ suc n)
  pub may_detach : (not m.foreground && not (m.uid == 0)) ≡ false

is_started : Start → Bool
is_started (started s) = true
is_started (refused e) = false

started_injective : {s t : Settings} → started s ≡ started t → s ≡ t
started_injective e = cc

at_least_1_lem : (z : ℤ) → (n : ℕ) × (at_least_1 z ≡ suc n)
unfolding at_least_1
at_least_1_lem (negsuc n) = (0, refl)
at_least_1_lem (pos zero) = (0, refl)
at_least_1_lem (pos (suc n)) = (n, refl)

next_check_lem : (o : Option Bytes) (cfg : Config) → (n : ℕ) × (next_check o cfg ≡ suc n)
unfolding next_check
next_check_lem none cfg =
    at_least_1_lem (geti cfg (codes "job") (codes "queue-watch-secs") (pos 180))
next_check_lem (some v) cfg = at_least_1_lem (str2int v)

refused_not : (s : Settings) (e : StartError) → refused e ≡ started s → ⊥
unfolding is_started
refused_not s e h = false≢true (ap is_started h)

module _ (m : Found) (s : Settings) (prefix_is : prefix_ok m.prefix ≡ true) where
  daemonised-MayStart :
      (cfg : Config) → m.lock ≡ locked → daemonised m cfg ≡ started s → MayStart m s
  unfolding daemonised settings
  daemonised-MayStart cfg l h = elim (Bool-cases (not m.foreground && not (m.uid == 0))) [
    | inl e ↦ absurd (refused_not s not_root (sym (rw e) ∙ h))
    | inr e ↦
        (let same : settings m cfg ≡ s = started_injective (sym (rw e) ∙ h) in
          let (n, k) = next_check_lem m.poll cfg in
          record {
            prefix_is = prefix_is;
            alone = l;
            interval = (n, ap (λ (x : Settings). x.next_check) (sym same) ∙ k);
            may_detach = e;
          })
  ]

  locked-MayStart :
      (cfg : Config) (r : LockReply)
      → m.lock ≡ r
      → locked_start m cfg (lock_error r) ≡ started s
      → MayStart m s
  unfolding locked_start lock_error
  locked-MayStart cfg locked l h = daemonised-MayStart cfg l h
  locked-MayStart cfg would_block l h = absurd (refused_not s already_running h)
  locked-MayStart cfg other_error l h = absurd (refused_not s no_lock h)

  configured-MayStart : (o : Option Config) → configured m o ≡ started s → MayStart m s
  unfolding configured
  configured-MayStart none h = absurd (refused_not s no_config h)
  configured-MayStart (some cfg) h = elim (Bool-cases (not m.handlers_set)) [
    | inl e ↦ absurd (refused_not s no_handler (sym (rw e) ∙ h))
    | inr e ↦ elim (Bool-cases (not m.lockfile_opens)) [
      | inl f ↦ absurd (refused_not s no_lockfile (sym (rw (e, f)) ∙ h))
      | inr f ↦ locked-MayStart cfg m.lock refl (sym (rw (e, f)) ∙ h)
    ]
  ]

-- The queue manager starts its rounds only with a test prefix of at most seven letters and digits, with
-- the lock on the configuration file, with an interval between two checks of at least one second, and
-- as root if it is to become a daemon.
pub start_up-MayStart : (m : Found) (s : Settings) → start_up m ≡ started s → MayStart m s
unfolding start_up
start_up-MayStart m s h = elim (Bool-cases (prefix_ok m.prefix)) [
  | inl p ↦ elim (Bool-cases (no_args m.args)) [
    | inl a ↦ configured-MayStart m s p m.config (sym (rw (a, p)) ∙ h)
    | inr a ↦ absurd (refused_not s extra_args (sym (rw a) ∙ h))
  ]
  | inr p ↦ elim (Bool-cases (no_args m.args)) [
    | inl a ↦ absurd (refused_not s bad_prefix (sym (rw (a, p)) ∙ h))
    | inr a ↦ absurd (refused_not s extra_args (sym (rw a) ∙ h))
  ]
]

-- A queue manager that has become a daemon ignores `SIGHUP`, although it has set a handler for it: it
-- has been started as a daemon, by a process that is not `init`.
pub detach_deaf :
    (m : Found) (w : Replies) (p q : Process)
    → m.foreground ≡ false
    → w.parent_is_init ≡ false
    → detach m w p ≡ goes_on q
    → q.hup ≡ ignored
unfolding detach
detach_deaf m w p q f i e = elim (Bool-cases (not (m.uid == 0))) [
  | inl u ↦ absurd (exits_not (sym (rw (f, u)) ∙ e))
  | inr u ↦
      (let (_, same) = (daemonise_iff w (record p { hup = handled }) q i).0 (sym (rw (f, u)) ∙ e) in
        ap (λ (x : Process). x.hup) same)
]
  where
    exits_not : exits 1 ≡ goes_on q → ⊥
    exits_not k = cc
