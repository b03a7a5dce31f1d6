-- ===== src/Daemon.antt =====
-- src/job/daemon.cxx: how a process becomes a daemon, and changes its group and user. What the system
-- calls answer is an argument.
use job.Prelude.{
  ℕ, Bool, true, false, [], ◌∷◌, Option, none, some, Bytes, if◌then◌else◌, ◌≡◌, ◌↔◌, inl, inr, refl,
  ap, sym, ◌∙◌, Bool-cases,
}

-- What a process does on a signal.
pub data Disposition : Type 0 where
  default ignored handled : Disposition

-- What `daemonise` changes of a process; the file descriptors are left out.
pub record Process : Type 0 where
  pub hup : Disposition
  pub umask : ℕ
  pub leads_session : Bool

-- What `fork` answers, seen from one process.
pub data Fork : Type 0 where
  failed parent child : Fork

pub record Replies : Type 0 where
  pub parent_is_init : Bool
  pub first : Fork
  pub setsid_fails : Bool
  pub second : Fork
  pub child_lives : Bool
  pub null_opens : Bool

pub data DaemonError : Type 0 where
  no_fork no_session no_stdin : DaemonError

-- The process goes on, exits with a status, or dies.
pub data Daemonised : Type 0 where
  goes_on : Process → Daemonised
  exits : ℕ → Daemonised
  dies : DaemonError → Daemonised

-- Behind the second `fork`.
unfoldable pub second_fork : Fork → Replies → Process → Daemonised
second_fork failed w p = dies no_fork
second_fork parent w p = exits (if w.child_lives then 0 else 1)
second_fork child w p =
    if w.null_opens then goes_on (record p { umask = 0; leads_session = false }) else dies no_stdin

-- Behind the first `fork`.
unfoldable pub first_fork : Fork → Replies → Process → Daemonised
unfolding second_fork
first_fork failed w p = dies no_fork
first_fork parent w p = exits 0
first_fork child w p =
    if w.setsid_fails
    then dies no_session
    else second_fork w.second w (record p { hup = ignored; leads_session = true })

unfoldable pub daemonise : Replies → Process → Daemonised
unfolding first_fork
daemonise w p = if w.parent_is_init then goes_on p else first_fork w.first w p

pub data Changed : Type 0 where
  unchanged cannot_switch : Changed
  changed : ℕ → Changed

change_to : (ℕ → Bool) → Option ℕ → Changed
change_to set_fails none = cannot_switch
change_to set_fails (some id) = if set_fails id then cannot_switch else changed id

-- `change_gid` and `change_uid`: `find` is `getgrnam` or `getpwnam`, and `set_fails` tells whether
-- `setgid` or `setuid` fails.
unfoldable pub change_gid : (Bytes → Option ℕ) → (ℕ → Bool) → Bytes → Changed
unfolding change_to
change_gid find set_fails [] = unchanged
change_gid find set_fails (c ∷ cs) = change_to set_fails (find (c ∷ cs))

unfoldable pub change_uid : (Bytes → Option ℕ) → (ℕ → Bool) → Bytes → Changed
unfolding change_to
change_uid find set_fails [] = unchanged
change_uid find set_fails (c ∷ cs) = change_to set_fails (find (c ∷ cs))

-- The replies with which the grandchild survives, and what it has become.
abbrev pub Survives : Replies → Type 0
Survives w =
    (w.first ≡ child) × (w.setsid_fails ≡ false) × (w.second ≡ child) × (w.null_opens ≡ true)

abbrev pub daemon_of : Process → Process
daemon_of p = record p { hup = ignored; umask = 0; leads_session = false }

goes_on_injective : {p q : Process} → goes_on p ≡ goes_on q → p ≡ q
goes_on_injective e = cc

second_fork_lem :
    (f : Fork) (w : Replies) (p q : Process)
    → w.second ≡ f
    → second_fork f w p ≡ goes_on q
    → (w.second ≡ child)
      × (w.null_opens ≡ true)
      × (q ≡ record p { umask = 0; leads_session = false })
unfolding second_fork
second_fork_lem failed w p q s e = cc
second_fork_lem parent w p q s e = cc
second_fork_lem child w p q s e = elim (Bool-cases w.null_opens) [
  | inl n ↦ (s, n, sym (goes_on_injective (sym (rw n) ∙ e)))
  | inr n ↦ absurd (dies_not (sym (rw n) ∙ e))
]
  where
    dies_not : dies no_stdin ≡ goes_on q → ⊥
    dies_not k = cc

first_fork_lem :
    (f : Fork) (w : Replies) (p q : Process)
    → w.first ≡ f
    → first_fork f w p ≡ goes_on q
    → Survives w × (q ≡ daemon_of p)
unfolding first_fork
first_fork_lem failed w p q s e = cc
first_fork_lem parent w p q s e = cc
first_fork_lem child w p q s e = elim (Bool-cases w.setsid_fails) [
  | inl n ↦ absurd (dies_not (sym (rw n) ∙ e))
  | inr n ↦
      (let (g, o, same) =
          second_fork_lem w.second w (record p { hup = ignored; leads_session = true }) q refl
            (sym (rw n) ∙ e) in
        ((s, n, g, o), same))
]
  where
    dies_not : dies no_session ≡ goes_on q → ⊥
    dies_not k = cc

-- A process that is no daemon yet returns from `daemonise` exactly if it is the grandchild and the
-- calls of its line succeed; it ignores `SIGHUP` then, whatever it did before, has an empty file
-- creation mask, and leads no session.
pub daemonise_iff :
    (w : Replies) (p q : Process)
    → w.parent_is_init ≡ false
    → (daemonise w p ≡ goes_on q) ↔ (Survives w × (q ≡ daemon_of p))
unfolding daemonise first_fork second_fork
daemonise_iff w p q i = (
  λ e. first_fork_lem w.first w p q refl (sym (rw i) ∙ e),
  λ h. rw (i, h.0.0, h.0.1, h.0.2, h.0.3) (ap goes_on (sym h.1)),
)
