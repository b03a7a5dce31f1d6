-- ===== src/Launch/Wait.antt =====
-- `launch::wait`, on the states that the object has after one reaping after the other.
use job.Launch.{State, run, done, LaunchError, err_ok, err_timeout, err_abort, is_run}
use job.Number.{ℤ, pos, negsuc}
use job.Prelude.{
  ℕ, suc, ◌+◌, ◌≤◌, Bool, true, false, ◌&&◌, List, [], ◌∷◌, Option, none, some, ltb, if◌then◌else◌,
  length, ◌≡◌, arith, Bool-cases, inl, inr,
}

-- `(secs < duration) || (duration < 0)`
unfoldable pub goes_on : ℤ → ℕ → Bool
goes_on (pos d) secs = ltb secs d
goes_on (negsuc d) secs = true

unfoldable pub wait_error : State → LaunchError
wait_error done = err_ok
wait_error run = err_timeout
wait_error _ = err_abort

-- The loop after `secs` seconds, in the state `st`; each round sleeps for a second and takes the state
-- after the next reaping. `none`: still waiting when the states are used up.
unfoldable pub wait_loop : ℤ → ℕ → State → List State → Option (ℕ × LaunchError)
unfolding goes_on wait_error
wait_loop duration secs st [] =
    if goes_on duration secs && is_run st then none else some (secs, wait_error st)
wait_loop duration secs st (next ∷ later) =
    let rest = wait_loop duration (suc secs) next later in
    if goes_on duration secs && is_run st then rest else some (secs, wait_error st)

-- `wait`, with the seconds that it has taken; the state is the one after the first reaping.
unfoldable pub wait : ℤ → State → List State → Option (ℕ × LaunchError)
unfolding wait_loop
wait duration st later = wait_loop duration 0 st later

-- With a duration of `d` seconds, it returns within that time: with a time-out only after all of it.
abbrev pub InTime : ℕ → Option (ℕ × LaunchError) → Type 0
InTime d none = ⊥
InTime d (some (secs, e)) = (secs ≤ d) × (e ≡ err_timeout → secs ≡ d)

stopped_InTime :
    (d secs : ℕ) (st : State)
    → secs ≤ d
    → (ltb secs d && is_run st) ≡ false
    → InTime d (some (secs, wait_error st))
unfolding wait_error is_run
stopped_InTime d secs State.new h k = (h, λ e. cc)
stopped_InTime d secs run h k = (h, λ e. ground arith)
stopped_InTime d secs done h k = (h, λ e. cc)
stopped_InTime d secs State.fail h k = (h, λ e. cc)

wait_loop-InTime :
    (d secs : ℕ) (st : State) (later : List State)
    → secs ≤ d
    → d ≤ secs + length later
    → InTime d (wait_loop (pos d) secs st later)
unfolding wait_loop goes_on
wait_loop-InTime d secs st [] h k =
    let over : (ltb secs d && is_run st) ≡ false = ground arith in
    rw over (stopped_InTime d secs st h over)
wait_loop-InTime d secs st (next ∷ later) h k = elim (Bool-cases (ltb secs d && is_run st)) [
  | inl e ↦ rw e (wait_loop-InTime d (suc secs) next later (ground arith) (omega arith))
  | inr e ↦ rw e (stopped_InTime d secs st h e)
]

-- If the object has a state for each second, `wait` with a duration returns, after that duration at
-- most, and with a time-out only after all of it.
pub wait-InTime :
    (d : ℕ) (st : State) (later : List State) → d ≤ length later → InTime d (wait (pos d) st later)
unfolding wait
wait-InTime d st later h = wait_loop-InTime d 0 st later (omega arith) (omega arith)
