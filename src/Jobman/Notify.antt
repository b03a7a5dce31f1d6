-- ===== src/Jobman/Notify.antt =====
-- `notify_user`: the terminals that a message goes to. What `getutent` finds, and what `open` answers
-- for a device, are arguments.
use job.File.{is_empty}
use job.Prelude.{
  Bool, true, false, not, ◌||◌, List, [], ◌∷◌, ◌++◌, Bytes, codes, str_eq, str_eq_iff, take, ◌==◌,
  if◌then◌else◌, ◌≡◌, ◌⊎◌, inl, inr, refl, sym, Bool-cases,
}
use mathlib.Core.Bool.{false≢true}

-- An entry of the utmp file; `ut_line` is up to 32 bytes and need not have a NUL at its end.
pub record Utmp : Type 0 where
  pub ut_user : Bytes
  pub is_user_process : Bool
  pub ut_line : Bytes

pub data OpenReply : Type 0 where
  opens busy fails : OpenReply

-- `snprintf` into `dev`, with `5+UT_LINESIZE` as its limit, of which one byte is the NUL.
unfoldable pub device : Bytes → Bytes
device ut_line = take 36 (codes "/dev/" ++ ut_line)

unfoldable pub is_display : Bytes → Bool
is_display [] = false
is_display (c ∷ cs) = c == b':'

-- Whether the loop goes on to the next entry at once.
unfoldable pub is_skipped : Bytes → Utmp → Bool
unfolding is_empty is_display
is_skipped user up =
    is_empty up.ut_user
    || (not up.is_user_process || (is_display up.ut_line || not (str_eq user up.ut_user)))

-- The devices that are written to, and those that a warning is logged for.
pub record Notified : Type 0 where
  pub told : List Bytes
  pub warned : List Bytes

unfoldable pub notify_device : OpenReply → Bytes → Notified → Notified
notify_device opens dev rest = record rest { told = dev ∷ rest.told }
notify_device busy dev rest = rest
notify_device fails dev rest = record rest { warned = dev ∷ rest.warned }

unfoldable pub notify_user : (Bytes → OpenReply) → Bytes → List Utmp → Notified
unfolding is_skipped device notify_device
notify_user open_tty user [] = record { told = []; warned = [] }
notify_user open_tty user (up ∷ ups) =
    let rest = notify_user open_tty user ups in
    let next = notify_device (open_tty (device up.ut_line)) (device up.ut_line) rest in
    if is_skipped user up then rest else next

-- A login session of the user on that device.
abbrev pub HasSession : Bytes → Bytes → List Utmp → Type 0
HasSession user dev [] = ⊥
HasSession user dev (up ∷ ups) =
    ((up.ut_user ≡ user) × (up.is_user_process ≡ true) × (device up.ut_line ≡ dev))
    ⊎ HasSession user dev ups

abbrev pub AllSessions : Bytes → List Utmp → List Bytes → Type 0
AllSessions user ups [] = Unit
AllSessions user ups (dev ∷ devs) = HasSession user dev ups × AllSessions user ups devs

AllSessions-more :
    (user : Bytes) (up : Utmp) (ups : List Utmp) (devs : List Bytes)
    → AllSessions user ups devs
    → AllSessions user (up ∷ ups) devs
AllSessions-more user up ups [] h = tt
AllSessions-more user up ups (d ∷ ds) (a, h) = (inr a, AllSessions-more user up ups ds h)

or_false : (a b : Bool) → (a || b) ≡ false → (a ≡ false) × (b ≡ false)
or_false true b h = absurd (false≢true (sym h))
or_false false b h = (refl, h)

not-false : (b : Bool) → not b ≡ false → b ≡ true
not-false true h = refl
not-false false h = absurd (false≢true (sym h))

is_skipped_lem :
    (user : Bytes) (up : Utmp)
    → is_skipped user up ≡ false
    → (up.ut_user ≡ user) × (up.is_user_process ≡ true)
unfolding is_skipped
is_skipped_lem user up h =
    let (_, a) = or_false _ _ h in
    let (b, c) = or_false _ _ a in
    let (_, d) = or_false _ _ c in
    (sym ((str_eq_iff user up.ut_user).0 (not-false _ d)), not-false _ b)

notify_device-AllSessions :
    (user : Bytes) (up : Utmp) (ups : List Utmp) (o : OpenReply) (rest : Notified)
    → HasSession user (device up.ut_line) (up ∷ ups)
    → AllSessions user (up ∷ ups) rest.told
    → AllSessions user (up ∷ ups) (notify_device o (device up.ut_line) rest).told
unfolding notify_device
notify_device-AllSessions user up ups opens rest h r = (h, r)
notify_device-AllSessions user up ups busy rest h r = r
notify_device-AllSessions user up ups fails rest h r = r

-- Every device that a message is written to is the terminal of a login session of the job's submitter.
pub notify_user-AllSessions :
    (open_tty : Bytes → OpenReply) (user : Bytes) (ups : List Utmp)
    → AllSessions user ups (notify_user open_tty user ups).told
unfolding notify_user
notify_user-AllSessions open_tty user [] = tt
notify_user-AllSessions open_tty user (up ∷ ups) =
    let rest =
      AllSessions-more user up ups (notify_user open_tty user ups).told
        (notify_user-AllSessions open_tty user ups) in
    elim (Bool-cases (is_skipped user up)) [
      | inl s ↦ rw s rest
      | inr s ↦
          (let (u, t) = is_skipped_lem user up s in
            rw s (
              notify_device-AllSessions user up ups (open_tty (device up.ut_line))
                (notify_user open_tty user ups) (inl (u, t, refl)) rest))
    ]
