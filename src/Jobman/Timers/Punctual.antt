-- ===== src/Jobman/Timers/Punctual.antt =====
-- Each chore is done at least once in its interval, whenever the rounds of the loop take place.
use job.Jobman.Timers.{
  Chore, reap_zombies, bring_out, terminate, clean, group, solicit, Timers, start_timers, sooner,
  wake, rearm, due, interval, work_round, will_work_for_food,
}
use job.Prelude.{
  ℕ, ◌+◌, ◌==◌, ◌≤◌, Bool, true, false, ◌&&◌, ◌||◌, List, [], ◌∷◌, ◌++◌, leb, if◌then◌else◌, ◌≡◌,
  refl, sym, ◌∙◌, arith, Bool-cases, inl, inr,
}

abbrev pub when_of : Chore → Timers → ℕ
when_of reap_zombies t = t.when_reap
when_of bring_out t = t.when_dead
when_of terminate t = t.when_kill
when_of clean t = t.when_clean
when_of group t = t.when_group
when_of solicit t = t.when_poll

abbrev index : Chore → ℕ
index reap_zombies = 0
index bring_out = 1
index terminate = 2
index clean = 3
index group = 4
index solicit = 5

abbrev pub same_chore : Chore → Chore → Bool
same_chore c d = index c == index d

unfoldable pub does : Chore → List Chore → Bool
does c [] = false
does c (d ∷ ds) = same_chore c d || does c ds

does-append : (c : Chore) (a b : List Chore) → does c (a ++ b) ≡ (does c a || does c b)
unfolding does
does-append c [] b = refl
does-append c (d ∷ a) b = ground (arith, does-append c a b)

does-due : (c d : Chore) (now when : ℕ) → does c (due now when d) ≡ (leb when now && same_chore c d)
unfolding does due
does-due c d now when = ground arith

-- Whether the chore is done in a round.
does-work_round :
    (next_poll now : ℕ) (t : Timers) (c : Chore)
    → does c (work_round next_poll now t).1 ≡ leb (when_of c (wake now t)) now
unfolding work_round
does-work_round np now t reap_zombies = simp (does-append, does-due) (ground arith)
does-work_round np now t bring_out = simp (does-append, does-due) (ground arith)
does-work_round np now t terminate = simp (does-append, does-due) (ground arith)
does-work_round np now t clean = simp (does-append, does-due) (ground arith)
does-work_round np now t group = simp (does-append, does-due) (ground arith)
does-work_round np now t solicit = simp (does-append, does-due) (ground arith)

wake_le :
    (now : ℕ) (t : Timers) (c : Chore)
    → leb (when_of c (wake now t)) now ≡ false
    → when_of c (wake now t) ≤ when_of c t
unfolding wake sooner
wake_le now t reap_zombies h = ground arith
wake_le now t bring_out h = ground arith
wake_le now t terminate h = ground arith
wake_le now t clean h = ground arith
wake_le now t group h = ground arith
wake_le now t solicit h = ground arith

wake_due :
    (now : ℕ) (t : Timers) (c : Chore) → when_of c t ≤ now → leb (when_of c (wake now t)) now ≡ true
unfolding wake sooner
wake_due now t reap_zombies h = ground arith
wake_due now t bring_out h = ground arith
wake_due now t terminate h = ground arith
wake_due now t clean h = ground arith
wake_due now t group h = ground arith
wake_due now t solicit h = ground arith

when-work_round :
    (np now : ℕ) (t : Timers) (c : Chore)
    → when_of c (work_round np now t).0 ≡ rearm now (interval np c) (when_of c (wake now t))
unfolding work_round
when-work_round np now t reap_zombies = refl
when-work_round np now t bring_out = refl
when-work_round np now t terminate = refl
when-work_round np now t clean = refl
when-work_round np now t group = refl
when-work_round np now t solicit = refl

-- A round leaves a chore that it does not do no later than it was, and does one that is due.
round_due :
    (np now : ℕ) (t : Timers) (c : Chore)
    → when_of c t ≤ now
    → does c (work_round np now t).1 ≡ true
round_due np now t c h = does-work_round np now t c ∙ wake_due now t c h

round_le :
    (np now : ℕ) (t : Timers) (c : Chore)
    → does c (work_round np now t).1 ≡ false
    → when_of c (work_round np now t).0 ≤ when_of c t
unfolding rearm
round_le np now t c h =
    let late : leb (when_of c (wake now t)) now ≡ false = sym (does-work_round np now t c) ∙ h in
    rw (when-work_round np now t c, late) (wake_le now t c late)

round_within :
    (np now last : ℕ) (t : Timers) (c : Chore)
    → last ≤ now
    → when_of c t ≤ last + interval np c
    → when_of c (work_round np now t).0 ≤ now + interval np c
unfolding rearm
round_within np now last t c m h = elim (Bool-cases (leb (when_of c (wake now t)) now)) [
  | inl e ↦ rw (when-work_round np now t c, e) (omega arith)
  | inr e ↦ rw (when-work_round np now t c, e) (omega (arith, wake_le now t c e))
]

-- Whether anything has asked to check soon before a round.
abbrev pub asked : Bool → Timers → Timers
asked soon t = if soon then record t { check_soon = true } else t

when_of-asked : (c : Chore) (soon : Bool) (t : Timers) → when_of c (asked soon t) ≡ when_of c t
when_of-asked c false t = refl
when_of-asked reap_zombies true t = refl
when_of-asked bring_out true t = refl
when_of-asked terminate true t = refl
when_of-asked clean true t = refl
when_of-asked group true t = refl
when_of-asked solicit true t = refl

-- Whether a chore is done in any of the rounds.
unfoldable pub done_in : ℕ → Chore → List (ℕ × Bool) → Timers → Bool
done_in np c [] t = false
done_in np c ((now, soon) ∷ rs) t =
    let r = work_round np now (asked soon t) in does c r.1 || done_in np c rs r.0

done_in_due :
    (np now : ℕ) (soon : Bool) (c : Chore) (rs : List (ℕ × Bool)) (t : Timers)
    → when_of c t ≤ now
    → done_in np c (rs ++ (now, soon) ∷ []) t ≡ true
unfolding done_in
done_in_due np now soon c [] t h =
    rw (round_due np now (asked soon t) c (omega (arith, when_of-asked c soon t)))
done_in_due np now soon c ((at, s) ∷ rs) t h =
    elim (Bool-cases (does c (work_round np at (asked s t)).1)) [
      | inl e ↦ rw e
      | inr e ↦ rw e (
          done_in_due np now soon c rs (work_round np at (asked s t)).0
            (omega (arith, round_le np at (asked s t) c e, when_of-asked c s t)))
    ]

-- The times of the rounds never go back.
abbrev pub InOrder : ℕ → List (ℕ × Bool) → Type 0
InOrder last [] = Unit
InOrder last ((now, soon) ∷ rs) = (last ≤ now) × InOrder now rs

abbrev pub last_of : ℕ → List (ℕ × Bool) → ℕ
last_of last [] = last
last_of last ((now, soon) ∷ rs) = last_of now rs

within_lem :
    (np last : ℕ) (c : Chore) (rs : List (ℕ × Bool)) (t : Timers)
    → InOrder last rs
    → when_of c t ≤ last + interval np c
    → when_of c (will_work_for_food np rs t) ≤ last_of last rs + interval np c
unfolding will_work_for_food
within_lem np last c [] t o h = h
within_lem np last c ((now, soon) ∷ rs) t o h =
    within_lem np now c rs (work_round np now (asked soon t)).0 o.1
      (round_within np now last (asked soon t) c o.0 (omega (arith, when_of-asked c soon t)))

start_within :
    (np now : ℕ) (soon : Bool) (c : Chore)
    → 3 ≤ np
    → when_of c (start_timers now soon) ≤ now + interval np c
unfolding start_timers interval
start_within np now soon reap_zombies h = omega arith
start_within np now soon bring_out h = omega arith
start_within np now soon terminate h = omega arith
start_within np now soon clean h = omega arith
start_within np now soon group h = omega arith
start_within np now soon solicit h = omega arith

-- With a poll interval of three seconds or more, and a clock that does not go back up to some round:
-- of the rounds after that one, when one takes place at least a chore's interval later, the chore
-- has been done since, whatever signals and requests to check soon there have been.
pub done_in-interval :
    (np begin now : ℕ) (soon soon' : Bool) (c : Chore) (before since : List (ℕ × Bool))
    → 3 ≤ np
    → InOrder begin before
    → last_of begin before + interval np c ≤ now
    → done_in np c
        (since ++ (now, soon) ∷ [])
        (will_work_for_food np before (start_timers begin soon'))
      ≡ true
done_in-interval np begin now soon soon' c before since h o l =
    done_in_due np now soon c since (will_work_for_food np before (start_timers begin soon')) (
      omega (
        arith,
        within_lem np begin c before (start_timers begin soon') o (start_within np begin soon' c h),
      ))
