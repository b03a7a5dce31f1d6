-- ===== src/Jobman/Slots.antt =====
-- src/jobman.cxx, `solicit_on_the_street`: which pending jobs are taken when some slots are free;
-- and the ways out of `run_a_job`.
use job.Prelude.{
  ℕ, ◌+◌, ◌-◌, ◌∙◌, ap, ◌<◌, ◌≤◌, ◌%◌, ◌^◌, Bool, true, false, List, [], ◌∷◌, ◌≡◌, refl, arith, ltb,
  leb, if◌then◌else◌, Bool-cases, inl, inr, length,
}

-- The statuses that `run_a_job` returns.
pub data Status : Type 0 where
  err_ok err_moved err_locked err_again err_abort : Status
  other : Status

-- Which call of `run_a_job` is the first to fail, if one does. For a group job, the status with
-- which it was broken up.
pub data Attempt : Type 0 where
  not_constructed : Attempt
  grabbed_moved grabbed_locked not_locked : Attempt
  not_loaded : Attempt
  group : Status → Attempt
  undefined_type empty_command : Attempt
  not_stored : Attempt
  not_launched : Attempt
  launched : Attempt

-- The status that `run_a_job` returns.
unfoldable pub run_a_job : Attempt → Status
run_a_job not_constructed = err_again
run_a_job grabbed_moved = err_moved
run_a_job grabbed_locked = err_locked
run_a_job not_locked = err_again
run_a_job not_loaded = err_again
run_a_job (group st) = st
run_a_job undefined_type = err_again
run_a_job empty_command = err_again
run_a_job not_stored = err_abort
run_a_job not_launched = err_abort
run_a_job launched = err_ok

-- Whether a process has been started.
unfoldable pub is_launched : Attempt → Bool
is_launched launched = true
is_launched _ = false

-- The statuses for which the loop takes one more job.
unfoldable pub takes_another : Status → Bool
takes_another err_moved = true
takes_another err_locked = true
takes_another err_again = true
takes_another _ = false

-- `need++` on `size_t`.
unfoldable pub next_need : Bool → ℕ → ℕ
next_need another need = if another then (need + 1) % 2 ^ 64 else need

unfoldable pub count_launched : List Attempt → ℕ
unfolding is_launched
count_launched [] = 0
count_launched (a ∷ rest) = (if is_launched a then 1 else 0) + count_launched rest

-- The loop, from index `i` on: the attempts that are made.
unfoldable pub solicit_loop : ℕ → ℕ → List Attempt → List Attempt
unfolding run_a_job takes_another next_need
solicit_loop i need [] = []
solicit_loop i need (a ∷ rest) =
    let more = solicit_loop (i + 1) (next_need (takes_another (run_a_job a)) need) rest in
    if ltb i need then a ∷ more else []

-- The attempts made of those in order of eligibility, with `nrun` processes running.
unfoldable pub solicit_on_the_street : ℕ → ℕ → List Attempt → List Attempt
unfolding solicit_loop
solicit_on_the_street maxjobs nrun pendjobs =
    let need = (maxjobs + 2 ^ 64 - nrun) % 2 ^ 64 in
    if leb need 0 then [] else solicit_loop 0 need pendjobs

loop_bound_taken :
    (a : Attempt) (i need n : ℕ)
    → i < need
    → need < 2 ^ 64
    → n ≤ next_need (takes_another (run_a_job a)) need - (i + 1)
    → (if is_launched a then 1 else 0) + n ≤ need - i
unfolding is_launched takes_another run_a_job next_need
loop_bound_taken not_constructed i need n a b h = omega arith
loop_bound_taken grabbed_moved i need n a b h = omega arith
loop_bound_taken grabbed_locked i need n a b h = omega arith
loop_bound_taken not_locked i need n a b h = omega arith
loop_bound_taken not_loaded i need n a b h = omega arith
loop_bound_taken (group err_ok) i need n a b h = omega arith
loop_bound_taken (group err_moved) i need n a b h = omega arith
loop_bound_taken (group err_locked) i need n a b h = omega arith
loop_bound_taken (group err_again) i need n a b h = omega arith
loop_bound_taken (group err_abort) i need n a b h = omega arith
loop_bound_taken (group other) i need n a b h = omega arith
loop_bound_taken undefined_type i need n a b h = omega arith
loop_bound_taken empty_command i need n a b h = omega arith
loop_bound_taken not_stored i need n a b h = omega arith
loop_bound_taken not_launched i need n a b h = omega arith
loop_bound_taken launched i need n a b h = omega arith

next_need-lt : (b : Bool) (need : ℕ) → need < 2 ^ 64 → next_need b need < 2 ^ 64
unfolding next_need
next_need-lt true need h = omega arith
next_need-lt false need h = h

loop_bound :
    (l : List Attempt) (i need : ℕ)
    → need < 2 ^ 64
    → count_launched (solicit_loop i need l) ≤ need - i
unfolding solicit_loop count_launched
loop_bound [] i need h = omega arith
loop_bound (a ∷ rest) i need h = elim (Bool-cases (ltb i need)) [
  | inl e ↦ rw e (
      loop_bound_taken a i need _ (ground arith) h (
        loop_bound rest (i + 1) (next_need (takes_another (run_a_job a)) need)
          (next_need-lt (takes_another (run_a_job a)) need h)))
  | inr e ↦ rw e (omega arith)
]

need_free :
    (maxjobs nrun : ℕ)
    → nrun ≤ maxjobs
    → maxjobs < 2 ^ 64
    → (maxjobs + 2 ^ 64 - nrun) % 2 ^ 64 ≡ maxjobs - nrun
need_free maxjobs nrun h k = omega arith

solicit_free :
    (maxjobs nrun : ℕ) (pendjobs : List Attempt)
    → nrun ≤ maxjobs
    → maxjobs < 2 ^ 64
    → solicit_on_the_street maxjobs nrun pendjobs
      ≡ (if leb (maxjobs - nrun) 0 then [] else solicit_loop 0 (maxjobs - nrun) pendjobs)
unfolding solicit_on_the_street
solicit_free maxjobs nrun pendjobs h k = rw (need_free maxjobs nrun h k)

-- If no more processes are running than the queue may have, a number below 2^64, then the processes started bring the
-- number to the queue's limit at most, however many of the jobs have been grabbed by others.
pub solicit_on_the_street_bound :
    (maxjobs nrun : ℕ) (pendjobs : List Attempt)
    → nrun ≤ maxjobs
    → maxjobs < 2 ^ 64
    → nrun + count_launched (solicit_on_the_street maxjobs nrun pendjobs) ≤ maxjobs
unfolding count_launched
solicit_on_the_street_bound maxjobs nrun pendjobs h k =
    rw (solicit_free maxjobs nrun pendjobs h k) (elim (Bool-cases (leb (maxjobs - nrun) 0)) [
      | inl e ↦ rw e (omega arith)
      | inr e ↦ rw e (ground (arith, loop_bound pendjobs 0 (maxjobs - nrun) (ground arith)))
    ])

-- The attempts that use up a slot: those after which the loop takes no other job instead.
unfoldable pub count_spent : List Attempt → ℕ
unfolding run_a_job takes_another
count_spent [] = 0
count_spent (a ∷ rest) = (if takes_another (run_a_job a) then 0 else 1) + count_spent rest

loop_step :
    (a : Attempt) (rest : List Attempt) (i need : ℕ)
    → i < need
    → solicit_loop i need (a ∷ rest)
      ≡ a ∷ solicit_loop (i + 1) (next_need (takes_another (run_a_job a)) need) rest
unfolding solicit_loop
loop_step a rest i need h = let e : ltb i need ≡ true = ground arith in rw e

loop_step_keep :
    (a : Attempt) (rest : List Attempt) (i need : ℕ)
    → i < need
    → takes_another (run_a_job a) ≡ false
    → solicit_loop i need (a ∷ rest) ≡ a ∷ solicit_loop (i + 1) need rest
unfolding next_need
loop_step_keep a rest i need h e = loop_step a rest i need h ∙ rw e

loop_step_more :
    (a : Attempt) (rest : List Attempt) (i need : ℕ)
    → i < need
    → need + 1 < 2 ^ 64
    → takes_another (run_a_job a) ≡ true
    → solicit_loop i need (a ∷ rest) ≡ a ∷ solicit_loop (i + 1) (need + 1) rest
unfolding next_need
loop_step_more a rest i need h k e =
    let f : (need + 1) % 2 ^ 64 ≡ need + 1 = omega arith in loop_step a rest i need h ∙ rw (e, f)

spent_keep :
    (a : Attempt) (rest : List Attempt)
    → takes_another (run_a_job a) ≡ false
    → count_spent (a ∷ rest) ≡ 1 + count_spent rest
unfolding count_spent
spent_keep a rest e = rw e

spent_more :
    (a : Attempt) (rest : List Attempt)
    → takes_another (run_a_job a) ≡ true
    → count_spent (a ∷ rest) ≡ count_spent rest
unfolding count_spent
spent_more a rest e = rw e (ground arith)

loop_all :
    (l : List Attempt) (i need : ℕ)
    → i + count_spent l < need
    → need + length l < 2 ^ 64
    → solicit_loop i need l ≡ l
unfolding solicit_loop
loop_all [] i need h k = refl
loop_all (a ∷ rest) i need h k = elim (Bool-cases (takes_another (run_a_job a))) [
  | inl e ↦
      loop_step_more a rest i need (ground arith) (ground arith) e
      ∙ ap (λ l. a ∷ l)
          (loop_all rest (i + 1) (need + 1) (ground (arith, spent_more a rest e)) (ground arith))
  | inr e ↦
      loop_step_keep a rest i need (ground arith) e
      ∙ ap (λ l. a ∷ l)
          (loop_all rest (i + 1) need (ground (arith, spent_keep a rest e)) (ground arith))
]

-- A queue with more free slots than the pending jobs will use has each of its pending jobs tried,
-- if the slots and the jobs together are less than 2^64.
pub solicit_on_the_street_all :
    (maxjobs nrun : ℕ) (pendjobs : List Attempt)
    → nrun + count_spent pendjobs < maxjobs
    → maxjobs + length pendjobs < 2 ^ 64
    → solicit_on_the_street maxjobs nrun pendjobs ≡ pendjobs
solicit_on_the_street_all maxjobs nrun pendjobs h k =
    solicit_free maxjobs nrun pendjobs (omega arith) (omega arith)
    ∙ (elim (Bool-cases (leb (maxjobs - nrun) 0)) [
      | inl e ↦ absurd (ground arith)
      | inr e ↦ rw e (loop_all pendjobs 0 (maxjobs - nrun) (omega arith) (omega arith))
    ])
