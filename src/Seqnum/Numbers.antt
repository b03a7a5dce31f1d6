-- ===== src/Seqnum/Numbers.antt =====
-- What `curr` and `next` return and leave in the file, whatever the kernel answers.
use job.Isafe
use job.Isafe.{Reply, value, fail}
use job.Prelude.{
  ℕ, suc, ◌+◌, ◌%◌, ◌^◌, ◌<◌, ◌≤◌, true, false, ◌++◌, ◌≡◌, refl, ap, sym, ◌∙◌, ◌⊎◌, inl, arith,
  length, drop,
}
use job.Seqnum.Bytes64.{encode}
use job.Seqnum.Reading.{
  Ensures, bind-Ensures, Same, call-Same, HasRead, read_loop-HasRead, Fits, stored,
}
use job.Seqnum.Writing.{HasStored, write_loop-HasStored}
use job.Seqnum.{
  Step, Access, Result, waiting, failed, ok, M, ◌>>=◌, call, start, read_loop, curr, next,
  write_loop, finish, step,
}

imply :
    {A : Type 0} {P Q : A → Access → Type 0} (r : Result A)
    → Ensures Q r
    → ((a : A) (t : Access) → Q a t → P a t)
    → Ensures P r
imply waiting h k = tt
imply (failed e s) h k = h
imply (ok a s) h k = k a s h

record HasStarted (s t : Access) : Type 0 where
  content_is : t.content ≡ s.content
  at_start : t.position ≡ 0
  number_is : t.number ≡ s.number

start-HasStarted : (s : Access) → Ensures (λ a t. HasStarted s t) (start s)
unfolding start
start-HasStarted s =
    bind-Ensures (λ a t. Same s t) (λ a t. HasStarted s t)
      (call Step.opening false Isafe.open_mode s) _ (call-Same Step.opening false Isafe.open_mode s)
      (λ _ t v.
        bind-Ensures (λ a u. Same t u) (λ a u. HasStarted s u)
          (call Step.locking true Isafe.flock t) _ (call-Same Step.locking true Isafe.flock t)
          (λ _ u w. record {
            content_is = w.content_is ∙ v.content_is;
            at_start = refl;
            number_is = w.number_is ∙ v.number_is;
          }))

-- The object's number fits 64 bits.
abbrev pub IsWord : Access → Type 0
IsWord s = s.number < 2 ^ 64

started_Fits : (s t : Access) → HasStarted s t → IsWord s → Fits t
started_Fits s t v h = inl (omega (arith, v.number_is))

stored_same : (s t : Access) → t.content ≡ s.content → t.number ≡ s.number → stored t ≡ stored s
unfolding stored
stored_same s t c n = rw (c, n)

finish_lem : (s : Access) → Ensures (λ v t. Same s t × (v ≡ t.number)) (finish s)
unfolding finish
finish_lem s =
    bind-Ensures (λ a t. Same s t) (λ v t. Same s t × (v ≡ t.number))
      (call Step.closing false Isafe.close s) (λ _ t. ok t.number t)
      (call-Same Step.closing false Isafe.close s) (λ _ t v. (v, refl))

-- The file, the position and the number after `start` and the read loop.
reading_lem :
    (P : ℕ → Access → Type 0) (fuel : ℕ) (k : M ℕ) (s : Access)
    → IsWord s
    → ((t : Access) → HasRead s t → Ensures P (k t))
    → Ensures P ((start >>= λ _. read_loop fuel >>= λ _. k) s)
reading_lem P fuel k s h after =
    bind-Ensures (λ a t. HasStarted s t) P (start s) (λ _. read_loop fuel >>= λ _. k)
      (start-HasStarted s)
      (λ _ t v.
        bind-Ensures (λ a u. HasRead t u) P (read_loop fuel t) (λ _. k)
          (read_loop-HasRead fuel t v.at_start (started_Fits s t v h))
          (λ _ u w. after u (record {
            content_is = w.content_is ∙ v.content_is;
            at_start = w.at_start;
            size_is = omega (arith, ap length v.content_is, w.size_is);
            number_is = w.number_is ∙ stored_same s t v.content_is v.number_is;
          })))

-- When the object's number fits 64 bits and `curr` returns, its result is the number stored, which
-- the object has too, and the file is as it was. On an error 0 is left.
pub curr_lem :
    (s : Access)
    → IsWord s
    → Ensures (λ v t. (v ≡ stored s) × (t.content ≡ s.content) × (t.number ≡ v)) (curr s)
unfolding curr
curr_lem s h = reading_lem _ (suc (length s.replies)) finish s h (λ u w.
    imply (finish u) (finish_lem u)
      (λ v t q. (q.1 ∙ q.0.number_is ∙ w.number_is, q.0.content_is ∙ w.content_is, sym q.1)))

-- What `next` leaves: the number after the stored one, modulo 2^64, in the result, in the object,
-- and in the first eight bytes of a file that had no or at least eight bytes.
pub record HasStepped (s : Access) (v : ℕ) (t : Access) : Type 0 where
  pub result_is : v ≡ (stored s + 1) % 2 ^ 64
  pub number_is : t.number ≡ v
  pub content_is : t.content ≡ encode v ++ drop 8 s.content
  pub size_was : (length s.content ≡ 0) ⊎ (8 ≤ length s.content)

abbrev bumped : Access → Access
bumped u = record u { number = (u.number + 1) % 2 ^ 64 }

HasStepped_lem :
    (s u x z : Access) (v : ℕ)
    → HasRead s u
    → HasStored (bumped u) x
    → Same x z
    → v ≡ z.number
    → HasStepped s v z
HasStepped_lem s u x z v w y q e =
    let num : v ≡ (u.number + 1) % 2 ^ 64 = e ∙ q.number_is ∙ y.number_is in
    record {
      result_is = num ∙ ap (λ k. (k + 1) % 2 ^ 64) w.number_is;
      number_is = sym e;
      content_is =
          q.content_is
          ∙ y.content_is
          ∙ ap (λ k. encode k ++ drop 8 u.content) (sym num)
          ∙ ap (λ c. encode v ++ drop 8 c) w.content_is;
      size_was = w.size_is;
    }

step_lem : (fuel : ℕ) (s u : Access) → HasRead s u → Ensures (HasStepped s) (step fuel u)
unfolding step
step_lem fuel s u w =
    bind-Ensures (λ a x. HasStored (bumped u) x) (HasStepped s) (write_loop fuel (bumped u))
      (λ _. finish) (write_loop-HasStored fuel (bumped u) w.at_start)
      (λ _ x y. imply (finish x) (finish_lem x) (λ v z q. HasStepped_lem s u x z v w y q.0 q.1))

-- When the object's number fits 64 bits and `next` returns, its result is one more than the number
-- stored, modulo 2^64, and it stands in the object and in the first eight bytes of the file, whose
-- other bytes are as they were; the file was empty or had eight bytes. On an error 0 is left.
pub next-HasStepped : (s : Access) → IsWord s → Ensures (HasStepped s) (next s)
unfolding next
next-HasStepped s h =
    reading_lem (HasStepped s) (suc (length s.replies)) (step (suc (length s.replies))) s h
      (λ u w. step_lem (suc (length s.replies)) s u w)
