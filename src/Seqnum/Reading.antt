-- ===== src/Seqnum/Reading.antt =====
-- Calls that keep everything, and the read loop, whatever the kernel answers.
use job.Isafe
use job.Isafe.{Reply, value, fail, Outcome}
use job.Prelude.{
  ℕ, zero, suc, ◌+◌, ◌-◌, ◌^◌, ◌<◌, ◌≤◌, Bool, true, false, List, [], ◌∷◌, ◌++◌, Option, none, some,
  ◌≡◌, refl, ap, ◌∙◌, ◌⊎◌, inl, inr, arith, ◌==◌, if◌then◌else◌, length, take, drop, min,
  Bool-cases, append-nil,
}
use job.Seqnum.Bytes64.{decode, encode, decode-encode}
use job.Seqnum.{
  Step, Access, Result, waiting, failed, ok, M, close_and_give_up, answered, called, call, moved,
  read_value, rewind, read_loop,
}

-- A failed call has set `value` to 0; a call that returns satisfies `P`.
abbrev pub Ensures : {A : Type 0} → (A → Access → Type 0) → Result A → Type 0
Ensures P waiting = Unit
Ensures P (failed e s) = s.number ≡ 0
Ensures P (ok a s) = P a s

pub bind-Ensures :
    {A B : Type 0} (Q : A → Access → Type 0) (P : B → Access → Type 0) (r : Result A) (f : A → M B)
    → Ensures Q r
    → ((a : A) (t : Access) → Q a t → Ensures P (f a t))
    → Ensures P (elim r [ waiting ↦ waiting | failed e t ↦ failed e t | ok a t ↦ f a t ])
bind-Ensures Q P waiting f h k = tt
bind-Ensures Q P (failed e s) f h k = h
bind-Ensures Q P (ok a s) f h k = k a s h

-- Only the replies differ.
pub record Same (s t : Access) : Type 0 where
  pub content_is : t.content ≡ s.content
  pub position_is : t.position ≡ s.position
  pub number_is : t.number ≡ s.number

pub call-Same :
    (e : Step) (opened : Bool) (f : List Reply → Option Outcome) (s : Access)
    → Ensures (λ a t. Same s t) (call e opened f s)
unfolding call
call-Same e opened f s = go (f s.replies)
  where
    gone :
        (t : Access) (o : Option Outcome)
        → Ensures (λ (a : ℕ) u. Same s u) (close_and_give_up e t o)
    gone t none = tt
    gone t (some o) = refl

    after :
        (t : Access) (b : Bool) (r : Reply)
        → Same s t
        → Ensures (λ a u. Same s u) (answered e b t r)
    after t b (value v) h = h
    after t true (fail n) h = gone t (Isafe.close t.replies)
    after t false (fail n) h = refl

    go : (o : Option Outcome) → Ensures (λ a t. Same s t) (called e opened s o)
    go none = tt
    go (some o) =
        after (record s { replies = o.rest }) opened o.result
          (record { content_is = refl; position_is = refl; number_is = refl })

-- The number that the file holds: an empty file leaves the member `value` as it was.
unfoldable pub stored : Access → ℕ
stored s = if length s.content == 0 then s.number else decode (take 8 s.content)

-- After the read loop: at the start of the same file, of no or of at least eight bytes, with the
-- number in it.
pub record HasRead (s t : Access) : Type 0 where
  pub content_is : t.content ≡ s.content
  pub at_start : t.position ≡ 0
  pub size_is : (length s.content ≡ 0) ⊎ (8 ≤ length s.content)
  pub number_is : t.number ≡ stored s

length_zero {ℓ} : {A : Type ℓ} (xs : List A) → length xs ≡ 0 → xs ≡ []
length_zero [] h = refl
length_zero (x ∷ xs) h = absurd (omega arith)

take_none {ℓ} : {A : Type ℓ} (n : ℕ) → take {A = A} n [] ≡ []
take_none zero = refl
take_none (suc n) = refl

-- What a read moves into the buffer, from the start of the file.
record HasMoved (s : Access) (n : ℕ) (t : Access) : Type 0 where
  content_is : t.content ≡ s.content
  amount : ((n ≡ 0) × (length s.content ≡ 0)) ⊎ ((0 < n) × (n ≤ 8) × (n ≤ length s.content))
  position_is : t.position ≡ n
  number_is : t.number ≡ decode (take n s.content ++ drop n (encode s.number))

moved_bounds :
    (k room : ℕ) → ((moved k room ≡ 0) × (room ≡ 0)) ⊎ ((0 < moved k room) × (moved k room ≤ room))
unfolding moved
moved_bounds k room = elim (Bool-cases (k == 0)) [
  | inl e ↦ rw e (elim (Bool-cases (room == 0)) [
    | inl z ↦ inl (ground arith, ground arith)
    | inr z ↦ inr (ground arith, omega arith)
  ])
  | inr e ↦ rw e (elim (Bool-cases (room == 0)) [
    | inl z ↦ inl (ground arith, ground arith)
    | inr z ↦ inr (ground arith, omega arith)
  ])
]

HasMoved_lem :
    (s t : Access) (k : ℕ)
    → s.position ≡ 0
    → Same s t
    → (let n = moved k (min 8 (length t.content - t.position)) in
        HasMoved s n (record t {
          number = decode (take n (drop t.position t.content) ++ drop n (encode t.number));
          position = t.position + n;
        }))
HasMoved_lem s t k p v =
    let at : t.position ≡ 0 = v.position_is ∙ p in
    let n = moved k (min 8 (length t.content - t.position)) in
    let size : length t.content ≡ length s.content = ap length v.content_is in
    record {
      content_is = v.content_is;
      amount = elim (moved_bounds k (min 8 (length t.content - t.position))) [
        | inl (z, r) ↦ inl (z, omega arith)
        | inr (z, r) ↦ inr (z, omega arith, omega arith)
      ];
      position_is = omega arith;
      number_is =
          ap (λ q. decode (take n (drop q t.content) ++ drop n (encode t.number))) at
          ∙ ap (λ c. decode (take n c ++ drop n (encode t.number))) v.content_is
          ∙ ap (λ x. decode (take n s.content ++ drop n (encode x))) v.number_is;
    }

read_value-HasMoved : (s : Access) → s.position ≡ 0 → Ensures (HasMoved s) (read_value s)
unfolding read_value
read_value-HasMoved s p =
    bind-Ensures (λ a t. Same s t) (HasMoved s) (call Step.reading true Isafe.read s) _
      (call-Same Step.reading true Isafe.read s) (λ k t v. HasMoved_lem s t k p v)

-- The offset is at the start again, and nothing else has changed.
pub record HasRewound (s t : Access) : Type 0 where
  pub content_is : t.content ≡ s.content
  pub at_start : t.position ≡ 0
  pub number_is : t.number ≡ s.number

pub rewind-HasRewound : (s : Access) → Ensures (λ a t. HasRewound s t) (rewind s)
unfolding rewind
rewind-HasRewound s =
    bind-Ensures (λ a t. Same s t) (λ a t. HasRewound s t) (call Step.seeking true Isafe.lseek s) _
      (call-Same Step.seeking true Isafe.lseek s)
      (λ k t v. record { content_is = v.content_is; at_start = refl; number_is = v.number_is })

-- A number read from an empty file is the one that the object had, if that fits 64 bits; the
-- numbers read from other files do not depend on it.
abbrev pub Fits : Access → Type 0
Fits s = (s.number < 2 ^ 64) ⊎ (0 < length s.content)

read_empty : (s t : Access) → s.position ≡ 0 → Fits s → HasMoved s 0 t → HasRead s t
unfolding stored
read_empty s t p f v = elim v.amount [
  | inr (z, _, _) ↦ absurd (omega arith)
  | inl (_, z) ↦ record {
    content_is = v.content_is;
    at_start = v.position_is;
    size_is = inl z;
    number_is =
        v.number_is
        ∙ (let small : s.number < 2 ^ 64 = omega arith in decode-encode s.number small)
        ∙ (let none_there : (length s.content == 0) ≡ true = ground arith in rw none_there);
  }
]

read_full : (s t u : Access) → HasMoved s 8 t → HasRewound t u → HasRead s u
unfolding stored
read_full s t u v r = elim v.amount [
  | inl (z, _) ↦ absurd (omega arith)
  | inr (_, _, big) ↦
      let some_there : (length s.content == 0) ≡ false = ground arith in
      record {
        content_is = r.content_is ∙ v.content_is;
        at_start = r.at_start;
        size_is = inr big;
        number_is =
            r.number_is
            ∙ v.number_is
            ∙ (unfold encode in rw some_there (ap decode (append-nil (take 8 s.content))));
      }
]

HasRead-step :
    (s u w : Access) (n : ℕ)
    → u.content ≡ s.content
    → 0 < length s.content
    → HasRead u w
    → HasRead s w
unfolding stored
HasRead-step s u w n c big v =
    let same : length u.content ≡ length s.content = ap length c in
    let there : (length u.content == 0) ≡ false = ground arith in
    let there' : (length s.content == 0) ≡ false = ground arith in
    record {
      content_is = v.content_is ∙ c;
      at_start = v.at_start;
      size_is = omega (arith, v.size_is);
      number_is = v.number_is ∙ rw (there, there') (ap (λ x. decode (take 8 x)) c);
    }

moved_some : {s t : Access} {n : ℕ} → HasMoved s n t → (n == 0) ≡ false → 0 < length s.content
moved_some {s} {t} {n} v h = elim v.amount [
  | inl (z, _) ↦ absurd (ground arith)
  | inr (a, _, c) ↦ omega arith
]

pub read_loop-HasRead :
    (fuel : ℕ) (s : Access)
    → s.position ≡ 0
    → Fits s
    → Ensures (λ a t. HasRead s t) (read_loop fuel s)
unfolding read_loop
read_loop-HasRead zero s p f = tt
read_loop-HasRead (suc fuel) s p f =
    bind-Ensures (HasMoved s) (λ a t. HasRead s t) (read_value s) _ (read_value-HasMoved s p)
      (λ n t v. elim (Bool-cases (n == 0)) [
        | inl z ↦ let e : n ≡ 0 = ground arith in rw z (read_empty s t p f (rw e at v))
        | inr z ↦ rw z (
            bind-Ensures (λ a u. HasRewound t u) (λ a w. HasRead s w) (rewind t) _
              (rewind-HasRewound t)
              (λ _ u r. elim (Bool-cases (n == 8)) [
                | inl e8 ↦ let e : n ≡ 8 = ground arith in rw e8 (read_full s t u (rw e at v) r)
                | inr e8 ↦ rw e8 (more n t u v r z (read_loop-HasRead fuel u))
              ]))
      ])
  where
    weaken :
        (u : Access) (x : Result ℕ)
        → u.content ≡ s.content
        → 0 < length s.content
        → Ensures (λ a w. HasRead u w) x
        → Ensures (λ a w. HasRead s w) x
    weaken u waiting c big h = tt
    weaken u (failed e w) c big h = h
    weaken u (ok a w) c big h = HasRead-step s u w 0 c big h

    more :
        (n : ℕ) (t u : Access)
        → HasMoved s n t
        → HasRewound t u
        → (n == 0) ≡ false
        → (u.position ≡ 0 → Fits u → Ensures (λ a w. HasRead u w) (read_loop fuel u))
        → Ensures (λ a w. HasRead s w) (read_loop fuel u)
    more n t u v r z ih =
        let c : u.content ≡ s.content = r.content_is ∙ v.content_is in
        let big : 0 < length s.content = moved_some v z in
        weaken u (read_loop fuel u) c big (ih r.at_start (inr (omega (arith, ap length c))))
