-- ===== src/Text/Split/RoundTrip.antt =====
-- Joining what `split` returns, and the number of pieces.
use job.Prelude.{
  ℕ, zero, suc, ◌+◌, ◌^◌, ◌≤◌, ◌<◌, false, List, [], ◌∷◌, ◌++◌, ◌≡◌, ◌≢◌, sym, ◌∙◌, none, some,
  arith, Bytes, if◌then◌else◌, length, Bool-cases, Option-cases, inl, inr, append_assoc, append-nil,
}
use job.Text.Search.{find, find-append, find-length}
use job.Text.Split.{join_loop, join_str, split_loop, split, enough}

-- The pieces after the first, each behind the separator.
abbrev pub tails : Bytes → List Bytes → Bytes
tails d [] = []
tails d (x ∷ xs) = d ++ (x ++ tails d xs)

join_loop-tails :
    (d : Bytes) (xs : List Bytes) (str : Bytes) → join_loop str false d xs ≡ str ++ tails d xs
unfolding join_loop
join_loop-tails d [] str = sym (append-nil str)
join_loop-tails d (x ∷ xs) str = join_loop-tails d xs ((str ++ d) ++ x) ∙ simp append_assoc

pub join_str-cons : (d x : Bytes) (xs : List Bytes) → join_str (x ∷ xs) d ≡ x ++ tails d xs
unfolding join_str
join_str-cons d x xs = join_loop-tails d xs x

module _ (fuel : ℕ) (d : Bytes) (parts n : ℕ) (s : Bytes) where
  pub split_loop_last : find d s ≡ none → split_loop (suc fuel) d parts n s ≡ s ∷ []
  unfolding split_loop
  split_loop_last e = rw (e, split_loop)

  pub split_loop_more :
      (before after : Bytes)
      → find d s ≡ some (before, after)
      → split_loop (suc fuel) d parts n s
        ≡ before
          ∷ (if enough parts (suc n) then after ∷ [] else split_loop fuel d parts (suc n) after)
  unfolding split_loop
  split_loop_more before after e = rw (e, split_loop)

split_loop-glued :
    (fuel : ℕ) (d : Bytes) (parts n : ℕ) (s : Bytes)
    → d ≢ []
    → length s < fuel
    → (x : Bytes) × (xs : List Bytes) × (split_loop fuel d parts n s ≡ x ∷ xs)
      × (x ++ tails d xs ≡ s)
unfolding split_loop
split_loop-glued zero d parts n s ne h = elim h [ ]
split_loop-glued (suc fuel) d parts n s ne h = elim (Option-cases (find d s)) [
  | inl e ↦ (s, [], split_loop_last fuel d parts n s e, append-nil s)
  | inr ((before, after), e) ↦ elim (Bool-cases (enough parts (suc n))) [
    | inl stop ↦ (
      before,
      after ∷ [],
      rw (split_loop_more fuel d parts n s before after e, stop),
      simp append-nil (find-append d s e),
    )
    | inr more ↦
        let shorter : length after < fuel = omega (arith, find-length d s ne e) in
        let (x, xs, ex, glue) = split_loop-glued fuel d parts (suc n) after ne shorter in
        (
          before,
          x ∷ xs,
          rw (split_loop_more fuel d parts n s before after e, more, ex),
          rw glue (find-append d s e),
        )
  ]
]

-- Joining the pieces of any split with the separator gives the text back.
pub join_str-split : (s d : Bytes) (parts : ℕ) → join_str (split s d parts) d ≡ s
unfolding split
join_str-split s [] parts = join_str-cons [] s [] ∙ append-nil s
join_str-split s (c ∷ d) parts =
    let (x, xs, e, glue) =
      split_loop-glued (suc (length s)) (c ∷ d) parts 0 s (λ h. cc) (omega arith) in
    rw e (join_str-cons (c ∷ d) x xs ∙ glue)

split_loop-length :
    (fuel : ℕ) (d : Bytes) (parts n : ℕ) (s : Bytes)
    → 2 ≤ parts
    → parts < 2 ^ 32
    → n + 1 < parts
    → n + length (split_loop fuel d parts n s) ≤ parts
unfolding split_loop
split_loop-length zero d parts n s h k l = omega arith
split_loop-length (suc fuel) d parts n s h k l = elim (Option-cases (find d s)) [
  | inl e ↦ rw (split_loop_last fuel d parts n s e) (omega arith)
  | inr ((before, after), e) ↦ elim (Bool-cases (enough parts (suc n))) [
    | inl stop ↦ rw (split_loop_more fuel d parts n s before after e, stop) (omega arith)
    | inr more ↦
        let going : suc n + 1 < parts = (unfold enough in ground (arith, more)) in
        rw (split_loop_more fuel d parts n s before after e, more)
          (omega (arith, split_loop-length fuel d parts (suc n) after h k going))
  ]
]

-- With a limit of two or more, below 2^32, no split has more pieces than the limit.
pub length-split-le :
    (s d : Bytes) (parts : ℕ) → 2 ≤ parts → parts < 2 ^ 32 → length (split s d parts) ≤ parts
unfolding split
length-split-le s [] parts h k = omega arith
length-split-le s (c ∷ d) parts h k =
    omega (arith, split_loop-length (suc (length s)) (c ∷ d) parts 0 s h k (omega arith))
