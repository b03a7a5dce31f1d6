-- ===== src/Text/Replace/Rejoin.antt =====
-- `replace_all` against `split` and `join`.
use job.Prelude.{
  ℕ, zero, suc, ◌<◌, List, [], ◌∷◌, ◌++◌, ◌≡◌, ◌≢◌, refl, sym, ◌∙◌, none, some, arith, Bytes,
  length, Option-cases, inl, inr, append-nil,
}
use job.Text.Replace.{replace_loop, replace_all}
use job.Text.Search.{find, find-length}
use job.Text.Split.RoundTrip.{tails, join_str-cons, split_loop_last, split_loop_more}
use job.Text.Split.{split_loop, split, enough, join_str}

module _ (fuel : ℕ) (from to s : Bytes) where
  pub replace_loop_last : find from s ≡ none → replace_loop (suc fuel) from to 0 s ≡ s
  unfolding replace_loop
  replace_loop_last e = rw (e, replace_loop)

  pub replace_loop_more :
      (before after : Bytes)
      → find from s ≡ some (before, after)
      → replace_loop (suc fuel) from to 0 s ≡ before ++ (to ++ replace_loop fuel from to 0 after)
  unfolding replace_loop
  replace_loop_more before after e = rw (e, replace_loop)

replace_loop-tails :
    (fuel : ℕ) (from to : Bytes) (n : ℕ) (s : Bytes)
    → from ≢ []
    → length s < fuel
    → (x : Bytes) × (xs : List Bytes) × (split_loop fuel from 0 n s ≡ x ∷ xs)
      × (replace_loop fuel from to 0 s ≡ x ++ tails to xs)
unfolding enough
replace_loop-tails zero from to n s ne h = elim h [ ]
replace_loop-tails (suc fuel) from to n s ne h = elim (Option-cases (find from s)) [
  | inl e ↦ (
    s,
    [],
    split_loop_last fuel from 0 n s e,
    replace_loop_last fuel from to s e ∙ sym (append-nil s),
  )
  | inr ((before, after), e) ↦
      let shorter : length after < fuel = omega (arith, find-length from s ne e) in
      let (x, xs, ex, glue) = replace_loop-tails fuel from to (suc n) after ne shorter in
      (
        before,
        x ∷ xs,
        rw (split_loop_more fuel from 0 n s before after e, enough, ex),
        rw (replace_loop_more fuel from to s before after e, glue),
      )
]

-- Replacing every occurrence of a string that is not empty is splitting at it and joining with the
-- other one.
pub replace_all-split :
    (s from to : Bytes) → from ≢ [] → replace_all s from to 0 ≡ join_str (split s from 0) to
unfolding replace_all split
replace_all-split s [] to ne = absurd (ne refl)
replace_all-split s (c ∷ from) to ne =
    let (x, xs, ex, glue) =
      replace_loop-tails (suc (length s)) (c ∷ from) to 0 s ne (omega arith) in
    rw (glue, ex) (sym (join_str-cons to x xs))
