-- ===== src/Text/Split/Pieces.antt =====
-- Splitting at a single byte.
use job.Prelude.{
  ℕ, zero, suc, ◌<◌, Bool, false, List, [], ◌∷◌, ◌++◌, ◌≡◌, refl, ap, sym, ◌∙◌, ◌||◌, Option, none,
  some, arith, append_assoc, Option-cases, Bytes, Bool-cases, inl, inr, ◌==◌, length, length-append,
  append-nil,
}
use job.Text.Search.{find, push_before, find-append, find-length}
use job.Text.Split.{split_loop, split, enough, join, join_str}
use job.Text.Split.RoundTrip.{tails, join_str-cons, split_loop_last, split_loop_more}

abbrev pub has_byte : ℕ → Bytes → Bool
has_byte c [] = false
has_byte c (x ∷ xs) = c == x || has_byte c xs

abbrev pub NoneHas : ℕ → List Bytes → Type 0
NoneHas c [] = Unit
NoneHas c (x ∷ xs) = (has_byte c x ≡ false) × NoneHas c xs

pub find_absent : (c : ℕ) (s : Bytes) → has_byte c s ≡ false → find (c ∷ []) s ≡ none
unfolding find
find_absent c [] h = refl
find_absent c (x ∷ xs) h = ground (arith, find_absent c xs)

pub find_first :
    (c : ℕ) (s rest : Bytes) → has_byte c s ≡ false → find (c ∷ []) (s ++ c ∷ rest) ≡ some (s, rest)
unfolding find
find_first c [] rest h = ground arith
find_first c (x ∷ xs) rest h = ground (arith, find_first c xs rest)

push_before-eq-none : (x : ℕ) (o : Option (Bytes × Bytes)) → push_before x o ≡ none → o ≡ none
unfolding push_before
push_before-eq-none x none h = refl
push_before-eq-none x (some p) h = cc

-- Conversely, what `find` leaves in front has no such byte.
pub find-none_free : (c : ℕ) (s : Bytes) → find (c ∷ []) s ≡ none → has_byte c s ≡ false
unfolding find
find-none_free c [] h = refl
find-none_free c (x ∷ xs) h =
    ground (arith, push_before-eq-none x (find (c ∷ []) xs), find-none_free c xs)

push_before-free :
    (c x : ℕ) (o : Option (Bytes × Bytes)) {b a : Bytes}
    → (c == x) ≡ false
    → ((b' a' : Bytes) → o ≡ some (b', a') → has_byte c b' ≡ false)
    → push_before x o ≡ some (b, a)
    → has_byte c b ≡ false
unfolding push_before
push_before-free c x none ne ih h = cc
push_before-free c x (some (b', a')) ne ih h = ground (arith, ih b' a' refl)

pub find-some_free :
    (c : ℕ) (s : Bytes) {b a : Bytes} → find (c ∷ []) s ≡ some (b, a) → has_byte c b ≡ false
unfolding find
find-some_free c [] h = cc
find-some_free c (x ∷ xs) h = elim (Bool-cases (c == x)) [
  | inl e ↦ ground arith
  | inr e ↦ push_before-free c x _ e (λ b' a' k. find-some_free c xs k) (rw e at h)
]

split_loop-tails :
    (fuel c n : ℕ) (x : Bytes) (xs : List Bytes)
    → length (x ++ tails (c ∷ []) xs) < fuel
    → has_byte c x ≡ false
    → NoneHas c xs
    → split_loop fuel (c ∷ []) 0 n (x ++ tails (c ∷ []) xs) ≡ x ∷ xs
unfolding enough
split_loop-tails zero c n x xs h hx hxs = elim h [ ]
split_loop-tails (suc fuel) c n x [] h hx hxs =
    rw append-nil (split_loop_last fuel (c ∷ []) 0 n x (find_absent c x hx))
split_loop-tails (suc fuel) c n x (y ∷ ys) h hx hxs =
    let shorter : length (y ++ tails (c ∷ []) ys) < fuel =
      omega (arith, length-append x (c ∷ (y ++ tails (c ∷ []) ys))) in
    rw
      (split_loop_more fuel (c ∷ []) 0 n _ _ _ (find_first c x (y ++ tails (c ∷ []) ys) hx), enough)
      (ap (◌∷◌ x) (split_loop-tails fuel c (suc n) y ys shorter hxs.0 hxs.1))

pub split-tails :
    (c : ℕ) (x : Bytes) (xs : List Bytes)
    → has_byte c x ≡ false
    → NoneHas c xs
    → split (x ++ tails (c ∷ []) xs) (c ∷ []) 0 ≡ x ∷ xs
unfolding split
split-tails c x xs h hs =
    split_loop-tails (suc (length (x ++ tails (c ∷ []) xs))) c 0 x xs (omega arith) h hs

-- The pieces of a split at a byte are free of it, and joined they are the text.
split_loop-free :
    (fuel c n : ℕ) (s : Bytes)
    → length s < fuel
    → (x : Bytes) × (xs : List Bytes) × (split_loop fuel (c ∷ []) 0 n s ≡ x ∷ xs)
      × (x ++ tails (c ∷ []) xs ≡ s)
      × (has_byte c x ≡ false)
      × NoneHas c xs
unfolding enough
split_loop-free zero c n s h = elim h [ ]
split_loop-free (suc fuel) c n s h = elim (Option-cases (find (c ∷ []) s)) [
  | inl e ↦ (s, [], split_loop_last fuel (c ∷ []) 0 n s e, append-nil s, find-none_free c s e, tt)
  | inr ((before, after), e) ↦
      let shorter : length after < fuel = omega (arith, find-length (c ∷ []) s (λ k. cc) e) in
      let (x, xs, ex, glue, fx, fxs) = split_loop-free fuel c (suc n) after shorter in
      (
        before,
        x ∷ xs,
        rw (split_loop_more fuel (c ∷ []) 0 n s before after e, enough, ex),
        rw glue (find-append (c ∷ []) s e),
        find-some_free c s e,
        (fx, fxs),
      )
]

tails-append : (d : Bytes) (xs ys : List Bytes) → tails d (xs ++ ys) ≡ tails d xs ++ tails d ys
tails-append d [] ys = refl
tails-append d (x ∷ xs) ys = rw (tails-append d xs ys) (simp append_assoc)

NoneHas-append : (c : ℕ) (xs ys : List Bytes) → NoneHas c xs → NoneHas c ys → NoneHas c (xs ++ ys)
NoneHas-append c [] ys h k = k
NoneHas-append c (x ∷ xs) ys h k = (h.0, NoneHas-append c xs ys h.1 k)

-- Whatever stands in front, the pieces behind it come last.
pub split_suffix :
    (c : ℕ) (s : Bytes) (ys : List Bytes)
    → NoneHas c ys
    → (zs : List Bytes) × (split (s ++ tails (c ∷ []) ys) (c ∷ []) 0 ≡ zs ++ ys)
split_suffix c s ys h =
    let (x, xs, _, glue, fx, fxs) = split_loop-free (suc (length s)) c 0 s (omega arith) in
    (
      x ∷ xs,
      ap (λ t. split t (c ∷ []) 0)
            (ap (λ t. t ++ tails (c ∷ []) ys) (sym glue)
              ∙ append_assoc x (tails (c ∷ []) xs) (tails (c ∷ []) ys)
              ∙ ap (◌++◌ x) (sym (tails-append (c ∷ []) xs ys)))
          ∙ split-tails c x (xs ++ ys) fx (NoneHas-append c xs ys fxs h),
    )

pub has_byte-append : (c : ℕ) (x y : Bytes) → has_byte c (x ++ y) ≡ (has_byte c x || has_byte c y)
has_byte-append c [] y = refl
has_byte-append c (a ∷ x) y = ground (arith, has_byte-append c x y)

pub join-cons : (c : ℕ) (x : Bytes) (xs : List Bytes) → join (x ∷ xs) c ≡ x ++ tails (c ∷ []) xs
unfolding join join_str
join-cons c x xs = join_str-cons (c ∷ []) x xs

-- Splitting a joined list of at least one piece at the joining byte gives the list back, if that
-- byte is in none of the pieces.
pub split-join :
    (c : ℕ) (x : Bytes) (xs : List Bytes)
    → has_byte c x ≡ false
    → NoneHas c xs
    → split (join (x ∷ xs) c) (c ∷ []) 0 ≡ x ∷ xs
split-join c x xs h hs = ap (λ t. split t (c ∷ []) 0) (join-cons c x xs) ∙ split-tails c x xs h hs
