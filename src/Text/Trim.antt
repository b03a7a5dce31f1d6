-- ===== src/Text/Trim.antt =====
-- src/job/string.cxx: `ltrim`, `rtrim`, `trim` and `lc`.
use job.Prelude.{
  true, [], ◌∷◌, ◌++◌, ◌≡◌, refl, ap, sym, ◌∙◌, arith, Bytes, if◌then◌else◌, reverse,
  reverse-append, reverse-reverse, append_assoc, is_space, length, length-append, reverse-cons,
  length-append, reverse-cons, to_lower, map, Bool-cases, inl, inr,
}

-- Erases up to the first byte that is no space.
unfoldable pub ltrim : Bytes → Bytes
ltrim [] = []
ltrim (c ∷ cs) = if is_space c then ltrim cs else c ∷ cs

-- The same from the other end: the source searches with reverse iterators.
unfoldable pub rtrim : Bytes → Bytes
unfolding ltrim
rtrim s = reverse (ltrim (reverse s))

unfoldable pub trim : Bytes → Bytes
unfolding rtrim
trim s = ltrim (rtrim s)

unfoldable pub lc : Bytes → Bytes
lc = map to_lower

abbrev pub AllSpace : Bytes → Type 0
AllSpace [] = Unit
AllSpace (c ∷ cs) = (is_space c ≡ true) × AllSpace cs

-- Nothing of `s` is lost but the spaces in front.
ltrim-append : (s : Bytes) → (l : Bytes) × AllSpace l × (l ++ ltrim s ≡ s)
unfolding ltrim
ltrim-append [] = ([], tt, refl)
ltrim-append (c ∷ cs) = elim (Bool-cases (is_space c)) [
  | inl e ↦ let (l, a, p) = ltrim-append cs in (c ∷ l, (e, a), rw e (ap (◌∷◌ c) p))
  | inr e ↦ ([], tt, rw e)
]

ltrim-ltrim : (s : Bytes) → ltrim (ltrim s) ≡ ltrim s
unfolding ltrim
ltrim-ltrim [] = refl
ltrim-ltrim (c ∷ cs) = elim (Bool-cases (is_space c)) [
  | inl e ↦ rw e (ltrim-ltrim cs)
  | inr e ↦ rw e (rw (e, ltrim))
]

-- A text that `ltrim` leaves alone still is one without its last part, if something is left.
ltrim-prefix : (x y : Bytes) → ltrim (x ++ y) ≡ x ++ y → ltrim x ≡ x
unfolding ltrim
ltrim-prefix [] y h = refl
ltrim-prefix (c ∷ x) y h = elim (Bool-cases (is_space c)) [
  | inr e ↦ rw e
  | inl e ↦ absurd (too_short (ltrim-append (x ++ y)) (rw e at h))
]
  where
    too_short :
        (l : Bytes) × AllSpace l × (l ++ ltrim (x ++ y) ≡ x ++ y)
        → ltrim (x ++ y) ≡ c ∷ (x ++ y)
        → ⊥
    too_short (l, _, p) q =
        omega (arith, ap length p, ap length q, length-append l (ltrim (x ++ y)))

AllSpace-append : (x y : Bytes) → AllSpace x → AllSpace y → AllSpace (x ++ y)
AllSpace-append [] y h k = k
AllSpace-append (c ∷ x) y h k = (h.0, AllSpace-append x y h.1 k)

AllSpace-reverse : (x : Bytes) → AllSpace x → AllSpace (reverse x)
AllSpace-reverse [] h = tt
AllSpace-reverse (c ∷ x) h =
    rw (reverse-cons c x) (AllSpace-append (reverse x) (c ∷ []) (AllSpace-reverse x h.1) (h.0, tt))

rtrim-append : (s : Bytes) → (r : Bytes) × AllSpace r × (rtrim s ++ r ≡ s)
unfolding rtrim
rtrim-append s =
    let (l, a, p) = ltrim-append (reverse s) in
    (
      reverse l,
      AllSpace-reverse l a,
      sym (reverse-append l (ltrim (reverse s))) ∙ ap reverse p ∙ reverse-reverse s,
    )

-- A text is its trimmed form between two runs of spaces, and the trimmed form has no space at
-- either end: each of `ltrim` and `rtrim` leaves it as it is.
pub record IsTrimmed (s t : Bytes) : Type 0 where
  pub left : Bytes
  pub right : Bytes
  pub left_space : AllSpace left
  pub right_space : AllSpace right
  pub whole : left ++ (t ++ right) ≡ s
  pub left_end : ltrim t ≡ t
  pub right_end : rtrim t ≡ t

ltrim-rtrim_end : (y : Bytes) → rtrim y ≡ y → rtrim (ltrim y) ≡ ltrim y
unfolding rtrim
ltrim-rtrim_end y h =
    let (l, _, p) = ltrim-append y in
    let fixed : ltrim (reverse y) ≡ reverse y = sym (reverse-reverse _) ∙ ap reverse h in
    let split : reverse y ≡ reverse (ltrim y) ++ reverse l =
      ap reverse (sym p) ∙ reverse-append l (ltrim y) in
    ap reverse (ltrim-prefix (reverse (ltrim y)) (reverse l) (rw split at fixed))
    ∙ reverse-reverse (ltrim y)

rtrim-rtrim : (s : Bytes) → rtrim (rtrim s) ≡ rtrim s
unfolding rtrim
rtrim-rtrim s =
    ap reverse (ap ltrim (reverse-reverse (ltrim (reverse s))) ∙ ltrim-ltrim (reverse s))

-- `trim` takes off exactly the spaces at the two ends.
pub trim-IsTrimmed : (s : Bytes) → IsTrimmed s (trim s)
unfolding trim
trim-IsTrimmed s =
    let (r, ar, pr) = rtrim-append s in
    let (l, al, pl) = ltrim-append (rtrim s) in
    record {
      left = l;
      right = r;
      left_space = al;
      right_space = ar;
      whole = sym (append_assoc l (ltrim (rtrim s)) r) ∙ ap (λ x. x ++ r) pl ∙ pr;
      left_end = ltrim-ltrim (rtrim s);
      right_end = ltrim-rtrim_end (rtrim s) (rtrim-rtrim s);
    }
