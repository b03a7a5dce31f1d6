-- ===== src/Text/Search.antt =====
-- src/job/string.cxx: `tail`, `has_head`, `has_tail`, and the `std::string::find` that `split` and
-- `replace_all` call.
use job.Prelude.{
  ℕ, ◌+◌, ◌-◌, ◌<◌, Bool, true, false, ◌&&◌, [], ◌∷◌, ◌++◌, ◌≡◌, ◌≢◌, refl, ap, sym, ◌∙◌, ◌↔◌,
  Option, none, some, arith, Bytes, ltb, ◌==◌, if◌then◌else◌, length, take, drop, str_eq,
  str_eq_iff, str_eq_refl, length-append, take-append-drop, take-length_append, drop-length_append,
  Bool-cases, inl, inr,
}

-- Whether `s` begins with `m`, as `s.compare(0, m.size(), m) == 0`.
unfoldable pub starts_with : Bytes → Bytes → Bool
starts_with [] s = true
starts_with (m ∷ ms) [] = false
starts_with (m ∷ ms) (c ∷ cs) = m == c && starts_with ms cs

unfoldable pub push_before : ℕ → Option (Bytes × Bytes) → Option (Bytes × Bytes)
push_before c none = none
push_before c (some (before, after)) = some (c ∷ before, after)

-- `s.find(d)`: what stands before the first place where `d` occurs, and what follows it there.
unfoldable pub find : Bytes → Bytes → Option (Bytes × Bytes)
unfolding starts_with push_before
find d [] = none
find d (c ∷ cs) =
    if starts_with d (c ∷ cs)
    then some ([], drop (length d) (c ∷ cs))
    else push_before c (find d cs)

unfoldable pub tail : Bytes → ℕ → Bytes
tail s amt = if ltb (length s) amt then s else drop (length s - amt) s

unfoldable pub has_head : Bytes → Bytes → Bool
has_head s m = str_eq (take (length m) s) m

unfoldable pub has_tail : Bytes → Bytes → Bool
unfolding tail
has_tail s m = str_eq (tail s (length m)) m

tail-append : (r m : Bytes) → tail (r ++ m) (length m) ≡ m
unfolding tail
tail-append r m =
    let n : length (r ++ m) ≡ length r + length m = length-append r m in
    let low : ltb (length (r ++ m)) (length m) ≡ false = ground arith in
    let cut : length (r ++ m) - length m ≡ length r = omega arith in
    rw (low, cut) (drop-length_append r m)

pub starts_with-drop : (d s : Bytes) → starts_with d s ≡ true → d ++ drop (length d) s ≡ s
unfolding starts_with
starts_with-drop [] s h = refl
starts_with-drop (m ∷ ms) [] h = ground arith
starts_with-drop (m ∷ ms) (c ∷ cs) h = ground (arith, starts_with-drop ms cs)

push_before-append :
    (c : ℕ) (d cs : Bytes) (o : Option (Bytes × Bytes)) {before after : Bytes}
    → ((b a : Bytes) → o ≡ some (b, a) → b ++ (d ++ a) ≡ cs)
    → push_before c o ≡ some (before, after)
    → before ++ (d ++ after) ≡ c ∷ cs
unfolding push_before
push_before-append c d cs none ih h = cc
push_before-append c d cs (some (b, a)) ih h = ground (arith, ih b a refl)

-- `find` splits the text round the string found.
pub find-append :
    (d s : Bytes) {before after : Bytes}
    → find d s ≡ some (before, after)
    → before ++ (d ++ after) ≡ s
unfolding find
find-append d [] h = cc
find-append d (c ∷ cs) h = elim (Bool-cases (starts_with d (c ∷ cs))) [
  | inl e ↦ ground (arith, starts_with-drop d (c ∷ cs))
  | inr e ↦ push_before-append c d cs (find d cs) (λ b a k. find-append d cs k) (rw e at h)
]

-- What is left after a match is shorter than the text, if the string sought is not empty.
pub find-length :
    (d s : Bytes) {before after : Bytes}
    → d ≢ []
    → find d s ≡ some (before, after)
    → length after < length s
find-length [] s n h = absurd (n refl)
find-length (x ∷ d) s {before} {after} n h = omega (
  arith,
  ap length (find-append (x ∷ d) s h),
  length-append before (x ∷ d ++ after),
  length-append d after,
)

-- `has_head` holds exactly of the texts that begin with the string.
pub has_head_iff : (s m : Bytes) → (has_head s m ≡ true) ↔ ((r : Bytes) × (s ≡ m ++ r))
unfolding has_head
has_head_iff s m = (there, back)
  where
    there : str_eq (take (length m) s) m ≡ true → (r : Bytes) × (s ≡ m ++ r)
    there h = (
      drop (length m) s,
      sym (
          ap (λ x. x ++ drop (length m) s) (sym ((str_eq_iff _ m).0 h))
          ∙ take-append-drop (length m) s),
    )

    back : (r : Bytes) × (s ≡ m ++ r) → str_eq (take (length m) s) m ≡ true
    back (r, e) = rw (e, take-length_append m r) (str_eq_refl m)

-- `has_tail` holds exactly of the texts that end with the string.
pub has_tail_iff : (s m : Bytes) → (has_tail s m ≡ true) ↔ ((r : Bytes) × (s ≡ r ++ m))
unfolding has_tail
has_tail_iff s m = (there, back)
  where
    there : str_eq (tail s (length m)) m ≡ true → (r : Bytes) × (s ≡ r ++ m)
    there h = elim (Bool-cases (ltb (length s) (length m))) [
      | inl e ↦ ([], rw (e, tail) at ((str_eq_iff _ m).0 h))
      | inr e ↦ (
        take (length s - length m) s,
        sym (
            ap (λ x. take (length s - length m) s ++ x)
              (sym (rw (e, tail) at ((str_eq_iff _ m).0 h)))
            ∙ take-append-drop (length s - length m) s),
      )
    ]

    back : (r : Bytes) × (s ≡ r ++ m) → str_eq (tail s (length m)) m ≡ true
    back (r, e) = rw (e, tail-append r m) (str_eq_refl m)
