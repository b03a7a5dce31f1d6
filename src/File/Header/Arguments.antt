-- ===== src/File/Header/Arguments.antt =====
-- The tags `Job-Arg-1`, `Job-Arg-2` and on: `load` reads the arguments that `store` writes.
use job.File.Header.{arg_tag, store_args, load_args, next_arg}
use job.Multipart.Section.{
  Section, set_tag, find_tag, same_key, same_key_iff, caseless, find_tag-set_tag,
}
use job.Number.Decimal.{AllDigits, siz2str-AllDigits, value-siz2str, value}
use job.Number.{int2str, to_int, print_int, siz2str}
use job.Prelude.{
  ℕ, zero, suc, ◌+◌, ◌≤◌, ◌<◌, ◌^◌, ◌%◌, true, false, List, [], ◌∷◌, ◌++◌, none, some, Bytes, codes,
  ltb, str_eq_iff, length, ◌≡◌, ◌≢◌, refl, ap, sym, ◌∙◌, arith, Bool-cases, inl, inr, is_digit,
  to_lower,
}
use job.Text.Trim.{lc}

to_lower_digit : (c : ℕ) → is_digit c ≡ true → to_lower c ≡ c
unfolding to_lower is_digit
to_lower_digit c h = ground arith

pub int2str_small : (n : ℕ) → n < 2 ^ 31 → int2str n ≡ siz2str n
unfolding int2str to_int print_int
int2str_small n h =
    let wrap : n % 2 ^ 32 ≡ n = omega arith in
    let small : ltb n (2 ^ 31) ≡ true = ground arith in rw (wrap, small)

lc_digits : (ds : Bytes) → AllDigits ds → lc ds ≡ ds
unfolding lc
lc_digits [] a = refl
lc_digits (c ∷ ds) a = rw (to_lower_digit c a.0) (ap (◌∷◌ c) (lc_digits ds a.1))

lc-arg_tag : (a : ℕ) → a < 2 ^ 31 → lc (arg_tag a) ≡ codes "job-arg-" ++ siz2str a
unfolding arg_tag lc to_lower
lc-arg_tag a h =
    rw (int2str_small a h)
      (ap (λ x. codes "job-arg-" ++ x) (lc_digits (siz2str a) (siz2str-AllDigits a)))

-- Two argument tags are one key only if they have one number.
same_key-arg_tag :
    (a b : ℕ) → a < 2 ^ 31 → b < 2 ^ 31 → a ≢ b → same_key (arg_tag a) (arg_tag b) ≡ false
same_key-arg_tag a b h k n = elim (Bool-cases (same_key (arg_tag a) (arg_tag b))) [
  | inr e ↦ e
  | inl e ↦ absurd (n (sym (value-siz2str a) ∙ ap (value 0) (digits_same e) ∙ value-siz2str b))
]
  where
    drop8 : (x y : Bytes) → (codes "job-arg-" ++ x) ≡ (codes "job-arg-" ++ y) → x ≡ y
    drop8 x y e = cc

    digits_same : same_key (arg_tag a) (arg_tag b) ≡ true → siz2str a ≡ siz2str b
    digits_same e = drop8 (siz2str a) (siz2str b) (
        sym (lc-arg_tag a h)
        ∙ (str_eq_iff (lc (arg_tag a)) (lc (arg_tag b))).0
            (sym (same_key_iff (arg_tag a) (arg_tag b)) ∙ e)
        ∙ lc-arg_tag b k)

same_key-arg_tag_self : (a : ℕ) → same_key (arg_tag a) (arg_tag a) ≡ true
same_key-arg_tag_self a =
    same_key_iff (arg_tag a) (arg_tag a) ∙ (str_eq_iff (lc (arg_tag a)) (lc (arg_tag a))).1 refl

find_other :
    (tag v j : Bytes) (m : Section)
    → same_key tag j ≡ false
    → find_tag (set_tag tag v m) j ≡ find_tag m j
find_other tag v j m h = find_tag-set_tag tag v m j ∙ rw h

find_same :
    (tag v j : Bytes) (m : Section) → same_key tag j ≡ true → find_tag (set_tag tag v m) j ≡ some v
find_same tag v j m h = find_tag-set_tag tag v m j ∙ rw h

-- Other keys are left alone.
pub find-store_args :
    (a : ℕ) (xs : List Bytes) (m : Section) (j : Bytes)
    → ((k : ℕ) → a ≤ k → k < a + length xs → same_key (arg_tag k) j ≡ false)
    → find_tag (store_args a xs m) j ≡ find_tag m j
unfolding store_args
find-store_args a [] m j h = refl
find-store_args a (x ∷ xs) m j h =
    find-store_args (suc a) xs (set_tag (arg_tag a) x m) j
      (λ k p q. h k (omega arith) (omega arith))
    ∙ find_other (arg_tag a) x j m (h a (omega arith) (omega arith))

-- No argument from the number `a` on.
abbrev pub HasNoArgs : ℕ → Section → Type 0
HasNoArgs a m = (k : ℕ) → a ≤ k → k < 2 ^ 31 → find_tag m (arg_tag k) ≡ none

HasNoArgs-set_tag :
    (a : ℕ) (x : Bytes) (m : Section)
    → a < 2 ^ 31
    → HasNoArgs a m
    → HasNoArgs (suc a) (set_tag (arg_tag a) x m)
HasNoArgs-set_tag a x m s h k p q =
    find_other (arg_tag a) x (arg_tag k) m (same_key-arg_tag a k s q (λ e. omega (arith, e)))
    ∙ h k (omega arith) q

pub load_args-store_args :
    (fuel a : ℕ) (xs : List Bytes) (m : Section)
    → length xs < fuel
    → a + length xs < 2 ^ 31
    → HasNoArgs a m
    → load_args fuel a (store_args a xs m) ≡ xs
unfolding load_args next_arg store_args
load_args-store_args zero a xs m f s h = absurd (omega arith)
load_args-store_args (suc fuel) a [] m f s h = rw (h a (omega arith) (omega arith))
load_args-store_args (suc fuel) a (x ∷ xs) m f s h =
    let found : find_tag (store_args (suc a) xs (set_tag (arg_tag a) x m)) (arg_tag a) ≡ some x =
      find-store_args (suc a) xs (set_tag (arg_tag a) x m) (arg_tag a)
        (λ k p q. same_key-arg_tag k a (omega arith) (omega arith) (λ e. omega (arith, e)))
      ∙ find_same (arg_tag a) x (arg_tag a) m (same_key-arg_tag_self a) in
    rw found (
      ap (◌∷◌ x) (
        load_args-store_args fuel (suc a) xs (set_tag (arg_tag a) x m) (omega arith) (omega arith)
          (HasNoArgs-set_tag a x m (omega arith) h)))

pub load_args_same :
    (fuel a : ℕ) (m n : Section)
    → ((k : ℕ) → find_tag m (arg_tag k) ≡ find_tag n (arg_tag k))
    → load_args fuel a m ≡ load_args fuel a n
unfolding load_args
load_args_same zero a m n h = refl
load_args_same (suc fuel) a m n h = rw (h a, load_args_same fuel (suc a) m n h)

pub length-set_tag : (tag v : Bytes) (m : Section) → length m ≤ length (set_tag tag v m)
unfolding set_tag
length-set_tag tag v [] = omega arith
length-set_tag tag v ((k, w) ∷ m) = elim (Bool-cases (same_key k tag)) [
  | inl e ↦ rw e (omega arith)
  | inr e ↦ elim (Bool-cases (caseless tag k)) [
    | inl f ↦ rw (e, f) (omega arith)
    | inr f ↦ rw (e, f) (omega (arith, length-set_tag tag v m))
  ]
]

length-set_tag_new :
    (tag v : Bytes) (m : Section)
    → find_tag m tag ≡ none
    → length (set_tag tag v m) ≡ suc (length m)
unfolding set_tag find_tag
length-set_tag_new tag v [] h = refl
length-set_tag_new tag v ((k, w) ∷ m) h = elim (Bool-cases (same_key k tag)) [
  | inl e ↦ (let bad : some w ≡ none = sym (rw e) ∙ h in cc)
  | inr e ↦ elim (Bool-cases (caseless tag k)) [
    | inl f ↦ rw (e, f)
    | inr f ↦ rw (e, f) (ap suc (length-set_tag_new tag v m (sym (rw e) ∙ h)))
  ]
]

pub length-store_args :
    (a : ℕ) (xs : List Bytes) (m : Section)
    → a + length xs < 2 ^ 31
    → HasNoArgs a m
    → length (store_args a xs m) ≡ length m + length xs
unfolding store_args
length-store_args a [] m s h = omega arith
length-store_args a (x ∷ xs) m s h = omega (
  arith,
  length-store_args (suc a) xs (set_tag (arg_tag a) x m) (omega arith)
      (HasNoArgs-set_tag a x m (omega arith) h),
  length-set_tag_new (arg_tag a) x m (h a (omega arith) (omega arith)),
)
