-- ===== src/Multipart/Section.antt =====
-- A section: `std::map<std::string, std::string, caseless>`, with `caseless` of src/job/string.cxx.
-- The map is the list of its entries in its order.
use job.Prelude.{
  Bool, true, false, not, ◌&&◌, ◌||◌, List, [], ◌∷◌, ◌≡◌, refl, ap, sym, ◌∙◌, Option, none, some,
  arith, Bytes, ltb, if◌then◌else◌, to_lower, str_eq, str_eq_iff, Bool-cases, inl, inr,
}
use job.Text.Trim.{lc}
use mathlib.Core.Bool.{false≢true}

-- `std::lexicographical_compare` with `nocase_compare`.
unfoldable pub caseless : Bytes → Bytes → Bool
caseless [] [] = false
caseless [] (d ∷ ds) = true
caseless (c ∷ cs) [] = false
caseless (c ∷ cs) (d ∷ ds) =
    ltb (to_lower c) (to_lower d) || (not (ltb (to_lower d) (to_lower c)) && caseless cs ds)

-- The map's keys are the same if neither comes before the other.
unfoldable pub same_key : Bytes → Bytes → Bool
unfolding caseless
same_key a b = not (caseless a b) && not (caseless b a)

-- Keys are the same exactly if they are so in lower case.
pub same_key_iff : (a b : Bytes) → same_key a b ≡ str_eq (lc a) (lc b)
unfolding same_key caseless lc str_eq
same_key_iff [] [] = refl
same_key_iff [] (d ∷ b) = refl
same_key_iff (c ∷ a) [] = refl
same_key_iff (c ∷ a) (d ∷ b) = rw (← same_key_iff a b) (ground arith)

abbrev pub Section : Type 0
Section = List (Bytes × Bytes)

-- `m.find(tag)`, and `m.count(tag) > 0`.
unfoldable pub find_tag : Section → Bytes → Option Bytes
unfolding same_key
find_tag [] tag = none
find_tag ((k, v) ∷ m) tag = if same_key k tag then some v else find_tag m tag

unfoldable pub count_tag : Section → Bytes → Bool
unfolding find_tag
count_tag m tag = elim (find_tag m tag) [ none ↦ false | some v ↦ true ]

-- `m[tag] = value`: a new entry goes before the first greater key, an old one keeps its key.
unfoldable pub set_tag : Bytes → Bytes → Section → Section
unfolding same_key
set_tag tag value [] = (tag, value) ∷ []
set_tag tag value ((k, v) ∷ m) =
    let rest = set_tag tag value m in
    if same_key k tag
    then (k, value) ∷ m
    else if caseless tag k
    then (tag, value) ∷ ((k, v) ∷ m)
    else (k, v) ∷ rest

find_tag_hit :
    (k v : Bytes) (m : Section) (j : Bytes) → same_key k j ≡ true → find_tag ((k, v) ∷ m) j ≡ some v
unfolding find_tag
find_tag_hit k v m j h = rw h

pub lc_same : (a b : Bytes) → same_key a b ≡ true → lc a ≡ lc b
lc_same a b h = (str_eq_iff (lc a) (lc b)).0 (sym (same_key_iff a b) ∙ h)

same_key_same : (a b j : Bytes) → same_key a b ≡ true → same_key a j ≡ same_key b j
same_key_same a b j h =
    same_key_iff a j ∙ ap (λ x. str_eq x (lc j)) (lc_same a b h) ∙ sym (same_key_iff b j)

not_both :
    (k tag j : Bytes) → same_key k tag ≡ false → same_key k j ≡ true → same_key tag j ≡ true → ⊥
not_both k tag j e h g =
    let same : lc k ≡ lc tag = lc_same k j h ∙ sym (lc_same tag j g) in
    false≢true (sym e ∙ same_key_iff k tag ∙ (str_eq_iff (lc k) (lc tag)).1 same)

either_order {ℓ} :
    {A : Type ℓ} (a b : Bool) (x y z : A)
    → (a ≡ true → b ≡ true → ⊥)
    → (if a then x else (if b then y else z)) ≡ (if b then y else (if a then x else z))
either_order true true x y z h = absurd (h refl refl)
either_order true false x y z h = refl
either_order false b x y z h = refl

-- Reading a section after a write: the value at the keys that are the written one up to case, and
-- what was there at the others.
pub find_tag-set_tag :
    (tag value : Bytes) (m : Section) (j : Bytes)
    → find_tag (set_tag tag value m) j ≡ (if same_key tag j then some value else find_tag m j)
unfolding find_tag set_tag
find_tag-set_tag tag value [] j = refl
find_tag-set_tag tag value ((k, v) ∷ m) j = elim (Bool-cases (same_key k tag)) [
  | inl e ↦
      rw (e, same_key_same k tag j e)
        (elim (Bool-cases (same_key tag j)) [ inl f ↦ rw f | inr f ↦ rw f ])
  | inr e ↦ elim (Bool-cases (caseless tag k)) [
    | inl f ↦ rw (e, f)
    | inr f ↦
        rw (e, f, find_tag-set_tag tag value m j)
          (either_order (same_key k j) (same_key tag j) (some v) (some value) (find_tag m j)
            (not_both k tag j e))
  ]
]
