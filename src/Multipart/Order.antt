-- ===== src/Multipart/Order.antt =====
-- Writes to a section in the order of its keys, to its body, and to the last section of a file.
use job.Multipart.Load.{at_section, append_body, end_body, chop, body_tag}
use job.Multipart.Print.{print_section, field}
use job.Multipart.Section.{
  Section, find_tag, set_tag, same_key, same_key_iff, caseless, find_tag-set_tag,
}
use job.File.{is_empty}
use job.Prelude.{
  ℕ, true, false, List, [], ◌∷◌, ◌++◌, none, Bytes, length, str_eq, str_eq_iff, ◌≡◌, refl, ap, sym,
  ◌∙◌, Bool-cases, inl, inr,
}
use mathlib.Core.Bool.{false≢true}

-- Every key of a section comes before `tag` in the order of `caseless`.
abbrev pub AllBefore {ℓ} : {A : Type ℓ} → List (Bytes × A) → Bytes → Type 0
AllBefore [] tag = Unit
AllBefore ((k, v) ∷ m) tag = (same_key k tag ≡ false) × (caseless tag k ≡ false) × AllBefore m tag

pub set_tag_last :
    (m : Section) (tag v : Bytes) → AllBefore m tag → set_tag tag v m ≡ m ++ (tag, v) ∷ []
unfolding set_tag
set_tag_last [] tag v h = refl
set_tag_last ((k, w) ∷ m) tag v h = rw (h.0, h.1, set_tag_last m tag v h.2)

pub same_key_self : (k : Bytes) → same_key k k ≡ true
same_key_self k = same_key_iff k k ∙ (str_eq_iff _ _).1 refl

-- The second of two writes counts.
set_tag_twice : (tag v w : Bytes) (m : Section) → set_tag tag w (set_tag tag v m) ≡ set_tag tag w m
unfolding set_tag
set_tag_twice tag v w [] = rw (same_key_self tag)
set_tag_twice tag v w ((k, x) ∷ m) = elim (Bool-cases (same_key k tag)) [
  | inl e ↦ rw (e, set_tag, e)
  | inr e ↦ elim (Bool-cases (caseless tag k)) [
    | inl f ↦ rw (e, f, set_tag, same_key_self tag)
    | inr f ↦ rw (e, f, set_tag, e, f, set_tag_twice tag v w m)
  ]
]

-- No key is the one of the body, up to case.
abbrev pub NoBody : Section → Type 0
NoBody [] = Unit
NoBody ((k, v) ∷ m) = (same_key k body_tag ≡ false) × NoBody m

pub find_tag-NoBody : (hs : Section) → NoBody hs → find_tag hs body_tag ≡ none
unfolding find_tag
find_tag-NoBody [] h = refl
find_tag-NoBody ((k, v) ∷ hs) h = rw h.0 (find_tag-NoBody hs h.1)

-- A section made of headers and a body.
abbrev pub section_of : Section → Bytes → Section
section_of hs [] = hs
section_of hs (c ∷ cs) = set_tag body_tag (c ∷ cs) hs

pub append_body_more :
    (hs : Section) (c : ℕ) (cs line : Bytes)
    → append_body line (section_of hs (c ∷ cs)) ≡ section_of hs ((c ∷ cs) ++ line)
unfolding append_body set_tag
append_body_more hs c cs line =
    rw (find_tag-set_tag body_tag (c ∷ cs) hs body_tag, same_key_self body_tag, append_body)
      (set_tag_twice body_tag (c ∷ cs) ((c ∷ cs) ++ line) hs)

chop_newline : (x : Bytes) → chop (x ++ b'\n' ∷ []) ≡ x
unfolding chop
chop_newline [] = refl
chop_newline (c ∷ []) = refl
chop_newline (c ∷ (d ∷ cs)) = ap (◌∷◌ c) (chop_newline (d ∷ cs))

-- What the boundary takes off.
pub end_body_newline :
    (hs : Section) (c : ℕ) (cs : Bytes)
    → end_body (section_of hs ((c ∷ cs) ++ b'\n' ∷ [])) ≡ section_of hs (c ∷ cs)
unfolding end_body set_tag
end_body_newline hs c cs =
    rw
      (
        find_tag-set_tag body_tag ((c ∷ cs) ++ b'\n' ∷ []) hs body_tag,
        same_key_self body_tag,
        end_body,
      )
      (set_tag_twice body_tag ((c ∷ cs) ++ b'\n' ∷ []) (chop ((c ∷ cs) ++ b'\n' ∷ [])) hs
        ∙ ap (λ b. set_tag body_tag b hs) (chop_newline (c ∷ cs)))

pub end_body_none : (hs : Section) → NoBody hs → end_body hs ≡ hs
unfolding end_body
end_body_none hs h = rw (find_tag-NoBody hs h, end_body)

pub not_body : (k : Bytes) → same_key k body_tag ≡ false → str_eq k body_tag ≡ false
not_body k h = elim (Bool-cases (str_eq k body_tag)) [
  | inr e ↦ e
  | inl e ↦ absurd (
      false≢true (
        sym h
        ∙ ap (λ x. same_key x body_tag) ((str_eq_iff k body_tag).0 e)
        ∙ same_key_self body_tag))
]

-- The headers as they are printed.
abbrev pub fields : Section → Bytes
fields [] = []
fields ((k, v) ∷ hs) = field k v ++ fields hs

print_section-fields : (hs : Section) → NoBody hs → print_section hs ≡ (fields hs, [])
unfolding print_section
print_section-fields [] h = refl
print_section-fields ((k, v) ∷ hs) h = rw (not_body k h.0, print_section-fields hs h.1)

print_section-set_tag :
    (hs : Section) (c : ℕ) (cs : Bytes)
    → NoBody hs
    → print_section (set_tag body_tag (c ∷ cs) hs) ≡ (fields hs, c ∷ cs)
unfolding print_section set_tag str_eq is_empty
print_section-set_tag [] c cs h = refl
print_section-set_tag ((k, v) ∷ hs) c cs h = elim (Bool-cases (caseless body_tag k)) [
  | inl e ↦ rw (h.0, e, print_section, not_body k h.0, print_section-fields hs h.1)
  | inr e ↦ rw (h.0, e, print_section, not_body k h.0, print_section-set_tag hs c cs h.1)
]

-- A section is printed as its headers and its body, wherever the body stands in the map.
pub print_section-section_of :
    (hs : Section) (body : Bytes)
    → NoBody hs
    → print_section (section_of hs body) ≡ (fields hs, body)
print_section-section_of hs [] h = print_section-fields hs h
print_section-section_of hs (c ∷ cs) h = print_section-set_tag hs c cs h

-- Writes to the section behind the last one, and to the last one.
pub at_section_new :
    (old : List Section) (f : Section → Section) → at_section (length old) f old ≡ old ++ f [] ∷ []
unfolding at_section
at_section_new [] f = refl
at_section_new (m ∷ old) f = ap (◌∷◌ m) (at_section_new old f)

pub at_section_last :
    (old : List Section) (m : Section) (f : Section → Section)
    → at_section (length old) f (old ++ m ∷ []) ≡ old ++ f m ∷ []
unfolding at_section
at_section_last [] m f = refl
at_section_last (n ∷ old) m f = ap (◌∷◌ n) (at_section_last old m f)
