-- ===== src/Multipart/Bare.antt =====
-- An empty body is printed like none.
use job.File.{is_empty}
use job.Multipart.Load.{Multipart, body_tag}
use job.Multipart.Order.{NoBody, section_of, not_body}
use job.Multipart.Print.{print_section, print_sections}
use job.Multipart.Section.{Section, set_tag, caseless}
use job.Prelude.{
  suc, Bool, ◌&&◌, List, [], ◌∷◌, Bytes, str_eq, str_eq_refl, if◌then◌else◌, length, map, ◌≡◌, refl,
  ap, sym, Bool-cases, inl, inr,
}

-- A section without the entry of an empty body.
abbrev pub bare : Section → Section
bare [] = []
bare ((k, v) ∷ m) = if str_eq k body_tag && is_empty v then m else (k, v) ∷ bare m

-- An object as it is in the file.
abbrev pub printed : Multipart → Multipart
printed m = record m { sections = map bare m.sections }

or_itself : (b : Bytes) → (if is_empty b then [] else b) ≡ b
unfolding is_empty
or_itself [] = refl
or_itself (c ∷ cs) = refl

print_section-bare : (m : Section) → print_section (bare m) ≡ print_section m
unfolding print_section is_empty
print_section-bare [] = refl
print_section-bare ((k, []) ∷ m) = elim (Bool-cases (str_eq k body_tag)) [
  | inr e ↦ rw (e, print_section, print_section-bare m, e)
  | inl e ↦ rw e (ap (λ b. ((print_section m).0, b)) (sym (or_itself (print_section m).1)))
]
print_section-bare ((k, c ∷ cs) ∷ m) = elim (Bool-cases (str_eq k body_tag)) [
  | inr e ↦ rw (e, print_section, print_section-bare m, e)
  | inl e ↦ rw (e, print_section, print_section-bare m, e)
]

length-map-bare : (ms : List Section) → length (map bare ms) ≡ length ms
length-map-bare [] = refl
length-map-bare (m ∷ ms) = ap suc (length-map-bare ms)

pub print_sections-bare :
    (b : Bytes) (closed : Bool) (ms : List Section)
    → print_sections b closed (map bare ms) ≡ print_sections b closed ms
unfolding print_sections
print_sections-bare b closed [] = refl
print_sections-bare b closed (m ∷ ms) =
    rw (print_section-bare m, print_sections-bare b closed ms, length-map-bare ms)

bare_none : (hs : Section) → NoBody hs → bare hs ≡ hs
bare_none [] h = refl
bare_none ((k, v) ∷ hs) h = rw (not_body k h.0, bare_none hs h.1)

-- A body that is written to the headers.
pub bare-set_tag :
    (hs : Section) (body : Bytes) → NoBody hs → bare (set_tag body_tag body hs) ≡ section_of hs body
unfolding set_tag is_empty
bare-set_tag [] [] h = rw (str_eq_refl body_tag)
bare-set_tag [] (c ∷ cs) h = rw (str_eq_refl body_tag)
bare-set_tag ((k, v) ∷ hs) [] h = elim (Bool-cases (caseless body_tag k)) [
  | inl e ↦ rw (h.0, e, str_eq_refl body_tag)
  | inr e ↦ rw (h.0, e, not_body k h.0, bare-set_tag hs [] h.1)
]
bare-set_tag ((k, v) ∷ hs) (c ∷ cs) h = elim (Bool-cases (caseless body_tag k)) [
  | inl e ↦ rw (h.0, e, str_eq_refl body_tag, not_body k h.0, bare_none hs h.1)
  | inr e ↦ rw (h.0, e, not_body k h.0, bare-set_tag hs (c ∷ cs) h.1)
]
