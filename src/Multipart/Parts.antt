-- ===== src/Multipart/Parts.antt =====
-- The parts of a multipart file that is printed: headers and a body each.
use job.File.{is_empty}
use job.Multipart.Bound.{bound_line}
use job.Multipart.Entry.{AllId, IsValue, IsPrinted, nothing, something, id_byte, single, longer}
use job.Multipart.Scanning.{AllPlain}
use job.Multipart.Lines.{AllPlain-append}
use job.Multipart.Load.{body_tag, fgets_lines}
use job.Multipart.Order.{AllBefore, NoBody, section_of, fields, print_section-section_of}
use job.Multipart.Print.{field, field_minlen, print_sections, print_bound}
use job.Multipart.Reading.{IsHeaderTag, bound_after, AreBodyLines}
use job.Multipart.Section.{Section, same_key}
use job.Prelude.{
  ℕ, zero, suc, ◌-◌, ◌<◌, Bool, true, false, not, ◌&&◌, ◌||◌, List, [], ◌∷◌, ◌++◌, Bytes, codes,
  ◌==◌, if◌then◌else◌, length, replicate, str_eq, ◌≡◌, refl, ap, sym, ◌∙◌, subst, arith,
  append_assoc, Bool-cases, inl, inr,
}

abbrev pub Part : Type 0
Part = Section × Bytes

abbrev pub sections_of : List Part → List Section
sections_of [] = []
sections_of ((hs, body) ∷ ps) = section_of hs body ∷ sections_of ps

-- A printed header without its newline.
abbrev pub field_text : Bytes → Bytes → Bytes
field_text k v = k ++ (codes ": " ++ (replicate (field_minlen - length k) b' ' ++ v))

-- A header that fits the buffer, and is not the tag of the body.
abbrev pub IsHeader : Bytes → Bytes → Type 0
IsHeader k v =
    IsHeaderTag k × IsPrinted v × (length (field_text k v) < 4095) × (same_key k body_tag ≡ false)

-- Headers in the order of their tags, behind `done`.
abbrev pub AreHeaders : Section → Section → Type 0
AreHeaders done [] = Unit
AreHeaders done ((k, v) ∷ hs) =
    IsHeader k v × AllBefore done k × AreHeaders (done ++ (k, v) ∷ []) hs

abbrev pub AreSome : Section → Type 0
AreSome [] = ⊥
AreSome ((k, v) ∷ hs) = AreHeaders [] ((k, v) ∷ hs)

AreHeaders-NoBody : (done hs : Section) → AreHeaders done hs → NoBody hs
AreHeaders-NoBody done [] h = tt
AreHeaders-NoBody done ((k, v) ∷ hs) h = (h.0.3, AreHeaders-NoBody (done ++ (k, v) ∷ []) hs h.2)

pub AreSome-NoBody : (hs : Section) → AreSome hs → NoBody hs
AreSome-NoBody [] h = elim h [ ]
AreSome-NoBody ((k, v) ∷ hs) h = AreHeaders-NoBody [] ((k, v) ∷ hs) h

-- The first byte is no `#`; no line, as `fgets` cuts them, is a boundary or has a NUL. `after` is
-- what the printer puts behind the body on its line.
abbrev pub IsBody : Bytes → Bytes → Bytes → Type 0
IsBody b after [] = Unit
IsBody b after (c ∷ cs) =
    ((c == b'#') ≡ false) × AreBodyLines b (fgets_lines 4096 4095 [] ((c ∷ cs) ++ after))

-- Whether a boundary follows a section.
abbrev pub is_bounded : Bytes → Bool → List Section → Bool
is_bounded b closed ms = not (is_empty b) && (closed || not (length ms == 0))

abbrev pub AreParts : Bytes → Bool → List Part → Type 0
AreParts b closed [] = Unit
AreParts b closed ((hs, body) ∷ ps) =
    AreSome hs
    × IsBody b (if is_bounded b closed (sections_of ps) then codes "\n" else []) body
    × AreParts b closed ps

-- The boundary that the headers of a section leave.
abbrev pub learned : ℕ → Bytes → Section → Bytes
learned k b [] = b
learned k b ((t, v) ∷ hs) = learned k (bound_after k b t v) hs

bound_after_known : (k : ℕ) (c : ℕ) (cs t v : Bytes) → bound_after k (c ∷ cs) t v ≡ c ∷ cs
unfolding str_eq
bound_after_known k c cs t v = elim (Bool-cases (k == 0)) [ inl e ↦ rw e | inr e ↦ rw e ]

-- A boundary that is known stays.
pub learned_known : (k c : ℕ) (cs : Bytes) (hs : Section) → learned k (c ∷ cs) hs ≡ c ∷ cs
learned_known k c cs [] = refl
learned_known k c cs ((t, v) ∷ hs) =
    ap (λ b. learned k b hs) (bound_after_known k c cs t v) ∙ learned_known k c cs hs

AllId-AllPlain : (cs : Bytes) → AllId cs → AllPlain cs
AllId-AllPlain [] a = tt
AllId-AllPlain (c ∷ cs) a = ((id_byte c a.0).1, AllId-AllPlain cs a.1)

pub blanks_plain : (k : ℕ) → AllPlain (replicate k b' ')
blanks_plain zero = tt
blanks_plain (suc k) = (refl, blanks_plain k)

pub IsValue-AllPlain : {v : Bytes} → IsValue v → AllPlain v
IsValue-AllPlain (single c b p e) = subst AllPlain (sym e) (p, tt)
IsValue-AllPlain (longer c d cs b p a b' p' e) =
    subst AllPlain (sym e) (p, AllPlain-append cs (d ∷ []) a (p', tt))

IsPrinted-AllPlain : {v : Bytes} → IsPrinted v → AllPlain v
IsPrinted-AllPlain (nothing e) = subst AllPlain (sym e) tt
IsPrinted-AllPlain (something h) = IsValue-AllPlain h

pub field_text-AllPlain : (k v : Bytes) → IsHeader k v → AllPlain (field_text k v)
field_text-AllPlain [] v h = elim h.0 [ ]
field_text-AllPlain (c ∷ cs) v h =
    AllPlain-append (c ∷ cs) (codes ": " ++ (replicate (field_minlen - length (c ∷ cs)) b' ' ++ v))
      (AllId-AllPlain (c ∷ cs) h.0.0)
      (
        refl,
        (
          refl,
          AllPlain-append (replicate (field_minlen - length (c ∷ cs)) b' ') v
              (blanks_plain (field_minlen - length (c ∷ cs))) (IsPrinted-AllPlain h.1),
        ),
      )

pub field-field_text : (k v rest : Bytes) → field k v ++ rest ≡ field_text k v ++ b'\n' ∷ rest
unfolding field
field-field_text k v rest = simp append_assoc

-- What stands behind the headers of a section.
abbrev pub print_body : Bytes → Bytes
print_body body = if is_empty body then [] else b'\n' ∷ body

-- The text of a part and the following ones.
pub print_sections-part :
    (b : Bytes) (closed : Bool) (hs : Section) (body : Bytes) (ms : List Section)
    → NoBody hs
    → print_sections b closed (section_of hs body ∷ ms)
      ≡ fields hs
        ++ (print_body body
            ++ (print_bound b closed (length ms == 0) ++ print_sections b closed ms))
unfolding print_sections
print_sections-part b closed hs body ms h = rw (print_section-section_of hs body h)

or_true : (closed : Bool) → (closed || true) ≡ true
or_true true = refl
or_true false = refl

pub print_bound_mid :
    (c : ℕ) (cs : Bytes) (closed : Bool) (m : Section) (ms : List Section) (rest : Bytes)
    → print_bound (c ∷ cs) closed (length (m ∷ ms) == 0) ++ rest
      ≡ b'\n' ∷ (bound_line (c ∷ cs) (b'\n' ∷ rest))
unfolding print_bound is_empty
print_bound_mid c cs closed m ms rest =
    let other : (length (m ∷ ms) == 0) ≡ false = ground arith in
    rw (other, or_true closed)
      (ap (λ l. b'\n' ∷ (b'-' ∷ (b'-' ∷ (c ∷ l)))) (append_assoc cs (codes "\n") rest))

pub print_bound_end :
    (c : ℕ) (cs rest : Bytes)
    → print_bound (c ∷ cs) true (length {A = Section} [] == 0) ++ rest
      ≡ b'\n' ∷ (bound_line (c ∷ cs) (b'-' ∷ (b'-' ∷ (b'\n' ∷ rest))))
unfolding print_bound is_empty
print_bound_end c cs rest =
    ap (λ l. b'\n' ∷ (b'-' ∷ (b'-' ∷ (c ∷ l)))) (append_assoc cs (codes "--\n") rest)
