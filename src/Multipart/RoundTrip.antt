-- ===== src/Multipart/RoundTrip.antt =====
-- `load` reads the multipart file that `to_string` prints.
use job.File.{is_empty}
use job.Multipart.Bodies.{whole, loaded_rest, loaded_last}
use job.Multipart.Bound.{IsBoundary}
use job.Multipart.Headers.{loaded, loaded_headers, loaded_new}
use job.Multipart.Load.{Multipart, new_multipart, ok, load}
use job.Multipart.Order.{section_of, fields}
use job.Multipart.Bare.{printed, print_sections-bare}
use job.Multipart.Parts.{
  Part, sections_of, AreSome, AreHeaders, AreSome-NoBody, AreParts, learned, print_body,
  print_sections-part,
}
use job.Multipart.Print.{print_sections, print_bound, to_string}
use job.Multipart.Reading.{reader}
use job.Multipart.Section.{Section}
use job.Prelude.{
  ℕ, Bool, true, false, not, ◌&&◌, List, [], ◌∷◌, ◌++◌, Bytes, ltb, ◌==◌, length, ◌≡◌, refl, ap,
  sym, ◌∙◌, arith, append-nil,
}

-- An object whose sections are parts in order, and whose first section names the boundary if there is
-- one; several sections have one.
pub data IsPrintable (m : Multipart) : Type 0 where
  printable :
      (hs : Section) (body : Bytes) (ps : List Part)
      → m.sections ≡ sections_of ((hs, body) ∷ ps)
      → learned 0 [] hs ≡ m.boundary
      → IsBoundary m.boundary
      → (ltb 0 (length ps) && is_empty m.boundary) ≡ false
      → AreParts m.boundary m.closed ((hs, body) ∷ ps)
      → IsPrintable m

and_true : (b : Bool) → b ≡ (b && true)
and_true true = refl
and_true false = refl

and_false : (b : Bool) → false ≡ (b && false)
and_false true = refl
and_false false = refl

-- What the headers of the first section become, read into `ss0`.
abbrev Starts : List Section → Section → Type 0
Starts ss0 hs =
    (rest : Bytes)
    → (n : ℕ) × (loaded (reader ss0 [] [] 0 false false 0) (fields hs ++ rest)
        ≡ loaded (reader (hs ∷ []) (learned 0 [] hs) [] n false false 0) rest)

module _ (ss0 : List Section) (closed : Bool) (hs : Section) (body : Bytes)
    (starts : Starts ss0 hs) where
  abbrev text_of : Bytes → List Part → Bytes
  text_of b ps = print_sections b closed (sections_of ((hs, body) ∷ ps))

  loaded_text :
      (b : Bytes) (ps : List Part)
      → learned 0 [] hs ≡ b
      → IsBoundary b
      → (ltb 0 (length ps) && is_empty b) ≡ false
      → AreParts b closed ((hs, body) ∷ ps)
      → (st : Bytes) × (loaded (reader ss0 [] [] 0 false false 0) (text_of b ps)
          ≡ whole (sections_of ((hs, body) ∷ ps)) b st (closed && not (is_empty b)))
  unfolding is_empty print_bound print_sections
  loaded_text [] [] e i s a =
      let (n, f) = starts (print_body body) in
      let (st, g) = loaded_last [] hs [] body [] n a.1 in
      let start = reader ss0 [] [] 0 false false 0 in
      (
        st,
        ap (loaded start) (
              print_sections-part [] closed hs body [] (AreSome-NoBody hs a.0)
              ∙ ap (λ t. fields hs ++ t) (append-nil (print_body body)))
            ∙ f
            ∙ ap (λ b. loaded (reader (hs ∷ []) b [] n false false 0) (print_body body)) e
            ∙ g
            ∙ ap (whole (section_of hs body ∷ []) [] st) (and_false closed),
      )
  loaded_text [] (p ∷ ps) e i s a = absurd (ground (arith, s))
  loaded_text (c ∷ cs) ps e i s a =
      let ms = sections_of ps in
      let text =
        print_body body
        ++ (print_bound (c ∷ cs) closed (length ms == 0) ++ print_sections (c ∷ cs) closed ms) in
      let (n, f) = starts text in
      let (st, g) = loaded_rest c cs i closed [] hs body ps [] n a in
      (
        st,
        ap (loaded (reader ss0 [] [] 0 false false 0))
              (print_sections-part (c ∷ cs) closed hs body ms (AreSome-NoBody hs a.0))
            ∙ f
            ∙ ap (λ b. loaded (reader (hs ∷ []) b [] n false false 0) text) e
            ∙ g
            ∙ ap (whole (section_of hs body ∷ ms) (c ∷ cs) st) (and_true closed),
      )

module _ (ss0 : List Section) (uuid : Bytes) (m : Multipart) where
  abbrev after : Multipart
  after = (to_string uuid m).0

  load_from :
      IsPrintable (printed after)
      → ((hs : Section) → AreSome hs → Starts ss0 hs)
      → (st : Bytes) × (load (to_string uuid m).1 (record new_multipart { sections = ss0 })
          ≡ ok (record (printed after) {
            substatus = st;
            closed = after.closed && not (is_empty after.boundary);
          }))
  unfolding load to_string
  load_from (printable hs body ps e l i s a) start =
      let (st, f) = loaded_text ss0 after.closed hs body (start hs a.0) after.boundary ps l i s a in
      (
        st,
        ap (loaded (reader ss0 [] [] 0 false false 0)) (
              sym (print_sections-bare after.boundary after.closed after.sections)
              ∙ ap (print_sections after.boundary after.closed) e)
            ∙ f
            ∙ ap (λ ss. whole ss after.boundary st (after.closed && not (is_empty after.boundary)))
                (sym e),
      )

-- `load` of the text that `to_string` makes of an object gives back the object that `to_string` leaves,
-- boundary included but an empty body left out, if that has at least one section and is printable: every section has headers, in
-- the order of the map, each on a line that fits the buffer of `load`, with a tag of letters, digits,
-- `-`, `_` or `.` that does not begin with `-` and is not `__BODY__`, and a value that has no end of line
-- or NUL and neither begins nor ends with a blank; a body has no NUL, does not begin
-- with `#`, and has no line that is a boundary; the boundary is on one line and shorter than 80 bytes,
-- the first section names it if there is one, and several sections have one. The substatus is the only
-- thing that may differ, and the flag `closed`, which is off where there is no boundary.
pub load-to_string_multipart :
    (uuid : Bytes) (m : Multipart)
    → IsPrintable (printed (to_string uuid m).0)
    → (st : Bytes) × (load (to_string uuid m).1 new_multipart
        ≡ ok (record (printed (to_string uuid m).0) {
          substatus = st;
          closed = (to_string uuid m).0.closed && not (is_empty (to_string uuid m).0.boundary);
        }))
load-to_string_multipart uuid m h =
    load_from [] uuid m h (λ hs a rest. loaded_new [] [] hs [] 0 rest a)

AreSome-AreHeaders : (hs : Section) → AreSome hs → AreHeaders [] hs
AreSome-AreHeaders [] a = elim a [ ]
AreSome-AreHeaders ((k, v) ∷ hs) a = a

-- The same for an object that has an empty section already.
pub load-to_string_section :
    (uuid : Bytes) (m : Multipart)
    → IsPrintable (printed (to_string uuid m).0)
    → (st : Bytes) × (load (to_string uuid m).1 (record new_multipart { sections = [] ∷ [] })
        ≡ ok (record (printed (to_string uuid m).0) {
          substatus = st;
          closed = (to_string uuid m).0.closed && not (is_empty (to_string uuid m).0.boundary);
        }))
load-to_string_section uuid m h =
    load_from ([] ∷ []) uuid m h
      (λ hs a rest. loaded_headers [] [] [] hs [] 0 rest (AreSome-AreHeaders hs a))
