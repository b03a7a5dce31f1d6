-- ===== src/Multipart/Reading.antt =====
-- What `load` of a multipart file does with each kind of line that `to_string` prints.
use job.Multipart.Entry.{AllId, IsPrinted, scan_line-field}
use job.Multipart.Lines.{concat}
use job.Multipart.Load.{
  Reader, Loaded, more, load_line, load_lines, inner_line, body_line, header_line, end_bound,
  mid_bound, at_bound, byte_at, at_section, append_body, body_tag, c_str, chop, tag_line,
}
use job.Multipart.Order.{section_of, append_body_more, at_section_last}
use job.Multipart.Print.{field, field_minlen}
use job.Multipart.Scan.{scan_line, is_id, entry}
use job.Multipart.Section.{Section, set_tag}
use job.Prelude.{
  ℕ, ◌+◌, Bool, true, false, ◌&&◌, List, [], ◌∷◌, ◌++◌, Bytes, codes, ◌==◌, if◌then◌else◌, length,
  drop, take, str_eq, map, is_alnum, replicate, ◌-◌, ◌≡◌, refl, ap, sym, ◌∙◌, arith, append_assoc,
  append-nil,
}
use job.Text.Search.{starts_with}
use job.Text.Trim.{lc}
use mathlib.Core.Bool.{false≢true}

-- A reader: the sections, the boundary, the substatus, the number of the line, whether the gap was
-- passed, whether the body has begun, and the number of the section.
abbrev pub reader : List Section → Bytes → Bytes → ℕ → Bool → Bool → ℕ → Reader
reader ss b st n gap body k = record {
  parts = record { sections = ss; boundary = b; substatus = st; closed = false };
  lnum = n;
  got_gap = gap;
  in_body = body;
  sec = k;
}

-- The boundary that is known after a header.
abbrev pub bound_after : ℕ → Bytes → Bytes → Bytes → Bytes
bound_after k b tag val =
    if k == 0
      && (str_eq b []
          && (str_eq (lc tag) (codes "content-type")
              && str_eq (lc (take 26 val)) (codes "multipart/mixed; boundary=")))
    then drop 26 val
    else b

-- A tag that may stand in a header: `-` is none of its first byte.
abbrev pub IsHeaderTag : Bytes → Type 0
IsHeaderTag [] = ⊥
IsHeaderTag (c ∷ cs) = AllId (c ∷ cs) × ((b'-' == c) ≡ false)

id_starts :
    (c : ℕ) → is_id c ≡ true → ((c == 0) ≡ false) × ((c == b'#') ≡ false) × ((c == b'\n') ≡ false)
unfolding is_id is_alnum
id_starts c h = (ground arith, ground arith, ground arith)

no_bound :
    (b line : Bytes) (c : ℕ)
    → (b'-' == c) ≡ false
    → (end_bound b (c ∷ line) ≡ false) × (mid_bound b (c ∷ line) ≡ false)
unfolding end_bound mid_bound at_bound starts_with
no_bound b line c h = (rw h, rw h)

load_line-header :
    (ss : List Section) (b st : Bytes) (n k : ℕ) (line : Bytes)
    → (byte_at line 0 == 0) ≡ false
    → (byte_at line 0 == b'#') ≡ false
    → (byte_at line 0 == b'\n') ≡ false
    → (end_bound b line ≡ false) × (mid_bound b line ≡ false)
    → load_line line (reader ss b st n false false k)
      ≡ tag_line (scan_line is_id true 0 line) (reader ss b st (n + 1) false false k)
unfolding load_line inner_line
load_line-header ss b st n k line z s l h = rw (z, h.0, h.1, s, l)

tag_line-entry :
    (ss : List Section) (b st : Bytes) (n k : ℕ) (tag v : Bytes)
    → tag_line (entry tag v) (reader ss b st n false false k)
      ≡ more (reader (at_section k (set_tag tag v) ss) (bound_after k b tag v) st n false false k)
unfolding tag_line header_line
tag_line-entry ss b st n k tag v = refl

-- A header sets its tag in the section, and the boundary if it names one.
pub load_line-field :
    (ss : List Section) (b st : Bytes) (n k : ℕ) (tag v : Bytes)
    → IsHeaderTag tag
    → IsPrinted v
    → load_line (field tag v) (reader ss b st n false false k)
      ≡ more (
          reader (at_section k (set_tag tag v) ss) (bound_after k b tag v) st (n + 1) false false k)
unfolding byte_at field
load_line-field ss b st n k [] v h i = elim h [ ]
load_line-field ss b st n k (c ∷ cs) v h i =
    let (z, s, l) = id_starts c h.0.0 in
    let rest =
      cs
      ++ (codes ": " ++ (replicate (field_minlen - length (c ∷ cs)) b' ' ++ (v ++ b'\n' ∷ []))) in
    load_line-header ss b st n k (c ∷ rest) z s l (no_bound b rest c h.1)
    ∙ ap (λ x. tag_line x (reader ss b st (n + 1) false false k)) (scan_line-field c cs v h.0 i)
    ∙ tag_line-entry ss b st (n + 1) k (c ∷ cs) v

pub load_line-gap :
    (ss : List Section) (b st : Bytes) (n k : ℕ)
    → load_line (b'\n' ∷ []) (reader ss b st n false false k)
      ≡ more (reader ss b st (n + 1) true false k)
unfolding load_line inner_line byte_at end_bound mid_bound at_bound starts_with
load_line-gap ss b st n k = refl

-- A line of a body: it holds no NUL, and is no boundary.
abbrev pub IsBodyLine : Bytes → Bytes → Type 0
IsBodyLine b line =
    (c_str line ≡ line)
    × ((byte_at line 0 == 0) ≡ false)
    × (end_bound b line ≡ false)
    × (mid_bound b line ≡ false)

abbrev pub AreBodyLines : Bytes → List Bytes → Type 0
AreBodyLines b [] = Unit
AreBodyLines b (line ∷ lines) = IsBodyLine b line × AreBodyLines b lines

load_line-first :
    (ss : List Section) (b st : Bytes) (n k : ℕ) (line : Bytes)
    → IsBodyLine b line
    → (byte_at line 0 == b'#') ≡ false
    → load_line line (reader ss b st n true false k)
      ≡ more (reader (at_section k (set_tag body_tag line) ss) b st (n + 1) true true k)
unfolding load_line inner_line
load_line-first ss b st n k line h i = rw (h.1, h.2, h.3, i)

abbrev substatus_after : Bytes → Bytes → Bytes
substatus_after st line = if starts_with (codes "## ") line then chop (drop 3 line) else st

load_line-body :
    (ss : List Section) (b st : Bytes) (n k : ℕ) (line : Bytes)
    → IsBodyLine b line
    → load_line line (reader ss b st n true true k)
      ≡ more (
          reader
            (at_section k (append_body line) ss)
            b
            (substatus_after st line)
            (n + 1)
            true
            true
            k)
unfolding load_line inner_line body_line
load_line-body ss b st n k line h = rw (h.1, h.2, h.3)

IsBodyLine-starts :
    (b : Bytes) (line : Bytes) → IsBodyLine b line → (c : ℕ) × (cs : Bytes) × (line ≡ c ∷ cs)
unfolding byte_at
IsBodyLine-starts b [] h = absurd (false≢true (sym h.1))
IsBodyLine-starts b (c ∷ cs) h = (c, cs, refl)

-- The remaining lines of a file.
abbrev pub read_lines : List Bytes → Reader → Loaded
read_lines ls r = load_lines (map c_str ls) r

pub read_line :
    (line line' : Bytes) (lines : List Bytes) (r r' : Reader)
    → c_str line ≡ line'
    → load_line line' r ≡ more r'
    → read_lines (line ∷ lines) r ≡ read_lines lines r'
unfolding load_lines
read_line line line' lines r r' c e = rw (c, e, load_lines)

module _ (old : List Section) (hs : Section) (b : Bytes) where
  -- The lines of a body behind the first ones.
  read_body_rest :
      (lines rest : List Bytes) (c : ℕ) (cs st : Bytes) (n : ℕ)
      → AreBodyLines b lines
      → (st' : Bytes) × (n' : ℕ) × (read_lines
            (lines ++ rest)
            (reader (old ++ section_of hs (c ∷ cs) ∷ []) b st n true true (length old))
          ≡ read_lines rest (
              reader
                (old ++ section_of hs ((c ∷ cs) ++ concat lines) ∷ [])
                b
                st'
                n'
                true
                true
                (length old)))
  read_body_rest [] rest c cs st n h = (
    st,
    n,
    ap
        (λ x.
          read_lines rest
            (reader (old ++ section_of hs (c ∷ x) ∷ []) b st n true true (length old)))
        (sym (append-nil cs)),
  )
  read_body_rest (line ∷ lines) rest c cs st n h =
      let (st', n', e) =
        read_body_rest lines rest c (cs ++ line) (substatus_after st line) (n + 1) h.1 in
      let now = reader (old ++ section_of hs (c ∷ cs) ∷ []) b st n true true (length old) in
      let at_end : List Section → Reader =
        λ ss. reader ss b (substatus_after st line) (n + 1) true true (length old) in
      (
        st',
        n',
        read_line line line (lines ++ rest) now
              (at_end (old ++ section_of hs ((c ∷ cs) ++ line) ∷ [])) h.0.0
              (load_line-body (old ++ section_of hs (c ∷ cs) ∷ []) b st n (length old) line h.0
                ∙ ap (λ ss. more (at_end ss))
                    (at_section_last old (section_of hs (c ∷ cs)) (append_body line)
                      ∙ ap (λ s. old ++ s ∷ []) (append_body_more hs c cs line)))
            ∙ e
            ∙ ap
                (λ x.
                  read_lines rest
                    (reader (old ++ section_of hs (c ∷ x) ∷ []) b st' n' true true (length old)))
                (append_assoc cs line (concat lines)),
      )

  -- A body, whose first line is no comment.
  pub read_body :
      (lines rest : List Bytes) (c : ℕ) (cs st : Bytes) (n : ℕ)
      → AreBodyLines b lines
      → concat lines ≡ c ∷ cs
      → (c == b'#') ≡ false
      → (st' : Bytes) × (n' : ℕ) × (read_lines
            (lines ++ rest)
            (reader (old ++ hs ∷ []) b st n true false (length old))
          ≡ read_lines rest
              (reader (old ++ section_of hs (c ∷ cs) ∷ []) b st' n' true true (length old)))
  unfolding byte_at
  read_body [] rest c cs st n h e i = absurd (omega (arith, ap length e))
  read_body ([] ∷ lines) rest c cs st n h e i = absurd (false≢true (sym h.0.1))
  read_body ((d ∷ ds) ∷ lines) rest c cs st n h e i =
      let same : d ≡ c = ap (λ x. byte_at x 0) e in
      let no_comment : (d == b'#') ≡ false = ap (λ x. x == b'#') same ∙ i in
      let (st', n', f) = read_body_rest lines rest d ds st (n + 1) h.1 in
      let at_end : List Section → Reader = λ ss. reader ss b st (n + 1) true true (length old) in
      (
        st',
        n',
        read_line (d ∷ ds) (d ∷ ds) (lines ++ rest)
              (reader (old ++ hs ∷ []) b st n true false (length old))
              (at_end (old ++ section_of hs (d ∷ ds) ∷ [])) h.0.0
              (load_line-first (old ++ hs ∷ []) b st n (length old) (d ∷ ds) h.0 no_comment
                ∙ ap (λ ss. more (at_end ss)) (at_section_last old hs (set_tag body_tag (d ∷ ds))))
            ∙ f
            ∙ ap
                (λ x.
                  read_lines rest
                    (reader (old ++ section_of hs x ∷ []) b st' n' true true (length old)))
                e,
      )
