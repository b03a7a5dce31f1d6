-- ===== src/Multipart/Load.antt =====
-- `multipart::load`, on the lines that `fgets` returns.
use job.Multipart.Scan.{is_id, Line, empty, entry, bad, LineError, scan_line}
use job.Multipart.Section.{Section, find_tag, set_tag}
use job.Prelude.{
  ℕ, zero, suc, ◌+◌, ◌-◌, Bool, true, false, ◌&&◌, ◌||◌, List, [], ◌∷◌, ◌++◌, none, some, Bytes,
  codes, ◌==◌, if◌then◌else◌, length, drop, take, str_eq, map,
}
use job.Text.Search.{starts_with}
use job.Text.Trim.{lc}

-- The object, with the local variables of `load`.
pub record Multipart : Type 0 where
  pub sections : List Section
  pub boundary : Bytes
  pub substatus : Bytes
  pub closed : Bool

-- The constructor.
abbrev pub new_multipart : Multipart
new_multipart = record { sections = []; boundary = []; substatus = []; closed = true }

pub record Reader : Type 0 where
  pub parts : Multipart
  pub open parts use *
  pub lnum : ℕ
  pub got_gap : Bool
  pub in_body : Bool
  pub sec : ℕ

abbrev pub body_tag : Bytes
body_tag = codes "__BODY__"

-- `LINE_MAXLEN`.
abbrev pub line_maxlen : ℕ
line_maxlen = 4096

-- `fgets`: lines with their newline, in pieces of at most `size - 1` bytes. `room` is what is left
-- of the buffer.
unfoldable pub fgets_lines : ℕ → ℕ → Bytes → Bytes → List Bytes
fgets_lines size room [] [] = []
fgets_lines size room (a ∷ acc) [] = (a ∷ acc) ∷ []
fgets_lines size room acc (c ∷ cs) =
    let cut = c == b'\n' || room == 1 in
    let rest =
      fgets_lines size (if cut then size - 1 else room - 1) (if cut then [] else acc ++ c ∷ [])
        cs in
    if cut then (acc ++ c ∷ []) ∷ rest else rest

-- A line as a C string.
unfoldable pub c_str : Bytes → Bytes
c_str [] = []
c_str (c ∷ cs) = if c == 0 then [] else c ∷ c_str cs

-- `line[i]`, the terminator included.
unfoldable pub byte_at : Bytes → ℕ → ℕ
byte_at [] i = 0
byte_at (c ∷ cs) zero = c
byte_at (c ∷ cs) (suc i) = byte_at cs i

-- `(*this)[sec]`, after `resize(sec+1)` where there is none: applies `f` to it.
unfoldable pub at_section : ℕ → (Section → Section) → List Section → List Section
at_section zero f [] = f [] ∷ []
at_section zero f (m ∷ ms) = f m ∷ ms
at_section (suc i) f [] = [] ∷ at_section i f []
at_section (suc i) f (m ∷ ms) = m ∷ at_section i f ms

-- Takes a newline off the end.
unfoldable pub chop : Bytes → Bytes
chop [] = []
chop (c ∷ []) = if c == b'\n' then [] else c ∷ []
chop (c ∷ (d ∷ cs)) = c ∷ chop (d ∷ cs)

-- The newline before a boundary belongs to the boundary.
unfoldable pub end_body : Section → Section
unfolding chop find_tag set_tag
end_body m = elim (find_tag m body_tag) [ none ↦ m | some b ↦ set_tag body_tag (chop b) m ]

unfoldable pub append_body : Bytes → Section → Section
unfolding find_tag set_tag
append_body line m = elim (find_tag m body_tag) [
  | none ↦ set_tag body_tag line m
  | some b ↦ set_tag body_tag (b ++ line) m
]

unfoldable pub at_bound : Bytes → Bytes → Bool
unfolding starts_with
at_bound boundary line = starts_with (b'-' ∷ b'-' ∷ boundary) line

unfoldable pub mid_bound : Bytes → Bytes → Bool
unfolding at_bound byte_at
mid_bound boundary line = at_bound boundary line && byte_at line (2 + length boundary) == b'\n'

unfoldable pub end_bound : Bytes → Bytes → Bool
unfolding at_bound byte_at
end_bound boundary line =
    at_bound boundary line
    && (byte_at line (2 + length boundary) == b'-'
        && (byte_at line (3 + length boundary) == b'-'
            && byte_at line (4 + length boundary) == b'\n'))

pub data Next : Type 0 where
  more : Reader → Next
  finished : Reader → Next
  failed : LineError → Reader → Next

-- A line of the body: a line that begins with `## ` is the substatus too.
unfoldable pub body_line : Bytes → Reader → Reader
unfolding append_body at_section chop starts_with
body_line line r = record r {
  parts = record (r.parts) {
    substatus = if starts_with (codes "## ") line then chop (drop 3 line) else r.substatus;
    sections = at_section r.sec (append_body line) r.sections;
  };
}

-- `(*this)[sec][tag] = val`, and the boundary if the section is the first and names one.
unfoldable pub header_line : Bytes → Bytes → Reader → Reader
unfolding at_section set_tag
header_line tag val r =
    let names_bound =
      r.sec == 0
      && (str_eq r.boundary []
          && (str_eq (lc tag) (codes "content-type")
              && str_eq (lc (take 26 val)) (codes "multipart/mixed; boundary="))) in
    record r {
      parts = record (r.parts) {
        sections = at_section r.sec (set_tag tag val) r.sections;
        boundary = if names_bound then drop 26 val else r.boundary;
      };
    }

unfoldable pub tag_line : Line → Reader → Next
unfolding header_line
tag_line empty r = more r
tag_line (bad e) r = failed e r
tag_line (entry tag val) r = more (header_line tag val r)

-- A line that is no boundary.
unfoldable pub inner_line : Bytes → Reader → Next
unfolding body_line tag_line append_body at_section scan_line
inner_line line r =
    if r.in_body
    then more (body_line line r)
    else if byte_at line 0 == b'#'
    then more r
    else if r.got_gap
    then more (record r {
      in_body = true;
      parts = record (r.parts) { sections = at_section r.sec (set_tag body_tag line) r.sections };
    })
    else if byte_at line 0 == b'\n'
    then more (record r { got_gap = true })
    else tag_line (scan_line is_id true 0 line) r

abbrev end_part : Reader → Reader
end_part r = record r {
  parts = record (r.parts) { sections = at_section r.sec end_body r.sections };
}

-- The body of the loop over the lines.
unfoldable pub load_line : Bytes → Reader → Next
unfolding inner_line mid_bound end_bound end_body
load_line line r0 =
    let r = record r0 { lnum = r0.lnum + 1 } in
    if byte_at line 0 == 0
    then more r
    else if end_bound r.boundary line
    then finished (record (end_part r) { parts = record ((end_part r).parts) { closed = true } })
    else if mid_bound r.boundary line
    then more (record (end_part r) {
      got_gap = false;
      in_body = false;
      sec = length (end_part r).sections;
    })
    else inner_line line r

pub data Loaded : Type 0 where
  ok : Multipart → Loaded
  err : LineError → ℕ → Multipart → Loaded

load_next : (Reader → Loaded) → Next → Loaded
load_next rest (more r) = rest r
load_next rest (finished r) = ok r.parts
load_next rest (failed e r) = err e r.lnum r.parts

unfoldable pub load_lines : List Bytes → Reader → Loaded
unfolding load_line load_next
load_lines [] r = ok r.parts
load_lines (line ∷ lines) r = load_next (load_lines lines) (load_line line r)

-- The whole function after `fopen` and `fstat`, on the file's content. It adds to what the object
-- holds; the boundary stays from an earlier load.
unfoldable pub load : Bytes → Multipart → Loaded
unfolding load_lines fgets_lines c_str
load content m =
    load_lines (map c_str (fgets_lines line_maxlen (line_maxlen - 1) [] content)) (record {
      parts = record m { closed = false; substatus = [] };
      lnum = 0;
      got_gap = false;
      in_body = false;
      sec = 0;
    })
