-- ===== src/Multipart/Print.antt =====
-- `multipart::to_string`.
use job.Multipart.Load.{Multipart, body_tag}
use job.Multipart.Section.{Section, set_tag}
use job.Prelude.{
  ℕ, ◌-◌, Bool, not, ◌&&◌, ◌||◌, List, [], ◌∷◌, ◌++◌, Bytes, codes, ltb, ◌==◌, if◌then◌else◌,
  length, replicate, str_eq,
}
use job.File.{is_empty}

-- `FIELD_MINLEN`.
abbrev pub field_minlen : ℕ
field_minlen = 13

-- `tag: value`, with the tag padded to the least width.
unfoldable pub field : Bytes → Bytes → Bytes
field tag value =
    tag ++ (codes ": " ++ (replicate (field_minlen - length tag) b' ' ++ (value ++ b'\n' ∷ [])))

-- The loop over a section: the headers printed, and the body. Only the tag `__BODY__` in these
-- letters is the body.
unfoldable pub print_section : Section → Bytes × Bytes
unfolding field
print_section [] = ([], [])
print_section ((k, v) ∷ m) =
    let rest = print_section m in
    if str_eq k body_tag
    then (rest.0, if is_empty rest.1 then v else rest.1)
    else (field k v ++ rest.0, rest.1)

-- The boundary line after a section; the flag is `i + 1 == size()`.
unfoldable pub print_bound : Bytes → Bool → Bool → Bytes
print_bound boundary closed last =
    if not (is_empty boundary) && (closed || not last)
    then codes "\n--" ++ (boundary ++ (if last then codes "--\n" else codes "\n"))
    else []

unfoldable pub print_sections : Bytes → Bool → List Section → Bytes
unfolding print_section print_bound
print_sections boundary closed [] = []
print_sections boundary closed (m ∷ ms) =
    let (headers, body) = print_section m in
    headers
    ++ ((if is_empty body then [] else b'\n' ∷ body)
        ++ (print_bound boundary closed (length ms == 0) ++ print_sections boundary closed ms))

-- The boundary that a file of several sections gets, and its header; `uuid` is `get_uuid()`.
unfoldable pub with_boundary : Bytes → Multipart → Multipart
with_boundary uuid m = elim m.sections [
  | [] ↦ m
  | s ∷ ss ↦
      if ltb 0 (length ss) && is_empty m.boundary
      then record m {
        boundary = uuid;
        sections =
            set_tag (codes "Content-Type") (codes "multipart/mixed; boundary=" ++ uuid) s ∷ ss;
      }
      else m
]

-- The object after the call, which keeps the boundary, and the text.
unfoldable pub to_string : Bytes → Multipart → Multipart × Bytes
unfolding with_boundary print_sections
to_string uuid m =
    let m' = with_boundary uuid m in (m', print_sections m'.boundary m'.closed m'.sections)
