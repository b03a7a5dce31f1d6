-- ===== src/Config/RoundTrip.antt =====
-- `load` reads the configuration that `to_string` prints.
use job.Config.Lines.{
  AllConfigId, AllName, entry_text, entry_text-AllPlain, print_entry_text, load_line-entry,
  name_text-AllPlain, load_line-name, load_line-empty,
}
use job.Multipart.Lines.{fgets_line, c_str_plain}
use job.Multipart.Order.{AllBefore}
use job.Config.Sections.{with_section-set_tag_new, with_section-set_tag_last}
use job.Config.{
  Config, Reader, Loaded, on, load_line, load_lines, load, with_section, to_string, print_name,
  print_entries, print_entry,
}
use job.Multipart.Entry.{IsValue}
use job.Multipart.Scanning.{AllPlain}
use job.Multipart.Load.{fgets_lines, c_str}
use job.Multipart.Section.{Section, set_tag}
use job.Prelude.{
  ℕ, suc, ◌<◌, List, [], ◌∷◌, ◌++◌, none, Bytes, codes, length, map, ◌≡◌, refl, ap, sym, ◌∙◌, arith,
  append_assoc, append-nil, length-append,
}

-- A tag and a value on a line that fits the buffer.
abbrev pub IsEntry : Bytes → Bytes → Type 0
IsEntry [] v = ⊥
IsEntry (c ∷ cs) v = AllConfigId (c ∷ cs) × IsValue v × (length (entry_text (c ∷ cs) v) < 255)

-- Entries in the order of their tags, behind `done`.
abbrev pub AreEntries : Section → Section → Type 0
AreEntries done [] = Unit
AreEntries done ((k, v) ∷ m) = IsEntry k v × AllBefore done k × AreEntries (done ++ (k, v) ∷ []) m

-- At least one entry.
abbrev pub AreSome : Section → Type 0
AreSome [] = ⊥
AreSome ((k, v) ∷ m) = AreEntries [] ((k, v) ∷ m)

abbrev pub IsName : Bytes → Type 0
IsName [] = ⊥
IsName (c ∷ cs) = AllName (c ∷ cs) × (length (c ∷ cs) < 253)

-- Sections in the order of their names, behind `old`.
abbrev pub AreSections : Config → Config → Type 0
AreSections old [] = Unit
AreSections old ((sec, m) ∷ c) =
    IsName sec × AllBefore old sec × AreSome m × AreSections (old ++ (sec, m) ∷ []) c

-- The section without a name may stand at the beginning.
abbrev pub IsPrintable : Config → Type 0
IsPrintable [] = Unit
IsPrintable (([], m) ∷ c) = AreSome m × AreSections (([], m) ∷ []) c
IsPrintable (((x ∷ sec), m) ∷ c) = AreSections [] ((x ∷ sec, m) ∷ c)

abbrev loaded : ℕ → Reader → Bytes → Loaded
loaded n r content = load_lines (map c_str (fgets_lines 256 255 [] content)) n r

load_lines_on :
    (line : Bytes) (lines : List Bytes) (n : ℕ) (r r' : Reader)
    → load_line r line ≡ on r'
    → load_lines (line ∷ lines) n r ≡ load_lines lines (suc n) r'
unfolding load_lines
load_lines_on line lines n r r' e = rw (e, load_lines)

loaded_line :
    (n : ℕ) (r r' : Reader) (x rest : Bytes)
    → AllPlain x
    → length x < 255
    → load_line r (x ++ b'\n' ∷ []) ≡ on r'
    → loaded n r (x ++ b'\n' ∷ rest) ≡ loaded (suc n) r' rest
loaded_line n r r' x rest a h e =
    ap (λ ls. load_lines (map c_str ls) n r) (fgets_line 256 255 [] x rest a h)
    ∙ load_lines_on (c_str (x ++ b'\n' ∷ [])) (map c_str (fgets_lines 256 255 [] rest)) n r r'
        (ap (load_line r) (c_str_plain x a) ∙ e)

abbrev reader : Config → Bytes → Reader
reader c s = record { cfg = c; sec = s }

loaded_entry :
    (n : ℕ) (c c' : Config) (sec k v rest : Bytes)
    → IsEntry k v
    → with_section sec (set_tag k v) c ≡ c'
    → loaded n (reader c sec) (print_entry k v ++ rest) ≡ loaded (suc n) (reader c' sec) rest
loaded_entry n c c' sec [] v rest h e = elim h [ ]
loaded_entry n c c' sec (x ∷ cs) v rest h e =
    ap (loaded n (reader c sec)) (print_entry_text x cs v rest h.0.0)
    ∙ loaded_line n (reader c sec) (reader c' sec) (entry_text (x ∷ cs) v) rest
        (entry_text-AllPlain (x ∷ cs) v h.0 h.1) h.2
        (load_line-entry (reader c sec) x cs v h.0 h.1 ∙ ap (λ d. on (reader d sec)) e)

module _ (old : Config) (sec : Bytes) (before : AllBefore old sec) where
  loaded_entries :
      (n : ℕ) (done m : Section) (rest : Bytes)
      → AreEntries done m
      → (n' : ℕ) × (loaded n (reader (old ++ (sec, done) ∷ []) sec) (print_entries m ++ rest)
          ≡ loaded n' (reader (old ++ (sec, done ++ m) ∷ []) sec) rest)
  unfolding print_entries
  loaded_entries n done [] rest h =
      (n, ap (λ d. loaded n (reader (old ++ (sec, d) ∷ []) sec) rest) (sym (append-nil done)))
  loaded_entries n done ((k, v) ∷ m) rest h =
      let (n', e) = loaded_entries (suc n) (done ++ (k, v) ∷ []) m rest h.2 in
      let now = reader (old ++ (sec, done) ∷ []) sec in
      (
        n',
        ap (loaded n now) (append_assoc (print_entry k v) (print_entries m) rest)
            ∙ loaded_entry n (old ++ (sec, done) ∷ []) (old ++ (sec, done ++ (k, v) ∷ []) ∷ []) sec
                k v (print_entries m ++ rest) h.0
                (with_section-set_tag_last old sec k v done before h.1)
            ∙ e
            ∙ ap (λ d. loaded n' (reader (old ++ (sec, d) ∷ []) sec) rest)
                (append_assoc done ((k, v) ∷ []) m),
      )

  loaded_section :
      (n : ℕ) (m : Section) (rest : Bytes)
      → AreSome m
      → (n' : ℕ) × (loaded n (reader old sec) (print_entries m ++ rest)
          ≡ loaded n' (reader (old ++ (sec, m) ∷ []) sec) rest)
  unfolding print_entries
  loaded_section n [] rest h = elim h [ ]
  loaded_section n ((k, v) ∷ m) rest h =
      let (n', e) = loaded_entries (suc n) ((k, v) ∷ []) m rest h.2 in
      (
        n',
        ap (loaded n (reader old sec)) (append_assoc (print_entry k v) (print_entries m) rest)
            ∙ loaded_entry n old (old ++ (sec, (k, v) ∷ []) ∷ []) sec k v (print_entries m ++ rest)
                h.0 (with_section-set_tag_new old sec k v before)
            ∙ e,
      )

loaded_name :
    (n : ℕ) (old : Config) (s sec rest : Bytes)
    → IsName sec
    → loaded n (reader old s) (print_name sec ++ rest) ≡ loaded (suc (suc n)) (reader old sec) rest
unfolding print_name
loaded_name n old s [] rest h = elim h [ ]
loaded_name n old s (c ∷ cs) rest h =
    loaded_line n (reader old s) (reader old s) [] (b'[' ∷ ((c ∷ cs ++ codes "]\n") ++ rest)) tt
      (omega arith) (load_line-empty (reader old s))
    ∙ ap (loaded (suc n) (reader old s)) (simp append_assoc)
    ∙ loaded_line (suc n) (reader old s) (reader old (c ∷ cs)) (b'[' ∷ ((c ∷ cs) ++ codes "]")) rest
        (name_text-AllPlain (c ∷ cs) h.0) (omega (arith, h.1, length-append cs (codes "]")))
        (ap (λ t. load_line (reader old s) (b'[' ∷ (c ∷ t)))
            (append_assoc cs (codes "]") (b'\n' ∷ []))
          ∙ load_line-name (reader old s) c cs h.0)

loaded_sections :
    (n : ℕ) (old c : Config) (s : Bytes)
    → AreSections old c
    → loaded n (reader old s) (to_string c) ≡ record { cfg = old ++ c; error = none }
unfolding to_string
loaded_sections n old [] s h =
    (unfold load_lines in
      unfold fgets_lines in ap (λ d. record { cfg = d; error = none }) (sym (append-nil old)))
loaded_sections n old ((sec, m) ∷ c) s h =
    let (n', e) = loaded_section old sec h.1 (suc (suc n)) m (to_string c) h.2 in
    loaded_name n old s sec (print_entries m ++ to_string c) h.0
    ∙ e
    ∙ loaded_sections n' (old ++ (sec, m) ∷ []) c sec h.3
    ∙ ap (λ d. record { cfg = d; error = none }) (append_assoc old ((sec, m) ∷ []) c)

-- `load` reads the configuration that `to_string` prints, without an error: every section with its
-- tags and values. The sections and their tags are in the order of the maps and not empty; tags are
-- one or more letters, digits, `-`, `_`, `.` or `$`; values are not empty, neither begin nor end with a
-- blank and have no end of line or NUL; names have no blank, `]`, end of line or NUL; no line is longer
-- than the buffer of `load`; only the first section may be the one without a name; and no section has
-- comments.
pub load-to_string :
    (c : Config) → IsPrintable c → load (to_string c) [] ≡ record { cfg = c; error = none }
unfolding load to_string print_name load_lines fgets_lines
load-to_string [] h = refl
load-to_string (([], m) ∷ c) h =
    let (n, e) = loaded_section [] [] tt 0 m (to_string c) h.0 in
    e ∙ loaded_sections n (([], m) ∷ []) c [] h.1
load-to_string ((x ∷ sec, m) ∷ c) h = loaded_sections 0 [] ((x ∷ sec, m) ∷ c) [] h
