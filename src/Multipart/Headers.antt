-- ===== src/Multipart/Headers.antt =====
-- What `load` of a multipart file makes of the headers of a section, one after the other.
use job.Multipart.Scanning.{AllPlain}
use job.Multipart.Lines.{fgets_line, c_str_plain}
use job.Multipart.Load.{Reader, Loaded, more, load_line, fgets_lines, at_section}
use job.Multipart.Order.{fields, set_tag_last, at_section_new, at_section_last}
use job.Multipart.Parts.{
  field_text, IsHeader, AreHeaders, AreSome, learned, field_text-AllPlain, field-field_text,
}
use job.Multipart.Print.{field}
use job.Multipart.Reading.{
  reader, bound_after, read_lines, read_line, load_line-field, load_line-gap,
}
use job.Multipart.Section.{Section, set_tag}
use job.Prelude.{
  ℕ, ◌+◌, ◌<◌, true, false, List, [], ◌∷◌, ◌++◌, Bytes, length, ◌≡◌, ap, sym, ◌∙◌, arith,
  append_assoc, append-nil,
}

-- What `load` makes of the rest of a file.
abbrev pub loaded : Reader → Bytes → Loaded
loaded r content = read_lines (fgets_lines 4096 4095 [] content) r

pub loaded_line :
    (r r' : Reader) (x rest : Bytes)
    → AllPlain x
    → length x < 4095
    → load_line (x ++ b'\n' ∷ []) r ≡ more r'
    → loaded r (x ++ b'\n' ∷ rest) ≡ loaded r' rest
loaded_line r r' x rest a h e =
    ap (λ ls. read_lines ls r) (fgets_line 4096 4095 [] x rest a h)
    ∙ read_line (x ++ b'\n' ∷ []) (x ++ b'\n' ∷ []) (fgets_lines 4096 4095 [] rest) r r'
        (c_str_plain x a) e

module _ (old : List Section) (st : Bytes) where
  loaded_field :
      (ss ss' : List Section) (b : Bytes) (n : ℕ) (k v rest : Bytes)
      → IsHeader k v
      → at_section (length old) (set_tag k v) ss ≡ ss'
      → loaded (reader ss b st n false false (length old)) (field k v ++ rest)
        ≡ loaded
            (reader ss' (bound_after (length old) b k v) st (n + 1) false false (length old))
            rest
  loaded_field ss ss' b n k v rest h e =
      let now = reader ss b st n false false (length old) in
      let next : Reader =
        reader ss' (bound_after (length old) b k v) st (n + 1) false false (length old) in
      ap (loaded now) (field-field_text k v rest)
      ∙ loaded_line now next (field_text k v) rest (field_text-AllPlain k v h) h.2 (
          ap (λ l. load_line l now) (sym (field-field_text k v []) ∙ append-nil (field k v))
          ∙ load_line-field ss b st n (length old) k v h.0 h.1
          ∙ ap
              (λ s.
                more
                  (reader s (bound_after (length old) b k v) st (n + 1) false false (length old)))
              e)

  pub loaded_headers :
      (done hs : Section) (b : Bytes) (n : ℕ) (rest : Bytes)
      → AreHeaders done hs
      → (n' : ℕ) × (loaded
            (reader (old ++ done ∷ []) b st n false false (length old))
            (fields hs ++ rest)
          ≡ loaded
              (reader
                (old ++ (done ++ hs) ∷ [])
                (learned (length old) b hs)
                st
                n'
                false
                false
                (length old))
              rest)
  loaded_headers done [] b n rest h = (
    n,
    ap (λ d. loaded (reader (old ++ d ∷ []) b st n false false (length old)) rest)
        (sym (append-nil done)),
  )
  loaded_headers done ((k, v) ∷ hs) b n rest h =
      let after = bound_after (length old) b k v in
      let (n', e) = loaded_headers (done ++ (k, v) ∷ []) hs after (n + 1) rest h.2 in
      let now = reader (old ++ done ∷ []) b st n false false (length old) in
      (
        n',
        ap (loaded now) (append_assoc (field k v) (fields hs) rest)
            ∙ loaded_field (old ++ done ∷ []) (old ++ (done ++ (k, v) ∷ []) ∷ []) b n k v
                (fields hs ++ rest) h.0
                (at_section_last old done (set_tag k v)
                  ∙ ap (λ m. old ++ m ∷ []) (set_tag_last done k v h.1))
            ∙ e
            ∙ ap
                (λ d.
                  loaded
                    (reader (old ++ d ∷ []) (learned (length old) after hs) st n' false false
                      (length old))
                    rest)
                (append_assoc done ((k, v) ∷ []) hs),
      )

  -- The headers of a new section.
  pub loaded_new :
      (hs : Section) (b : Bytes) (n : ℕ) (rest : Bytes)
      → AreSome hs
      → (n' : ℕ) × (loaded (reader old b st n false false (length old)) (fields hs ++ rest)
          ≡ loaded
              (reader (old ++ hs ∷ []) (learned (length old) b hs) st n' false false (length old))
              rest)
  unfolding set_tag
  loaded_new [] b n rest h = elim h [ ]
  loaded_new ((k, v) ∷ hs) b n rest h =
      let (n', e) =
        loaded_headers ((k, v) ∷ []) hs (bound_after (length old) b k v) (n + 1) rest h.2 in
      (
        n',
        ap (loaded (reader old b st n false false (length old)))
              (append_assoc (field k v) (fields hs) rest)
            ∙ loaded_field old (old ++ ((k, v) ∷ []) ∷ []) b n k v (fields hs ++ rest) h.0
                (at_section_new old (set_tag k v))
            ∙ e,
      )

  pub loaded_gap :
      (ss : List Section) (b : Bytes) (n k : ℕ) (rest : Bytes)
      → loaded (reader ss b st n false false k) (b'\n' ∷ rest)
        ≡ loaded (reader ss b st (n + 1) true false k) rest
  loaded_gap ss b n k rest =
      loaded_line (reader ss b st n false false k) (reader ss b st (n + 1) true false k) [] rest tt
        (omega arith) (load_line-gap ss b st n k)
