-- ===== src/Multipart/Bodies.antt =====
-- What `load` of a multipart file makes of the bodies and the boundaries, one section after the
-- other.
use job.File.{is_empty}
use job.Multipart.Bound.{bound_line, load_line-mid, load_line-end, IsBoundary, bound_line-AllPlain}
use job.Multipart.Scanning.{AllPlain}
use job.Multipart.Headers.{loaded, loaded_line, loaded_new, loaded_gap}
use job.Multipart.Lines.{fgets_line, c_str_plain, concat-fgets_lines, fgets_lines-append}
use job.Multipart.Load.{
  Reader, Loaded, ok, finished, load_line, load_lines, end_body, fgets_lines, c_str,
}
use job.Multipart.Order.{NoBody, section_of, end_body_newline, end_body_none}
use job.Multipart.Parts.{
  Part, sections_of, AreSome-NoBody, IsBody, is_bounded, AreParts, learned_known, print_body,
  print_sections-part, print_bound_mid, print_bound_end,
}
use job.Multipart.Print.{print_sections, print_bound}
use job.Multipart.Reading.{reader, read_lines, read_body}
use job.Multipart.Section.{Section}
use job.Prelude.{
  ℕ, ◌+◌, ◌<◌, Bool, true, false, List, [], ◌∷◌, ◌++◌, Bytes, codes, ◌==◌, if◌then◌else◌, length,
  ◌≡◌, refl, ap, ap₂, sym, ◌∙◌, arith, append_assoc, append-nil, length-append, subst,
}

-- The reader has reached a boundary: what is in the section loses its newline there.
data AtBound (old : List Section) (hs : Section) (body : Bytes) (b content : Bytes) (l : Loaded)
    : Type 0 where
  at_bound :
      (m : Section) (st : Bytes) (n : ℕ) (in_body : Bool)
      → end_body m ≡ section_of hs body
      → l ≡ loaded (reader (old ++ m ∷ []) b st n true in_body (length old)) content
      → AtBound old hs body b content l

module _ (old : List Section) (hs : Section) (b : Bytes) where
  -- A body in front of a boundary.
  loaded_body :
      (body st : Bytes) (n : ℕ) (rest : Bytes)
      → NoBody hs
      → IsBody b (codes "\n") body
      → AtBound old hs body b rest (
          loaded
            (reader (old ++ hs ∷ []) b st n false false (length old))
            (print_body body ++ b'\n' ∷ rest))
  unfolding is_empty
  loaded_body [] st n rest none_there h =
      at_bound hs st (n + 1) false (end_body_none hs none_there)
        (loaded_gap old st (old ++ hs ∷ []) b n (length old) rest)
  loaded_body (c ∷ cs) st n rest none_there h =
      let lines = fgets_lines 4096 4095 [] ((c ∷ cs) ++ b'\n' ∷ []) in
      let (st', n', e) =
        read_body old hs b lines (fgets_lines 4096 4095 [] rest) c (cs ++ b'\n' ∷ []) st (n + 1) h.1
          (concat-fgets_lines 4096 4095 [] ((c ∷ cs) ++ b'\n' ∷ [])) h.0 in
      at_bound (section_of hs ((c ∷ cs) ++ b'\n' ∷ [])) st' n' true (end_body_newline hs c cs) (
        loaded_gap old st (old ++ hs ∷ []) b n (length old) ((c ∷ cs) ++ b'\n' ∷ rest)
        ∙ ap (λ ls. read_lines ls (reader (old ++ hs ∷ []) b st (n + 1) true false (length old)))
            (fgets_lines-append 4096 4095 [] (c ∷ cs) rest)
        ∙ e)

  -- A body at the end of the file.
  pub loaded_last :
      (body st : Bytes) (n : ℕ)
      → IsBody b [] body
      → (st' : Bytes) × (loaded
            (reader (old ++ hs ∷ []) b st n false false (length old))
            (print_body body)
          ≡ ok (record {
            sections = old ++ section_of hs body ∷ [];
            boundary = b;
            substatus = st';
            closed = false;
          }))
  unfolding is_empty load_lines fgets_lines
  loaded_last [] st n h = (st, refl)
  loaded_last (c ∷ cs) st n h =
      let text = (c ∷ cs) ++ [] in
      let lines = fgets_lines 4096 4095 [] text in
      let (st', n', e) =
        read_body old hs b lines [] c (cs ++ []) st (n + 1) h.1
          (concat-fgets_lines 4096 4095 [] text) h.0 in
      let now = reader (old ++ hs ∷ []) b st (n + 1) true false (length old) in
      (
        st',
        loaded_gap old st (old ++ hs ∷ []) b n (length old) (c ∷ cs)
            ∙ ap (λ t. loaded now t) (sym (append-nil (c ∷ cs)))
            ∙ ap (λ ls. read_lines ls now) (sym (append-nil lines))
            ∙ e
            ∙ ap
                (λ x. ok (record {
                  sections = old ++ section_of hs (c ∷ x) ∷ [];
                  boundary = b;
                  substatus = st';
                  closed = false;
                }))
                (append-nil cs),
      )

read_finished :
    (line : Bytes) (lines : List Bytes) (r : Reader) {r' : Reader}
    → c_str line ≡ line
    → load_line line r ≡ finished r'
    → read_lines (line ∷ lines) r ≡ ok r'.parts
unfolding load_lines
read_finished line lines r c e = rw (c, e, load_lines)

bound_bytes :
    (b x : Bytes) → IsBoundary b → length x < 10 → length (b'-' ∷ (b'-' ∷ (b ++ x))) < 4095
bound_bytes b x h i = omega (arith, h.1, length-append b x)

module _ (old : List Section) (m : Section) (b st : Bytes) (n : ℕ) (in_body : Bool)
    (h : IsBoundary b) where
  loaded_mid :
      (rest : Bytes)
      → loaded
          (reader (old ++ m ∷ []) b st n true in_body (length old))
          (bound_line b (b'\n' ∷ rest))
        ≡ loaded
            (reader
              (old ++ end_body m ∷ [])
              b
              st
              (n + 1)
              false
              false
              (length (old ++ end_body m ∷ [])))
            rest
  loaded_mid rest =
      loaded_line (reader (old ++ m ∷ []) b st n true in_body (length old))
        (reader (old ++ end_body m ∷ []) b st (n + 1) false false (length (old ++ end_body m ∷ [])))
        (b'-' ∷ (b'-' ∷ b)) rest (refl, (refl, h.0)) (omega (arith, h.1))
        (load_line-mid old m b st n true in_body)

  loaded_end :
      loaded (reader (old ++ m ∷ []) b st n true in_body (length old)) (bound_line b (codes "--\n"))
      ≡ ok (record {
        sections = old ++ end_body m ∷ [];
        boundary = b;
        substatus = st;
        closed = true;
      })
  loaded_end =
      let now = reader (old ++ m ∷ []) b st n true in_body (length old) in
      let line = b'-' ∷ (b'-' ∷ (b ++ codes "--")) in
      let plain : AllPlain line = bound_line-AllPlain b (codes "--") h.0 (refl, (refl, tt)) in
      let regroup : bound_line b (codes "--\n") ≡ line ++ codes "\n" =
        ap (λ x. b'-' ∷ (b'-' ∷ x)) (sym (append_assoc b (codes "--") (codes "\n"))) in
      ap (loaded now) regroup
      ∙ ap (λ ls. read_lines ls now)
          (fgets_line 4096 4095 [] line [] plain (omega (arith, h.1, length-append b (codes "--"))))
      ∙ read_finished (line ++ codes "\n") (fgets_lines 4096 4095 [] []) now
          (c_str_plain line plain)
          (ap (λ l. load_line l now) (sym regroup) ∙ load_line-end old m b st n true in_body)

is_bounded_mid :
    (c : ℕ) (cs : Bytes) (closed : Bool) (m : Section) (ms : List Section)
    → is_bounded (c ∷ cs) closed (m ∷ ms) ≡ true
unfolding is_empty
is_bounded_mid c cs closed m ms = ground arith

IsBody-of :
    (b : Bytes) (body : Bytes) {x : Bool}
    → x ≡ true
    → IsBody b (if x then codes "\n" else []) body
    → IsBody b (codes "\n") body
IsBody-of b body e h = subst (λ x. IsBody b (if x then codes "\n" else []) body) e h

-- The object that is read.
abbrev pub whole : List Section → Bytes → Bytes → Bool → Loaded
whole ss b st closed = ok (record { sections = ss; boundary = b; substatus = st; closed = closed })

-- From the end of a section's headers on, where the boundary is known.
module _ (c : ℕ) (cs : Bytes) (h : IsBoundary (c ∷ cs)) where
  loaded_closed :
      (old : List Section) (hs : Section) (body : Bytes) (st : Bytes) (n : ℕ)
      → AreParts (c ∷ cs) true ((hs, body) ∷ [])
      → (st' : Bytes) × (loaded
            (reader (old ++ hs ∷ []) (c ∷ cs) st n false false (length old))
            (print_body body ++ (print_bound (c ∷ cs) true (length {A = Section} [] == 0) ++ []))
          ≡ whole (old ++ section_of hs body ∷ []) (c ∷ cs) st' true)
  unfolding is_empty
  loaded_closed old hs body st n a =
      elim (loaded_body old hs (c ∷ cs) body st n (bound_line (c ∷ cs) (codes "--\n"))
        (AreSome-NoBody hs a.0) a.1) [
          | at_bound m st1 n1 in_body e f ↦ (
            st1,
            ap
                  (λ x.
                    loaded (reader (old ++ hs ∷ []) (c ∷ cs) st n false false (length old))
                      (print_body body ++ x))
                  (print_bound_end c cs [])
                ∙ f
                ∙ loaded_end old m (c ∷ cs) st1 n1 in_body h
                ∙ ap (λ s. whole (old ++ s ∷ []) (c ∷ cs) st1 true) e,
          )
        ]

  loaded_open :
      (old : List Section) (hs : Section) (body : Bytes) (st : Bytes) (n : ℕ)
      → AreParts (c ∷ cs) false ((hs, body) ∷ [])
      → (st' : Bytes) × (loaded
            (reader (old ++ hs ∷ []) (c ∷ cs) st n false false (length old))
            (print_body body ++ (print_bound (c ∷ cs) false (length {A = Section} [] == 0) ++ []))
          ≡ whole (old ++ section_of hs body ∷ []) (c ∷ cs) st' false)
  unfolding is_empty print_bound
  loaded_open old hs body st n a =
      let (st', e) = loaded_last old hs (c ∷ cs) body st n a.1 in
      (
        st',
        ap (loaded (reader (old ++ hs ∷ []) (c ∷ cs) st n false false (length old)))
              (append-nil (print_body body))
            ∙ e,
      )

  pub loaded_rest :
      (closed : Bool) (old : List Section) (hs : Section) (body : Bytes) (ps : List Part)
      (st : Bytes) (n : ℕ)
      → AreParts (c ∷ cs) closed ((hs, body) ∷ ps)
      → (st' : Bytes) × (loaded (reader (old ++ hs ∷ []) (c ∷ cs) st n false false (length old)) (
            print_body body
            ++ (print_bound (c ∷ cs) closed (length (sections_of ps) == 0)
                ++ print_sections (c ∷ cs) closed (sections_of ps)))
          ≡ whole (old ++ sections_of ((hs, body) ∷ ps)) (c ∷ cs) st' closed)
  unfolding print_sections
  loaded_rest true old hs body [] st n a = loaded_closed old hs body st n a
  loaded_rest false old hs body [] st n a = loaded_open old hs body st n a
  loaded_rest closed old hs body ((hs', body') ∷ ps) st n a =
      let ms = sections_of ps in
      let m' = section_of hs' body' in
      let text =
        print_body body'
        ++ (print_bound (c ∷ cs) closed (length ms == 0) ++ print_sections (c ∷ cs) closed ms) in
      elim (loaded_body old hs (c ∷ cs) body st n
        (bound_line (c ∷ cs) (b'\n' ∷ print_sections (c ∷ cs) closed (m' ∷ ms)))
        (AreSome-NoBody hs a.0) (IsBody-of (c ∷ cs) body (is_bounded_mid c cs closed m' ms) a.1)) [
          | at_bound m st1 n1 in_body e f ↦
              let done = old ++ section_of hs body ∷ [] in
              let (n2, g) = loaded_new done st1 hs' (c ∷ cs) (n1 + 1) text a.2.0 in
              let (st', r) = loaded_rest closed done hs' body' ps st1 n2 a.2 in
              (
                st',
                ap
                      (λ x.
                        loaded (reader (old ++ hs ∷ []) (c ∷ cs) st n false false (length old))
                          (print_body body ++ x))
                      (print_bound_mid c cs closed m' ms (print_sections (c ∷ cs) closed (m' ∷ ms)))
                    ∙ f
                    ∙ loaded_mid old m (c ∷ cs) st1 n1 in_body h
                        (print_sections (c ∷ cs) closed (m' ∷ ms))
                    ∙ ap₂
                        (λ s t.
                          loaded
                            (reader (old ++ s ∷ []) (c ∷ cs) st1 (n1 + 1) false false
                              (length (old ++ s ∷ [])))
                            t)
                        e
                        (print_sections-part (c ∷ cs) closed hs' body' ms
                          (AreSome-NoBody hs' a.2.0))
                    ∙ g
                    ∙ ap
                        (λ b.
                          loaded (reader (done ++ hs' ∷ []) b st1 n2 false false (length done))
                            text)
                        (learned_known (length done) c cs hs')
                    ∙ r
                    ∙ ap (λ ss. whole ss (c ∷ cs) st' closed)
                        (append_assoc old (section_of hs body ∷ []) (m' ∷ ms)),
              )
        ]
