-- ===== src/File/Object/RoundTrip.antt =====
-- `load` of what `store` has written of a new job.
use job.File.Header.Arguments.{HasNoArgs, length-store_args, length-set_tag}
use job.File.Header.RoundTrip.{
  sets, fixed, fixed-HasNoArgs, before_body, store_header_sets, load_header_same, pid_stored,
}
use job.File.Header.Ties.{AreTies, AreDistinct}
use job.File.Header.{Header, store_header, load_header, get_tag, arg_tag, store_args, tie_lines}
use job.File.Moves.{Faults}
use job.File.Object.Disks.{
  Disk, StoreFaults, loaded, load, load_inode, parts_loaded, take_values, touch_all, first_section,
  store,
}
use job.File.Object.Stored.{in_file_whole, HasText, stored_parts, store-HasText}
use job.File.Object.Touched.{touched, get_tag-touch_all, find_tag-touch_all, length-touch_all}
use job.File.Object.{JobFile, one_section}
use job.File.{PathAttrs, is_empty, name}
use job.Multipart.Bare.{bare, printed, bare-set_tag}
use job.Multipart.Load.{Multipart, new_multipart, Loaded, ok, at_section, body_tag, c_str}
use job.Multipart.Load
use job.Multipart.Order.{NoBody, section_of, find_tag-NoBody}
use job.Multipart.Print.{to_string, with_boundary}
use job.Multipart.RoundTrip.{IsPrintable, load-to_string_section}
use job.Multipart.Section.{Section, find_tag, set_tag, same_key, caseless, find_tag-set_tag}
use job.Prelude.{
  ℕ, suc, ◌+◌, ◌<◌, ◌≤◌, ◌^◌, Bool, false, not, ◌&&◌, List, [], ◌∷◌, none, Bytes, length, to_lower,
  ◌≡◌, refl, ap, sym, subst, ◌∙◌, arith, Bool-cases, inl, inr,
}

NoBody-set_tag :
    (t v : Bytes) (m : Section) → same_key t body_tag ≡ false → NoBody m → NoBody (set_tag t v m)
unfolding set_tag
NoBody-set_tag t v [] e h = (e, tt)
NoBody-set_tag t v ((k, w) ∷ m) e h = elim (Bool-cases (same_key k t)) [
  | inl s ↦ rw s h
  | inr s ↦ elim (Bool-cases (caseless t k)) [
    | inl c ↦ rw (s, c) (e, h)
    | inr c ↦ rw (s, c) (h.0, NoBody-set_tag t v m e h.1)
  ]
]

NoBody-store_args : (a : ℕ) (xs : List Bytes) (m : Section) → NoBody m → NoBody (store_args a xs m)
unfolding store_args same_key caseless arg_tag to_lower
NoBody-store_args a [] m h = h
NoBody-store_args a (x ∷ xs) m h =
    NoBody-store_args (suc a) xs (set_tag (arg_tag a) x m) (NoBody-set_tag (arg_tag a) x m refl h)

abbrev NoneBody : List (Bytes × Bytes) → Type 0
NoneBody [] = Unit
NoneBody ((t, v) ∷ kvs) = (same_key t body_tag ≡ false) × NoneBody kvs

NoBody-sets :
    (kvs : List (Bytes × Bytes)) (m : Section) → NoneBody kvs → NoBody m → NoBody (sets kvs m)
NoBody-sets [] m n h = h
NoBody-sets ((t, v) ∷ kvs) m n h = NoBody-sets kvs (set_tag t v m) n.1 (NoBody-set_tag t v m n.0 h)

-- A section with an empty body, and the one without, have the same values.
section_values :
    (hs : Section) (v j : Bytes)
    → NoBody hs
    → get_tag (section_of hs v) j ≡ get_tag (set_tag body_tag v hs) j
section_values hs [] j h = sym (touched hs body_tag j (find_tag-NoBody hs h))
section_values hs (c ∷ cs) j h = refl

section_args :
    (hs : Section) (v : Bytes) (k : ℕ)
    → find_tag (section_of hs v) (arg_tag k) ≡ find_tag (set_tag body_tag v hs) (arg_tag k)
unfolding same_key caseless arg_tag to_lower
section_args hs [] k = sym (find_tag-set_tag body_tag [] hs (arg_tag k))
section_args hs (c ∷ cs) k = refl

length-section_of : (hs : Section) (v : Bytes) → length hs ≤ length (section_of hs v)
length-section_of hs [] = omega arith
length-section_of hs (c ∷ cs) = length-set_tag body_tag (c ∷ cs) hs

module _ (p : PathAttrs) (h : Header) where
  abbrev hs : Section
  hs = before_body p h []

  hs-NoBody : NoBody hs
  unfolding same_key caseless to_lower
  hs-NoBody = NoBody-store_args 1 h.args (sets (fixed p h []) []) (
      NoBody-sets (fixed p h []) []
        (refl, (refl, (refl, (refl, (refl, (refl, (refl, (refl, (refl, (refl, (refl, tt)))))))))))
        tt)

  -- What is read of the section that is stored first.
  abbrev read_back : Section
  read_back = touch_all (section_of hs (tie_lines h.ties))

  pub bare-store_header : bare (store_header p h []) ≡ section_of hs (tie_lines h.ties)
  bare-store_header =
      ap bare (store_header_sets p h []) ∙ bare-set_tag hs (tie_lines h.ties) hs-NoBody

  load_header-read_back :
      h.mid < 2 ^ 31
      → 1 + length h.args < 2 ^ 31
      → AreTies h.ties
      → AreDistinct [] h.ties
      → load_header read_back ≡ record h { pid = pid_stored p h }
  unfolding find_tag
  load_header-read_back small few ties distinct =
      let v = tie_lines h.ties in
      let no_args : HasNoArgs 1 [] = λ k x y. refl in
      load_header_same p h [] read_back
        (λ j.
          get_tag-touch_all (section_of hs v) j
          ∙ section_values hs v j hs-NoBody
          ∙ ap (λ m. get_tag m j) (sym (store_header_sets p h [])))
        (λ k.
          find_tag-touch_all (section_of hs v) k
          ∙ section_args hs v k
          ∙ ap (λ m. find_tag m (arg_tag k)) (sym (store_header_sets p h [])))
        (omega (
          arith,
          length-touch_all (section_of hs v),
          length-section_of hs v,
          length-store_args 1 h.args (sets (fixed p h []) []) few (fixed-HasNoArgs p h [] no_args),
        ))
        small few no_args ties distinct

-- A job that has not been stored yet, and an object that is to be loaded.
abbrev pub unstored : JobFile → JobFile
unstored f = record f { parts = one_section }

load_text :
    (jobdir : Bytes) (d : Disk) (g : JobFile) (text : Bytes) {m : Multipart}
    → HasText (name jobdir g.handle.path) text d
    → job.Multipart.Load.load text g.parts ≡ ok m
    → (owner : ℕ × ℕ) × (load jobdir d g
        ≡ loaded (
            take_values owner m
              (record g { handle = record (g.handle) { oldnam = name jobdir g.handle.path } })))
unfolding load load_inode parts_loaded
load_text jobdir d g text h e = (d.owner h.inode, rw (h.named, h.content_is, e))

abbrev pub stored_text : Bytes → JobFile → Bytes
stored_text uuid f = (to_string uuid (stored_parts (unstored f))).1

header_read :
    (owner : ℕ × ℕ) (st : Bytes) (c : Bool) (uuid : Bytes) (f g : JobFile)
    → (take_values owner
        (record (printed (to_string uuid (stored_parts (unstored f))).0) {
          substatus = st;
          closed = c;
        })
        g).header
      ≡ load_header (read_back f.handle.path f.header)
unfolding take_values to_string with_boundary at_section first_section
header_read owner st c uuid f g =
    ap (λ m. load_header (touch_all m)) (bare-store_header f.handle.path f.header)

-- A job that is stored for the first time is loaded, from the path it was stored at, with the command,
-- the arguments, the node, the type, the flag, the limit, the ties and the manager's id that it had;
-- with its process number if it is in state `run`, and else 0. The file can be created and
-- written, to the end; its text has no NUL; the section is printable as in `Multipart.RoundTrip`; the id of the manager and those
-- of the ties fit an `int`; there are fewer than 2^31 - 1 arguments; the stations of the ties are
-- different words of one line.
pub load-store :
    (w : Faults) (ws : StoreFaults) (jobdir uuid : Bytes) (d : Disk) (f g : JobFile)
    → ws.create_fails ≡ false
    → ws.written ≡ none
    → ws.flushed ≡ none
    → (store w ws jobdir uuid d (unstored f)).1.handle.oldnam ≡ name jobdir g.handle.path
    → c_str (stored_text uuid f) ≡ stored_text uuid f
    → IsPrintable (printed (to_string uuid (stored_parts (unstored f))).0)
    → f.header.mid < 2 ^ 31
    → 1 + length f.header.args < 2 ^ 31
    → AreTies f.header.ties
    → AreDistinct [] f.header.ties
    → (g' : JobFile) × (load jobdir (store w ws jobdir uuid d (unstored f)).0 (unstored g)
        ≡ loaded g')
      × (g'.header ≡ record (f.header) { pid = pid_stored f.handle.path f.header })
load-store w ws jobdir uuid d f g c e whole place plain h small few ties distinct =
    let (st, read) = load-to_string_section uuid (stored_parts (unstored f)) h in
    let there =
      subst2 place (in_file_whole ws.flushed (c_str (stored_text uuid f)) whole)
        (store-HasText w ws jobdir uuid d (unstored f) c e) in
    let (owner, run) =
      load_text jobdir (store w ws jobdir uuid d (unstored f)).0 (unstored g) (stored_text uuid f)
        (subst
          (λ t. HasText (name jobdir g.handle.path) t (store w ws jobdir uuid d (unstored f)).0)
          plain there)
        read in
    let after = (to_string uuid (stored_parts (unstored f))).0 in
    let closed = after.closed && not (is_empty after.boundary) in
    let named : JobFile = record (unstored g) {
      handle = record (g.handle) { oldnam = name jobdir g.handle.path };
    } in
    (
      take_values owner (record (printed after) { substatus = st; closed = closed }) named,
      run,
      header_read owner st closed uuid f named
          ∙ load_header-read_back f.handle.path f.header small few ties distinct,
    )
  where
    subst2 : {p q s t : Bytes} {x : Disk} → p ≡ q → s ≡ t → HasText p s x → HasText q t x
    subst2 {p} {q} {s} {t} {x} a b h = subst (λ r. HasText r t x) a (subst (λ r. HasText p r x) b h)
