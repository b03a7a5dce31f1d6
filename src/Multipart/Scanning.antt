-- ===== src/Multipart/Scanning.antt =====
-- The states of the scanner, byte by byte: a tag, the colon, blanks and a value.
use job.Multipart.Scan.{
  Scan, ScanState, want_tag, want_tend, want_val, want_vend, go, scan_byte, scan_loop,
}
use job.Prelude.{
  ℕ, zero, suc, ◌+◌, Bool, true, false, ◌||◌, [], ◌∷◌, ◌++◌, ◌≡◌, refl, ap, ap₂, ◌∙◌, arith, Bytes,
  ◌==◌, if◌then◌else◌, length, replicate, is_blank, Bool-cases, inl, inr,
}

-- Not the end of a line.
abbrev pub IsPlain : ℕ → Type 0
IsPlain c = (c == 0 || c == b'\n') ≡ false

abbrev pub AllPlain : Bytes → Type 0
AllPlain [] = Unit
AllPlain (c ∷ cs) = IsPlain c × AllPlain cs

abbrev pub at : ℕ → ℕ → ℕ → ℕ → ℕ → ScanState → Scan
at n t tl v w st = record { n = n; t = t; tl = tl; v = v; w = w; state = st }

module _ (idc : ℕ → Bool) (skip : Bool) where
  abbrev pub IsTagByte : ℕ → Type 0
  IsTagByte c = (idc c ≡ true) × (is_blank c ≡ false) × IsPlain c

  abbrev pub AllTag : Bytes → Type 0
  AllTag [] = Unit
  AllTag (c ∷ cs) = IsTagByte c × AllTag cs

  pub scan_loop_step :
      (s s' : Scan) (c : ℕ) (rest : Bytes)
      → IsPlain c
      → scan_byte idc skip s.state s c ≡ go s'
      → scan_loop idc skip s (c ∷ rest) ≡ scan_loop idc skip s' rest
  unfolding scan_loop
  scan_loop_step s s' c rest p e = rw (p, e, scan_loop)

  pub scan_tag_first :
      (c n t : ℕ)
      → IsTagByte c
      → scan_byte idc skip want_tag (at n t 0 1 0 want_tag) c ≡ go (at (n + 1) n 0 1 0 want_tend)
  unfolding scan_byte
  scan_tag_first c n t h = ground (arith, h.0, h.1)

  scan_tag_byte :
      (c n t tl : ℕ)
      → IsTagByte c
      → scan_byte idc skip want_tend (at n t tl 1 0 want_tend) c
        ≡ go (at (n + 1) t (tl + 1) 1 0 want_tend)
  unfolding scan_byte
  scan_tag_byte c n t tl h = rw h.0

  pub scan_colon :
      (n t tl : ℕ)
      → idc b':' ≡ false
      → scan_byte idc skip want_tend (at n t tl 1 0 want_tend) b':'
        ≡ go (at (n + 1) t (tl + 1) 1 0 want_val)
  unfolding scan_byte
  scan_colon n t tl h = rw h

  pub scan_value_first :
      (c n t tl : ℕ)
      → is_blank c ≡ false
      → scan_byte idc skip want_val (at n t tl 1 0 want_val) c ≡ go (at (n + 1) t tl n n want_vend)
  unfolding scan_byte
  scan_value_first c n t tl h = rw h

  pub scan_value_byte :
      (c n t tl v w : ℕ)
      → scan_byte idc skip want_vend (at n t tl v w want_vend) c
        ≡ go (at (n + 1) t tl v (if is_blank c then w else n) want_vend)
  unfolding scan_byte
  scan_value_byte c n t tl v w = elim (Bool-cases (is_blank c)) [ inl e ↦ rw e | inr e ↦ rw e ]

  pub scan_tag_rest :
      (cs rest : Bytes) (n t tl : ℕ)
      → AllTag cs
      → scan_loop idc skip (at n t tl 1 0 want_tend) (cs ++ rest)
        ≡ scan_loop idc skip (at (n + length cs) t (tl + length cs) 1 0 want_tend) rest
  scan_tag_rest [] rest n t tl a =
      let e : n + 0 ≡ n = omega arith in let f : tl + 0 ≡ tl = omega arith in rw (e, f)
  scan_tag_rest (c ∷ cs) rest n t tl a =
      let e : n + 1 + length cs ≡ n + suc (length cs) = omega arith in
      let f : tl + 1 + length cs ≡ tl + suc (length cs) = omega arith in
      scan_loop_step (at n t tl 1 0 want_tend) (at (n + 1) t (tl + 1) 1 0 want_tend) c (cs ++ rest)
        a.0.2 (scan_tag_byte c n t tl a.0)
      ∙ scan_tag_rest cs rest (n + 1) t (tl + 1) a.1
      ∙ ap₂ (λ x y. scan_loop idc skip (at x t y 1 0 want_tend) rest) e f

  scan_blank :
      (n t tl : ℕ)
      → scan_byte idc skip want_val (at n t tl 1 0 want_val) b' '
        ≡ go (at (n + 1) t tl 1 0 want_val)
  unfolding scan_byte is_blank
  scan_blank n t tl = refl

  pub scan_blanks :
      (k : ℕ) (rest : Bytes) (n t tl : ℕ)
      → scan_loop idc skip (at n t tl 1 0 want_val) (replicate k b' ' ++ rest)
        ≡ scan_loop idc skip (at (n + k) t tl 1 0 want_val) rest
  scan_blanks zero rest n t tl = (let e : n + 0 ≡ n = omega arith in rw e)
  scan_blanks (suc k) rest n t tl =
      let e : n + 1 + k ≡ n + suc k = omega arith in
      scan_loop_step (at n t tl 1 0 want_val) (at (n + 1) t tl 1 0 want_val) b' '
        (replicate k b' ' ++ rest) refl (scan_blank n t tl)
      ∙ scan_blanks k rest (n + 1) t tl
      ∙ ap (λ x. scan_loop idc skip (at x t tl 1 0 want_val) rest) e

  -- Where the value ends so far is left open: its last byte settles it.
  pub scan_value_rest :
      (cs rest : Bytes) (n t tl v w : ℕ)
      → AllPlain cs
      → (w' : ℕ) × (scan_loop idc skip (at n t tl v w want_vend) (cs ++ rest)
          ≡ scan_loop idc skip (at (n + length cs) t tl v w' want_vend) rest)
  scan_value_rest [] rest n t tl v w a = (w, (let e : n + 0 ≡ n = omega arith in rw e))
  scan_value_rest (c ∷ cs) rest n t tl v w a =
      let w1 : ℕ = if is_blank c then w else n in
      let (w', e) = scan_value_rest cs rest (n + 1) t tl v w1 a.1 in
      let f : n + 1 + length cs ≡ n + suc (length cs) = omega arith in
      (
        w',
        scan_loop_step (at n t tl v w want_vend) (at (n + 1) t tl v w1 want_vend) c (cs ++ rest) a.0
              (scan_value_byte c n t tl v w)
            ∙ e
            ∙ ap (λ x. scan_loop idc skip (at x t tl v w' want_vend) rest) f,
      )
