-- ===== src/Multipart/Entry.antt =====
-- The scanner on a line that holds a tag, a colon, blanks and a value.
use job.Multipart.Scan.{
  want_tag, want_tend, want_val, want_vend, go, scan_loop, entry, scanned_line, finish_line,
  scan_line, is_id,
}
use job.Multipart.Print.{field, field_minlen}
use job.Prelude.{
  ℕ, zero, suc, ◌+◌, ◌-◌, ◌≤◌, Bool, true, false, [], ◌∷◌, ◌++◌, ◌≡◌, refl, ap, ap₂, sym, ◌∙◌,
  arith, Bytes, codes, if◌then◌else◌, length, length-append, replicate, is_blank, is_alnum, take,
  drop, append_assoc, take-length_append, drop-length_append,
}
use job.Multipart.Scanning.{
  IsPlain, AllPlain, at, AllTag, scan_loop_step, scan_tag_first, scan_colon, scan_value_first,
  scan_value_byte, scan_tag_rest, scan_blanks, scan_value_rest,
}

-- A value in the shape that the scanner gives back: its first byte is no blank, and its last none
-- either.
pub data IsValue : Bytes → Type 0 where
  single : (c : ℕ) {value : Bytes} → is_blank c ≡ false → IsPlain c → value ≡ c ∷ [] → IsValue value
  longer :
      (c d : ℕ) (cs : Bytes) {value : Bytes}
      → is_blank c ≡ false
      → IsPlain c
      → AllPlain cs
      → is_blank d ≡ false
      → IsPlain d
      → value ≡ c ∷ (cs ++ d ∷ [])
      → IsValue value

IsValue-length : {value : Bytes} → IsValue value → 1 ≤ length value
IsValue-length (single c b p e) = omega (arith, ap length e)
IsValue-length (longer c d cs b p a b' p' e) = omega (arith, ap length e)

first_part : (x y : Bytes) (n : ℕ) → n ≡ length x → take n (x ++ y) ≡ x
first_part x y n e = rw e (take-length_append x y)

later_part :
    (pre value rest : Bytes) (v n : ℕ)
    → v ≡ length pre
    → n ≡ length value
    → take n (drop v (pre ++ (value ++ rest))) ≡ value
later_part pre value rest v n e f =
    rw (e, f, drop-length_append pre (value ++ rest)) (take-length_append value rest)

length-replicate : (k a : ℕ) → length (replicate k a) ≡ k
length-replicate zero a = refl
length-replicate (suc k) a = ap suc (length-replicate k a)

module _ (idc : ℕ → Bool) (skip : Bool) (no_colon : idc b':' ≡ false) where
  scan_value :
      (n t tl : ℕ) (value rest : Bytes)
      → IsValue value
      → scan_loop idc skip (at n t tl 1 0 want_val) (value ++ b'\n' ∷ rest)
        ≡ go (at (n + length value) t tl n (n + length value - 1) want_vend)
  unfolding scan_loop
  scan_value n t tl value rest (single c b p q) =
      let size : length value ≡ 1 = ap length q in
      ap (λ x. scan_loop idc skip (at n t tl 1 0 want_val) (x ++ b'\n' ∷ rest)) q
      ∙ scan_loop_step idc skip (at n t tl 1 0 want_val) (at (n + 1) t tl n n want_vend) c
          (b'\n' ∷ rest) p (scan_value_first idc skip c n t tl b)
      ∙ (let e : n ≡ n + length value - 1 = omega arith in
          let f : n + 1 ≡ n + length value = omega arith in
          ap₂ (λ y x. go (at y t tl n x want_vend)) f e)
  scan_value n t tl value rest (longer c d cs b p a b' p' e) =
      let (w, run) = scan_value_rest idc skip cs (d ∷ (b'\n' ∷ rest)) (n + 1) t tl n n a in
      let size : length value ≡ length cs + 2 =
        omega (arith, ap length e, length-append cs (d ∷ [])) in
      let f : n + 1 + length cs + 1 ≡ n + length value = omega arith in
      let g : n + 1 + length cs ≡ n + length value - 1 = omega arith in
      ap (λ x. scan_loop idc skip (at n t tl 1 0 want_val) (x ++ b'\n' ∷ rest)) e
      ∙ scan_loop_step idc skip (at n t tl 1 0 want_val) (at (n + 1) t tl n n want_vend) c
          ((cs ++ d ∷ []) ++ b'\n' ∷ rest) p (scan_value_first idc skip c n t tl b)
      ∙ ap (scan_loop idc skip (at (n + 1) t tl n n want_vend))
          (append_assoc cs (d ∷ []) (b'\n' ∷ rest))
      ∙ run
      ∙ scan_loop_step idc skip (at (n + 1 + length cs) t tl n w want_vend)
          (at (n + 1 + length cs + 1) t tl n (n + 1 + length cs) want_vend) d (b'\n' ∷ rest) p'
          (scan_value_byte idc skip d (n + 1 + length cs) t tl n w
            ∙ ap
                (λ x. go (
                  at (n + 1 + length cs + 1) t tl n (if x then w else n + 1 + length cs) want_vend))
                b')
      ∙ ap₂ (λ x y. go (at x t tl n y want_vend)) f g

  -- A line `tag: value`, with any blanks behind the colon, is read as that tag and that value.
  pub scan_line_entry :
      (c : ℕ) (cs : Bytes) (k : ℕ) (value rest : Bytes)
      → AllTag idc skip (c ∷ cs)
      → IsValue value
      → scan_line idc skip 0 (c ∷ cs ++ (b':' ∷ (replicate k b' ' ++ (value ++ b'\n' ∷ rest))))
        ≡ entry (c ∷ cs) value
  unfolding scan_line scanned_line finish_line
  scan_line_entry c cs k value rest a v =
      let tail = value ++ b'\n' ∷ rest in
      let run =
        scan_loop_step idc skip (at 0 0 0 1 0 want_tag) (at (0 + 1) 0 0 1 0 want_tend) c
          (cs ++ (b':' ∷ (replicate k b' ' ++ tail))) a.0.2 (scan_tag_first idc skip c 0 0 a.0)
        ∙ scan_tag_rest idc skip cs (b':' ∷ (replicate k b' ' ++ tail)) (0 + 1) 0 0 a.1
        ∙ scan_loop_step idc skip (at (0 + 1 + length cs) 0 (0 + length cs) 1 0 want_tend)
            (at (0 + 1 + length cs + 1) 0 (0 + length cs + 1) 1 0 want_val) b':'
            (replicate k b' ' ++ tail) refl
            (scan_colon idc skip (0 + 1 + length cs) 0 (0 + length cs) no_colon)
        ∙ scan_blanks idc skip k tail (0 + 1 + length cs + 1) 0 (0 + length cs + 1)
        ∙ scan_value (0 + 1 + length cs + 1 + k) 0 (0 + length cs + 1) value rest v in
      let line = c ∷ (cs ++ (b':' ∷ (replicate k b' ' ++ tail))) in
      let pre = c ∷ (cs ++ (b':' ∷ replicate k b' ')) in
      let regroup : line ≡ pre ++ tail =
        ap (◌∷◌ c) (sym (append_assoc cs (b':' ∷ replicate k b' ') tail)) in
      let size : length pre ≡ 1 + length cs + 1 + k =
        omega (arith, length-append cs (b':' ∷ replicate k b' '), length-replicate k b' ') in
      let more : 1 ≤ length value = IsValue-length v in
      ap (scanned_line line) run
      ∙ ap₂ entry
          (first_part (c ∷ cs) (b':' ∷ (replicate k b' ' ++ tail)) (0 + length cs + 1)
            (omega arith))
          (ap
              (λ l.
                take
                  (0 + 1 + length cs + 1 + k + length value - 1 + 1 - (0 + 1 + length cs + 1 + k))
                  (drop (0 + 1 + length cs + 1 + k) l))
              regroup
            ∙ later_part pre value (b'\n' ∷ rest) (0 + 1 + length cs + 1 + k)
                (0 + 1 + length cs + 1 + k + length value - 1 + 1 - (0 + 1 + length cs + 1 + k))
                (omega arith) (omega arith))

  -- So is a line with blanks and no value behind the colon: its value is empty.
  pub scan_line_empty :
      (c : ℕ) (cs : Bytes) (k : ℕ)
      → AllTag idc skip (c ∷ cs)
      → scan_line idc skip 0 (c ∷ cs ++ (b':' ∷ (replicate k b' ' ++ codes "\n")))
        ≡ entry (c ∷ cs) []
  unfolding scan_line scanned_line finish_line scan_loop
  scan_line_empty c cs k a =
      let run =
        scan_loop_step idc skip (at 0 0 0 1 0 want_tag) (at (0 + 1) 0 0 1 0 want_tend) c
          (cs ++ (b':' ∷ (replicate k b' ' ++ codes "\n"))) a.0.2
          (scan_tag_first idc skip c 0 0 a.0)
        ∙ scan_tag_rest idc skip cs (b':' ∷ (replicate k b' ' ++ codes "\n")) (0 + 1) 0 0 a.1
        ∙ scan_loop_step idc skip (at (0 + 1 + length cs) 0 (0 + length cs) 1 0 want_tend)
            (at (0 + 1 + length cs + 1) 0 (0 + length cs + 1) 1 0 want_val) b':'
            (replicate k b' ' ++ codes "\n") refl
            (scan_colon idc skip (0 + 1 + length cs) 0 (0 + length cs) no_colon)
        ∙ scan_blanks idc skip k (codes "\n") (0 + 1 + length cs + 1) 0 (0 + length cs + 1) in
      let line = c ∷ (cs ++ (b':' ∷ (replicate k b' ' ++ codes "\n"))) in
      ap (scanned_line line) run
      ∙ ap (λ t. entry t [])
          (first_part (c ∷ cs) (b':' ∷ (replicate k b' ' ++ codes "\n")) (0 + length cs + 1)
            (omega arith))

pub id_byte : (c : ℕ) → is_id c ≡ true → (is_blank c ≡ false) × IsPlain c
unfolding is_id is_alnum is_blank
id_byte c h = (ground arith, ground arith)

-- The bytes of a tag.
abbrev pub AllId : Bytes → Type 0
AllId [] = Unit
AllId (c ∷ cs) = (is_id c ≡ true) × AllId cs

AllId-AllTag : (skip : Bool) (cs : Bytes) → AllId cs → AllTag is_id skip cs
AllId-AllTag skip [] a = tt
AllId-AllTag skip (c ∷ cs) a =
    ((a.0, (id_byte c a.0).0, (id_byte c a.0).1), AllId-AllTag skip cs a.1)

-- A value as it is printed: nothing, or in the shape that the scanner gives back.
pub data IsPrinted (value : Bytes) : Type 0 where
  nothing : value ≡ [] → IsPrinted value
  something : IsValue value → IsPrinted value

-- `load` reads the header line that `to_string` prints for a tag and a value as that tag and that
-- value, if the tag is one or more letters, digits, `-`, `_` or `.`, and the value has no end of
-- line and neither begins nor ends with a blank.
pub scan_line-field :
    (c : ℕ) (cs value : Bytes)
    → AllId (c ∷ cs)
    → IsPrinted value
    → scan_line is_id true 0 (field (c ∷ cs) value) ≡ entry (c ∷ cs) value
unfolding field
scan_line-field c cs value a (nothing e) =
    ap (λ x. scan_line is_id true 0 (field (c ∷ cs) x)) e
    ∙ scan_line_empty is_id true (unfold is_id is_alnum in refl) c cs
        (suc (field_minlen - length (c ∷ cs))) (AllId-AllTag true (c ∷ cs) a)
    ∙ ap (entry (c ∷ cs)) (sym e)
scan_line-field c cs value a (something v) =
    scan_line_entry is_id true (unfold is_id is_alnum in refl) c cs
      (suc (field_minlen - length (c ∷ cs))) value [] (AllId-AllTag true (c ∷ cs) a) v
