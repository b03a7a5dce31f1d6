-- ===== src/File/Header/Ties.antt =====
-- The `tie` lines of the body: `load` reads the ties that `store` writes.
use job.File.Header.{
  Ties, tie_line, tie_lines, is_nil, strtok_lines, set_tie, add_tie, add_ties, int_to_id,
}
use job.File.Header.Arguments.{int2str_small}
use job.Number.Decimal.{AllDigits, siz2str-AllDigits, str2int-print_int}
use job.Number.{int2str, print_int, siz2str, str2int, pos}
use job.Prelude.{
  ℕ, ◌<◌, ◌^◌, Bool, true, false, [], ◌∷◌, ◌++◌, Bytes, codes, ◌==◌, if◌then◌else◌, str_eq, ◌≡◌,
  ◌≢◌, refl, ap, sym, ◌∙◌, arith, Bool-cases, inl, inr, append-nil, append_assoc, is_digit,
}
use job.Text.Split.Pieces.{has_byte, has_byte-append, split-tails}
use job.Text.Split.{split}
use mathlib.Core.Bool.{false≢true}

-- A line is what comes before the next newline.
strtok_line :
    (line x rest : Bytes)
    → has_byte b'\n' x ≡ false
    → is_nil (line ++ x) ≡ false
    → strtok_lines line (x ++ b'\n' ∷ rest) ≡ (line ++ x) ∷ strtok_lines [] rest
unfolding strtok_lines
strtok_line line [] rest h n =
    let kept : is_nil line ≡ false = sym (ap is_nil (append-nil line)) ∙ n in rw (kept, append-nil)
strtok_line line (c ∷ x) rest h n =
    let other : (c == b'\n') ≡ false = ground arith in
    let grown : (line ++ c ∷ []) ++ x ≡ line ++ (c ∷ x) = append_assoc line (c ∷ []) x in
    rw other (
      strtok_line (line ++ c ∷ []) x rest (ground arith) (ap is_nil grown ∙ n)
      ∙ ap (λ l. l ∷ strtok_lines [] rest) grown)

not_same : {c d : ℕ} → c ≢ d → (c == d) ≡ false
not_same n = ground (arith, n)

digits_no_byte : (c : ℕ) (ds : Bytes) → is_digit c ≡ false → AllDigits ds → has_byte c ds ≡ false
digits_no_byte c [] h a = refl
digits_no_byte c (d ∷ ds) h a =
    let other : (c == d) ≡ false = not_same (λ e. false≢true (sym h ∙ ap is_digit e ∙ a.0)) in
    rw (other, digits_no_byte c ds h a.1)

-- The stations of the ties are words of one line, all different, and the ids fit an `int`.
abbrev pub AreTies : Ties → Type 0
AreTies [] = Unit
AreTies ((node, id) ∷ ts) =
    (has_byte b' ' node ≡ false) × (has_byte b'\n' node ≡ false) × (id < 2 ^ 31) × AreTies ts

abbrev pub no_tie : Bytes → Ties → Bool
no_tie node [] = true
no_tie node ((k, v) ∷ ts) = if str_eq k node then false else no_tie node ts

-- No station has two ties, and none is among `old`.
abbrev pub AreDistinct : Ties → Ties → Type 0
AreDistinct old [] = Unit
AreDistinct old ((node, id) ∷ ts) =
    (no_tie node old ≡ true) × AreDistinct (old ++ (node, id) ∷ []) ts

set_tie_new :
    (node : Bytes) (id : ℕ) (ts : Ties)
    → no_tie node ts ≡ true
    → set_tie node id ts ≡ ts ++ (node, id) ∷ []
unfolding set_tie
set_tie_new node id [] h = refl
set_tie_new node id ((k, v) ∷ ts) h = elim (Bool-cases (str_eq k node)) [
  | inl e ↦ (let bad : false ≡ true = sym (rw e) ∙ h in cc)
  | inr e ↦ rw e (ap (◌∷◌ (k, v)) (set_tie_new node id ts (sym (rw e) ∙ h)))
]

pub id_read : (n : ℕ) → int_to_id (str2int (siz2str n)) ≡ n
unfolding print_int int_to_id
id_read n = ap int_to_id (str2int-print_int (pos n))

module _ (node : Bytes) (id : ℕ) (hs : has_byte b' ' node ≡ false)
    (hn : has_byte b'\n' node ≡ false) (hi : id < 2 ^ 31) where
  id_no_byte : (c : ℕ) → is_digit c ≡ false → has_byte c (int2str id) ≡ false
  id_no_byte c h =
      ap (has_byte c) (int2str_small id hi) ∙ digits_no_byte c (siz2str id) h (siz2str-AllDigits id)

  tie_line_no_newline : has_byte b'\n' (tie_line node id) ≡ false
  unfolding tie_line
  tie_line_no_newline =
      has_byte-append b'\n' node (b' ' ∷ int2str id)
      ∙ rw (hn, id_no_byte b'\n' (unfold is_digit in refl))

  split-tie_line : split (tie_line node id) (codes " ") 0 ≡ codes "tie" ∷ (node ∷ (int2str id ∷ []))
  unfolding tie_line
  split-tie_line =
      let read =
        split-tails b' ' (codes "tie") (node ∷ (int2str id ∷ [])) refl
          (hs, (id_no_byte b' ' (unfold is_digit in refl), tt)) in
      rw append-nil at read

  add_tie-split :
      (ts : Ties)
      → no_tie node ts ≡ true
      → add_tie (split (tie_line node id) (codes " ") 0) ts ≡ ts ++ (node, id) ∷ []
  unfolding add_tie str_eq
  add_tie-split ts h =
      let back : int_to_id (str2int (int2str id)) ≡ id =
        ap (λ t. int_to_id (str2int t)) (int2str_small id hi) ∙ id_read id in
      rw split-tie_line (ap (λ i. set_tie node i ts) back ∙ set_tie_new node id ts h)

pub add_ties-tie_lines :
    (old ts : Ties)
    → AreTies ts
    → AreDistinct old ts
    → add_ties (strtok_lines [] (tie_lines ts)) old ≡ old ++ ts
unfolding add_ties tie_lines
add_ties-tie_lines old [] h d = (unfold strtok_lines in unfold is_nil in sym (append-nil old))
add_ties-tie_lines old ((node, id) ∷ ts) (hs, hn, hi, h) (new, d) =
    ap (λ ls. add_ties ls old)
      (strtok_line [] (tie_line node id) (tie_lines ts) (tie_line_no_newline node id hs hn hi)
        (unfold tie_line in unfold is_nil in refl))
    ∙ ap (add_ties (strtok_lines [] (tie_lines ts))) (add_tie-split node id hs hn hi old new)
    ∙ add_ties-tie_lines (old ++ (node, id) ∷ []) ts h d
    ∙ append_assoc old ((node, id) ∷ []) ts
