-- ===== src/Multipart/Lines.antt =====
-- The lines that `fgets` makes of a text.
use job.Multipart.Scanning.{AllPlain, IsPlain}
use job.Multipart.Load.{fgets_lines, c_str}
use job.Prelude.{
  ℕ, ◌-◌, ◌<◌, false, ◌||◌, List, [], ◌∷◌, ◌++◌, Bytes, ◌==◌, length, ◌≡◌, refl, ap, ◌∙◌, arith,
  append_assoc, Bool-cases, inl, inr,
}

pub AllPlain-append : (x y : Bytes) → AllPlain x → AllPlain y → AllPlain (x ++ y)
AllPlain-append [] y a b = b
AllPlain-append (c ∷ x) y a b = (a.0, AllPlain-append x y a.1 b)

pub c_str_plain : (x : Bytes) → AllPlain x → c_str (x ++ b'\n' ∷ []) ≡ x ++ b'\n' ∷ []
unfolding c_str
c_str_plain [] a = refl
c_str_plain (c ∷ x) a =
    let more : (c == 0) ≡ false = ground arith in rw more (ap (◌∷◌ c) (c_str_plain x a.1))

plain_goes_on : (c room : ℕ) → IsPlain c → 1 < room → (c == b'\n' || room == 1) ≡ false
plain_goes_on c room a h = ground arith

-- A line that fits the buffer is read whole.
pub fgets_line :
    (size room : ℕ) (acc x rest : Bytes)
    → AllPlain x
    → length x < room
    → fgets_lines size room acc (x ++ b'\n' ∷ rest)
      ≡ (acc ++ (x ++ b'\n' ∷ [])) ∷ fgets_lines size (size - 1) [] rest
unfolding fgets_lines
fgets_line size room [] [] rest a h = refl
fgets_line size room (d ∷ acc) [] rest a h = refl
fgets_line size room [] (c ∷ x) rest a h =
    rw (plain_goes_on c room a.0 (omega arith))
      (fgets_line size (room - 1) (c ∷ []) x rest a.1 (omega arith))
fgets_line size room (d ∷ acc) (c ∷ x) rest a h = rw (plain_goes_on c room a.0 (omega arith)) (
    fgets_line size (room - 1) ((d ∷ acc) ++ c ∷ []) x rest a.1 (omega arith)
    ∙ ap (λ l. l ∷ fgets_lines size (size - 1) [] rest)
        (append_assoc (d ∷ acc) (c ∷ []) (x ++ b'\n' ∷ [])))

-- The lines put together.
abbrev pub concat : List Bytes → Bytes
concat [] = []
concat (l ∷ ls) = l ++ concat ls

-- However `fgets` cuts a text, nothing is lost.
pub concat-fgets_lines :
    (size room : ℕ) (acc x : Bytes) → concat (fgets_lines size room acc x) ≡ acc ++ x
unfolding fgets_lines
concat-fgets_lines size room [] [] = refl
concat-fgets_lines size room (a ∷ acc) [] = refl
concat-fgets_lines size room [] (c ∷ cs) = elim (Bool-cases (c == b'\n' || room == 1)) [
  | inl e ↦ rw e (ap (◌∷◌ c) (concat-fgets_lines size (size - 1) [] cs))
  | inr e ↦ rw e (concat-fgets_lines size (room - 1) (c ∷ []) cs)
]
concat-fgets_lines size room (a ∷ acc) (c ∷ cs) = elim (Bool-cases (c == b'\n' || room == 1)) [
  | inl e ↦ rw e (
      ap (λ l. ((a ∷ acc) ++ c ∷ []) ++ l) (concat-fgets_lines size (size - 1) [] cs)
      ∙ append_assoc (a ∷ acc) (c ∷ []) cs)
  | inr e ↦ rw e (
      concat-fgets_lines size (room - 1) ((a ∷ acc) ++ c ∷ []) cs
      ∙ append_assoc (a ∷ acc) (c ∷ []) cs)
]

-- A newline ends a line: what follows is cut on its own.
pub fgets_lines-append :
    (size room : ℕ) (acc x rest : Bytes)
    → fgets_lines size room acc (x ++ b'\n' ∷ rest)
      ≡ fgets_lines size room acc (x ++ b'\n' ∷ []) ++ fgets_lines size (size - 1) [] rest
unfolding fgets_lines
fgets_lines-append size room [] [] rest = refl
fgets_lines-append size room (a ∷ acc) [] rest = refl
fgets_lines-append size room [] (c ∷ cs) rest = elim (Bool-cases (c == b'\n' || room == 1)) [
  | inl e ↦ rw e (ap (◌∷◌ (c ∷ [])) (fgets_lines-append size (size - 1) [] cs rest))
  | inr e ↦ rw e (fgets_lines-append size (room - 1) (c ∷ []) cs rest)
]
fgets_lines-append size room (a ∷ acc) (c ∷ cs) rest = elim (Bool-cases (c == b'\n' || room == 1)) [
  | inl e ↦ rw e (ap (◌∷◌ ((a ∷ acc) ++ c ∷ [])) (fgets_lines-append size (size - 1) [] cs rest))
  | inr e ↦ rw e (fgets_lines-append size (room - 1) ((a ∷ acc) ++ c ∷ []) cs rest)
]
