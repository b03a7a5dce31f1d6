-- ===== src/Number/Decimal.antt =====
-- Reading back printed numbers.
use job.Prelude.{
  ℕ, zero, suc, ◌+◌, ◌-◌, ◌*◌, ◌/◌, ◌%◌, ◌<◌, ◌≤◌, Bool, true, false, [], ◌∷◌, ◌++◌, ◌≡◌, refl, ap,
  sym, ◌∙◌, arith, Bytes, ltb, is_digit, is_space, replicate, append-nil, Bool-cases, inl, inr,
  str_eq,
}
use job.Number.{
  ℤ, pos, negsuc, digits_fuel, siz2str, print_int, padded, read_digits, read_sign, str2int, boo2str,
  yn2str, str2boo,
}
use job.Text.Trim.{ltrim}

abbrev pub AllDigits : Bytes → Type 0
AllDigits [] = Unit
AllDigits (c ∷ cs) = (is_digit c ≡ true) × AllDigits cs

pub AllDigits-append : (x y : Bytes) → AllDigits x → AllDigits y → AllDigits (x ++ y)
AllDigits-append [] y h k = k
AllDigits-append (c ∷ x) y h k = (h.0, AllDigits-append x y h.1 k)

-- The number that digits stand for, read on from `acc`.
unfoldable pub value : ℕ → Bytes → ℕ
value acc [] = acc
value acc (c ∷ cs) = value (acc * 10 + (c - b'0')) cs

pub value-append : (acc : ℕ) (x y : Bytes) → value acc (x ++ y) ≡ value (value acc x) y
unfolding value
value-append acc [] y = refl
value-append acc (c ∷ x) y = value-append (acc * 10 + (c - b'0')) x y

-- What follows the digits does not begin with one.
abbrev pub NoDigit : Bytes → Type 0
NoDigit [] = Unit
NoDigit (c ∷ cs) = is_digit c ≡ false

pub read_digits-append :
    (acc : ℕ) (ds rest : Bytes)
    → AllDigits ds
    → NoDigit rest
    → read_digits acc (ds ++ rest) ≡ (value acc ds, rest)
unfolding read_digits value
read_digits-append acc [] [] a n = refl
read_digits-append acc [] (c ∷ rest) a n = rw n
read_digits-append acc (c ∷ ds) rest a n =
    rw a.0 (read_digits-append (acc * 10 + (c - b'0')) ds rest a.1 n)

digit_is_digit : (n : ℕ) → n < 10 → is_digit (n + b'0') ≡ true
unfolding is_digit
digit_is_digit n h = ground arith

digits_fuel-AllDigits : (fuel n : ℕ) → AllDigits (digits_fuel fuel n)
unfolding digits_fuel
digits_fuel-AllDigits zero n = tt
digits_fuel-AllDigits (suc fuel) n = elim (Bool-cases (ltb n 10)) [
  | inl e ↦ rw e (digit_is_digit n (ground arith), tt)
  | inr e ↦ rw e (
      AllDigits-append (digits_fuel fuel (n / 10)) ((n % 10 + b'0') ∷ [])
        (digits_fuel-AllDigits fuel (n / 10)) (digit_is_digit (n % 10) (omega arith), tt))
]

pub siz2str-AllDigits : (n : ℕ) → AllDigits (siz2str n)
unfolding siz2str
siz2str-AllDigits n = digits_fuel-AllDigits (suc n) n

value-digits_fuel : (fuel n : ℕ) → n < fuel → value 0 (digits_fuel fuel n) ≡ n
unfolding digits_fuel value
value-digits_fuel zero n h = elim h [ ]
value-digits_fuel (suc fuel) n h = elim (Bool-cases (ltb n 10)) [
  | inl e ↦ rw e (omega arith)
  | inr e ↦
      let big : 10 ≤ n = ground arith in
      rw e (
        value-append 0 (digits_fuel fuel (n / 10)) ((n % 10 + b'0') ∷ [])
        ∙ rw (value-digits_fuel fuel (n / 10) (omega arith)) (omega arith))
]

pub value-siz2str : (n : ℕ) → value 0 (siz2str n) ≡ n
unfolding siz2str
value-siz2str n = value-digits_fuel (suc n) n (omega arith)

replicate-AllDigits : (k : ℕ) → AllDigits (replicate k b'0')
replicate-AllDigits zero = tt
replicate-AllDigits (suc k) = ((unfold is_digit in refl), replicate-AllDigits k)

value-zeros : (k : ℕ) → value 0 (replicate k b'0') ≡ 0
unfolding value
value-zeros zero = refl
value-zeros (suc k) = value-zeros k

pub padded-AllDigits : (w n : ℕ) → AllDigits (padded w n)
unfolding padded
padded-AllDigits w n = AllDigits-append _ (siz2str n) (replicate-AllDigits _) (siz2str-AllDigits n)

pub value-padded : (w n : ℕ) → value 0 (padded w n) ≡ n
unfolding padded
value-padded w n =
    value-append 0 (replicate _ b'0') (siz2str n)
    ∙ ap (λ a. value a (siz2str n)) (value-zeros _)
    ∙ value-siz2str n

-- Digits end neither `ltrim` nor a sign.
pub ltrim_digit : (c : ℕ) (cs : Bytes) → is_digit c ≡ true → ltrim (c ∷ cs) ≡ c ∷ cs
unfolding ltrim is_space is_digit
ltrim_digit c cs h = ground arith

pub read_sign_digit :
    (c : ℕ) (cs : Bytes) → is_digit c ≡ true → read_sign (c ∷ cs) ≡ (false, c ∷ cs)
unfolding read_sign is_digit
read_sign_digit c cs h = ground arith

str2int_digits : (ds : Bytes) → AllDigits ds → str2int ds ≡ pos (value 0 ds)
unfolding str2int
str2int_digits [] a = (unfold value in refl)
str2int_digits (c ∷ ds) a =
    rw (ltrim_digit c ds a.0, read_sign_digit c ds a.0)
      (ap (λ r. pos r.0)
        (ap (read_digits 0) (sym (append-nil (c ∷ ds))) ∙ read_digits-append 0 (c ∷ ds) [] a tt))

ltrim_minus : (cs : Bytes) → ltrim (b'-' ∷ cs) ≡ b'-' ∷ cs
unfolding ltrim is_space
ltrim_minus cs = refl

-- `str2int` reads back every integer that `int2str` prints.
pub str2int-print_int : (a : ℤ) → str2int (print_int a) ≡ a
unfolding print_int
str2int-print_int (pos n) =
    str2int_digits (siz2str n) (siz2str-AllDigits n) ∙ ap pos (value-siz2str n)
str2int-print_int (negsuc n) =
    let read : read_digits 0 (siz2str (n + 1)) ≡ (n + 1, []) =
      ap (read_digits 0) (sym (append-nil (siz2str (n + 1))))
      ∙ read_digits-append 0 (siz2str (n + 1)) [] (siz2str-AllDigits (n + 1)) tt
      ∙ ap (λ v. (v, [])) (value-siz2str (n + 1)) in
    (unfold str2int in rw (ltrim_minus (siz2str (n + 1)), read) (ground arith))

-- `str2boo` reads back what `boo2str` and `yn2str` print.
pub str2boo-print : (b : Bool) → (str2boo (boo2str b) ≡ b) × (str2boo (yn2str b) ≡ b)
unfolding str2boo boo2str yn2str str_eq
str2boo-print true = (refl, refl)
str2boo-print false = (refl, refl)
