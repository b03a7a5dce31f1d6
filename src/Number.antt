-- ===== src/Number.antt =====
-- The decimal numbers of `snprintf`, `atoi` and `sscanf`: src/job/string.cxx `int2str`, `siz2str`,
-- `str2int`, with the Booleans `boo2str`, `yn2str`, `str2boo`.
pub mod Decimal
pub mod Times
use job.Prelude.{
  ℕ, zero, suc, ◌+◌, ◌-◌, ◌*◌, ◌/◌, ◌%◌, ◌^◌, ◌<◌, Bool, true, false, ◌&&◌, ◌||◌, not, List, [],
  ◌∷◌, ◌++◌, Bytes, codes, ltb, leb, ◌==◌, if◌then◌else◌, is_digit, is_space, length, replicate,
  str_eq, ◌≡◌, refl,
}
use job.Text.Trim.{ltrim}

-- `negsuc n` is -(n + 1).
pub data ℤ : Type 0 where
  pos : ℕ → ℤ
  negsuc : ℕ → ℤ

-- The digits of `n`, most significant first; `n` has at most as many digits as the fuel, which is
-- `n` and one more.
unfoldable pub digits_fuel : ℕ → ℕ → Bytes
digits_fuel zero n = []
digits_fuel (suc fuel) n =
    let more = digits_fuel fuel (n / 10) in
    if ltb n 10 then (n + b'0') ∷ [] else more ++ (n % 10 + b'0') ∷ []

-- `%lu`.
unfoldable pub siz2str : ℕ → Bytes
unfolding digits_fuel
siz2str n = digits_fuel (suc n) n

-- `%d`.
unfoldable pub print_int : ℤ → Bytes
print_int (pos n) = siz2str n
print_int (negsuc n) = b'-' ∷ siz2str (n + 1)

-- The conversion of an integer to `int`: 32 bits, two's complement.
unfoldable pub to_int : ℕ → ℤ
to_int n = if ltb (n % 2 ^ 32) (2 ^ 31) then pos (n % 2 ^ 32) else negsuc (2 ^ 32 - 1 - n % 2 ^ 32)

-- `int2str` of an unsigned or time argument, which the call converts to `int` first.
unfoldable pub int2str : ℕ → Bytes
unfolding print_int
int2str n = print_int (to_int n)

-- `%0*lu`: zeros in front up to the width.
unfoldable pub padded : ℕ → ℕ → Bytes
padded width n = replicate (width - length (siz2str n)) b'0' ++ siz2str n

-- The leading digits of a text, read on from `acc`, and what follows them.
unfoldable pub read_digits : ℕ → Bytes → ℕ × Bytes
read_digits acc [] = (acc, [])
read_digits acc (c ∷ cs) =
    if is_digit c then read_digits (acc * 10 + (c - b'0')) cs else (acc, c ∷ cs)

unfoldable pub signed : Bool → ℕ → ℤ
signed false n = pos n
signed true zero = pos 0
signed true (suc n) = negsuc n

-- An optional sign: whether it is a minus, and what follows.
unfoldable pub read_sign : Bytes → Bool × Bytes
read_sign [] = (false, [])
read_sign (c ∷ cs) =
    if c == b'-' then (true, cs) else if c == b'+' then (false, cs) else (false, c ∷ cs)

-- `atoi`, for values that fit an `int`; beyond them C leaves its result undefined.
unfoldable pub str2int : Bytes → ℤ
unfolding ltrim read_sign signed read_digits
str2int s = let (minus, rest) = read_sign (ltrim s) in signed minus (read_digits 0 rest).0

unfoldable pub boo2str : Bool → Bytes
boo2str b = if b then codes "true" else codes "false"

unfoldable pub yn2str : Bool → Bytes
yn2str b = if b then codes "yes" else codes "no"

unfoldable pub str2boo : Bytes → Bool
str2boo [] = false
str2boo (c ∷ cs) = c == b'y' || c == b't' || str_eq (c ∷ cs) (codes "1")
