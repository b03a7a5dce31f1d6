-- ===== src/Log/Operators.antt =====
-- src/job/log.cxx: the operators `,`, one for each type of argument. A conversion that an operator does
-- not know is assumed to fit its `buf`.
use job.Log.Format.{first_byte}
use job.Log.{Logger, put}
use job.Number.{ℤ, pos, negsuc, print_int}
use job.Prelude.{
  ℕ, ◌+◌, ◌-◌, ◌%◌, ◌/◌, Bool, false, List, [], ◌∷◌, ◌++◌, Bytes, codes, ltb, ◌==◌, if◌then◌else◌,
  length, replicate,
}
use job.Text.Split.Pieces.{has_byte}

-- `snprintf`, and the casts from and to `double` and `void*`, are a parameter.
-- What is passed to `snprintf` for a conversion.
pub data Passed (D P : Type 0) : Type 0 where
  pass_text : Bytes → Passed D P
  pass_int : ℤ → Passed D P
  pass_double : D → Passed D P
  pass_pointer : P → Passed D P

pub record Printf : Type 1 where
  pub Double : Type 0
  pub Pointer : Type 0
  pub int_to_double : ℤ → Double
  pub int_to_pointer : ℤ → Pointer
  pub double_to_long : Double → ℤ
  pub pointer_to_long : Pointer → ℤ
  -- `snprintf(buf, size, format, x)`
  pub snprintf : ℕ → Bytes → Passed Double Pointer → Bytes

abbrev is_zero : ℤ → Bool
is_zero (pos n) = n == 0
is_zero (negsuc n) = false

-- `std::string(ff.size(), '#')`
abbrev pub hashes : Bytes → Bytes
hashes ff = replicate (length ff) b'#'

abbrev hex_digit : ℕ → ℕ
hex_digit d = if ltb d 10 then b'0' + d else b'a' + (d - 10)

-- The loop of the conversion `x` of a string.
unfoldable pub hex_dump : Bytes → Bytes → Bytes
hex_dump tmp [] = tmp
hex_dump tmp (c ∷ x) =
    let spaced = if ltb 0 (length tmp) then tmp ++ b' ' ∷ [] else tmp in
    let rest = hex_dump (spaced ++ (hex_digit (c / 16) ∷ (hex_digit (c % 16) ∷ []))) x in
    if ltb (length tmp) 1024 then rest else tmp

module _ (p : Printf) where
  -- `const status &`, of which there are the number and the text.
  unfoldable pub put_status : ℤ → Bytes → ℕ → Bytes → Bytes
  put_status number text f ff =
      if f == b's'
      then p.snprintf 4096 ff (pass_text text)
      else if has_byte f (codes "du")
      then p.snprintf 256 ff (pass_int number)
      else if f == b'c'
      then p.snprintf 256 ff (pass_int (pos (if is_zero number then b' ' else b'!')))
      else hashes ff

  -- `const char*`
  unfoldable pub put_chars : Bytes → ℕ → Bytes → Bytes
  put_chars x f ff =
      if f == b's'
      then p.snprintf 8192 ff (pass_text x)
      else if has_byte f (codes "du")
      then p.snprintf 256 ff (pass_int (pos (length x)))
      else if f == b'c'
      then p.snprintf 256 ff (pass_int (pos (first_byte x)))
      else hashes ff

  -- `const std::string &`
  unfoldable pub put_string : Bytes → ℕ → Bytes → Bytes
  unfolding hex_dump
  put_string x f ff =
      if f == b's'
      then p.snprintf 8192 ff (pass_text x)
      else if has_byte f (codes "du")
      then p.snprintf 256 ff (pass_int (pos (length x)))
      else if f == b'c'
      then p.snprintf 256 ff (pass_int (pos (first_byte x)))
      else if f == b'x'
      then p.snprintf 8192 (codes "%s") (pass_text (hex_dump [] x))
      else hashes ff

  -- What the operators for `long long`, `long long unsigned`, `size_t` and `long` each do.
  unfoldable pub put_integer : ℤ → ℕ → Bytes → Bytes
  put_integer x f ff =
      if has_byte f (codes "diouxc")
      then p.snprintf 256 ff (pass_int x)
      else if f == b's'
      then p.snprintf 256 ff (pass_text (print_int x))
      else if has_byte f (codes "efga")
      then p.snprintf 256 ff (pass_double (p.int_to_double x))
      else if f == b'p'
      then p.snprintf 256 ff (pass_pointer (p.int_to_pointer x))
      else hashes ff

  unfoldable pub put_long_long : ℤ → ℕ → Bytes → Bytes
  unfolding put_integer
  put_long_long x f ff = put_integer x f ff

  unfoldable pub put_unsigned : ℕ → ℕ → Bytes → Bytes
  unfolding put_integer
  put_unsigned x f ff = put_integer (pos x) f ff

  unfoldable pub put_size : ℕ → ℕ → Bytes → Bytes
  unfolding put_integer
  put_size x f ff = put_integer (pos x) f ff

  unfoldable pub put_long : ℤ → ℕ → Bytes → Bytes
  unfolding put_integer
  put_long x f ff = put_integer x f ff

  -- `int`
  unfoldable pub put_int : ℤ → ℕ → Bytes → Bytes
  put_int x f ff =
      if has_byte f (codes "diouxc")
      then p.snprintf 256 ff (pass_int x)
      else if f == b's'
      then p.snprintf 256 ff (pass_text (print_int x))
      else if has_byte f (codes "efga")
      then p.snprintf 256 ff (pass_double (p.int_to_double x))
      else hashes ff

  -- `bool`
  unfoldable pub put_bool : Bool → ℕ → Bytes → Bytes
  put_bool x f ff =
      if f == b'c'
      then p.snprintf 256 ff (pass_int (pos (if x then b'Y' else b'N')))
      else if has_byte f (codes "dioux")
      then p.snprintf 256 ff (pass_int (pos (if x then 1 else 0)))
      else if f == b's'
      then p.snprintf 256 ff (pass_text (if x then codes "true" else codes "false"))
      else hashes ff

  -- `char`
  unfoldable pub put_char : ℕ → ℕ → Bytes → Bytes
  put_char x f ff =
      if has_byte f (codes "cdioux")
      then p.snprintf 256 ff (pass_int (pos x))
      else if f == b's'
      then p.snprintf 256 ff (pass_text (p.snprintf 32 (codes "%c") (pass_int (pos x))))
      else if has_byte f (codes "efga")
      then p.snprintf 256 ff (pass_double (p.int_to_double (pos x)))
      else hashes ff

  -- `double`
  unfoldable pub put_double : p.Double → ℕ → Bytes → Bytes
  put_double x f ff =
      if has_byte f (codes "efga")
      then p.snprintf 256 ff (pass_double x)
      else if f == b's'
      then p.snprintf 256 ff (pass_text (p.snprintf 64 (codes "%f") (pass_double x)))
      else if has_byte f (codes "diouxc")
      then p.snprintf 256 ff (pass_int (p.double_to_long x))
      else hashes ff

  -- `void*`
  unfoldable pub put_pointer : p.Pointer → ℕ → Bytes → Bytes
  put_pointer x f ff =
      if f == b'p'
      then p.snprintf 256 ff (pass_pointer x)
      else if has_byte f (codes "diouxc")
      then p.snprintf 256 ff (pass_int (p.pointer_to_long x))
      else if f == b's'
      then p.snprintf 256 ff (pass_text (p.snprintf 32 (codes "%p") (pass_pointer x)))
      else hashes ff

-- The arguments by the operator that takes them.
pub data Arg (p : Printf) : Type 0 where
  of_status : ℤ → Bytes → Arg p
  of_chars : Bytes → Arg p
  of_string : Bytes → Arg p
  of_long_long : ℤ → Arg p
  of_unsigned : ℕ → Arg p
  of_size : ℕ → Arg p
  of_long : ℤ → Arg p
  of_int : ℤ → Arg p
  of_bool : Bool → Arg p
  of_char : ℕ → Arg p
  of_double : p.Double → Arg p
  of_pointer : p.Pointer → Arg p

unfoldable pub buf_of : (p : Printf) → Arg p → ℕ → Bytes → Bytes
unfolding put_status put_chars put_string put_long_long put_unsigned put_size put_long put_int
    put_bool put_char put_double put_pointer
buf_of p (of_status number text) = put_status p number text
buf_of p (of_chars x) = put_chars p x
buf_of p (of_string x) = put_string p x
buf_of p (of_long_long x) = put_long_long p x
buf_of p (of_unsigned x) = put_unsigned p x
buf_of p (of_size x) = put_size p x
buf_of p (of_long x) = put_long p x
buf_of p (of_int x) = put_int p x
buf_of p (of_bool x) = put_bool p x
buf_of p (of_char x) = put_char p x
buf_of p (of_double x) = put_double p x
buf_of p (of_pointer x) = put_pointer p x

-- A row of arguments: `obj(...), x, y, z`.
unfoldable pub put_all : (p : Printf) → List (Arg p) → Logger → Logger
unfolding put buf_of
put_all p [] l = l
put_all p (x ∷ xs) l = put_all p xs (put (buf_of p x) l)
