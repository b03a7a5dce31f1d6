-- ===== src/Log/Format.antt =====
-- src/job/log.cxx: `get_chunk`, the search for the next conversion of the format.
pub mod Scan
use job.Prelude.{
  ℕ, zero, suc, ◌+◌, ◌-◌, ◌^◌, Bool, true, false, not, ◌&&◌, List, [], ◌∷◌, ◌++◌, Option, none,
  some, Bytes, codes, ltb, ◌==◌, if◌then◌else◌, length, take, drop,
}
use job.Text.Split.Pieces.{has_byte}

abbrev pub npos : ℕ
npos = 2 ^ 64 - 1

unfoldable pub moved : ℕ → Option ℕ → Option ℕ
moved n none = none
moved n (some p) = some (n + p)

-- The first place of one of the bytes `cs`.
unfoldable pub index_of : Bytes → Bytes → Option ℕ
unfolding moved
index_of cs [] = none
index_of cs (c ∷ s) = if has_byte c cs then some 0 else moved 1 (index_of cs s)

-- `fmt.find(c, i)` and `fmt.find_first_of(cs, i)`.
unfoldable pub index_from : Bytes → ℕ → Bytes → Option ℕ
unfolding index_of moved
index_from cs i s = moved i (index_of cs (drop i s))

abbrev pub first_byte : Bytes → ℕ
first_byte [] = 0
first_byte (c ∷ s) = c

-- `fmt[i]`
abbrev pub byte_at : Bytes → ℕ → ℕ
byte_at s i = first_byte (drop i s)

-- `fmt.replace(i, n, s)`
unfoldable pub replace : Bytes → ℕ → ℕ → Bytes → Bytes
replace fmt i n s = take i fmt ++ (s ++ drop (i + n) fmt)

-- What `get_chunk` leaves: the format, the place `i`, and, where it returns true, `f` and `ff`.
pub record Chunk : Type 0 where
  pub fmt : Bytes
  pub i : ℕ
  pub found : Option (ℕ × Bytes)

-- A round of the loop returns or goes on with another place and format.
pub data Round : Type 0 where
  stop : Chunk → Round
  again : ℕ → Bytes → Round

-- The test `f > 'z'` is the source's.
unfoldable pub lower_conversion : ℕ → ℕ
lower_conversion f = if ltb b'z' f then f - b'A' + b'a' else f

-- The conversion that begins at `p` and ends where the argument tells.
unfoldable pub conversion : ℕ → Bytes → Option ℕ → Round
unfolding replace lower_conversion
conversion p fmt none = stop (record { fmt = fmt; i = suc p; found = none })
conversion p fmt (some e) =
    if byte_at fmt e == b'%'
    then again (p + 2) (replace fmt p (e - p + 1) (codes "\\%"))
    else stop (record {
      fmt = fmt;
      i = p;
      found = some (lower_conversion (byte_at fmt e), take (e - p + 1) (drop p fmt));
    })

abbrev pub conversions : Bytes
conversions = codes "sdicouxXeEfFgGaAp%CSnm"

-- The rest of the round from the place of the per cent sign.
unfoldable pub from_percent : Bytes → Option ℕ → Round
unfolding conversion index_from
from_percent fmt none = stop (record { fmt = fmt; i = npos; found = none })
from_percent fmt (some p) =
    if ltb 0 p && byte_at fmt (p - 1) == b'\\'
    then again (suc p) fmt
    else conversion p fmt (index_from conversions (suc p) fmt)

-- The loop. Each round that does not return moves `i` to the right and makes the format no longer, so
-- that the length of the format and one more are fuel enough; `none` is the lack of fuel.
unfoldable pub scan_rounds : ℕ → ℕ → Bytes → Option Chunk
unfolding from_percent index_from
scan_rounds zero i fmt = none
scan_rounds (suc fuel) i fmt = elim (from_percent fmt (index_from (codes "%") i fmt)) [
  | stop c ↦ some c
  | again i' fmt' ↦ scan_rounds fuel i' fmt'
]

unfoldable pub get_chunk : ℕ → Bytes → Option Chunk
unfolding scan_rounds
get_chunk i fmt = scan_rounds (suc (length fmt)) i fmt
