-- ===== src/Log.antt =====
-- src/job/log.cxx: a message is a format into which the operator `,` puts one argument after the
-- other. A `buf` is the C string that it holds.
pub mod Format
pub mod Levels
pub mod Operators
pub mod Message
use job.Log.Format.{Chunk, get_chunk, replace, first_byte}
use job.Number.{ℤ, pos, print_int, siz2str}
use job.Prelude.{
  ℕ, zero, suc, ◌+◌, ◌%◌, ◌/◌, Bool, true, false, List, [], ◌∷◌, ◌++◌, Option, none, some, Bytes,
  codes, ltb, ◌==◌, if◌then◌else◌, length, take, replicate,
}
use job.Text.Split.Pieces.{has_byte}

-- The state of the object between two arguments.
pub record Logger : Type 0 where
  pub i : ℕ
  pub fmt : Bytes

-- `set`; the level, the file and the line are kept by `head`.
unfoldable pub set : Bytes → Logger
set format = record { i = 0; fmt = format }

-- `fmt.replace(i, ff.size(), buf); i += strlen(buf);`
unfoldable pub insert : (ℕ → Bytes → Bytes) → Chunk → Option (ℕ × Bytes) → Logger
unfolding replace
insert buf c none = record { i = c.i; fmt = c.fmt }
insert buf c (some (f, ff)) = record {
  i = c.i + length (buf f ff);
  fmt = replace c.fmt c.i (length ff) (buf f ff);
}

unfoldable pub insert_found : (ℕ → Bytes → Bytes) → Logger → Option Chunk → Logger
unfolding insert
insert_found buf l none = l
insert_found buf l (some c) = insert buf c c.found

-- An operator `,` whose cases give `buf` of `f` and `ff`.
unfoldable pub put : (ℕ → Bytes → Bytes) → Logger → Logger
unfolding insert_found get_chunk
put buf l = insert_found buf l (get_chunk l.i l.fmt)
