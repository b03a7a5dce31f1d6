-- ===== src/Text/Split.antt =====
-- src/job/string.cxx: `join` and `split`.
pub mod RoundTrip
pub mod Pieces
use job.Prelude.{
  ℕ, zero, suc, ◌+◌, ◌-◌, ◌%◌, ◌^◌, Bool, true, false, not, ◌&&◌, List, [], ◌∷◌, ◌++◌, Option, none,
  some, Bytes, ltb, ◌==◌, if◌then◌else◌, length, take,
}
use job.Text.Search.{find}

-- The loop of the three `join`s: the flag is `i == 0`.
join_loop : Bytes → Bool → Bytes → List Bytes → Bytes
join_loop str first d [] = str
join_loop str first d (x ∷ xs) = join_loop ((if first then str else str ++ d) ++ x) false d xs

-- `join(list, std::string d)`.
unfoldable pub join_str : List Bytes → Bytes → Bytes
unfolding join_loop
join_str list d = join_loop [] true d list

-- `join(list, char d)`.
unfoldable pub join : List Bytes → ℕ → Bytes
unfolding join_loop
join list d = join_loop [] true (d ∷ []) list

-- `join(list, char d, unsigned n)`: the loop ends after `n` items too.
unfoldable pub join_first : List Bytes → ℕ → ℕ → Bytes
unfolding join_loop
join_first list d n = join_loop [] true (d ∷ []) (take n list)

-- `parts && ret.size() == (unsigned int)(parts - 1)`. `parts` is the bit pattern of an `int`.
unfoldable pub enough : ℕ → ℕ → Bool
enough parts size = not (parts == 0) && size == (parts + 2 ^ 32 - 1) % 2 ^ 32

-- One round for each occurrence of `d`, on what is left of the text; `n` is `ret.size()`.
-- Each round shortens the text, so that its length and one more are fuel enough.
pub split_loop : ℕ → Bytes → ℕ → ℕ → Bytes → List Bytes
unfolding enough
split_loop zero d parts n s = []
split_loop (suc fuel) d parts n s = elim (find d s) [
  | none ↦ s ∷ []
  | some (before, after) ↦
      let rest = split_loop fuel d parts (suc n) after in
      before ∷ (if enough parts (suc n) then after ∷ [] else rest)
]

unfoldable pub split : Bytes → Bytes → ℕ → List Bytes
unfolding split_loop
split s [] parts = s ∷ []
split s (c ∷ d) parts = split_loop (suc (length s)) (c ∷ d) parts 0 s
