-- ===== src/Text/Replace.antt =====
-- src/job/string.cxx: `replace_all`, `qq` and `qqif`.
pub mod Rejoin
pub mod Shell
use job.Prelude.{
  ℕ, zero, suc, ◌-◌, Bool, true, false, ◌||◌, List, [], ◌∷◌, ◌++◌, Option, none, some, Bytes, codes,
  ◌==◌, if◌then◌else◌, length,
}
use job.Text.Search.{find}
use job.Text.Split.Pieces.{has_byte}

-- The loop from `start_pos` on. `m` counts the replacements left, 0 for no limit: after the last
-- of them the function returns. A round shortens what is left, as in `split`.
pub replace_loop : ℕ → Bytes → Bytes → ℕ → Bytes → Bytes
replace_loop zero from to m s = []
replace_loop (suc fuel) from to m s = elim (find from s) [
  | none ↦ s
  | some (before, after) ↦
      let rest = replace_loop fuel from to (if m == 0 then 0 else m - 1) after in
      before ++ (to ++ (if m == 1 then after else rest))
]

unfoldable pub replace_all : Bytes → Bytes → Bytes → ℕ → Bytes
unfolding replace_loop
replace_all str [] to n = str
replace_all str (c ∷ from) to n = replace_loop (suc (length str)) (c ∷ from) to n str

abbrev pub quote : ℕ
quote = b'\''

-- What stands for a quote inside quotes.
abbrev pub quoted_quote : Bytes
quoted_quote = codes "'\"'\"'"

unfoldable pub qq : Bytes → Bytes
unfolding replace_all
qq str = quote ∷ (replace_all str (quote ∷ []) quoted_quote 0 ++ quote ∷ [])

-- The bytes that `qqif` looks for: blanks, controls, and `|<>[]{}()&'\*?;` and the backquote.
abbrev pub specials : Bytes
specials = 32 ∷ 9 ∷ 10 ∷ 11 ∷ 8 ∷ 13 ∷ 12 ∷ 7 ∷ codes "|<>[]{}()&'\\*?`;"

unfoldable pub is_special : ℕ → Bool
is_special c = has_byte c specials

-- `str.find_first_of(...) != npos`.
unfoldable pub has_special : Bytes → Bool
has_special [] = false
has_special (c ∷ cs) = is_special c || has_special cs

unfoldable pub qqif : Bytes → Bytes
unfolding has_special
qqif str = if has_special str then qq str else str
