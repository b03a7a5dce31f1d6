-- ===== src/Text/Replace/Shell.antt =====
-- How a POSIX shell reads a word, and that it reads back what `qq` and `qqif` quoted. This is a
-- description of the reader (`sh`, and `wordexp` in `launch.cxx`), not code of the repository.
use job.Prelude.{
  ℕ, zero, suc, ◌<◌, false, [], ◌∷◌, ◌++◌, ◌≡◌, refl, ap, sym, ◌∙◌, Option, none, some, arith,
  Bytes, ◌==◌, if◌then◌else◌, length, Option-cases, Bool-cases, inl, inr, append-nil, append_assoc,
  ◌||◌,
}
use job.Text.Replace.{replace_loop, quote, quoted_quote, qq, qqif, is_special, has_special}
use job.Text.Replace.Rejoin.{replace_loop_last, replace_loop_more}
use job.Text.Search.{find, find-append, find-length}
use job.Text.Split.Pieces.{has_byte, find-some_free, find-none_free}

pub data ShMode : Type 0 where
  plain single double : ShMode

abbrev pub dollar : ℕ
dollar = b'$'

abbrev pub double_quote : ℕ
double_quote = b'"'

-- One byte of a word: the next mode and the bytes that it stands for; `none` where the shell would
-- end the word, expand something, or start an escape.
pub sh_byte : ShMode → ℕ → Option (ShMode × Bytes)
sh_byte plain c =
    if c == quote
    then some (single, [])
    else if c == double_quote
    then some (double, [])
    else if c == dollar || is_special c
    then none
    else some (plain, c ∷ [])
sh_byte single c = some (if c == quote then (plain, []) else (single, c ∷ []))
sh_byte double c =
    if c == double_quote
    then some (plain, [])
    else if c == dollar || (c == b'`' || c == b'\\')
    then none
    else some (double, c ∷ [])

pub prepend : Bytes → Option Bytes → Option Bytes
prepend xs none = none
prepend xs (some ys) = some (xs ++ ys)

-- The literal text that the word stands for, `none` if it is not one word without expansions.
unfoldable pub sh_word : ShMode → Bytes → Option Bytes
sh_word plain [] = some []
sh_word _ [] = none
sh_word m (c ∷ cs) = elim (sh_byte m c) [
  | none ↦ none
  | some (m', out) ↦ prepend out (sh_word m' cs)
]

prepend-prepend : (a b : Bytes) (o : Option Bytes) → prepend a (prepend b o) ≡ prepend (a ++ b) o
unfolding prepend
prepend-prepend a b none = refl
prepend-prepend a b (some r) = rw append_assoc

prepend-nil : (o : Option Bytes) → prepend [] o ≡ o
unfolding prepend
prepend-nil none = refl
prepend-nil (some r) = refl

sh_word_step :
    (m : ShMode) (c : ℕ) (cs : Bytes) {m' : ShMode} {out : Bytes}
    → sh_byte m c ≡ some (m', out)
    → sh_word m (c ∷ cs) ≡ prepend out (sh_word m' cs)
unfolding sh_word
sh_word_step plain c cs e = rw (e, sh_word)
sh_word_step single c cs e = rw (e, sh_word)
sh_word_step double c cs e = rw (e, sh_word)

single-free :
    (b rest : Bytes)
    → has_byte quote b ≡ false
    → sh_word single (b ++ rest) ≡ prepend b (sh_word single rest)
single-free [] rest h = sym (prepend-nil (sh_word single rest))
single-free (c ∷ b) rest h =
    sh_word_step single c (b ++ rest) {m' = single} {out = c ∷ []} (unfold sh_byte in ground arith)
    ∙ ap (prepend (c ∷ [])) (single-free b rest (ground arith))
    ∙ prepend-prepend (c ∷ []) b (sh_word single rest)

single-quoted_quote :
    (rest : Bytes)
    → sh_word single (quoted_quote ++ rest) ≡ prepend (quote ∷ []) (sh_word single rest)
unfolding sh_byte
single-quoted_quote rest =
    sh_word_step single quote _ refl
    ∙ ap (prepend []) (
        sh_word_step plain double_quote _ refl
        ∙ ap (prepend []) (
            sh_word_step double quote _ refl
            ∙ ap (prepend (quote ∷ [])) (
                sh_word_step double double_quote _ refl
                ∙ ap (prepend []) (sh_word_step plain quote rest refl))))
    ∙ simp prepend-nil

single-replace_loop :
    (fuel : ℕ) (s rest : Bytes)
    → length s < fuel
    → sh_word single (replace_loop fuel (quote ∷ []) quoted_quote 0 s ++ rest)
      ≡ prepend s (sh_word single rest)
single-replace_loop zero s rest h = elim h [ ]
single-replace_loop (suc fuel) s rest h = elim (Option-cases (find (quote ∷ []) s)) [
  | inl e ↦
      rw (replace_loop_last fuel (quote ∷ []) quoted_quote s e)
        (single-free s rest (find-none_free quote s e))
  | inr ((before, after), e) ↦
      let shorter : length after < fuel = omega (arith, find-length (quote ∷ []) s (λ k. cc) e) in
      let more = replace_loop fuel (quote ∷ []) quoted_quote 0 after in
      rw (replace_loop_more fuel (quote ∷ []) quoted_quote s before after e) (
        rw (append_assoc before (quoted_quote ++ more) rest, append_assoc quoted_quote more rest)
          (single-free before (quoted_quote ++ (more ++ rest)) (find-some_free quote s e)
            ∙ ap (prepend before) (
                single-quoted_quote (more ++ rest)
                ∙ ap (prepend (quote ∷ [])) (single-replace_loop fuel after rest shorter))
            ∙ ap (prepend before) (prepend-prepend (quote ∷ []) after (sh_word single rest))
            ∙ prepend-prepend before (quote ∷ after) (sh_word single rest)
            ∙ ap (λ x. prepend x (sh_word single rest)) (find-append (quote ∷ []) s e)))
]

-- The shell reads every text that `qq` quoted as that very text.
pub sh_word-qq : (s : Bytes) → sh_word plain (qq s) ≡ some s
unfolding qq sh_byte
sh_word-qq s =
    sh_word_step plain quote _ refl
    ∙ prepend-nil _
    ∙ single-replace_loop (suc (length s)) s (quote ∷ []) (omega arith)
    ∙ ap (prepend s) (sh_word_step single quote [] refl)
    ∙ (unfold sh_word prepend in simp append-nil)

-- No double quote and no dollar sign, which `qqif` does not look for.
abbrev pub IsTame : Bytes → Type 0
IsTame s = (has_byte double_quote s ≡ false) × (has_byte dollar s ≡ false)

sh_byte_tame :
    (c : ℕ)
    → is_special c ≡ false
    → (double_quote == c) ≡ false
    → (dollar == c) ≡ false
    → sh_byte plain c ≡ some (plain, c ∷ [])
unfolding sh_byte is_special
sh_byte_tame c h d e = ground arith

sh_word_tame : (s : Bytes) → has_special s ≡ false → IsTame s → sh_word plain s ≡ some s
unfolding has_special
sh_word_tame [] h t = (unfold sh_word in refl)
sh_word_tame (c ∷ cs) h t =
    sh_word_step plain c cs (sh_byte_tame c (ground arith) (ground arith) (ground arith))
    ∙ ap (prepend (c ∷ [])) (sh_word_tame cs (ground arith) (ground arith))
    ∙ (unfold prepend in refl)

-- The shell reads a text with no double quote and no dollar sign that went through `qqif` as that
-- text.
pub sh_word-qqif : (s : Bytes) → IsTame s → sh_word plain (qqif s) ≡ some s
unfolding qqif
sh_word-qqif s t = elim (Bool-cases (has_special s)) [
  | inl e ↦ rw e (sh_word-qq s)
  | inr e ↦ rw e (sh_word_tame s e t)
]

-- A text that begins with a dollar sign and has no special byte is left bare by `qqif`, and the
-- shell does not read it as that text, nor as any literal word.
pub qqif-dollar :
    (s : Bytes)
    → has_special s ≡ false
    → (qqif (dollar ∷ s) ≡ dollar ∷ s) × (sh_word plain (qqif (dollar ∷ s)) ≡ none)
unfolding qqif has_special is_special sh_word sh_byte
qqif-dollar s h = (rw h, rw h)
