-- ===== src/File/Name.antt =====
-- A job's path and its attributes: `_init_from_path` and `parse` read what `name` prints.
use job.File.{
  State, unk, hold, pend, run, tied, kill, done, state2str, str2state, NameAttrs, ok, literal,
  scan_int, scan_word, word, to_id, priority_ok, check_attrs, parse, PathAttrs, last_three, is_unk,
  is_empty, from_pieces, init_from_path, print_time, base_name, path_max, name,
}
use job.Number.Decimal.{
  AllDigits, NoDigit, value, read_digits-append, padded-AllDigits, value-padded, siz2str-AllDigits,
  value-siz2str, ltrim_digit, read_sign_digit,
}
use job.Number.{ℤ, pos, negsuc, signed, padded, siz2str, digits_fuel, print_int, read_sign}
use job.Prelude.{
  ℕ, zero, suc, ◌+◌, ◌-◌, ◌%◌, ◌^◌, ◌<◌, ◌≤◌, true, false, List, [], ◌∷◌, ◌++◌, some, ◌≡◌, ◌≢◌,
  refl, ap, sym, ◌∙◌, arith, Bytes, codes, ◌==◌, is_digit, is_space, str_eq, reverse,
  reverse-append, take, length, length-append, replicate, ◌/◌, Bool-cases, inl, inr, append-nil,
  append_assoc,
}
use job.Text.Split.Pieces.{has_byte, split_suffix, has_byte-append}
use job.Text.Split.{split}
use native.Mathlib.Numerals.{add-one}
use job.Text.Trim.{ltrim}

-- Every state but the unknown one is read back.
pub str2state-state2str : (s : State) → str2state (state2str s) ≡ s
unfolding str2state state2str str_eq
str2state-state2str unk = refl
str2state-state2str hold = refl
str2state-state2str pend = refl
str2state-state2str run = refl
str2state-state2str tied = refl
str2state-state2str kill = refl
str2state-state2str done = refl

-- A file name that `sscanf` can take apart: no space in the submitter, and no slash.
pub record IsSubmitter (s : Bytes) : Type 0 where
  pub some_byte : s ≢ []
  pub no_space : word s ≡ s
  pub no_slash : has_byte b'/' s ≡ false

abbrev pub InRange : NameAttrs → Type 0
InRange a = (priority_ok a.priority ≡ true) × (a.id < 2 ^ 64)

scan_int_digits :
    (ds rest : Bytes)
    → ds ≢ []
    → AllDigits ds
    → NoDigit rest
    → scan_int (ds ++ rest) ≡ some (pos (value 0 ds), rest)
unfolding scan_int signed
scan_int_digits [] rest ne a n = absurd (ne refl)
scan_int_digits (c ∷ ds) rest ne a n =
    rw (ltrim_digit c (ds ++ rest) a.0, read_sign_digit c (ds ++ rest) a.0, a.0)
      (ap (λ r. some (pos r.0, r.1)) (read_digits-append 0 (c ∷ ds) rest a n))

ltrim_minus : (cs : Bytes) → ltrim (b'-' ∷ cs) ≡ b'-' ∷ cs
unfolding ltrim is_space
ltrim_minus cs = refl

scan_int_minus :
    (ds rest : Bytes)
    → ds ≢ []
    → AllDigits ds
    → NoDigit rest
    → scan_int (b'-' ∷ (ds ++ rest)) ≡ some (signed true (value 0 ds), rest)
unfolding scan_int
scan_int_minus [] rest ne a n = absurd (ne refl)
scan_int_minus (c ∷ ds) rest ne a n = rw (ltrim_minus (c ∷ (ds ++ rest))) (
    unfold read_sign in
    rw a.0 (ap (λ r. some (signed true r.0, r.1)) (read_digits-append 0 (c ∷ ds) rest a n)))

ne_nil {ℓ} : {A : Type ℓ} {xs : List A} → 0 < length xs → xs ≢ []
ne_nil h e = omega (arith, ap length e)

siz2str-length : (n : ℕ) → 0 < length (siz2str n)
unfolding siz2str digits_fuel
siz2str-length n = ground (arith, length-append (digits_fuel n (n / 10)) ((n % 10 + b'0') ∷ []))

pub padded-length : (w n : ℕ) → 0 < length (padded w n)
unfolding padded
padded-length w n =
    omega
      (arith, siz2str-length n, length-append (replicate (w - length (siz2str n)) b'0') (siz2str n))

pub scan-print_time :
    (t : ℤ) (rest : Bytes) → NoDigit rest → scan_int (print_time t ++ rest) ≡ some (t, rest)
unfolding print_time
scan-print_time (pos n) rest h =
    scan_int_digits (padded 10 n) rest (ne_nil (padded-length 10 n)) (padded-AllDigits 10 n) h
    ∙ ap (λ v. some (pos v, rest)) (value-padded 10 n)
scan-print_time (negsuc n) rest h =
    scan_int_minus (padded 10 (n + 1)) rest (ne_nil (padded-length 10 (n + 1)))
      (padded-AllDigits 10 (n + 1)) h
    ∙ ap (λ v. some (signed true v, rest)) (value-padded 10 (n + 1) ∙ add-one n)
    ∙ (unfold signed in refl)

pub scan-print_int :
    (a : ℤ) (rest : Bytes) → NoDigit rest → scan_int (print_int a ++ rest) ≡ some (a, rest)
unfolding print_int
scan-print_int (pos n) rest h =
    scan_int_digits (siz2str n) rest (ne_nil (siz2str-length n)) (siz2str-AllDigits n) h
    ∙ ap (λ v. some (pos v, rest)) (value-siz2str n)
scan-print_int (negsuc n) rest h =
    scan_int_minus (siz2str (n + 1)) rest (ne_nil (siz2str-length (n + 1)))
      (siz2str-AllDigits (n + 1)) h
    ∙ ap (λ v. some (signed true v, rest)) (value-siz2str (n + 1) ∙ add-one n)
    ∙ (unfold signed in refl)

scan-padded :
    (w n : ℕ) (rest : Bytes) → NoDigit rest → scan_int (padded w n ++ rest) ≡ some (pos n, rest)
scan-padded w n rest h =
    scan_int_digits (padded w n) rest (ne_nil (padded-length w n)) (padded-AllDigits w n) h
    ∙ ap (λ v. some (pos v, rest)) (value-padded w n)

word_space : (c : ℕ) (cs : Bytes) → is_space c ≡ true → word (c ∷ cs) ≡ []
unfolding word
word_space c cs h = rw h

ltrim_ink : (c : ℕ) (cs : Bytes) → is_space c ≡ false → ltrim (c ∷ cs) ≡ c ∷ cs
unfolding ltrim
ltrim_ink c cs h = rw h

scan_word_whole : (s : Bytes) → IsSubmitter s → scan_word s ≡ some s
unfolding scan_word
scan_word_whole [] h = absurd (h.some_byte refl)
scan_word_whole (c ∷ cs) h = elim (Bool-cases (is_space c)) [
  | inl e ↦ absurd (h.some_byte (sym (h.no_space) ∙ word_space c cs e))
  | inr e ↦ rw (ltrim_ink c cs e, h.no_space, scan_word)
]

to_id_small : (n : ℕ) → n < 2 ^ 64 → to_id (pos n) ≡ n
unfolding to_id
to_id_small n h = omega arith

check_attrs_ok :
    (a : NameAttrs) (s : Bytes) → s ≢ [] → priority_ok a.priority ≡ true → check_attrs a s ≡ ok a
unfolding check_attrs
check_attrs_ok a [] ne h = absurd (ne refl)
check_attrs_ok a (c ∷ cs) ne h = rw h

-- `parse` reads back the attributes from the name that they are printed in, if the priority is in
-- range, the id fits 64 bits, and the submitter is not empty and has no space or slash.
pub parse-base_name :
    (a : NameAttrs) → InRange a → IsSubmitter a.submitter → parse (base_name a) ≡ ok a
unfolding parse base_name literal
parse-base_name a r sub =
    rw
      (
        scan-print_time a.run_time
            (codes ".p"
              ++ (print_int a.priority
                  ++ (codes ".j" ++ (padded 7 a.id ++ (codes "." ++ a.submitter)))))
            (unfold is_digit in refl),
        scan-print_int a.priority (codes ".j" ++ (padded 7 a.id ++ (codes "." ++ a.submitter)))
            (unfold is_digit in refl),
        scan-padded 7 a.id (codes "." ++ a.submitter) (unfold is_digit in refl),
        scan_word_whole a.submitter sub,
        to_id_small a.id r.1,
      )
      (check_attrs_ok a a.submitter sub.some_byte r.0)

digit_no_slash : (c : ℕ) → is_digit c ≡ true → (b'/' == c) ≡ false
unfolding is_digit
digit_no_slash c h = ground arith

AllDigits-no_slash : (ds : Bytes) → AllDigits ds → has_byte b'/' ds ≡ false
AllDigits-no_slash [] a = refl
AllDigits-no_slash (c ∷ ds) a = ground (arith, digit_no_slash c a.0, AllDigits-no_slash ds a.1)

print_time-no_slash : (t : ℤ) → has_byte b'/' (print_time t) ≡ false
unfolding print_time
print_time-no_slash (pos n) = AllDigits-no_slash (padded 10 n) (padded-AllDigits 10 n)
print_time-no_slash (negsuc n) =
    AllDigits-no_slash (padded 10 (n + 1)) (padded-AllDigits 10 (n + 1))

print_int-no_slash : (a : ℤ) → has_byte b'/' (print_int a) ≡ false
unfolding print_int
print_int-no_slash (pos n) = AllDigits-no_slash (siz2str n) (siz2str-AllDigits n)
print_int-no_slash (negsuc n) = AllDigits-no_slash (siz2str (n + 1)) (siz2str-AllDigits (n + 1))

state2str-no_slash : (s : State) → has_byte b'/' (state2str s) ≡ false
unfolding state2str
state2str-no_slash unk = refl
state2str-no_slash _ = refl

base_name-no_slash : (a : NameAttrs) → IsSubmitter a.submitter → has_byte b'/' (base_name a) ≡ false
unfolding base_name
base_name-no_slash a sub = simp (
  has_byte-append,
  print_time-no_slash,
  print_int-no_slash,
  AllDigits-no_slash (padded 7 a.id) (padded-AllDigits 7 a.id),
  sub.no_slash,
)

take_all {ℓ} : {A : Type ℓ} (n : ℕ) (xs : List A) → length xs ≤ n → take n xs ≡ xs
take_all zero [] h = refl
take_all zero (x ∷ xs) h = absurd (omega arith)
take_all (suc n) [] h = refl
take_all (suc n) (x ∷ xs) h = ap (◌∷◌ x) (take_all n xs (omega arith))

-- What makes a path readable: names without a slash, a known state, attributes in range, and a
-- path that fits the buffer of `name`.
pub record IsNameable (jobdir : Bytes) (f : PathAttrs) : Type 0 where
  pub queue_some : is_empty f.queue ≡ false
  pub queue_no_slash : has_byte b'/' f.queue ≡ false
  pub state_known : is_unk f.state ≡ false
  pub in_range : InRange f.attrs
  pub submitter : IsSubmitter f.attrs.submitter
  pub fits :
      length (
        jobdir
        ++ (f.queue ++ (codes "/" ++ (state2str f.state ++ (codes "/" ++ base_name f.attrs)))))
      ≤ path_max

last_three-reverse :
    (zs : List Bytes) (q st base : Bytes)
    → last_three (reverse (zs ++ q ∷ st ∷ base ∷ [])) ≡ some (q, st, base)
unfolding last_three
last_three-reverse zs q st base = rw (reverse-append zs (q ∷ st ∷ base ∷ []))

pieces-name :
    (root : Bytes) (f : PathAttrs)
    → IsNameable (root ++ codes "/") f
    → (zs : List Bytes) × (split (name (root ++ codes "/") f) (codes "/") 0
        ≡ zs ++ f.queue ∷ state2str f.state ∷ base_name f.attrs ∷ [])
unfolding name
pieces-name root f v =
    let (zs, e) = split_suffix b'/' root (f.queue ∷ state2str f.state ∷ base_name f.attrs ∷ []) (
      v.queue_no_slash,
      (state2str-no_slash f.state, (base_name-no_slash f.attrs v.submitter, tt)),
    ) in
    (
      zs,
      ap (λ t. split t (codes "/") 0) (take_all path_max _ v.fits ∙ simp (append_assoc, append-nil))
          ∙ e,
    )

-- `_init_from_path` reads back the queue, the state and the attributes from every path that
-- `name` prints in a job directory, if they are nameable.
pub init_from_path-name :
    (root : Bytes) (f : PathAttrs)
    → IsNameable (root ++ codes "/") f
    → init_from_path (name (root ++ codes "/") f) ≡ ok f
unfolding init_from_path from_pieces
init_from_path-name root f v =
    let (zs, e) = pieces-name root f v in
    rw (
      e,
      last_three-reverse zs f.queue (state2str f.state) (base_name f.attrs),
      v.queue_some,
      str2state-state2str f.state,
      v.state_known,
      parse-base_name f.attrs v.in_range v.submitter,
    )
