-- ===== src/Queue/TimeLimit.antt =====
-- `time_filter` compares texts; what that says of the times in the names.
use job.File.Name.{padded-length}
use job.File.{NameAttrs, base_name, print_time}
use job.Number.Decimal.{
  AllDigits, value, value-padded, padded-AllDigits, value-siz2str, siz2str-AllDigits,
}
use job.Number.{pos, digits_fuel, siz2str, print_int, to_int, int2str, padded}
use job.Prelude.{
  ℕ, zero, suc, ◌+◌, ◌-◌, ◌*◌, ◌/◌, ◌%◌, ◌^◌, ◌<◌, ◌≤◌, Bool, true, false, [], ◌∷◌, ◌++◌, ◌≡◌, refl,
  ap, sym, ◌∙◌, arith, Bytes, codes, ltb, leb, ◌==◌, if◌then◌else◌, is_digit, length, length-append,
  replicate, Bool-cases, inl, inr,
}
use job.Queue.{str_le, time_limit, time_filter}

-- Powers of ten, by their recursion.
abbrev ten : ℕ → ℕ
ten zero = 1
ten (suc k) = 10 * ten k

length-digits_fuel :
    (k fuel n : ℕ) → n < fuel → ten k ≤ n → n < ten (suc k) → length (digits_fuel fuel n) ≡ suc k
unfolding digits_fuel
length-digits_fuel k zero n h lo hi = elim h [ ]
length-digits_fuel zero (suc fuel) n h lo hi =
    let small : ltb n 10 ≡ true = ground arith in rw small
length-digits_fuel (suc k) (suc fuel) n h lo hi =
    let p : 0 < ten k = ten_pos k in
    let big : ltb n 10 ≡ false = ground (arith, p) in
    rw big (
      length-append (digits_fuel fuel (n / 10)) ((n % 10 + b'0') ∷ [])
      ∙ rw (length-digits_fuel k fuel (n / 10) (omega arith) (omega arith) (omega arith))
          (omega arith))
  where
    ten_pos : (j : ℕ) → 0 < ten j
    ten_pos zero = omega arith
    ten_pos (suc j) = omega (arith, ten_pos j)

length-digits_fuel-le : (k fuel n : ℕ) → n < ten (suc k) → length (digits_fuel fuel n) ≤ suc k
unfolding digits_fuel
length-digits_fuel-le k zero n h = omega arith
length-digits_fuel-le zero (suc fuel) n h =
    let small : ltb n 10 ≡ true = ground arith in rw small (omega arith)
length-digits_fuel-le (suc k) (suc fuel) n h = elim (Bool-cases (ltb n 10)) [
  | inl e ↦ rw e (omega arith)
  | inr e ↦ rw e (
      omega (
        arith,
        length-append (digits_fuel fuel (n / 10)) ((n % 10 + b'0') ∷ []),
        length-digits_fuel-le k fuel (n / 10) (omega arith),
      ))
]

length-replicate {ℓ} : {A : Type ℓ} (k : ℕ) (a : A) → length (replicate k a) ≡ k
length-replicate zero a = refl
length-replicate (suc k) a = ap suc (length-replicate k a)

length-padded : (n : ℕ) → n < 10 ^ 10 → length (padded 10 n) ≡ 10
unfolding padded siz2str
length-padded n h = omega (
  arith,
  length-append (replicate (10 - length (digits_fuel (suc n) n)) b'0') (digits_fuel (suc n) n),
  length-replicate {A = ℕ} (10 - length (digits_fuel (suc n) n)) b'0',
  length-digits_fuel-le 9 (suc n) n h,
)

digit_bounds : (c : ℕ) → is_digit c ≡ true → (b'0' ≤ c) × (c ≤ b'9')
unfolding is_digit
digit_bounds c h = (ground arith, ground arith)

-- Of two runs of as many digits, the one read on from the smaller number stays smaller.
value_lt :
    (x y : Bytes) (a b : ℕ)
    → length x ≡ length y
    → AllDigits x
    → AllDigits y
    → a < b
    → value a x < value b y
unfolding value
value_lt [] [] a b l h k lt = lt
value_lt [] (d ∷ y) a b l h k lt = absurd (omega arith)
value_lt (c ∷ x) [] a b l h k lt = absurd (omega arith)
value_lt (c ∷ x) (d ∷ y) a b l h k lt =
    let (c0, c9) = digit_bounds c h.0 in
    let (d0, d9) = digit_bounds d k.0 in
    value_lt x y (a * 10 + (c - b'0')) (b * 10 + (d - b'0')) (omega arith) h.1 k.1 (omega arith)

-- Texts that begin with as many digits compare as the numbers, and then as what follows.
str_le-digits :
    (x y u v : Bytes) (a : ℕ)
    → length x ≡ length y
    → AllDigits x
    → AllDigits y
    → str_le (x ++ u) (y ++ v)
      ≡ (if value a x == value a y then str_le u v else ltb (value a x) (value a y))
unfolding str_le value
str_le-digits [] [] u v a l h k = (let e : (a == a) ≡ true = ground arith in rw e)
str_le-digits [] (d ∷ y) u v a l h k = absurd (omega arith)
str_le-digits (c ∷ x) [] u v a l h k = absurd (omega arith)
str_le-digits (c ∷ x) (d ∷ y) u v a l h k = elim (Bool-cases (c == d)) [
  | inl e ↦
      let same : c ≡ d = ground arith in
      rw (e, same) (str_le-digits x y u v (a * 10 + (d - b'0')) (omega arith) h.1 k.1)
  | inr ne ↦ rw ne (apart ne (ltb c d) refl)
]
  where
    va : ℕ
    va = value (a * 10 + (c - b'0')) x

    vb : ℕ
    vb = value (a * 10 + (d - b'0')) y

    apart :
        (c == d) ≡ false
        → (t : Bool) → ltb c d ≡ t
        → t ≡ (if va == vb then str_le u v else ltb va vb)
    apart ne true e =
        let (c0, c9) = digit_bounds c h.0 in
        let (d0, d9) = digit_bounds d k.0 in
        let less : c < d = ground arith in
        let lt : va < vb =
          value_lt x y (a * 10 + (c - b'0')) (a * 10 + (d - b'0')) (omega arith) h.1 k.1
            (omega arith) in
        ground arith
    apart ne false e =
        let (c0, c9) = digit_bounds c h.0 in
        let (d0, d9) = digit_bounds d k.0 in
        let less : d < c = ground arith in
        let lt : vb < va =
          value_lt y x (a * 10 + (d - b'0')) (a * 10 + (c - b'0')) (omega arith) k.1 h.1
            (omega arith) in
        ground arith

-- A time of ten digits that fits an `int`, such as those from 2001 to 2038.
abbrev pub IsTenDigits : ℕ → Type 0
IsTenDigits now = (10 ^ 9 ≤ now) × (now < 2 ^ 31)

limit_digits :
    (now : ℕ) → IsTenDigits now → (int2str now ≡ siz2str now) × (length (siz2str now) ≡ 10)
unfolding int2str to_int print_int siz2str
limit_digits now h =
    let wrap : now % 2 ^ 32 ≡ now = omega arith in
    let small : ltb now (2 ^ 31) ≡ true = ground arith in
    (rw (wrap, small), length-digits_fuel 9 (suc now) now (omega arith) (omega arith) (omega arith))

compared :
    (now n : ℕ) (rest : Bytes)
    → str_le (padded 10 n ++ (b'.' ∷ (b'p' ∷ rest))) (siz2str now ++ codes ".zzz") ≡ (
        if value 0 (padded 10 n) == value 0 (siz2str now)
        then str_le (b'.' ∷ (b'p' ∷ rest)) (codes ".zzz")
        else ltb (value 0 (padded 10 n)) (value 0 (siz2str now)))
    → str_le
        (codes "t" ++ (padded 10 n ++ (b'.' ∷ (b'p' ∷ rest))))
        (codes "t" ++ (siz2str now ++ codes ".zzz"))
      ≡ leb n now
unfolding str_le
compared now n rest h =
    h
    ∙ rw (value-padded 10 n, value-siz2str now)
        (elim (Bool-cases (n == now)) [ inl e ↦ rw e (ground arith) | inr e ↦ rw e (ground arith) ])

-- From 2001 to 2038, `time_filter` passes the file name of a job with a run time below 10^10
-- exactly if that time is not after the limit.
pub time_filter-base_name :
    (now n : ℕ) (a : NameAttrs)
    → IsTenDigits now
    → n < 10 ^ 10
    → a.run_time ≡ pos n
    → time_filter (time_limit now) (base_name a) ≡ leb n now
unfolding time_filter time_limit base_name print_time
time_filter-base_name now n a t h r =
    let (digits, ten_long) = limit_digits now t in
    let rest =
      print_int a.priority ++ (codes ".j" ++ (padded 7 a.id ++ (codes "." ++ a.submitter))) in
    rw (r, digits)
      (compared now n rest (
        str_le-digits (padded 10 n) (siz2str now) (b'.' ∷ (b'p' ∷ rest)) (codes ".zzz") 0
          (length-padded n h ∙ sym ten_long) (padded-AllDigits 10 n) (siz2str-AllDigits now)))

digit_after_minus :
    (ds u v : Bytes) → AllDigits ds → 0 < length ds → str_le (ds ++ u) (b'-' ∷ v) ≡ false
unfolding str_le
digit_after_minus [] u v a h = absurd (omega arith)
digit_after_minus (c ∷ ds) u v a h = let (c0, c9) = digit_bounds c a.0 in ground arith

-- From 2^31 to 2^32 the limit is printed as a negative number, and `time_filter` passes no job
-- whose run time is not negative.
pub time_filter_late :
    (now n : ℕ) (a : NameAttrs)
    → 2 ^ 31 ≤ now
    → now < 2 ^ 32
    → a.run_time ≡ pos n
    → time_filter (time_limit now) (base_name a) ≡ false
unfolding time_filter time_limit base_name print_time int2str to_int print_int
time_filter_late now n a lo hi r =
    let wrap : now % 2 ^ 32 ≡ now = omega arith in
    let large : ltb now (2 ^ 31) ≡ false = ground arith in
    rw (r, wrap, large)
      (unfold str_le in
        digit_after_minus (padded 10 n) _ _ (padded-AllDigits 10 n) (padded-length 10 n))
