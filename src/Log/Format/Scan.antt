-- ===== src/Log/Format/Scan.antt =====
-- The rounds of `get_chunk`: they end, and leave alone what stands before the place `i`.
use job.Log.Format.{
  npos, lower_conversion, moved, index_of, index_from, replace, Chunk, Round, stop, again,
  conversion, from_percent, conversions, scan_rounds, get_chunk, byte_at,
}
use job.Prelude.{
  ℕ, zero, suc, ◌+◌, ◌-◌, ◌≤◌, ◌<◌, ◌&&◌, [], ◌∷◌, ◌++◌, Option, none, some, Bytes, codes, ltb,
  ◌==◌, length, take, drop, ◌≡◌, refl, ap, sym, ◌∙◌, subst, arith, Bool-cases, Option-cases, inl,
  inr, some_injective, length-append, length-drop,
}
use job.Text.Split.Pieces.{has_byte}

moved-some :
    (n : ℕ) (o : Option ℕ) {p : ℕ} → moved n o ≡ some p → (q : ℕ) × (o ≡ some q) × (p ≡ n + q)
unfolding moved
moved-some n none h = cc
moved-some n (some q) h = (q, refl, cc)

index_of-bound : (cs s : Bytes) {p : ℕ} → index_of cs s ≡ some p → p < length s
unfolding index_of
index_of-bound cs [] h = cc
index_of-bound cs (c ∷ s) {p} h = elim (Bool-cases (has_byte c cs)) [
  | inl e ↦ (let first : 0 ≡ p = some_injective (sym (rw e) ∙ h) in omega (arith, first))
  | inr e ↦
      let (q, o, k) = moved-some 1 (index_of cs s) (sym (rw e) ∙ h) in
      omega (arith, index_of-bound cs s o, k)
]

pub length-take : (n : ℕ) (s : Bytes) → n ≤ length s → length (take n s) ≡ n
length-take zero s h = refl
length-take (suc n) [] h = omega arith
length-take (suc n) (c ∷ s) h = omega (arith, length-take n s (omega arith))

pub take-take_append :
    (k n : ℕ) (s t : Bytes) → k ≤ n → n ≤ length s → take k (take n s ++ t) ≡ take k s
take-take_append zero n s t h b = refl
take-take_append (suc k) zero s t h b = absurd (omega arith)
take-take_append (suc k) (suc n) [] t h b = absurd (omega arith)
take-take_append (suc k) (suc n) (c ∷ s) t h b =
    ap (◌∷◌ c) (take-take_append k n s t (omega arith) (omega arith))

index_from-bound :
    (cs : Bytes) (i : ℕ) (s : Bytes) {p : ℕ} → index_from cs i s ≡ some p → (i ≤ p) × (p < length s)
unfolding index_from
index_from-bound cs i s h =
    let (q, o, k) = moved-some i (index_of cs (drop i s)) h in
    (omega (arith, k), omega (arith, k, index_of-bound cs (drop i s) o, length-drop i s))

pub take-replace :
    (k i n : ℕ) (s t : Bytes) → k ≤ i → i ≤ length s → take k (replace s i n t) ≡ take k s
unfolding replace
take-replace k i n s t h b = take-take_append k i s (t ++ drop (i + n) s) h b

length-replace :
    (i n : ℕ) (s t : Bytes) → i + n ≤ length s → length (replace s i n t) + n ≡ length s + length t
unfolding replace
length-replace i n s t h = omega (
  arith,
  length-append (take i s) (t ++ drop (i + n) s),
  length-append t (drop (i + n) s),
  length-take i s (omega arith),
  length-drop (i + n) s,
)

-- A conversion that was found ends within the format.
abbrev pub Fits : Chunk → Type 0
Fits c = (f : ℕ) (ff : Bytes) → c.found ≡ some (f, ff) → c.i + length ff ≤ length c.fmt

-- What a round keeps: the first `k` bytes, if the search is behind them.
abbrev RoundKeeps : ℕ → Bytes → Round → Type 0
RoundKeeps k fmt (stop c) = (take k c.fmt ≡ take k fmt) × (k ≤ npos → k ≤ c.i) × Fits c
RoundKeeps k fmt (again i fmt') =
    (take k fmt' ≡ take k fmt) × (k < i) × (k < length fmt) × (length fmt' ≤ length fmt)

module _ (k : ℕ) (fmt : Bytes) where
  conversion-RoundKeeps :
      (p : ℕ) (o : Option ℕ)
      → k ≤ p
      → p < length fmt
      → ((e : ℕ) → o ≡ some e → (p < e) × (e < length fmt))
      → RoundKeeps k fmt (conversion p fmt o)
  unfolding conversion lower_conversion
  conversion-RoundKeeps p none h b bound = (refl, (λ _. omega arith), (λ f ff q. cc))
  conversion-RoundKeeps p (some e) h b bound =
      let (after, inside) = bound e refl in
      elim (Bool-cases (byte_at fmt e == b'%')) [
        | inl t ↦ rw t (
          take-replace k p (e - p + 1) fmt (codes "\\%") h (omega arith),
          omega arith,
          omega arith,
          omega (arith, length-replace p (e - p + 1) fmt (codes "\\%") (omega arith)),
        )
        | inr t ↦ rw t (
          refl,
          (λ _. h),
          (λ f ff q. omega (
            arith,
            ap (λ u. length u.1) (some_injective q),
            length-take (e - p + 1) (drop p fmt) (omega (arith, length-drop p fmt)),
          )),
        )
      ]

  from_percent-RoundKeeps :
      (i : ℕ) → k ≤ i → RoundKeeps k fmt (from_percent fmt (index_from (codes "%") i fmt))
  unfolding from_percent
  from_percent-RoundKeeps i h = elim (Option-cases (index_from (codes "%") i fmt)) [
    | inl o ↦ rw o (refl, (λ small. small), (λ f ff q. cc))
    | inr (p, o) ↦
        let (behind, inside) = index_from-bound (codes "%") i fmt o in
        elim (Bool-cases (ltb 0 p && byte_at fmt (p - 1) == b'\\')) [
          | inl t ↦ rw (o, t) (refl, omega arith, omega arith, omega arith)
          | inr t ↦
              rw (o, t)
                (conversion-RoundKeeps p (index_from conversions (suc p) fmt) (omega arith) inside
                  (λ e q.
                    let (u, v) = index_from-bound conversions (suc p) fmt q in (omega arith, v)))
        ]
  ]

-- What the search leaves: the first bytes as they were, a place behind them, and a conversion that
-- fits.
abbrev pub Kept : ℕ → Bytes → Chunk → Type 0
Kept k fmt c = (take k c.fmt ≡ take k fmt) × (k ≤ c.i) × Fits c

-- The rounds after one round; `more` stands for them.
module _ (k fuel : ℕ) (fmt : Bytes) where
  next_round-Kept :
      (r : Round) {c : Chunk}
      → k ≤ npos
      → RoundKeeps k fmt r
      → ((i : ℕ) (fmt' : Bytes) → k ≤ i → scan_rounds fuel i fmt' ≡ some c → Kept k fmt' c)
      → (elim r [ stop d ↦ some d | again i' fmt' ↦ scan_rounds fuel i' fmt' ]) ≡ some c
      → Kept k fmt c
  next_round-Kept (stop d) small (same, behind, fits) more q =
      let is = some_injective q in subst (Kept k fmt) is (same, behind small, fits)
  next_round-Kept (again i' fmt') small (same, behind, _, _) more q =
      let (kept, after, fits) = more i' fmt' (omega arith) q in (kept ∙ same, after, fits)

  next_round-some :
      (r : Round)
      → RoundKeeps k fmt r
      → ((i : ℕ) (fmt' : Bytes)
          → k < i
          → k < length fmt
          → length fmt' ≤ length fmt
          → (c : Chunk) × (scan_rounds fuel i fmt' ≡ some c))
      → (c : Chunk) × ((elim r [ stop d ↦ some d | again i' fmt' ↦ scan_rounds fuel i' fmt' ])
          ≡ some c)
  next_round-some (stop d) _ more = (d, refl)
  next_round-some (again i' fmt') (_, behind, inside, shorter) more =
      more i' fmt' behind inside shorter

pub scan_rounds-Kept :
    (k fuel i : ℕ) (fmt : Bytes) {c : Chunk}
    → k ≤ npos
    → k ≤ i
    → scan_rounds fuel i fmt ≡ some c
    → Kept k fmt c
unfolding scan_rounds
scan_rounds-Kept k zero i fmt small h e = cc
scan_rounds-Kept k (suc fuel) i fmt small h e =
    next_round-Kept k fuel fmt (from_percent fmt (index_from (codes "%") i fmt)) small
      (from_percent-RoundKeeps k fmt i h)
      (λ i' fmt' h' e'. scan_rounds-Kept k fuel i' fmt' small h' e') e

pub get_chunk-Kept :
    (k i : ℕ) (fmt : Bytes) {c : Chunk} → k ≤ npos → k ≤ i → get_chunk i fmt ≡ some c → Kept k fmt c
unfolding get_chunk
get_chunk-Kept k i fmt small h e = scan_rounds-Kept k (suc (length fmt)) i fmt small h e

scan_rounds-some :
    (fuel i : ℕ) (fmt : Bytes)
    → 0 < fuel
    → length fmt < fuel + i
    → (c : Chunk) × (scan_rounds fuel i fmt ≡ some c)
unfolding scan_rounds
scan_rounds-some zero i fmt p h = absurd (omega arith)
scan_rounds-some (suc fuel) i fmt p h =
    next_round-some i fuel fmt (from_percent fmt (index_from (codes "%") i fmt))
      (from_percent-RoundKeeps i fmt i (omega arith))
      (λ i' fmt' u v w. scan_rounds-some fuel i' fmt' (omega arith) (omega arith))

-- The search ends.
pub get_chunk-some : (i : ℕ) (fmt : Bytes) → (c : Chunk) × (get_chunk i fmt ≡ some c)
unfolding get_chunk
get_chunk-some i fmt = scan_rounds-some (suc (length fmt)) i fmt (omega arith) (omega arith)
