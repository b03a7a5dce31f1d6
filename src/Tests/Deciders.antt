-- ===== src/Tests/Deciders.antt =====
-- Conditions of the theorems on multipart files, decided.
use job.Multipart.Entry.{AllId, IsPrinted, nothing, something, single, longer}
use job.Multipart.Scanning.{AllPlain}
use job.Multipart.Load.{body_tag}
use job.Multipart.Order.{AllBefore}
use job.Multipart.Parts.{field_text, IsHeader, AreHeaders}
use job.Multipart.Scan.{is_id}
use job.Multipart.Section.{Section, same_key, caseless}
use job.Prelude.{
  ℕ, Bool, true, false, not, ◌&&◌, ◌||◌, [], ◌∷◌, ◌++◌, Bytes, ◌==◌, ltb, length, is_blank, str_eq,
  str_eq_iff, ◌≡◌, ◌≢◌, refl, ap, sym, arith,
}
use mathlib.Core.Bool.{false≢true}

both : (a b : Bool) → (a && b) ≡ true → (a ≡ true) × (b ≡ true)
both true b h = (refl, h)
both false b h = absurd (false≢true h)

abbrev plain : ℕ → Bool
plain c = not (c == 0 || c == b'\n')

abbrev pub all_plain : Bytes → Bool
all_plain [] = true
all_plain (c ∷ cs) = plain c && all_plain cs

plain-IsPlain : (b : Bool) → not b ≡ true → b ≡ false
plain-IsPlain true h = sym h
plain-IsPlain false h = refl

pub all_plain-AllPlain : (cs : Bytes) → all_plain cs ≡ true → AllPlain cs
all_plain-AllPlain [] h = tt
all_plain-AllPlain (c ∷ cs) h =
    let (p, ps) = both (plain c) (all_plain cs) h in
    (plain-IsPlain (c == 0 || c == b'\n') p, all_plain-AllPlain cs ps)

abbrev pub all_id : Bytes → Bool
all_id [] = true
all_id (c ∷ cs) = is_id c && all_id cs

pub all_id-AllId : (cs : Bytes) → all_id cs ≡ true → AllId cs
all_id-AllId [] h = tt
all_id-AllId (c ∷ cs) h = (let (p, ps) = both (is_id c) (all_id cs) h in (p, all_id-AllId cs ps))

abbrev init : ℕ → Bytes → Bytes
init c [] = []
init c (d ∷ ds) = c ∷ init d ds

abbrev last : ℕ → Bytes → ℕ
last c [] = c
last c (d ∷ ds) = last d ds

init-last : (c : ℕ) (cs : Bytes) → c ∷ cs ≡ init c cs ++ last c cs ∷ []
init-last c [] = refl
init-last c (d ∷ ds) = ap (◌∷◌ c) (init-last d ds)

abbrev solid : ℕ → Bool
solid c = not (is_blank c) && plain c

abbrev value_ok : Bytes → Bool
value_ok [] = true
value_ok (c ∷ []) = solid c
value_ok (c ∷ (d ∷ ds)) = solid c && (all_plain (init d ds) && solid (last d ds))

value_ok-IsPrinted : (v : Bytes) → value_ok v ≡ true → IsPrinted v
value_ok-IsPrinted [] h = nothing refl
value_ok-IsPrinted (c ∷ []) h =
    let (b, p) = both (not (is_blank c)) (plain c) h in
    something
      (single c (plain-IsPlain (is_blank c) b) (plain-IsPlain (c == 0 || c == b'\n') p) refl)
value_ok-IsPrinted (c ∷ (d ∷ ds)) h =
    let e = last d ds in
    let (s, r) = both (solid c) (all_plain (init d ds) && solid e) h in
    let (m, z) = both (all_plain (init d ds)) (solid e) r in
    let (b, p) = both (not (is_blank c)) (plain c) s in
    let (b', p') = both (not (is_blank e)) (plain e) z in
    something (
      longer c e (init d ds) (plain-IsPlain (is_blank c) b) (plain-IsPlain (c == 0 || c == b'\n') p)
        (all_plain-AllPlain (init d ds) m) (plain-IsPlain (is_blank e) b')
        (plain-IsPlain (e == 0 || e == b'\n') p') (ap (◌∷◌ c) (init-last d ds)))

abbrev header_ok : Bytes → Bytes → Bool
header_ok [] v = false
header_ok (c ∷ cs) v =
    all_id (c ∷ cs)
    && (not (b'-' == c)
        && (value_ok v
            && (ltb (length (field_text (c ∷ cs) v)) 4095 && not (same_key (c ∷ cs) body_tag))))

header_ok-IsHeader : (k v : Bytes) → header_ok k v ≡ true → IsHeader k v
header_ok-IsHeader [] v h = absurd (false≢true h)
header_ok-IsHeader (c ∷ cs) v h =
    let size = length (field_text (c ∷ cs) v) in
    let (i, r1) = both (all_id (c ∷ cs)) _ h in
    let (d, r2) = both (not (b'-' == c)) _ r1 in
    let (w, r3) = both (value_ok v) _ r2 in
    let (l, b) = both (ltb size 4095) _ r3 in
    (
      (all_id-AllId (c ∷ cs) i, plain-IsPlain (b'-' == c) d),
      value_ok-IsPrinted v w,
      ground arith,
      plain-IsPlain (same_key (c ∷ cs) body_tag) b,
    )

abbrev before_ok : Section → Bytes → Bool
before_ok [] t = true
before_ok ((k, v) ∷ m) t = not (same_key k t) && (not (caseless t k) && before_ok m t)

before_ok-AllBefore : (m : Section) (t : Bytes) → before_ok m t ≡ true → AllBefore m t
before_ok-AllBefore [] t h = tt
before_ok-AllBefore ((k, v) ∷ m) t h =
    let (s, r) = both (not (same_key k t)) _ h in
    let (c, q) = both (not (caseless t k)) _ r in
    (plain-IsPlain (same_key k t) s, plain-IsPlain (caseless t k) c, before_ok-AllBefore m t q)

abbrev pub headers_ok : Section → Section → Bool
headers_ok done [] = true
headers_ok done ((k, v) ∷ hs) =
    header_ok k v && (before_ok done k && headers_ok (done ++ (k, v) ∷ []) hs)

pub headers_ok-AreHeaders : (done hs : Section) → headers_ok done hs ≡ true → AreHeaders done hs
headers_ok-AreHeaders done [] h = tt
headers_ok-AreHeaders done ((k, v) ∷ hs) h =
    let (i, r) = both (header_ok k v) _ h in
    let (b, q) = both (before_ok done k) _ r in
    (
      header_ok-IsHeader k v i,
      before_ok-AllBefore done k b,
      headers_ok-AreHeaders (done ++ (k, v) ∷ []) hs q,
    )

pub apart : (a b : Bytes) → str_eq a b ≡ false → a ≢ b
apart a b h e = (let f : str_eq a b ≡ true = (str_eq_iff a b).1 e in cc)
