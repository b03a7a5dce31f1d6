-- ===== src/Seqnum/Bytes64.antt =====
-- An eight-byte number in memory, least significant byte first.
use job.Prelude.{
  ℕ, zero, suc, ◌+◌, ◌*◌, ◌/◌, ◌%◌, ◌^◌, ◌<◌, [], ◌∷◌, ◌≡◌, refl, arith, Bytes, length,
}

unfoldable pub decode : Bytes → ℕ
decode [] = 0
decode (b ∷ bs) = b + 256 * decode bs

unfoldable pub encode_in : ℕ → ℕ → Bytes
encode_in zero v = []
encode_in (suc w) v = v % 256 ∷ encode_in w (v / 256)

unfoldable pub encode : ℕ → Bytes
unfolding encode_in
encode = encode_in 8

-- Numbers of 64 bits are read back.
pub decode-encode : (v : ℕ) → v < 2 ^ 64 → decode (encode v) ≡ v
unfolding decode encode
decode-encode v h = omega arith

pub length-encode : (v : ℕ) → length (encode v) ≡ 8
unfolding encode
length-encode v = refl
