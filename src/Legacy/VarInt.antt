-- ===== src/Legacy/VarInt.antt =====
-- What scripts/encoding.js writes for a number is read back as that number.
use native.Mathlib.Nat.{pow-suc}
use organic_web_wallet.Prelude.{
  ℕ, zero, suc, ◌+◌, ◌-◌, ◌*◌, ◌/◌, ◌^◌, ◌<◌, ◌≡◌, refl, ◌∙◌, [], ◌∷◌, ◌++◌, ltb, arith, ok,
  Bool-cases, inl, inr, ltb→lt, if◌then◌else◌,
}
use organic_web_wallet.Prelude.Int.{pos}
use organic_web_wallet.Platform.{Bytes}
use organic_web_wallet.Wire.Codec.{le_bytes, le_value, read_u8}
use organic_web_wallet.Wire.LittleEndian.{length-le_bytes, le_value-le_bytes, read-append}
use organic_web_wallet.Legacy.Encoding.{
  num_to_bytes, weighted, bytes_to_num, num_to_var_int, read_num, var_int_to_num,
}

pub num_to_bytes-le_bytes : (n k : ℕ) → num_to_bytes (pos n) k ≡ le_bytes k n
unfolding num_to_bytes le_bytes
num_to_bytes-le_bytes n zero = refl
num_to_bytes-le_bytes n (suc k) = rw (num_to_bytes-le_bytes (n / 256) k) refl

weighted-le_value : (i : ℕ) (bs : Bytes) → weighted i bs ≡ 256 ^ i * le_value bs
unfolding weighted le_value
weighted-le_value i [] = grind arith
weighted-le_value i (b ∷ bs) =
    let next : i + 1 ≡ suc i = omega arith in
    let step : 256 ^ (i + 1) ≡ 256 * 256 ^ i = rw (next, pow-suc) (omega arith) in
    rw (weighted-le_value (i + 1) bs, step) (grind arith)

bytes_to_num-le_value : (bs : Bytes) → bytes_to_num bs ≡ le_value bs
unfolding bytes_to_num
bytes_to_num-le_value bs = weighted-le_value 0 bs ∙ omega arith

-- A number that fits in `k` bytes is read back from them.
pub read_num-num_to_bytes :
    (k n : ℕ) (rest : Bytes)
    → n < 256 ^ k
    → read_num k (num_to_bytes (pos n) k ++ rest) ≡ ok (n, rest)
unfolding read_num
read_num-num_to_bytes k n rest h =
    rw
      (
        num_to_bytes-le_bytes,
        read-append k (le_bytes k n) rest (length-le_bytes k n),
        bytes_to_num-le_value,
        le_value-le_bytes k n h,
      )
      refl

var_int_to_num_first :
    (b : ℕ) (rest : Bytes)
    → var_int_to_num (b ∷ rest)
      ≡ (if ltb b 253 then ok (b, rest) else read_num (2 ^ (b - 252)) rest)
unfolding var_int_to_num read_u8
var_int_to_num_first b rest = rw (read-append 1 (b ∷ []) rest refl) refl

-- A length is read back from the variable-length integer that is written for it.
pub var_int_to_num-num_to_var_int :
    (n : ℕ) (rest : Bytes) → n < 2 ^ 64 → var_int_to_num (num_to_var_int n ++ rest) ≡ ok (n, rest)
unfolding num_to_var_int
var_int_to_num-num_to_var_int n rest h = elim (Bool-cases (ltb n 253)) [
  | inl one ↦ rw one (rw var_int_to_num_first (rw one refl))
  | inr more ↦ elim (Bool-cases (ltb n 65536)) [
    | inl two ↦
        rw (more, two)
          (var_int_to_num_first 253 (num_to_bytes (pos n) 2 ++ rest)
            ∙ read_num-num_to_bytes 2 n rest (ltb→lt n 65536 two))
    | inr more2 ↦ elim (Bool-cases (ltb n 4294967296)) [
      | inl four ↦
          rw (more, more2, four)
            (var_int_to_num_first 254 (num_to_bytes (pos n) 4 ++ rest)
              ∙ read_num-num_to_bytes 4 n rest (ltb→lt n 4294967296 four))
      | inr eight ↦
          rw (more, more2, eight)
            (var_int_to_num_first 255 (num_to_bytes (pos n) 8 ++ rest)
              ∙ read_num-num_to_bytes 8 n rest h)
    ]
  ]
]

pub read_num-le_bytes :
    (k n : ℕ) (rest : Bytes) → n < 256 ^ k → read_num k (le_bytes k n ++ rest) ≡ ok (n, rest)
read_num-le_bytes k n rest h = rw (← num_to_bytes-le_bytes n k) (read_num-num_to_bytes k n rest h)
