-- ===== src/Legacy/Encoding.antt =====
-- The numbers of scripts/encoding.js. Bytes are those that `Buffer.from` makes of an array, which takes
-- a negative element modulo 256. A read past the end of the bytes is an error here; the code goes
-- on with what is left.
use organic_web_wallet.Prelude.{
  ℕ, zero, suc, ◌+◌, ◌-◌, ◌*◌, ◌/◌, ◌%◌, ◌^◌, [], ◌∷◌, replicate, ltb, if◌then◌else◌, Result, ok,
  ◌>>=◌,
}
use organic_web_wallet.Prelude.Int.{ℤ, pos, negsuc}
use organic_web_wallet.Platform.{Bytes}
use organic_web_wallet.Wire.Codec.{read, read_u8}

-- -n
abbrev pub minus : ℕ → ℤ
minus zero = pos 0
minus (suc n) = negsuc n

-- The quotient of a negative BigInt goes to 0; -1 gives eight bytes at once.
unfoldable pub num_to_bytes : ℤ → ℕ → Bytes
num_to_bytes z zero = []
num_to_bytes (pos n) (suc k) = (n % 256) ∷ num_to_bytes (pos (n / 256)) k
num_to_bytes (negsuc zero) (suc k) = replicate 8 255
num_to_bytes (negsuc (suc n)) (suc k) =
    ((256 - (n + 2) % 256) % 256) ∷ num_to_bytes (minus ((n + 2) / 256)) k

-- The digits from the `i`-th on, each with its weight.
unfoldable pub weighted : ℕ → Bytes → ℕ
weighted i [] = 0
weighted i (b ∷ bs) = b * 256 ^ i + weighted (i + 1) bs

unfoldable pub bytes_to_num : Bytes → ℕ
unfolding weighted
bytes_to_num bs = weighted 0 bs

unfoldable pub num_to_var_int : ℕ → Bytes
num_to_var_int n =
    if ltb n 253
    then n ∷ []
    else if ltb n 65536
    then 253 ∷ num_to_bytes (pos n) 2
    else if ltb n 4294967296
    then 254 ∷ num_to_bytes (pos n) 4
    else 255 ∷ num_to_bytes (pos n) 8

-- `bytesToNum(bytes.slice(offset, (offset += k)))`
unfoldable pub read_num : ℕ → Bytes → Result (ℕ × Bytes)
read_num k s = do (b, rest) ← read k s; ok (bytes_to_num b, rest)

-- `varIntToNum`, with the bytes behind what it reads
unfoldable pub var_int_to_num : Bytes → Result (ℕ × Bytes)
var_int_to_num s = do
  (first, rest) ← read_u8 s
  let long = read_num (2 ^ (first - 252)) rest
  if ltb first 253 then ok (first, rest) else long
