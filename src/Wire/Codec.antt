-- ===== src/Wire/Codec.antt =====
-- The integer codecs and the byte reader of scripts/pqwallet/pqtxtx.js. The reader's state is the
-- list of the bytes from its offset on, so that `offset + length > bytes.length` says that fewer
-- than `length` bytes are left.
use organic_web_wallet.Prelude.{
  ℕ, zero, suc, ◌+◌, ◌-◌, ◌*◌, ◌/◌, ◌%◌, ◌^◌, [], ◌∷◌, length, take, drop, get_or, ltb, leb, ◌==◌,
  if◌then◌else◌, Result, ok, err, Error, ◌>>=◌, ◌>>◌, throw_if, require, invalid_integer,
  compact_size_range, unexpected_end, non_canonical_compact_size, compact_size_too_large,
  offset_range, uint32_range, int16_range, int64_range,
}
use organic_web_wallet.Prelude.Int.{ℤ, pos, negsuc}
use organic_web_wallet.Platform.{Bytes, Numeric, whole, max_safe_integer}

-- The `k` little-endian bytes of `n`, and the number that bytes stand for.
unfoldable pub le_bytes : ℕ → ℕ → Bytes
le_bytes zero n = []
le_bytes (suc k) n = (n % 256) ∷ le_bytes k (n / 256)

unfoldable pub le_value : Bytes → ℕ
le_value [] = 0
le_value (b ∷ bs) = b + 256 * le_value bs

-- The two's complement reading of a pattern of `w` bits.
unfoldable pub signed : ℕ → ℕ → ℤ
signed w n = if ltb n (2 ^ (w - 1)) then pos n else negsuc (2 ^ w - n - 1)

unfoldable pub to_big_int : Numeric → Result ℤ
to_big_int value = require (whole value) invalid_integer

-- `if (n < 0n || n > max) throw …`
abbrev pub in_range : ℤ → ℕ → Error → Result ℕ
in_range (pos n) max e = if ltb max n then err e else ok n
in_range (negsuc n) max e = err e

unfoldable pub compact_size : ℕ → Bytes
compact_size n =
    if ltb n 0xfd
    then n ∷ []
    else if leb n 0xffff
    then 0xfd ∷ le_bytes 2 n
    else if leb n 0xffffffff
    then 0xfe ∷ le_bytes 4 n
    else 0xff ∷ le_bytes 8 n

unfoldable pub encode_compact_size : Numeric → Result Bytes
encode_compact_size value = do
  z ← to_big_int value
  n ← in_range z 0xffffffffffffffff compact_size_range
  ok (compact_size n)

unfoldable pub u32le : Numeric → Result Bytes
u32le value = do z ← to_big_int value; n ← in_range z 0xffffffff uint32_range; ok (le_bytes 4 n)

unfoldable pub i64le : Numeric → Result Bytes
i64le value = do
  z ← to_big_int value
  n ← in_range z 0x7fffffffffffffff int64_range
  ok (le_bytes 8 n)

i16_pattern : ℤ → Result ℕ
i16_pattern (pos n) = if ltb 0x7fff n then err int16_range else ok n
i16_pattern (negsuc n) = if ltb 0x7fff n then err int16_range else ok (0x10000 - (n + 1))

-- A negative number is written as its two's complement.
unfoldable pub i16le : Numeric → Result Bytes
unfolding i16_pattern
i16le value = do z ← to_big_int value; n ← i16_pattern z; ok (le_bytes 2 n)

unfoldable pub read : ℕ → Bytes → Result (Bytes × Bytes)
read n s = if ltb (length s) n then err unexpected_end else ok (take n s, drop n s)

unfoldable pub read_u8 : Bytes → Result (ℕ × Bytes)
read_u8 s = do (b, rest) ← read 1 s; ok (get_or b 0 0, rest)

-- `readU16`, `readU32` and the `getBigUint64` of `readCompactSize`, by the number of bytes
unfoldable pub read_le : ℕ → Bytes → Result (ℕ × Bytes)
read_le k s = do (b, rest) ← read k s; ok (le_value b, rest)

unfoldable pub read_i16 : Bytes → Result (ℤ × Bytes)
read_i16 s = do (n, rest) ← read_le 2 s; ok (signed 16 n, rest)

unfoldable pub read_i64 : Bytes → Result (ℤ × Bytes)
read_i64 s = do (n, rest) ← read_le 8 s; ok (signed 64 n, rest)

-- What follows the first byte: `k` bytes whose value must not be below `least`.
unfoldable pub read_long : ℕ → ℕ → Bytes → Result (ℕ × Bytes)
read_long k least s = do
  (n, rest) ← read_le k s
  throw_if (ltb n least) non_canonical_compact_size
  ok (n, rest)

unfoldable pub read_compact_size : Bytes → Result (ℕ × Bytes)
read_compact_size s = do
  (first, rest) ← read_u8 s
  if ltb first 0xfd
      then ok (first, rest)
      else if first == 0xfd
      then read_long 2 0xfd rest
      else if first == 0xfe
      then read_long 4 0x10000 rest
      else read_long 8 0x100000000 rest

unfoldable pub read_count : Bytes → Result (ℕ × Bytes)
read_count s = do
  (n, rest) ← read_compact_size s
  throw_if (ltb max_safe_integer n) compact_size_too_large
  ok (n, rest)

-- `readCompactSize(bytes, offset)`: the value, and the offset behind it.
unfoldable pub read_compact_size_at : Bytes → ℕ → Result (ℕ × ℕ)
read_compact_size_at bytes offset = do
  throw_if (ltb (length bytes) offset) offset_range
  (n, rest) ← read_compact_size (drop offset bytes)
  ok (n, length bytes - length rest)
