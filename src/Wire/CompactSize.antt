-- ===== src/Wire/CompactSize.antt =====
-- CompactSize: one encoding for each number below 2 ^ 64, and no other bytes are read.
use mathlib.Core.Path.{subst}
use organic_web_wallet.Prelude.{
  ℕ, ◌^◌, ◌≤◌, ◌<◌, ◌≡◌, refl, sym, ◌∙◌, [], ◌∷◌, ◌++◌, All-split, arith, Result, ok, bind_inv,
  throw_inv, ltb, ltb→le, length, Option, none, some, Error, require, invalid_integer, ◌>>=◌,
  compact_size_range, uint32_range, int64_range,
}
use organic_web_wallet.Prelude.Int.{ℤ, pos, negsuc}
use organic_web_wallet.Platform.{
  Bytes, IsByte, IsBytes, Numeric, number, bigint, whole, max_safe_integer,
}
use organic_web_wallet.Wire.Codec.{
  le_bytes, le_value, read, read_u8, read_le, read_long, compact_size, read_compact_size, in_range,
  to_big_int, encode_compact_size, u32le, i64le, read_count,
}
use organic_web_wallet.Wire.LittleEndian.{
  length-le_bytes, le_value-le_bytes, le_value-lt, le_bytes-le_value, read-append, read_cuts,
}

pub read_le-append :
    (k n : ℕ) (rest : Bytes) → n < 256 ^ k → read_le k (le_bytes k n ++ rest) ≡ ok (n, rest)
unfolding read_le
read_le-append k n rest h =
    rw (read-append k (le_bytes k n) rest (length-le_bytes k n)) (rw (le_value-le_bytes k n h))

pub read_le_cuts :
    (k n : ℕ) (s rest : Bytes)
    → IsBytes s
    → read_le k s ≡ ok (n, rest)
    → (s ≡ le_bytes k n ++ rest) × (n < 256 ^ k) × IsBytes rest
unfolding read_le
read_le_cuts k n s rest h e = bind_inv (read k s) e λ (b, r) reads e'.
    let (cut, size) = read_cuts k s b r reads in
    let (hb, hr) = All-split IsByte b r (subst IsBytes cut h) in
    let en : le_value b ≡ n = cc in
    let er : r ≡ rest = cc in
    rw (← en, ← er, ← size) (cut ∙ rw (le_bytes-le_value b hb), le_value-lt b hb, hr)

pub read_u8-cons : (b : ℕ) (rest : Bytes) → read_u8 (b ∷ rest) ≡ ok (b, rest)
unfolding read_u8
read_u8-cons b rest = rw (read-append 1 (b ∷ []) rest refl)

read_long-append :
    (k least n : ℕ) (rest : Bytes)
    → n < 256 ^ k
    → least ≤ n
    → read_long k least (le_bytes k n ++ rest) ≡ ok (n, rest)
unfolding read_long
read_long-append k least n rest h l = rw (read_le-append k n rest h) (ground arith)

-- Every number below 2 ^ 64 is read back from its encoding, whatever follows.
pub read_compact_size-append :
    (n : ℕ) (rest : Bytes) → n < 2 ^ 64 → read_compact_size (compact_size n ++ rest) ≡ ok (n, rest)
unfolding read_compact_size compact_size
read_compact_size-append n rest h = ground (
  arith,
  read_u8-cons n rest,
  read_u8-cons 0xfd (le_bytes 2 n ++ rest),
  read_u8-cons 0xfe (le_bytes 4 n ++ rest),
  read_u8-cons 0xff (le_bytes 8 n ++ rest),
  read_long-append 2 0xfd n rest,
  read_long-append 4 0x10000 n rest,
  read_long-append 8 0x100000000 n rest,
)

pub read_u8_cuts :
    (b : ℕ) (s rest : Bytes)
    → IsBytes s
    → read_u8 s ≡ ok (b, rest)
    → (s ≡ b ∷ rest) × (b < 256) × IsBytes rest
unfolding read_u8
read_u8_cuts b [] rest h e = unfold read in cc
read_u8_cuts b (x ∷ xs) rest h e =
    let e' : ◌≡◌ {A = Result (ℕ × Bytes)} (ok (x, xs)) (ok (b, rest)) =
      sym (read_u8-cons x xs) ∙ unfold read_u8 in e in
    ground (arith, e')

read_long_cuts :
    (k least n : ℕ) (s rest : Bytes)
    → IsBytes s
    → read_long k least s ≡ ok (n, rest)
    → (s ≡ le_bytes k n ++ rest) × (n < 256 ^ k) × IsBytes rest × (least ≤ n)
unfolding read_long
read_long_cuts k least n s rest h e = bind_inv (read_le k s) e λ (m, r) reads e'.
    throw_inv (ltb m least) _ _ e' λ canonical e''.
      let (cut, fits, hr) = read_le_cuts k m s r h reads in
      let en : m ≡ n = cc in
      let er : r ≡ rest = cc in rw (← en, ← er) (cut, fits, hr, ltb→le m least canonical)

-- What is read is an encoding that `encodeCompactSize` writes: the shortest one.
pub read_compact_size_cuts :
    (n : ℕ) (s rest : Bytes)
    → IsBytes s
    → read_compact_size s ≡ ok (n, rest)
    → (s ≡ compact_size n ++ rest) × (n < 2 ^ 64) × IsBytes rest
unfolding read_compact_size compact_size
read_compact_size_cuts n s rest h e = bind_inv (read_u8 s) e λ (first, r) reads e'.
    let (cut, small, hr) = read_u8_cuts first s r h reads in
    ground (
      arith,
      cut,
      read_long_cuts 2 0xfd n r rest hr,
      read_long_cuts 4 0x10000 n r rest hr,
      read_long_cuts 8 0x100000000 n r rest hr,
    )

pub encode_compact_size_lem :
    (n : ℕ) → n ≤ max_safe_integer → encode_compact_size (number (pos n)) ≡ ok (compact_size n)
unfolding encode_compact_size to_big_int whole
encode_compact_size_lem n h = ground arith

pub u32le_lem : (n : ℕ) → n < 2 ^ 32 → u32le (number (pos n)) ≡ ok (le_bytes 4 n)
unfolding u32le to_big_int whole
u32le_lem n h = ground arith

pub read_count-append :
    (n : ℕ) (rest : Bytes)
    → n ≤ max_safe_integer
    → read_count (compact_size n ++ rest) ≡ ok (n, rest)
unfolding read_count
read_count-append n rest h = rw (read_compact_size-append n rest (omega arith)) (ground arith)

pub read_count_cuts :
    (n : ℕ) (s rest : Bytes)
    → IsBytes s
    → read_count s ≡ ok (n, rest)
    → (s ≡ compact_size n ++ rest) × (n ≤ max_safe_integer) × IsBytes rest
unfolding read_count
read_count_cuts n s rest h e = bind_inv (read_compact_size s) e λ (m, r) reads e'.
    throw_inv (ltb max_safe_integer m) _ _ e' λ small e''.
      let (cut, fits, hr) = read_compact_size_cuts m s r h reads in
      let en : m ≡ n = cc in
      let er : r ≡ rest = cc in rw (← en, ← er) (cut, ltb→le max_safe_integer m small, hr)

pub read_cuts_bytes :
    (n : ℕ) (s b rest : Bytes)
    → IsBytes s
    → read n s ≡ ok (b, rest)
    → (s ≡ b ++ rest) × (length b ≡ n) × IsBytes b × IsBytes rest
read_cuts_bytes n s b rest h e =
    let (cut, size) = read_cuts n s b rest e in
    let (hb, hr) = All-split IsByte b rest (subst IsBytes cut h) in (cut, size, hb, hr)

-- A range check that passes: the value is a natural number, and its bytes are those written.
ranged :
    (o : Option ℤ) (max : ℕ) (e : Error) (write : ℕ → Bytes) (b : Bytes)
    → (require o invalid_integer >>= λ z. in_range z max e >>= λ n. ok (write n)) ≡ ok b
    → (n : ℕ) × (o ≡ some (pos n)) × (n ≤ max) × (b ≡ write n)
ranged none max e write b h = absurd (cc)
ranged (some (negsuc n)) max e write b h = absurd (cc)
ranged (some (pos n)) max e write b h = (n, refl, ground arith, ground arith)

pub encode_compact_size_ok :
    (value : Numeric) (b : Bytes)
    → encode_compact_size value ≡ ok b
    → (n : ℕ) × (whole value ≡ some (pos n)) × (n ≤ 0xffffffffffffffff) × (b ≡ compact_size n)
unfolding encode_compact_size to_big_int
encode_compact_size_ok value b h = ranged (whole value) _ compact_size_range compact_size b h

pub u32le_ok :
    (value : Numeric) (b : Bytes)
    → u32le value ≡ ok b
    → (n : ℕ) × (whole value ≡ some (pos n)) × (n ≤ 0xffffffff) × (b ≡ le_bytes 4 n)
unfolding u32le to_big_int
u32le_ok value b h = ranged (whole value) _ uint32_range (le_bytes 4) b h

pub i64le_ok :
    (value : Numeric) (b : Bytes)
    → i64le value ≡ ok b
    → (n : ℕ) × (whole value ≡ some (pos n)) × (n ≤ 0x7fffffffffffffff) × (b ≡ le_bytes 8 n)
unfolding i64le to_big_int
i64le_ok value b h = ranged (whole value) _ int64_range (le_bytes 8) b h

-- What the encoder writes for a BigInt, a Number or a decimal text is read back as its value, and the
-- bytes behind it are left.
pub read_compact_size-encode_compact_size :
    (value : Numeric) (b rest : Bytes)
    → encode_compact_size value ≡ ok b
    → (n : ℕ) × (whole value ≡ some (pos n)) × (read_compact_size (b ++ rest) ≡ ok (n, rest))
read_compact_size-encode_compact_size value b rest h =
    let (n, is_n, fits, written) = encode_compact_size_ok value b h in
    (n, is_n, rw written (read_compact_size-append n rest (omega arith)))

-- What the decoder accepts is exactly what the encoder writes for the number that it gives: every
-- other encoding of a number is refused.
pub encode_compact_size-read_compact_size :
    (n : ℕ) (s rest : Bytes)
    → IsBytes s
    → read_compact_size s ≡ ok (n, rest)
    → (b : Bytes) × (encode_compact_size (bigint (pos n)) ≡ ok b) × (s ≡ b ++ rest)
unfolding encode_compact_size to_big_int whole
encode_compact_size-read_compact_size n s rest h e =
    let (cut, fits, _) = read_compact_size_cuts n s rest h e in (compact_size n, ground arith, cut)
