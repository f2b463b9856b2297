-- ===== src/Staking/Previous.antt =====
-- `bytes` and `previousOutput` of scripts/pqwallet/pqstaking.js: the output that a stake spends, read
-- from the bytes of the transaction that made it.
use organic_web_wallet.Prelude.{
  ℕ, zero, suc, ◌*◌, ◌%◌, Bool, true, not, ◌&&◌, ◌||◌, [], ◌∷◌, length, take, drop, ltb, leb, ◌==◌,
  if◌then◌else◌, Result, ok, err, ◌>>=◌, ◌>>◌, throw_if, require, bad_hex, template_bytes,
  previous_truncated, previous_oversized, previous_version, previous_inputs, previous_index,
}
use organic_web_wallet.Prelude.Int.{ℤ}
use organic_web_wallet.Platform.{Bytes, Text, Noble, is_digit}
use organic_web_wallet.Wire.Codec.{le_value, signed, read_compact_size}

abbrev pub max_block_bytes : ℕ
max_block_bytes = 2000000

abbrev is_hex_digit : ℕ → Bool
is_hex_digit c = is_digit c || (leb b'a' c && leb c b'f' || leb b'A' c && leb c b'F')

unfoldable pub all_hex : Text → Bool
all_hex [] = true
all_hex (c ∷ cs) = is_hex_digit c && all_hex cs

-- A value that is not a text is refused as the empty one is.
unfoldable pub hex_bytes : Noble → Text → ℕ → Result Bytes
hex_bytes noble hex maximum = do
  throw_if
      (length hex == 0
        || (ltb (maximum * 2) (length hex) || (not (length hex % 2 == 0) || not (all_hex hex))))
      template_bytes
  require (noble.hex_to_bytes hex) bad_hex

unfoldable pub take_bytes : ℕ → Bytes → Result (Bytes × Bytes)
take_bytes n s = if ltb (length s) n then err previous_truncated else ok (take n s, drop n s)

unfoldable pub count : ℕ → Bytes → Result (ℕ × Bytes)
count maximum s = do
  (n, rest) ← read_compact_size s
  throw_if (ltb maximum n) previous_oversized
  ok (n, rest)

unfoldable pub skip_inputs : ℕ → Bytes → Result Bytes
skip_inputs zero s = ok s
skip_inputs (suc inputs) s = do
  (_, s1) ← take_bytes 36 s
  (n, s2) ← count 10000 s1
  (_, s3) ← take_bytes n s2
  (_, s4) ← take_bytes 4 s3
  skip_inputs inputs s4

pub record Prevout : Type 0 where
  pub value : ℤ
  pub script : Bytes

unfoldable pub take_output : Bytes → Result (Prevout × Bytes)
take_output s = do
  (value, s1) ← take_bytes 8 s
  (n, s2) ← count 10000 s1
  (script, s3) ← take_bytes n s2
  ok (record { value = signed 64 (le_value value); script = script }, s3)

-- The output at an index, from the first one on; the index is checked against the count before.
unfoldable pub nth_output : ℕ → Bytes → Result Prevout
nth_output zero s = do (found, _) ← take_output s; ok found
nth_output (suc i) s = do (_, rest) ← take_output s; nth_output i rest

-- The version is the first 16 of its 32 bits.
unfoldable pub previous_output : Bytes → ℕ → Result Prevout
previous_output raw vout = do
  (version, s1) ← take_bytes 4 raw
  let number = le_value (take 2 version)
  throw_if (ltb number 1 || ltb 3 number) previous_version
  (inputs, s2) ← count 256 s1
  throw_if (inputs == 0) previous_inputs
  s3 ← skip_inputs inputs s2
  (outputs, s4) ← count 256 s3
  throw_if (leb outputs vout) previous_index
  nth_output vout s4
