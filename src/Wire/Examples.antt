-- ===== src/Wire/Examples.antt =====
-- Runs of the wire format of scripts/pqwallet/pqtxtx.js, with a concrete hash and hex library.
use mathlib.Core.List.{flatten}
use organic_web_wallet.Prelude.{
  ℕ, ◌≡◌, refl, none, some, [], ◌∷◌, ◌++◌, replicate, All-append, All-replicate, arith, ok, err,
  map_result, non_canonical_compact_size,
}
use organic_web_wallet.Prelude.Int.{pos}
use organic_web_wallet.Platform.{
  Bytes, IsByte, IsBytes, bigint, number, text, units, whole, bytes, source_bytes,
}
use organic_web_wallet.Platform.Hex.{plain_noble, plain_noble_laws}
use organic_web_wallet.Wire.Codec.{
  le_bytes, le_value, signed, to_big_int, compact_size, encode_compact_size, u32le, i64le, i16le,
  read, read_u8, read_le, read_i16, read_i64, read_long, read_compact_size, read_count,
  read_compact_size_at,
}
use organic_web_wallet.Wire.CompactSize.{
  read_compact_size-encode_compact_size, encode_compact_size-read_compact_size,
}
use organic_web_wallet.Wire.Payload.{
  Input, Payload, given, mode_has_data, has_size, field_bytes, build_authorizations, build_payload,
  split_authorizations, parse_payload_data, parse_payload,
}
use organic_web_wallet.Wire.PayloadTrip.{PayloadIs, parse_payload-build_payload}
use organic_web_wallet.Wire.Serialize.{
  Request, script_bytes, script_sig_bytes, serialize_tx_in, serialize_tx_out, resolve_payload,
  serialize_transfer,
}
use organic_web_wallet.Wire.Parse.{
  Transaction, read_tx_in, read_tx_out, read_many, includes, attach, read_tail, parse_bytes,
  parse_pq_transaction,
}
use organic_web_wallet.Wire.Items.{request_of}
use organic_web_wallet.Wire.Canonical.{parse_pq_transaction-canonical}
use organic_web_wallet.Wire.RoundTrip.{parse_pq_transaction-serialize_transfer}
use organic_web_wallet.Wire.Written.{TransactionIs}

-- 515 is written in three bytes, and not accepted in five.
read_compact_size-encode_compact_size_example :
    (n : ℕ) × (whole (text (units "515")) ≡ some (pos n))
    × (read_compact_size ((0xfd ∷ 0x03 ∷ 0x02 ∷ []) ++ (7 ∷ [])) ≡ ok (n, 7 ∷ []))
unfolding encode_compact_size to_big_int compact_size le_bytes whole
read_compact_size-encode_compact_size_example =
    read_compact_size-encode_compact_size (text (units "515")) (0xfd ∷ 0x03 ∷ 0x02 ∷ []) (7 ∷ [])
      refl

encode_compact_size-read_compact_size_example :
    (b : Bytes) × (encode_compact_size (bigint (pos 515)) ≡ ok b)
    × (0xfd ∷ 0x03 ∷ 0x02 ∷ 7 ∷ [] ≡ b ++ (7 ∷ []))
unfolding read_compact_size read_u8 read_long read_le read le_value
encode_compact_size-read_compact_size_example =
    encode_compact_size-read_compact_size 515 (0xfd ∷ 0x03 ∷ 0x02 ∷ 7 ∷ []) (7 ∷ []) (omega arith)
      refl

long_515 : read_compact_size (0xfe ∷ 0x03 ∷ 0x02 ∷ 0 ∷ 0 ∷ []) ≡ err non_canonical_compact_size
unfolding read_compact_size read_u8 read_long read_le read le_value
long_515 = refl

abbrev pub key : Bytes
key = replicate 1312 5

abbrev pub seal : Bytes
seal = replicate 2420 6

abbrev pub spent : Input
spent = record {
  txid = bytes (replicate 32 7);
  vout = some (number (pos 1));
  sequence = none;
  script_sig = none;
  public_key = given key;
  signature = given seal;
}

abbrev pub script : Bytes
script = 0xff ∷ 0x51 ∷ 0x20 ∷ replicate 32 9

abbrev pub payload_bytes : Bytes
payload_bytes = 1 ∷ 1 ∷ 1 ∷ (key ++ seal)

parse_payload-build_payload_example :
    (p : Payload) × (parse_payload payload_bytes ≡ ok p)
    × PayloadIs (spent ∷ []) 1 [] payload_bytes p
unfolding build_payload mode_has_data build_authorizations has_size field_bytes encode_compact_size
    to_big_int whole compact_size
parse_payload-build_payload_example =
    parse_payload-build_payload (spent ∷ []) 1 [] payload_bytes (omega arith) (omega arith) refl

-- One input and one output of 1000 satoshi.
abbrev request : Request
request = record {
  inputs = spent ∷ [];
  outputs = record { value = number (pos 1000); script = some (bytes script); address = none } ∷ [];
  locktime = number (pos 0);
  payload = none;
  mode = 1;
  payload_data = [];
  network = none;
}

abbrev pub header : Bytes
header = 3 ∷ 0 ∷ 8 ∷ 0 ∷ 1 ∷ []

-- The index, the empty script and the sequence of the input; the count, value and size of the output.
abbrev pub middle : Bytes
middle = 1 ∷ 0 ∷ 0 ∷ 0 ∷ 0 ∷ 255 ∷ 255 ∷ 255 ∷ 255 ∷ 1 ∷ 0xe8 ∷ 3 ∷ 0 ∷ 0 ∷ 0 ∷ 0 ∷ 0 ∷ 0 ∷ 35 ∷ []

abbrev pub footer : Bytes
footer = 0 ∷ 0 ∷ 0 ∷ 0 ∷ 0 ∷ 1 ∷ 253 ∷ 151 ∷ 14 ∷ []

abbrev raw : Bytes
raw = header ++ (replicate 32 7 ++ (middle ++ (script ++ (footer ++ payload_bytes))))

request_written : serialize_transfer plain_noble request ≡ ok raw
unfolding serialize_transfer resolve_payload build_payload mode_has_data build_authorizations
    has_size field_bytes encode_compact_size to_big_int whole compact_size i16le u32le i64le
    le_bytes serialize_tx_in serialize_tx_out script_bytes script_sig_bytes source_bytes map_result
    flatten
request_written = refl

parse_pq_transaction-serialize_transfer_example :
    (tx : Transaction) × (parse_pq_transaction plain_noble (bytes raw) (1 ∷ 6 ∷ []) ≡ ok tx)
    × TransactionIs plain_noble request raw tx
unfolding includes
parse_pq_transaction-serialize_transfer_example =
    parse_pq_transaction-serialize_transfer plain_noble request raw (1 ∷ 6 ∷ []) refl (omega arith)
      refl request_written (omega arith)

abbrev parsed : Transaction
parsed = record {
  version = pos 3;
  kind = pos 8;
  inputs =
      record {
        tx_in = record {
          txid = plain_noble.bytes_to_hex (replicate 32 7);
          vout = 1;
          sequence = 0xffffffff;
          script_sig = [];
        };
        public_key = key;
        signature = seal;
      }
      ∷ [];
  outputs =
      record { value = pos 1000; script = script; script_hex = plain_noble.bytes_to_hex script }
      ∷ [];
  locktime = 0;
  payload = record {
    version = 1;
    mode = 1;
    authorizations = record { public_key = key; signature = seal } ∷ [];
    payload_data = [];
    hex = payload_bytes;
  };
  raw = raw;
}

raw_parses : parse_pq_transaction plain_noble (bytes raw) (1 ∷ []) ≡ ok parsed
unfolding parse_pq_transaction source_bytes parse_bytes read_i16 read_le read signed le_value
    read_count read_compact_size read_u8 read_many read_tx_in read_tx_out read_i64 read_tail
    read_long parse_payload read_compact_size_at attach includes mode_has_data parse_payload_data
    split_authorizations
raw_parses = refl

payload-IsBytes : IsBytes payload_bytes
payload-IsBytes = All-append IsByte (1 ∷ 1 ∷ 1 ∷ []) (key ++ seal) (omega arith) (
    All-append IsByte key seal (All-replicate IsByte 1312 5 (omega arith))
      (All-replicate IsByte 2420 6 (omega arith)))

raw-IsBytes : IsBytes raw
raw-IsBytes =
    All-append IsByte header (replicate 32 7 ++ (middle ++ (script ++ (footer ++ payload_bytes))))
      (omega arith)
      (All-append IsByte (replicate 32 7) (middle ++ (script ++ (footer ++ payload_bytes)))
        (omega arith)
        (All-append IsByte middle (script ++ (footer ++ payload_bytes)) (omega arith) (
          All-append IsByte script (footer ++ payload_bytes) (omega arith)
            (All-append IsByte footer payload_bytes (omega arith) payload-IsBytes))))

parse_pq_transaction-canonical_example : serialize_transfer plain_noble (request_of parsed) ≡ ok raw
parse_pq_transaction-canonical_example =
    parse_pq_transaction-canonical plain_noble plain_noble_laws raw (1 ∷ []) parsed raw-IsBytes
      raw_parses ((1000, refl), tt)
