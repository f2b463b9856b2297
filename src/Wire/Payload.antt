-- ===== src/Wire/Payload.antt =====
-- The extra payload of scripts/pqwallet/pqtxtx.js: `buildPayload` and `parsePayload`.
use organic_web_wallet.Prelude.{
  ℕ, zero, suc, ◌+◌, ◌*◌, ◌%◌, Bool, false, not, ◌&&◌, ◌||◌, List, [], ◌∷◌, ◌++◌, length, take,
  drop, get_or, ltb, ◌==◌, if◌then◌else◌, Result, ok, ◌>>=◌, ◌>>◌, throw_if, Option, invalid_mode,
  data_required, data_refused, data_too_large, public_key_size, signature_size, payload_truncated,
  payload_version, payload_length, payload_data_length,
}
use organic_web_wallet.Prelude.Int.{pos}
use organic_web_wallet.Platform.{Bytes, ByteSource, Numeric, number}
use organic_web_wallet.Address.{pq_public_key_size}
use organic_web_wallet.Wire.Codec.{encode_compact_size, read_compact_size_at}

abbrev pub pq_payload_version : ℕ
pq_payload_version = 1

abbrev pub pq_transfer_mode : ℕ
pq_transfer_mode = 1

abbrev pub pq_stake_mode : ℕ
pq_stake_mode = 2

abbrev pub pq_masternode_mode : ℕ
pq_masternode_mode = 6

abbrev pub pq_max_masternode_data_bytes : ℕ
pq_max_masternode_data_bytes = 12000

-- mldsa.js
abbrev pub pq_signature_size : ℕ
pq_signature_size = 2420

-- A property that may be undefined, hold something that is no `Uint8Array`, or hold bytes.
pub data Field : Type 0 where
  absent foreign : Field
  given : Bytes → Field

-- An input as the caller of `serializeTransfer` gives it; `none` is undefined or null.
pub record Input : Type 0 where
  pub txid : ByteSource
  pub vout : Option Numeric
  pub sequence : Option Numeric
  pub script_sig : Option ByteSource
  pub public_key : Field
  pub signature : Field

pub record Authorization : Type 0 where
  pub public_key : Bytes
  pub signature : Bytes

-- `hex` is the payload's bytes.
pub record Payload : Type 0 where
  pub version : ℕ
  pub mode : ℕ
  pub authorizations : List Authorization
  pub payload_data : Bytes
  pub hex : Bytes

unfoldable pub mode_has_data : ℕ → Bool
mode_has_data mode =
    mode == 3 || (mode == 4 || (mode == 5 || (mode == 6 || (mode == 7 || mode == 8))))

-- `!(x instanceof Uint8Array) || x.length !== size`
unfoldable pub has_size : ℕ → Field → Bool
has_size size (given b) = length b == size
has_size size _ = false

unfoldable pub field_bytes : Field → Bytes
field_bytes (given b) = b
field_bytes _ = []

-- The loop over the inputs.
unfoldable pub build_authorizations : List Input → Result Bytes
unfolding has_size field_bytes
build_authorizations [] = ok []
build_authorizations (i ∷ inputs) = do
  throw_if (not (has_size pq_public_key_size i.public_key)) public_key_size
  throw_if (not (has_size pq_signature_size i.signature)) signature_size
  rest ← build_authorizations inputs
  ok (field_bytes i.public_key ++ (field_bytes i.signature ++ rest))

-- Modes are natural numbers here; the code refuses every other value as it refuses 256.
unfoldable pub build_payload : List Input → ℕ → Bytes → Result Bytes
build_payload inputs mode payload_data = do
  throw_if (ltb 255 mode) invalid_mode
  throw_if (mode_has_data mode && length payload_data == 0) data_required
  throw_if (not (mode_has_data mode) && not (length payload_data == 0)) data_refused
  throw_if (mode == pq_masternode_mode && ltb pq_max_masternode_data_bytes (length payload_data))
      data_too_large
  authorizations ← build_authorizations inputs
  size ← encode_compact_size (number (pos (length payload_data)))
  let header = pq_payload_version ∷ mode ∷ (length inputs % 256) ∷ []
  ok (header ++ (authorizations ++ (if mode_has_data mode then size ++ payload_data else [])))

-- `count` authorizations, sliced off one after the other.
unfoldable pub split_authorizations : ℕ → Bytes → List Authorization
split_authorizations zero s = []
split_authorizations (suc count) s =
    let after_key = drop pq_public_key_size s in
    record { public_key = take pq_public_key_size s; signature = take pq_signature_size after_key }
    ∷ split_authorizations count (drop pq_signature_size after_key)

-- The data behind the authorizations, which end at `end`.
unfoldable pub parse_payload_data : Bytes → ℕ → ℕ → Result Bytes
parse_payload_data bytes mode end =
    if mode_has_data mode
    then (do
      (n, offset) ← read_compact_size_at bytes end
      throw_if (n == 0 || ltb pq_max_masternode_data_bytes n) payload_data_length
      throw_if (not (offset + n == length bytes)) payload_data_length
      ok (drop offset bytes))
    else (throw_if (not (length bytes == end)) payload_length >> ok [])

unfoldable pub parse_payload : Bytes → Result Payload
parse_payload bytes = do
  throw_if (ltb (length bytes) 3) payload_truncated
  let version = get_or bytes 0 0
  throw_if (not (version == pq_payload_version)) payload_version
  let mode = get_or bytes 1 0
  let count = get_or bytes 2 0
  let end = 3 + count * (pq_public_key_size + pq_signature_size)
  throw_if (ltb (length bytes) end) payload_length
  found ← parse_payload_data bytes mode end
  ok (record {
    version = version;
    mode = mode;
    authorizations = split_authorizations count (drop 3 bytes);
    payload_data = found;
    hex = bytes;
  })
