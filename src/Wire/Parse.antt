-- ===== src/Wire/Parse.antt =====
-- The reading half of scripts/pqwallet/pqtxtx.js.
use organic_web_wallet.Prelude.{
  ℕ, zero, suc, Bool, false, not, ◌&&◌, ◌||◌, List, [], ◌∷◌, length, reverse, ltb, ◌==◌, Result, ok,
  ◌>>=◌, ◌>>◌, throw_if, input_count, output_count, tx_too_long, not_pq_tx, sapling_data,
  missing_payload, trailing_bytes, unsupported_mode, authorization_count_mismatch, bad_coinstake,
}
use organic_web_wallet.Prelude.Int.{ℤ, pos, negsuc}
use organic_web_wallet.Platform.{Bytes, Text, Noble, ByteSource, source_bytes}
use organic_web_wallet.Wire.Codec.{read, read_u8, read_le, read_i16, read_i64, read_count}
use organic_web_wallet.Wire.Payload.{
  Payload, Authorization, parse_payload, pq_transfer_mode, pq_stake_mode, pq_masternode_mode,
}
use organic_web_wallet.Wire.Serialize.{pq_tx_version, pq_tx_type, pq_max_inputs, pq_max_outputs}

abbrev pub pq_max_tx_bytes : ℕ
pq_max_tx_bytes = 24000

pub record TxIn : Type 0 where
  pub txid : Text
  pub vout : ℕ
  pub sequence : ℕ
  pub script_sig : Bytes

pub record TxOut : Type 0 where
  pub value : ℤ
  pub script : Bytes
  pub script_hex : Text

-- An input with the authorization of its position.
pub record SignedIn : Type 0 where
  pub tx_in : TxIn
  pub public_key : Bytes
  pub signature : Bytes

pub record Transaction : Type 0 where
  pub version : ℤ
  pub kind : ℤ
  pub inputs : List SignedIn
  pub outputs : List TxOut
  pub locktime : ℕ
  pub payload : Payload
  pub raw : Bytes

unfoldable pub read_tx_in : Noble → Bytes → Result (TxIn × Bytes)
read_tx_in noble s = do
  (txid, s1) ← read 32 s
  (vout, s2) ← read_le 4 s1
  (size, s3) ← read_count s2
  (script_sig, s4) ← read size s3
  (sequence, s5) ← read_le 4 s4
  ok (
    record {
      txid = noble.bytes_to_hex (reverse txid);
      vout = vout;
      sequence = sequence;
      script_sig = script_sig;
    },
    s5,
  )

unfoldable pub read_tx_out : Noble → Bytes → Result (TxOut × Bytes)
read_tx_out noble s = do
  (value, s1) ← read_i64 s
  (size, s2) ← read_count s1
  (script, s3) ← read size s2
  ok (record { value = value; script = script; script_hex = noble.bytes_to_hex script }, s3)

-- `for (let i = 0; i < count; i += 1) …push(…)`
unfoldable pub read_many {ℓ} :
    {A : Type ℓ} → (Bytes → Result (A × Bytes)) → ℕ → Bytes → Result (List A × Bytes)
read_many item zero s = ok ([], s)
read_many item (suc count) s = do
  (a, s1) ← item s
  (rest, s2) ← read_many item count s1
  ok (a ∷ rest, s2)

unfoldable pub includes : List ℕ → ℕ → Bool
includes [] mode = false
includes (m ∷ modes) mode = m == mode || includes modes mode

-- `inputs.forEach((input, index) => …)`, over as many authorizations
unfoldable pub attach : List TxIn → List Authorization → List SignedIn
attach (i ∷ inputs) (a ∷ authorizations) =
    record { tx_in = i; public_key = a.public_key; signature = a.signature }
    ∷ attach inputs authorizations
attach _ _ = []

abbrev pub is_int : ℤ → ℕ → Bool
is_int (pos n) m = n == m
is_int (negsuc n) m = false

-- The fixed part behind the outputs: lock time, the two flags, and the payload's bytes.
unfoldable pub read_tail : Bytes → Result (ℕ × Bytes)
read_tail s = do
  (locktime, s1) ← read_le 4 s
  (sapling, s2) ← read_u8 s1
  throw_if (not (sapling == 0)) sapling_data
  (has_payload, s3) ← read_u8 s2
  throw_if (not (has_payload == 1)) missing_payload
  (size, s4) ← read_count s3
  (payload_bytes, s5) ← read size s4
  throw_if (not (length s5 == 0)) trailing_bytes
  ok (locktime, payload_bytes)

-- `parsePQTransaction`, of the bytes
unfoldable pub parse_bytes : Noble → Bytes → List ℕ → Result Transaction
parse_bytes noble bytes allowed = do
  throw_if (ltb pq_max_tx_bytes (length bytes)) tx_too_long
  (version, s1) ← read_i16 bytes
  (kind, s2) ← read_i16 s1
  throw_if (not (is_int version pq_tx_version) || not (is_int kind pq_tx_type)) not_pq_tx
  (inputs_count, s3) ← read_count s2
  throw_if (ltb inputs_count 1 || ltb pq_max_inputs inputs_count) input_count
  (inputs, s4) ← read_many (read_tx_in noble) inputs_count s3
  (outputs_count, s5) ← read_count s4
  throw_if (ltb outputs_count 1 || ltb 3 outputs_count) output_count
  (outputs, s6) ← read_many (read_tx_out noble) outputs_count s5
  (locktime, payload_bytes) ← read_tail s6
  payload ← parse_payload payload_bytes
  throw_if (not (includes allowed payload.mode)) unsupported_mode
  throw_if (not (payload.mode == pq_stake_mode) && ltb pq_max_outputs outputs_count) output_count
  throw_if (not (length payload.authorizations == length inputs)) authorization_count_mismatch
  ok (record {
    version = version;
    kind = kind;
    inputs = attach inputs payload.authorizations;
    outputs = outputs;
    locktime = locktime;
    payload = payload;
    raw = bytes;
  })

unfoldable pub parse_pq_transaction : Noble → ByteSource → List ℕ → Result Transaction
parse_pq_transaction noble raw allowed = do
  bytes ← source_bytes noble raw
  parse_bytes noble bytes allowed

unfoldable pub parse_transfer : Noble → ByteSource → Result Transaction
parse_transfer noble raw =
    parse_pq_transaction noble raw (pq_transfer_mode ∷ pq_masternode_mode ∷ [])

coinstake_shape : List SignedIn → List TxOut → Bool
coinstake_shape (i ∷ []) (first ∷ second ∷ rest) =
    is_int first.value 0
    && (length first.script == 0
        && (length i.tx_in.script_sig == 0 && i.tx_in.sequence == 0xffffffff))
coinstake_shape _ _ = false

-- What a coinstake has to look like: one input, a first output that is empty, and no lock.
unfoldable pub is_coinstake : Transaction → Bool
unfolding coinstake_shape
is_coinstake tx = coinstake_shape tx.inputs tx.outputs && tx.locktime == 0

unfoldable pub parse_coinstake : Noble → ByteSource → Result Transaction
parse_coinstake noble raw = do
  tx ← parse_pq_transaction noble raw (pq_stake_mode ∷ [])
  throw_if (not (is_coinstake tx)) bad_coinstake
  ok tx

-- double SHA-256 of the bytes, in display order
unfoldable pub txid_of : Noble → ByteSource → Result Text
txid_of noble raw = do
  bytes ← source_bytes noble raw
  ok (noble.bytes_to_hex (reverse (noble.sha256 (noble.sha256 bytes))))
