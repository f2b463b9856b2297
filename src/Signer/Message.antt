-- ===== src/Signer/Message.antt =====
-- `signatureMessage` of scripts/pqwallet/pqsigner.js: the bytes that the key of an input signs.
use mathlib.Core.List.{flatten}
use organic_web_wallet.Prelude.{
  ℕ, ◌%◌, not, ◌&&◌, ◌||◌, Option, none, List, [], ◌∷◌, ◌++◌, length, reverse, ltb, leb, ◌==◌,
  if◌then◌else◌, Result, ok, ◌>>=◌, ◌>>◌, throw_if, require, map_result, input_count,
  authorization_count_mismatch, invalid_mode, data_required, data_refused, txid_length,
  public_key_size, bad_hex, prevout_count, input_index, genesis_length,
}
use organic_web_wallet.Prelude.Int.{pos}
use organic_web_wallet.Platform.{Bytes, Text, Noble, ByteSource, source_bytes, Numeric, number}
use organic_web_wallet.Address.{pq_public_key_size}
use organic_web_wallet.Wire.Codec.{encode_compact_size, u32le, i16le}
use organic_web_wallet.Wire.Payload.{
  Field, has_size, field_bytes, mode_has_data, pq_payload_version,
}
use organic_web_wallet.Wire.Serialize.{
  Output, serialize_tx_out, or_default, pq_tx_version, pq_tx_type, pq_max_inputs,
}

-- What an input spends, as the signed message says it.
pub record Outpoint : Type 0 where
  pub txid : ByteSource
  pub vout : Option Numeric
  pub sequence : Option Numeric

pub record Draft : Type 0 where
  pub inputs : List Outpoint
  pub outputs : List Output
  pub locktime : Option Numeric

unfoldable pub message_input : Noble → Outpoint × Output → Result Bytes
message_input noble (i, prevout) = do
  txid ← source_bytes noble i.txid
  throw_if (not (length txid == 32)) txid_length
  vout ← u32le (or_default i.vout 0)
  sequence ← u32le (or_default i.sequence 0xffffffff)
  spent ← serialize_tx_out noble none prevout
  ok (reverse txid ++ (vout ++ (sequence ++ spent)))

unfoldable pub message_key : Field → Result Bytes
message_key key = do
  throw_if (not (has_size pq_public_key_size key)) public_key_size
  ok (field_bytes key)

-- Two lists side by side, here always of one length.
unfoldable pub zip {ℓ κ} : {A : Type ℓ} {B : Type κ} → List A → List B → List (A × B)
zip (x ∷ xs) (y ∷ ys) = (x, y) ∷ zip xs ys
zip _ _ = []

-- What is the same for all inputs of one transaction.
pub record Context : Type 0 where
  pub draft : Draft
  pub prevouts : List Output
  pub public_keys : List Field
  pub genesis_display : Text
  pub mode : ℕ
  pub payload_data : Bytes

unfoldable pub message_data : ℕ → Bytes → Result Bytes
message_data mode payload_data =
    if mode_has_data mode
    then (encode_compact_size (number (pos (length payload_data))) >>= λ size.
        ok (size ++ payload_data))
    else ok []

unfoldable pub signature_message : Noble → Context → ℕ → Result Bytes
signature_message noble c input = do
  throw_if (ltb (length c.draft.inputs) 1 || ltb pq_max_inputs (length c.draft.inputs)) input_count
  throw_if (not (length c.prevouts == length c.draft.inputs)) prevout_count
  throw_if (not (length c.public_keys == length c.draft.inputs)) authorization_count_mismatch
  throw_if (leb (length c.draft.inputs) input) input_index
  throw_if (ltb 255 c.mode) invalid_mode
  throw_if (mode_has_data c.mode && length c.payload_data == 0) data_required
  throw_if (not (mode_has_data c.mode) && not (length c.payload_data == 0)) data_refused
  genesis ← require (noble.hex_to_bytes c.genesis_display) bad_hex
  throw_if (not (length genesis == 32)) genesis_length
  version ← i16le (number (pos pq_tx_version))
  kind ← i16le (number (pos pq_tx_type))
  input_size ← encode_compact_size (number (pos (length c.draft.inputs)))
  inputs ← map_result (message_input noble) (zip c.draft.inputs c.prevouts)
  output_size ← encode_compact_size (number (pos (length c.draft.outputs)))
  outputs ← map_result (serialize_tx_out noble none) c.draft.outputs
  locktime ← u32le (or_default c.draft.locktime 0)
  keys ← map_result message_key c.public_keys
  added ← message_data c.mode c.payload_data
  index ← u32le (number (pos input))
  ok (
      reverse genesis
      ++ (version
          ++ (kind
              ++ ((pq_payload_version ∷ c.mode ∷ [])
                  ++ (input_size
                      ++ (flatten inputs
                          ++ (output_size
                              ++ (flatten outputs
                                  ++ (locktime
                                      ++ (((length c.public_keys % 256) ∷ [])
                                          ++ (flatten keys ++ (added ++ index))))))))))))
