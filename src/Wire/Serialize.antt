-- ===== src/Wire/Serialize.antt =====
-- The writing half of scripts/pqwallet/pqtxtx.js.
use mathlib.Core.List.{flatten}
use organic_web_wallet.Prelude.{
  ℕ, Bool, true, false, not, ◌||◌, Option, none, some, List, [], ◌∷◌, ◌++◌, length, reverse, ltb,
  ◌==◌, ◌===◌, if◌then◌else◌, Result, ok, err, ◌>>=◌, ◌>>◌, throw_if, map_result, missing_network,
  missing_script, txid_length, authorization_count_mismatch, payload_key_mismatch,
  payload_signature_mismatch, input_count, output_count,
}
use organic_web_wallet.Prelude.Int.{pos}
use organic_web_wallet.Platform.{Bytes, Text, Noble, ByteSource, source_bytes, Numeric, number}
use organic_web_wallet.Address.{Network, pq_script_from_address}
use organic_web_wallet.Wire.Codec.{encode_compact_size, u32le, i16le, i64le}
use organic_web_wallet.Wire.Payload.{
  Input, Field, absent, foreign, given, Authorization, build_payload, parse_payload, pq_stake_mode,
}

abbrev pub pq_tx_version : ℕ
pq_tx_version = 3

abbrev pub pq_tx_type : ℕ
pq_tx_type = 8

abbrev pub pq_max_inputs : ℕ
pq_max_inputs = 2

abbrev pub pq_max_outputs : ℕ
pq_max_outputs = 2

-- An output as the caller gives it: a script, or an address to make one of.
pub record Output : Type 0 where
  pub value : Numeric
  pub script : Option ByteSource
  pub address : Option Text

-- An empty address counts as none.
unfoldable pub address_script : Option Text → Option Network → Result Bytes
address_script (some (c ∷ cs)) (some network) = pq_script_from_address (c ∷ cs) network
address_script (some (c ∷ cs)) none = err missing_network
address_script _ _ = err missing_script

unfoldable pub script_bytes : Noble → Output → Option Network → Result Bytes
unfolding address_script
script_bytes noble output network = elim output.script [
  | some script ↦ source_bytes noble script
  | none ↦ address_script output.address network
]

unfoldable pub serialize_tx_out : Noble → Option Network → Output → Result Bytes
serialize_tx_out noble network output = do
  script ← script_bytes noble output network
  value ← i64le output.value
  size ← encode_compact_size (number (pos (length script)))
  ok (value ++ (size ++ script))

-- `x ?? fallback`
abbrev pub or_default : Option Numeric → ℕ → Numeric
or_default (some value) fallback = value
or_default none fallback = number (pos fallback)

unfoldable pub script_sig_bytes : Noble → Option ByteSource → Result Bytes
script_sig_bytes noble (some script) = source_bytes noble script
script_sig_bytes noble none = ok []

unfoldable pub serialize_tx_in : Noble → Input → Result Bytes
serialize_tx_in noble input = do
  txid ← source_bytes noble input.txid
  throw_if (not (length txid == 32)) txid_length
  script_sig ← script_sig_bytes noble input.script_sig
  vout ← u32le (or_default input.vout 0)
  size ← encode_compact_size (number (pos (length script_sig)))
  sequence ← u32le (or_default input.sequence 0xffffffff)
  ok (reverse txid ++ (vout ++ (size ++ (script_sig ++ sequence))))

-- `field !== undefined && (!(field instanceof Uint8Array) || hex differs)`
unfoldable pub differs : Noble → Field → Bytes → Bool
differs noble absent expected = false
differs noble foreign expected = true
differs noble (given b) expected = not (noble.bytes_to_hex b === noble.bytes_to_hex expected)

-- The `forEach` over the inputs and their authorizations, which are as many.
unfoldable pub match_authorizations : Noble → List Input → List Authorization → Result (Unit {0})
unfolding differs
match_authorizations noble (i ∷ inputs) (a ∷ authorizations) = do
  throw_if (differs noble i.public_key a.public_key) payload_key_mismatch
  throw_if (differs noble i.signature a.signature) payload_signature_mismatch
  match_authorizations noble inputs authorizations
match_authorizations noble _ _ = ok tt

is_present : Field → Bool
is_present absent = false
is_present _ = true

-- `inputs.some(…)`
unfoldable pub carries_authorizations : List Input → Bool
unfolding is_present
carries_authorizations [] = false
carries_authorizations (i ∷ inputs) =
    is_present i.public_key || (is_present i.signature || carries_authorizations inputs)

unfoldable pub assert_payload_matches_inputs : Noble → Bytes → List Input → Result (Unit {0})
assert_payload_matches_inputs noble payload_bytes inputs =
    if not (carries_authorizations inputs) then ok tt else do
      payload ← parse_payload payload_bytes
      throw_if (not (length payload.authorizations == length inputs)) authorization_count_mismatch
      match_authorizations noble inputs payload.authorizations

-- The argument of `serializeTransfer`. An explicit payload is its bytes, its hex, or a parsed payload,
-- of which only the bytes are used.
pub record Request : Type 0 where
  pub inputs : List Input
  pub outputs : List Output
  pub locktime : Numeric
  pub payload : Option ByteSource
  pub mode : ℕ
  pub payload_data : Bytes
  pub network : Option Network

unfoldable pub resolve_payload : Noble → Request → Result Bytes
resolve_payload noble r = elim r.payload [
  | none ↦ build_payload r.inputs r.mode r.payload_data
  | some source ↦ source_bytes noble source >>= λ b.
      (assert_payload_matches_inputs noble b r.inputs >>= λ _. ok b)
]

-- The bytes between the payload check and the payload.
unfoldable pub serialize_transfer : Noble → Request → Result Bytes
serialize_transfer noble r = do
  throw_if (ltb (length r.inputs) 1 || ltb pq_max_inputs (length r.inputs)) input_count
  throw_if
      (ltb (length r.outputs) 1
        || ltb (if r.mode == pq_stake_mode then 3 else pq_max_outputs) (length r.outputs))
      output_count
  payload ← resolve_payload noble r
  version ← i16le (number (pos pq_tx_version))
  kind ← i16le (number (pos pq_tx_type))
  input_size ← encode_compact_size (number (pos (length r.inputs)))
  inputs ← map_result (serialize_tx_in noble) r.inputs
  output_size ← encode_compact_size (number (pos (length r.outputs)))
  outputs ← map_result (serialize_tx_out noble r.network) r.outputs
  locktime ← u32le r.locktime
  payload_size ← encode_compact_size (number (pos (length payload)))
  ok (
      version
      ++ (kind
          ++ (input_size
              ++ (flatten inputs
                  ++ (output_size
                      ++ (flatten outputs
                          ++ (locktime ++ ((0x00 ∷ 0x01 ∷ []) ++ (payload_size ++ payload)))))))))
