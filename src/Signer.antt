-- ===== src/Signer.antt =====
-- scripts/pqwallet/pqsigner.js: the signing of a transaction.
pub mod Keys
pub mod Message
pub mod Asked
pub mod Verified
pub mod Binding
pub mod Examples
use organic_web_wallet.Prelude.{
  ℕ, ◌+◌, not, ◌||◌, Option, none, some, List, [], ◌∷◌, map, length, drop, ltb, ◌==◌, ◌===◌,
  if◌then◌else◌, Result, ok, ◌>>=◌, ◌>>◌, throw_if, require, map_result, input_count, output_count,
  public_key_size, missing_secret_key, missing_prevout, prevout_script, prevout_key_mismatch,
  signature_failed, unsupported_network,
}
use organic_web_wallet.Platform.{Bytes, Text, Noble, bytes, Numeric, units}
use organic_web_wallet.Address.{
  Network, testnet, regtest, unknown, pq_script_size, pq_public_key_size, has_pq_prefix,
  pq_id_from_public_key,
}
use organic_web_wallet.Wire.Payload.{
  Field, given, Input, has_size, field_bytes, pq_stake_mode, pq_transfer_mode,
}
use organic_web_wallet.Wire.Serialize.{
  Output, Request, script_bytes, serialize_tx_out, serialize_transfer, pq_max_inputs,
  pq_max_outputs,
}
use organic_web_wallet.Wire.Parse.{txid_of}
use organic_web_wallet.Signer.Keys.{MlDsa, pq_sign, pq_verify}
use organic_web_wallet.Signer.Message.{Outpoint, Context, zip, signature_message}

abbrev pub pq_tx_domain : Network → Option Text
pq_tx_domain testnet = some (units "OLC/PQ/ML-DSA-44/testnet/tx/v1")
pq_tx_domain regtest = some (units "OLC/PQ/ML-DSA-44/regtest/tx/v1")
pq_tx_domain unknown = none

-- `none` is a missing prevout.
pub record SignInput : Type 0 where
  pub outpoint : Outpoint
  pub prevout : Option Output
  pub public_key : Field
  pub secret_key : Field

-- An input that has passed the first checks.
pub record Ready : Type 0 where
  pub outpoint : Outpoint
  pub prevout : Output
  pub public_key : Bytes
  pub secret_key : Bytes

unfoldable pub held : Field → Option Bytes
held (given b) = some b
held _ = none

unfoldable pub check_input : SignInput → Result Ready
check_input i = do
  throw_if (not (has_size pq_public_key_size i.public_key)) public_key_size
  secret_key ← require (held i.secret_key) missing_secret_key
  prevout ← require i.prevout missing_prevout
  ok (record {
    outpoint = i.outpoint;
    prevout = prevout;
    public_key = field_bytes i.public_key;
    secret_key = secret_key;
  })

-- `resolveScript` does what `scriptBytes` of pqtxtx.js does where the network is given.
unfoldable pub resolve_script : Noble → Network → Output → Result Bytes
resolve_script noble network output = script_bytes noble output (some network)

abbrev pub scripted : Numeric → Bytes → Output
scripted value script = record { value = value; script = some (bytes script); address = none }

unfoldable pub resolve_output : Noble → Network → Output → Result Output
resolve_output noble network output = do
  script ← resolve_script noble network output
  ok (scripted output.value script)

unfoldable pub assert_prevout_binds_public_key : Noble → Network → Bytes × Bytes → Result (Unit {0})
assert_prevout_binds_public_key noble network (script, public_key) = do
  throw_if (not (length script == pq_script_size) || not (has_pq_prefix script)) prevout_script
  expected ← pq_id_from_public_key noble public_key network
  throw_if (not (noble.bytes_to_hex (drop 3 script) === noble.bytes_to_hex expected))
      prevout_key_mismatch
  ok tt

-- The outputs that the inputs spend, with their scripts resolved.
unfoldable pub spent_outputs : List Ready → List Bytes → List Output
spent_outputs (r ∷ inputs) (script ∷ scripts) =
    scripted r.prevout.value script ∷ spent_outputs inputs scripts
spent_outputs _ _ = []

unfoldable pub sign_input : Noble → MlDsa → Text → Context → ℕ → Ready → Result Input
sign_input noble ml domain c index r = do
  message ← signature_message noble c index
  signature ← pq_sign ml message r.secret_key domain
  throw_if (not (pq_verify ml signature message r.public_key domain)) signature_failed
  ok (record {
    txid = r.outpoint.txid;
    vout = r.outpoint.vout;
    sequence = r.outpoint.sequence;
    script_sig = none;
    public_key = given r.public_key;
    signature = given signature;
  })

-- `txInputs.map((input, index) => …)` from `index` on
unfoldable pub sign_inputs : Noble → MlDsa → Text → Context → ℕ → List Ready → Result (List Input)
sign_inputs noble ml domain c index [] = ok []
sign_inputs noble ml domain c index (r ∷ inputs) = do
  signed ← sign_input noble ml domain c index r
  more ← sign_inputs noble ml domain c (index + 1) inputs
  ok (signed ∷ more)

pub record SignRequest : Type 0 where
  pub inputs : List SignInput
  pub outputs : List Output
  pub locktime : Numeric
  pub network : Network
  pub genesis_display : Text
  pub mode : ℕ
  pub payload_data : Bytes

pub record Signed : Type 0 where
  pub raw : Bytes
  pub raw_hex : Text
  pub txid : Text

-- What all the messages of one request share.
unfoldable pub context_of : SignRequest → List Ready → List Output → List Output → Context
context_of r inputs prevouts outputs = record {
  draft = record {
    inputs = map (λ i. i.outpoint) inputs;
    outputs = outputs;
    locktime = some r.locktime;
  };
  prevouts = prevouts;
  public_keys = map (λ i. given i.public_key) inputs;
  genesis_display = r.genesis_display;
  mode = r.mode;
  payload_data = r.payload_data;
}

-- The transaction that is serialized.
unfoldable pub transfer_of : SignRequest → List Input → List Output → Request
transfer_of r inputs outputs = record {
  inputs = inputs;
  outputs = outputs;
  locktime = r.locktime;
  payload = none;
  mode = r.mode;
  payload_data = r.payload_data;
  network = some r.network;
}

unfoldable pub sign_pq_transaction : Noble → MlDsa → SignRequest → Result Signed
sign_pq_transaction noble ml r = do
  domain ← require (pq_tx_domain r.network) unsupported_network
  throw_if (ltb (length r.inputs) 1 || ltb pq_max_inputs (length r.inputs)) input_count
  throw_if
      (ltb (length r.outputs) 1
        || ltb (if r.mode == pq_stake_mode then 3 else pq_max_outputs) (length r.outputs))
      output_count
  _ ← map_result (serialize_tx_out noble (some r.network)) r.outputs
  outputs ← map_result (resolve_output noble r.network) r.outputs
  inputs ← map_result check_input r.inputs
  scripts ← map_result (λ i. resolve_script noble r.network i.prevout) inputs
  _ ←
      map_result (assert_prevout_binds_public_key noble r.network)
        (zip scripts (map (λ i. i.public_key) inputs))
  let context = context_of r inputs (spent_outputs inputs scripts) outputs
  signed ← sign_inputs noble ml domain context 0 inputs
  raw ← serialize_transfer noble (transfer_of r signed outputs)
  txid ← txid_of noble (bytes raw)
  ok (record { raw = raw; raw_hex = noble.bytes_to_hex raw; txid = txid })

unfoldable pub sign_transfer : Noble → MlDsa → SignRequest → Result Signed
sign_transfer noble ml r = sign_pq_transaction noble ml (record r { mode = pq_transfer_mode })
