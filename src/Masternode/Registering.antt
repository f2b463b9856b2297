-- ===== src/Masternode/Registering.antt =====
-- scripts/pqwallet/pqmasternode.js: the registration of a masternode.
use organic_web_wallet.Prelude.{
  ℕ, ◌+◌, Bool, true, false, not, ◌||◌, some, List, [], ◌∷◌, length, map, ltb, Result, ok, ◌>>=◌,
  ◌>>◌, throw_if, require, map_result, public_key_size, testnet_only, collateral_value,
  key_unavailable, fee_input_count, collateral_as_fee,
}
use organic_web_wallet.Prelude.Int.{pos}
use organic_web_wallet.Platform.{Bytes, Noble, hex, bytes, number}
use organic_web_wallet.Address.{Network, testnet, pq_public_key_size}
use organic_web_wallet.Wire.Payload.{Field, absent, given, has_size, pq_masternode_mode}
use organic_web_wallet.Wire.Serialize.{Output}
use organic_web_wallet.Wire.Parse.{SignedIn, parse_transfer}
use organic_web_wallet.Signer.{SignRequest, Signed, held, sign_pq_transaction}
use organic_web_wallet.Signer.Keys.{MlDsa}
use organic_web_wallet.Signer.Message.{Outpoint, Context, signature_message}
use organic_web_wallet.Masternode.Encoding.{Registration, encode_masternode_registration}
use organic_web_wallet.Masternode.{
  resolve_prevout, RegistrationRequest, resolved, RoleProof, assert_key_owns_address, sign_role,
  owner, is_collateral_value, collateral, operator, is_fee_input, FeeInput,
}

-- The registration without its three signatures.
unfoldable pub operation_of : RegistrationRequest → Registration
operation_of r = record {
  collateral = record { txid = r.collateral.txid; vout = number (pos r.collateral.vout) };
  owner_public_key = r.owner.public_key;
  operator_public_key = r.operator.public_key;
  collateral_public_key = r.collateral.key.public_key;
  payout_address = r.payout_address;
  operator_payout_address = r.operator_payout_address;
  operator_reward = r.operator_reward;
  service = r.service;
  owner_signature = absent;
  operator_signature = absent;
  collateral_signature = absent;
}

abbrev outpoint_of : FeeInput → Outpoint
outpoint_of i = record {
  txid = hex i.txid;
  vout = some (number (pos i.vout));
  sequence = i.sequence;
}

-- What the role keys and the fee keys sign, with the data that is given.
unfoldable pub registration_context :
    RegistrationRequest → List Output → List Output → Bytes → Context
registration_context r prevouts outputs payload_data = record {
  draft = record {
    inputs = map outpoint_of r.fee_inputs;
    outputs = outputs;
    locktime = some r.locktime;
  };
  prevouts = prevouts;
  public_keys = map (λ i. i.public_key) r.fee_inputs;
  genesis_display = r.genesis_display;
  mode = pq_masternode_mode;
  payload_data = payload_data;
}

unfoldable pub registration_request : RegistrationRequest → Bytes → SignRequest
registration_request r payload_data = record {
  inputs =
      map
        (λ i. record {
          outpoint = outpoint_of i;
          prevout = i.prevout;
          public_key = i.public_key;
          secret_key = i.secret_key;
        })
        r.fee_inputs;
  outputs = r.outputs;
  locktime = r.locktime;
  network = r.network;
  genesis_display = r.genesis_display;
  mode = pq_masternode_mode;
  payload_data = payload_data;
}

abbrev pub is_testnet : Network → Bool
is_testnet testnet = true
is_testnet _ = false

unfoldable pub check_registration : Noble → RegistrationRequest → Result (Unit {0})
check_registration noble r = do
  throw_if (not (is_testnet r.network)) testnet_only
  throw_if (not (is_collateral_value r.collateral.value_sats)) collateral_value
  _ ← assert_key_owns_address noble r.owner r.network
  _ ← assert_key_owns_address noble r.collateral.key r.network
  throw_if (not (has_size pq_public_key_size r.operator.public_key)) public_key_size
  _ ← require (held r.operator.secret_key) key_unavailable
  throw_if (ltb (length r.fee_inputs) 1 || ltb 2 (length r.fee_inputs)) fee_input_count
  throw_if (is_fee_input r.collateral r.fee_inputs) collateral_as_fee
  ok tt

pub record FeeSignature : Type 0 where
  pub public_key : Field
  pub signature : Bytes
  pub message : Bytes

-- `feeInputs.map((input, index) => …)` from `index` on, over the parsed inputs
unfoldable pub fee_signatures :
    Noble → Context → ℕ → List FeeInput → List SignedIn → Result (List FeeSignature)
fee_signatures noble c index (i ∷ inputs) (p ∷ parsed) = do
  message ← signature_message noble c index
  more ← fee_signatures noble c (index + 1) inputs parsed
  ok (record { public_key = i.public_key; signature = p.signature; message = message } ∷ more)
fee_signatures noble c index _ _ = ok []

pub record SignedRegistration : Type 0 where
  pub signed : Signed
  pub role_message : Bytes
  pub owner_proof : RoleProof
  pub operator_proof : RoleProof
  pub collateral_proof : RoleProof
  pub signed_data : Bytes
  pub fee_signatures : List FeeSignature

unfoldable pub sign_masternode_registration :
    Noble → MlDsa → RegistrationRequest → Result SignedRegistration
sign_masternode_registration noble ml r = do
  _ ← check_registration noble r
  unsigned_data ← encode_masternode_registration noble (operation_of r) r.network
  outputs ← map_result (resolved r.network) r.outputs
  prevouts ← map_result (resolve_prevout r.network) r.fee_inputs
  role_message ← signature_message noble (registration_context r prevouts outputs unsigned_data) 0
  owner_proof ← sign_role ml role_message owner r.owner
  operator_proof ← sign_role ml role_message operator r.operator
  collateral_proof ← sign_role ml role_message collateral r.collateral.key
  signed_data ←
      encode_masternode_registration noble
        (record (operation_of r) {
          owner_signature = given owner_proof.signature;
          operator_signature = given operator_proof.signature;
          collateral_signature = given collateral_proof.signature;
        })
        r.network
  signed ← sign_pq_transaction noble ml (registration_request r signed_data)
  tx ← parse_transfer noble (bytes signed.raw)
  signatures ←
      fee_signatures noble (registration_context r prevouts outputs signed_data) 0 r.fee_inputs
        tx.inputs
  ok (record {
    signed = signed;
    role_message = role_message;
    owner_proof = owner_proof;
    operator_proof = operator_proof;
    collateral_proof = collateral_proof;
    signed_data = signed_data;
    fee_signatures = signatures;
  })
