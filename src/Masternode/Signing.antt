-- ===== src/Masternode/Signing.antt =====
-- What a signed registration guarantees.
use organic_web_wallet.Prelude.{◌≡◌, false, some, List, map, true, ok}
use organic_web_wallet.Prelude.Int.{pos}
use organic_web_wallet.Platform.{Bytes, Noble, bytes, hex, number, whole}
use organic_web_wallet.Wire.Lists.{Each}
use organic_web_wallet.Wire.Payload.{Field, absent, given, field_bytes}
use organic_web_wallet.Wire.Serialize.{Output}
use organic_web_wallet.Wire.Parse.{Transaction, parse_transfer}
use organic_web_wallet.Signer.{SignInput}
use organic_web_wallet.Signer.Keys.{MlDsa, pq_verify}
use organic_web_wallet.Signer.Message.{Context, signature_message}
use organic_web_wallet.Signer.Asked.{InputAsked, OutputAsked}
use organic_web_wallet.Masternode.Encoding.{Registration, encode_masternode_registration}
use organic_web_wallet.Masternode.{
  Role, owner, operator, collateral, role_context, RoleKey, RoleProof, FeeInput,
  RegistrationRequest, is_fee_input, resolved, resolve_prevout,
}
use organic_web_wallet.Masternode.Registering.{SignedRegistration}

-- The proof is one of the role's key on the message, in the role's context.
pub record IsProof (ml : MlDsa) (message : Bytes) (role : Role) (pair : RoleKey) (p : RoleProof)
    : Type 0 where
  pub same_role : p.role ≡ role
  pub same_key : p.public_key ≡ field_bytes pair.public_key
  pub verifies : pq_verify ml p.signature message p.public_key (role_context role) ≡ true

-- The registration that the request describes, with three signatures
abbrev pub registration_of : RegistrationRequest → Field → Field → Field → Registration
registration_of r by_owner by_operator by_collateral = record {
  collateral = record { txid = r.collateral.txid; vout = number (pos r.collateral.vout) };
  owner_public_key = r.owner.public_key;
  operator_public_key = r.operator.public_key;
  collateral_public_key = r.collateral.key.public_key;
  payout_address = r.payout_address;
  operator_payout_address = r.operator_payout_address;
  operator_reward = r.operator_reward;
  service = r.service;
  owner_signature = by_owner;
  operator_signature = by_operator;
  collateral_signature = by_collateral;
}

-- A fee input, as the signer takes it
abbrev pub fee_input : FeeInput → SignInput
fee_input i = record {
  outpoint = record { txid = hex i.txid; vout = some (number (pos i.vout)); sequence = i.sequence };
  prevout = i.prevout;
  public_key = i.public_key;
  secret_key = i.secret_key;
}

-- The request's transaction with the given data: what the role keys sign of it
abbrev pub shared_context : RegistrationRequest → List Output → List Output → Bytes → Context
shared_context r prevouts outputs payload_data = record {
  draft = record {
    inputs = map (λ i. (fee_input i).outpoint) r.fee_inputs;
    outputs = outputs;
    locktime = some r.locktime;
  };
  prevouts = prevouts;
  public_keys = map (λ i. i.public_key) r.fee_inputs;
  genesis_display = r.genesis_display;
  mode = 6;
  payload_data = payload_data;
}

-- The transaction, as it is read from its bytes, spends the fee inputs, none of which is the collateral,
-- has the request's outputs, and carries the registration with the three signatures, each of which is
-- one of the role's key, in the role's own context, on the message of the transaction with the
-- registration without signatures.
pub record RegistrationIsSafe (noble : Noble) (ml : MlDsa) (r : RegistrationRequest)
    (s : SignedRegistration) : Type 0 where
  pub unsigned_data : Bytes
  pub prevouts : List Output
  pub outputs : List Output
  pub tx : Transaction
  pub collateral_kept : is_fee_input r.collateral r.fee_inputs ≡ false
  pub encoded :
      encode_masternode_registration noble (registration_of r absent absent absent) r.network
      ≡ ok unsigned_data
  pub prevouts_resolved : Each (λ i q. resolve_prevout r.network i ≡ ok q) r.fee_inputs prevouts
  pub outputs_resolved : Each (λ o q. resolved r.network o ≡ ok q) r.outputs outputs
  pub is_message :
      signature_message noble (shared_context r prevouts outputs unsigned_data) 0
      ≡ ok s.role_message
  pub owner_agrees : IsProof ml s.role_message owner r.owner s.owner_proof
  pub operator_agrees : IsProof ml s.role_message operator r.operator s.operator_proof
  pub collateral_agrees : IsProof ml s.role_message collateral r.collateral.key s.collateral_proof
  pub signed_encoded :
      encode_masternode_registration noble
        (registration_of r
          (given s.owner_proof.signature)
          (given s.operator_proof.signature)
          (given s.collateral_proof.signature))
        r.network
      ≡ ok s.signed_data
  pub parses : parse_transfer noble (bytes s.signed.raw) ≡ ok tx
  pub mode : tx.payload.mode ≡ 6
  pub carries : tx.payload.payload_data ≡ s.signed_data
  pub inputs : Each (λ i p. InputAsked noble (fee_input i) p) r.fee_inputs tx.inputs
  pub pays : Each (OutputAsked noble r.network) r.outputs tx.outputs
  pub locktime : whole r.locktime ≡ some (pos tx.locktime)
