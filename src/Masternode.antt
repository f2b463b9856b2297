-- ===== src/Masternode.antt =====
-- scripts/pqwallet/pqmasternode.js: keys, collaterals, fee inputs and the signature of a role.
pub mod Registering
pub mod Withdrawing
pub mod FeeCoins
pub mod FeeSelection
pub mod Service
pub mod Encoding
pub mod Size
pub mod Signing
pub mod Withdrawn
mod Examples
pub mod WithdrawalExamples
mod SigningExamples
use organic_web_wallet.Prelude.{
  ℕ, ◌*◌, Bool, false, not, ◌&&◌, ◌||◌, Option, none, some, List, [], ◌∷◌, ◌==◌, ◌===◌, Result, ok,
  ◌>>=◌, ◌>>◌, throw_if, require, public_key_size, address_case, key_unavailable, key_owner,
  missing_prevout, role_key,
}
use organic_web_wallet.Prelude.Int.{pos}
use organic_web_wallet.Platform.{Bytes, Text, Noble, bytes, Numeric, bigint, units}
use organic_web_wallet.Address.{
  Network, pq_public_key_size, pq_id_from_address, pq_id_from_public_key, pq_script_from_address,
}
use organic_web_wallet.Wire.Payload.{Field, has_size, field_bytes}
use organic_web_wallet.Wire.Serialize.{Output}
use organic_web_wallet.Signer.{held}
use organic_web_wallet.Signer.Keys.{MlDsa, pq_sign, pq_verify}

-- 4000 OLC
abbrev pub pq_masternode_collateral_sats : ℕ
pq_masternode_collateral_sats = 4000 * 100000000

pub data Role : Type 0 where
  owner operator collateral : Role

abbrev pub role_context : Role → Text
role_context owner = units "OLC/PQ/ML-DSA-44/masternode/owner/v1"
role_context operator = units "OLC/PQ/ML-DSA-44/masternode/operator/v1"
role_context collateral = units "OLC/PQ/ML-DSA-44/masternode/collateral/v1"

-- A key of a role, with the address that it is said to own (an operator has none).
pub record RoleKey : Type 0 where
  pub public_key : Field
  pub secret_key : Field
  pub address : Text

-- A collateral's outpoint, value and key.
pub record CollateralCoin : Type 0 where
  pub txid : Text
  pub vout : ℕ
  pub value_sats : Numeric
  pub key : RoleKey

pub record FeeInput : Type 0 where
  pub txid : Text
  pub vout : ℕ
  pub sequence : Option Numeric
  pub prevout : Option Output
  pub public_key : Field
  pub secret_key : Field

-- `valueSats !== PQ_MASTERNODE_COLLATERAL_SATS`: only the BigInt is the same.
unfoldable pub is_collateral_value : Numeric → Bool
is_collateral_value (bigint (pos n)) = n == pq_masternode_collateral_sats
is_collateral_value _ = false

unfoldable pub assert_key_owns_address : Noble → RoleKey → Network → Result (Unit {0})
assert_key_owns_address noble pair network = do
  throw_if (not (has_size pq_public_key_size pair.public_key)) public_key_size
  _ ← require (held pair.secret_key) key_unavailable
  expected ← pq_id_from_public_key noble (field_bytes pair.public_key) network
  actual ← pq_id_from_address pair.address network
  throw_if (not (expected === actual)) key_owner
  ok tt

unfoldable pub is_fee_input : CollateralCoin → List FeeInput → Bool
is_fee_input c [] = false
is_fee_input c (i ∷ inputs) = i.txid === c.txid && i.vout == c.vout || is_fee_input c inputs

-- `output.script ?? pqScriptFromAddress(output.address, network)`
unfoldable pub resolved : Network → Output → Result Output
resolved network o = elim o.script [
  | some script ↦ ok (record o { address = none })
  | none ↦ do
    address ← require o.address address_case
    script ← pq_script_from_address address network
    ok (record { value = o.value; script = some (bytes script); address = none })
]

unfoldable pub resolve_prevout : Network → FeeInput → Result Output
resolve_prevout network i = do prevout ← require i.prevout missing_prevout; resolved network prevout

pub record RegistrationRequest : Type 0 where
  pub fee_inputs : List FeeInput
  pub outputs : List Output
  pub collateral : CollateralCoin
  pub owner : RoleKey
  pub operator : RoleKey
  pub payout_address : Text
  pub operator_payout_address : Option Text
  pub operator_reward : Option Numeric
  pub service : Option Text
  pub network : Network
  pub genesis_display : Text
  pub locktime : Numeric

pub record RoleProof : Type 0 where
  pub role : Role
  pub public_key : Bytes
  pub signature : Bytes

unfoldable pub sign_role : MlDsa → Bytes → Role → RoleKey → Result RoleProof
sign_role ml message role pair = do
  secret_key ← require (held pair.secret_key) key_unavailable
  signature ← pq_sign ml message secret_key (role_context role)
  throw_if (not (pq_verify ml signature message (field_bytes pair.public_key) (role_context role)))
      role_key
  ok (record { role = role; public_key = field_bytes pair.public_key; signature = signature })
