-- ===== src/Prelude/Outcome.antt =====
-- What a function that may throw returns, with the errors that the modelled files throw.
use mathlib.Core.Path.{◌≡◌, refl}
use mathlib.Core.Logic.{◌⊎◌, inl, inr}
use mathlib.Core.Bool.{Bool, true, false}
use mathlib.Core.Option.{Option, none, some}
use mathlib.Core.List.{List, [], ◌∷◌}
use organic_web_wallet.Prelude.Tests.{if◌then◌else◌}

-- One constructor for each error message; the values that a message prints are left out.
pub data Error : Type 0 where
  -- pqtxtx.js
  invalid_integer compact_size_range unexpected_end non_canonical_compact_size : Error
  compact_size_too_large offset_range uint32_range int16_range int64_range : Error
  missing_network missing_script txid_length invalid_mode data_required data_refused : Error
  data_too_large public_key_size signature_size invalid_payload : Error
  authorization_count_mismatch payload_key_mismatch payload_signature_mismatch : Error
  input_count output_count payload_truncated payload_version payload_length : Error
  payload_data_length tx_too_long not_pq_tx sapling_data missing_payload : Error
  trailing_bytes unsupported_mode bad_coinstake : Error
  -- pqaddress.js
  unsupported_network invalid_hrp hrp_case hrp_character data_value bech_too_long : Error
  bech_length bech_character mixed_case separator_index data_character bech_checksum : Error
  from_bits to_bits group_value group_padding id_size address_case address_payload : Error
  id_length non_canonical_address : Error
  -- pqcoinselect.js
  not_whole transfer_shape missing_change_address amount_not_positive amount_dust : Error
  fee_rate_not_positive missing_recipient insufficient_funds negative_value too_many_inputs : Error
  -- mldsa.js and pqsigner.js
  signing_refused prevout_count input_index genesis_length missing_secret_key : Error
  missing_prevout prevout_script prevout_key_mismatch signature_failed : Error
  -- pqstaking.js
  template_bytes previous_truncated previous_oversized previous_version previous_inputs : Error
  previous_index template_stale stake_reserved stake_key previous_hash previous_owner : Error
  header_size header_parent transaction_count block_too_large stake_owner stake_output : Error
  block_signature no_root : Error
  -- pqmasternode.js
  masternode_shape fee_selection fee_funds uint16_range bad_collateral service_form : Error
  service_port service_mainnet_port reward_range payout_required testnet_only : Error
  collateral_value key_unavailable key_owner fee_input_count collateral_as_fee : Error
  role_key withdrawal_fee collateral_key : Error
  -- mempool.js: a read of an output that the transaction does not have
  missing_output : Error
  -- mldsa.js and aes-gcm.js
  seed_size key_sizes : Error
  -- pqwallet-store.js
  password_required password_short key_count bad_phrase wallet_exists not_initialized : Error
  verifier_encryption phrase_encryption seed_encryption operator_encryption : Error
  wrong_password seed_corrupt wallet_corrupt wallet_locked unknown_address : Error
  phrase_unavailable phrase_corrupt backup_version backup_keys backup_key backup_duplicate : Error
  backup_key_mismatch backup_phrase_mismatch backup_masternodes backup_record : Error
  backup_identity backup_lifecycle operator_seed_mismatch outpoint_form wrong_network : Error
  foreign_address payout_address operator_payout_address operator_reward record_exists : Error
  unknown_record registration_txid withdrawal_txid : Error
  -- pqoperator.js
  operator_network operator_seed_size operator_nonce_size wrapping_key_size genesis_form : Error
  encrypted_seed_size config_form config_version config_size config_decryption : Error
  config_key_mismatch : Error
  -- pqnetwork.js
  amount_form amount_decimals explorer_amount : Error
  -- transaction_builder.js
  address_checksum no_outputs no_shield_data bad_base58 : Error
  -- wallet.js and deterministic_masternode.js
  not_enough_balance no_change_delegation below_consensus collateral_outpoint : Error
  inexact_collateral transparent_destination unsafe_withdrawal_fee : Error
  -- the libraries: `hexToBytes` on a text that is not hexadecimal
  bad_hex : Error

pub data Result {ℓ} (A : Type ℓ) : Type ℓ where
  ok : A → Result A
  err : Error → Result A

-- What follows a step runs only where the step did not throw.
infixl 5 ◌>>=◌ ◌>>◌
abbrev pub ◌>>=◌ {ℓ κ} : {X : Type ℓ} {Y : Type κ} → Result X → (X → Result Y) → Result Y
err thrown >>= next = err thrown
ok x >>= next = next x

-- `if (bad) throw new Error(e)`
abbrev pub throw_if : Bool → Error → Result (Unit {0})
throw_if false e = ok tt
throw_if true e = err e

abbrev pub ◌>>◌ {ℓ} : {Y : Type ℓ} → Result (Unit {0}) → Result Y → Result Y
check >> next = check >>= λ _. next

abbrev pub require {ℓ} : {A : Type ℓ} → Option A → Error → Result A
require (some a) e = ok a
require none e = err e

-- `xs.map(f)` where `f` may throw
unfoldable pub map_result {ℓ κ} :
    {A : Type ℓ} {B : Type κ} → (A → Result B) → List A → Result (List B)
map_result f [] = ok []
map_result f (x ∷ xs) = do y ← f x; ys ← map_result f xs; ok (y ∷ ys)

-- To go through a successful run step by step: what a step gave is handed to the rest.
pub bind_inv {ℓ κ μ} :
    {A : Type ℓ} {B : Type κ} {C : Type μ} (m : Result A) {f : A → Result B} {b : B}
    → (m >>= f) ≡ ok b
    → ((a : A) → m ≡ ok a → f a ≡ ok b → C)
    → C
bind_inv (ok a) h rest = rest a refl h
bind_inv (err e) h rest = absurd (cc)

pub throw_inv {ℓ μ} :
    {B : Type ℓ} {C : Type μ} (c : Bool) (e : Error) (k : Result B) {b : B}
    → (throw_if c e >> k) ≡ ok b
    → (c ≡ false → k ≡ ok b → C)
    → C
throw_inv false e k h rest = rest refl h
throw_inv true e k h rest = absurd (cc)

pub if_inv {ℓ μ} :
    {B : Type ℓ} {C : Type μ} (c : Bool) {x y : Result B} {b : B}
    → (if c then x else y) ≡ ok b
    → (c ≡ true → x ≡ ok b → C)
    → (c ≡ false → y ≡ ok b → C)
    → C
if_inv true h taken passed = taken refl h
if_inv false h taken passed = passed refl h

pub Result-cases {ℓ} :
    {A : Type ℓ} (r : Result A) → ((a : A) × (r ≡ ok a)) ⊎ ((e : Error) × (r ≡ err e))
Result-cases (ok a) = inl (a, refl)
Result-cases (err e) = inr (e, refl)

pub ok-injective {ℓ} : {A : Type ℓ} {a b : A} → ok a ≡ ok b → a ≡ b
ok-injective h = cc

pub require_ok {ℓ} :
    {A : Type ℓ} (o : Option A) (e : Error) {a : A} → require o e ≡ ok a → o ≡ some a
require_ok (some a) e h = cc
require_ok none e h = cc

pub ok_some-injective {ℓ} : {A : Type ℓ} {a b : A} → ok (some a) ≡ ok (some b) → a ≡ b
ok_some-injective h = cc

pub ok_none-ne-ok_some {ℓ} : {A : Type ℓ} {a : A} → ok none ≡ ok (some a) → ⊥
ok_none-ne-ok_some h = cc

pub ok-ne-err {ℓ} : {A : Type ℓ} {a : A} {e : Error} → ok a ≡ err e → ⊥
ok-ne-err h = cc
