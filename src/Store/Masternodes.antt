-- ===== src/Store/Masternodes.antt =====
-- scripts/pqwallet/pqwallet-store.js: the masternode records of the wallet.
use organic_web_wallet.Prelude.{
  ℕ, not, ◌||◌, ◌&&◌, none, some, [], ltb, ◌===◌, Result, ok, err, ◌>>=◌, ◌>>◌, throw_if, require,
  operator_encryption, outpoint_form, wrong_network, foreign_address, payout_address,
  operator_payout_address, operator_reward, record_exists, unknown_record, registration_txid,
  withdrawal_txid, wallet_corrupt,
}
use organic_web_wallet.Platform.{Text, Bytes}
use organic_web_wallet.Address.{Network, is_valid_pq_address, pq_id_from_public_key}
use organic_web_wallet.Vault.{pq_keypair_from_seed}
use organic_web_wallet.Store.Records.{
  MasternodeRecord, Status, Store, Services, Surroundings, put_masternode, get_masternode, has,
}
use organic_web_wallet.Store.Checks.{
  assert_password, assert_network, valid_outpoint, same_network, is_hex_text, is_empty,
}
use organic_web_wallet.Store.Keys.{
  encrypt_or_throw, verify_password, with_decrypted_seed, get_addresses,
}

-- An operator payout address or a service that is not given is the empty text, a reward 0.
pub record Registration : Type 0 where
  pub password : Text
  pub network : Network
  pub owner_address : Text
  pub collateral_address : Text
  pub payout_address : Text
  pub operator_payout_address : Text
  pub operator_reward : ℕ
  pub service : Text
  pub collateral_txid : Text
  pub collateral_vout : ℕ

-- `put` and `add` on the store of masternodes.
unfoldable pub save_masternode : MasternodeRecord → Store → Store
save_masternode r s = record s {
  database = record s.database { masternodes = put_masternode r s.database.masternodes };
}

unfoldable pub add_masternode : MasternodeRecord → Store → Result Store
unfolding save_masternode
add_masternode r s = elim (get_masternode r.id s.database.masternodes) [
  | none ↦ ok (save_masternode r s)
  | some _ ↦ err record_exists
]

unfoldable pub create_masternode_record :
    Services → Surroundings → Registration → Store → Result (MasternodeRecord × Store)
create_masternode_record lib env q s = do
  assert_password q.password
  assert_network q.network
  throw_if (not (valid_outpoint q.collateral_txid q.collateral_vout)) outpoint_form
  meta ← verify_password lib s.database q.password
  throw_if (not (same_network meta.network q.network)) wrong_network
  throw_if
      (not (has (get_addresses s) q.owner_address)
        || not (has (get_addresses s) q.collateral_address))
      foreign_address
  throw_if (not (is_valid_pq_address q.payout_address q.network)) payout_address
  throw_if
      (not (is_empty q.operator_payout_address)
        && not (is_valid_pq_address q.operator_payout_address q.network))
      operator_payout_address
  throw_if (ltb 10000 q.operator_reward) operator_reward
  pair ← pq_keypair_from_seed lib.crypto env.fresh_seed
  id ← pq_id_from_public_key lib.noble pair.public_key q.network
  encrypted ←
      encrypt_or_throw lib.crypto (env.entropy 0) (lib.noble.bytes_to_hex env.fresh_seed) q.password
        operator_encryption
  let made : MasternodeRecord = record {
    id = lib.noble.bytes_to_hex id;
    network = q.network;
    created_at = env.now;
    status = Status.draft;
    owner_address = q.owner_address;
    collateral_address = q.collateral_address;
    payout_address = q.payout_address;
    operator_payout_address = q.operator_payout_address;
    operator_reward = q.operator_reward;
    service = q.service;
    collateral_txid = q.collateral_txid;
    collateral_vout = q.collateral_vout;
    operator_public_key = lib.noble.bytes_to_hex pair.public_key;
    encrypted_operator_seed = encrypted;
    registration_txid = some [];
    withdrawal_txid = none;
  }
  s' ← add_masternode made s
  ok (made, s')

-- The callback is given the seed and the record.
unfoldable pub with_masternode_operator_seed {ℓ} :
    {A : Type ℓ} → Services → Text → Text → (Bytes → MasternodeRecord → Result A) → Store → Result A
with_masternode_operator_seed lib id password callback s = do
  assert_password password
  _ ← verify_password lib s.database password
  r ← require (get_masternode id s.database.masternodes) unknown_record
  with_decrypted_seed lib r.encrypted_operator_seed password λ seed. do
    pair ← pq_keypair_from_seed lib.crypto seed
    throw_if (not (lib.noble.bytes_to_hex pair.public_key === r.operator_public_key)) wallet_corrupt
    callback seed r

unfoldable pub mark_masternode_registered : Text → Text → Store → Result Store
unfolding save_masternode
mark_masternode_registered id txid s = do
  throw_if (not (is_hex_text 64 txid)) registration_txid
  r ← require (get_masternode id s.database.masternodes) unknown_record
  ok (save_masternode (record r { status = Status.registered; registration_txid = some txid }) s)

unfoldable pub mark_masternode_collateral_withdrawn : Text → Text → Store → Result Store
unfolding save_masternode
mark_masternode_collateral_withdrawn id txid s = do
  throw_if (not (is_hex_text 64 txid)) withdrawal_txid
  r ← require (get_masternode id s.database.masternodes) unknown_record
  ok (save_masternode (record r { status = Status.withdrawn; withdrawal_txid = some txid }) s)
