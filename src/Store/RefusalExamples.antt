-- ===== src/Store/RefusalExamples.antt =====
-- Masternode records with which the wallet cannot be restored, with concrete libraries.
use organic_web_wallet.Prelude.{◌≡◌, ◌≢◌, refl, false, none, some, [], ◌∷◌, replicate, ok, ◌===◌}
use organic_web_wallet.Platform.{units}
use organic_web_wallet.Platform.Hex.{write_hex, hex_digit}
use organic_web_wallet.Address.{
  testnet, hrp_for_network, pq_id_from_public_key, address_from_id, pq_id_from_address,
  bech32m_encode, bech32m_decode, convert_bits, is_valid_pq_address,
}
use organic_web_wallet.Masternode.Service.{span_digits, read_number, expect, read_part}
use organic_web_wallet.Vault.{
  derive_key, encrypt_data, encrypt, open_sealed, or_false, decrypt_data, decrypt,
  pq_keypair_from_seed,
}
use organic_web_wallet.Store.Records.{
  MasternodeRecord, Status, Store, Backup, put_masternode, get_masternode, insert_by_id,
  sorted_keys, has,
}
use organic_web_wallet.Store.Checks.{
  assert_password, assert_network, valid_encrypted_secret, all_lower_hex, is_hex_text, all_zeros,
  valid_transaction_id, valid_outpoint, read_service, good_endpoint, valid_service, same_network,
}
use organic_web_wallet.Store.Keys.{non_empty_text, encrypt_or_throw, verify_password, get_addresses}
use organic_web_wallet.Store.Wallets.{backup_key_of, exported_mnemonic, export_backup}
use organic_web_wallet.Store.Imports.{import_backup}
use organic_web_wallet.Store.Masternodes.{
  Registration, save_masternode, add_masternode, create_masternode_record,
  mark_masternode_registered,
}
use organic_web_wallet.Store.Services.{plain_services, surroundings, phrase, hidden}
use organic_web_wallet.Store.Steps.{empty_store}
use organic_web_wallet.Store.Refusals.{
  create_masternode_record-unrestorable, mark_masternode_registered-unrestorable,
}
use organic_web_wallet.Store.Examples.{password, seed_hex, own_address, locked}

abbrev registration : Registration
registration = record {
  password = password;
  network = testnet;
  owner_address = own_address;
  collateral_address = own_address;
  payout_address = own_address;
  operator_payout_address = [];
  operator_reward = 0;
  service = units "example.org:8000";
  collateral_txid = replicate 64 b'a';
  collateral_vout = 0;
}

abbrev masternode : MasternodeRecord
masternode = record {
  id = replicate 64 b'0';
  network = testnet;
  created_at = 1000;
  status = Status.draft;
  owner_address = own_address;
  collateral_address = own_address;
  payout_address = own_address;
  operator_payout_address = [];
  operator_reward = 0;
  service = units "example.org:8000";
  collateral_txid = replicate 64 b'a';
  collateral_vout = 0;
  operator_public_key = replicate 2624 b'0';
  encrypted_operator_seed = hidden seed_hex;
  registration_txid = some [];
  withdrawal_txid = none;
}

abbrev with_masternode : MasternodeRecord → Store
with_masternode r = record locked { database = record locked.database { masternodes = r ∷ [] } }

masternode_created :
    create_masternode_record plain_services surroundings registration locked
    ≡ ok (masternode, with_masternode masternode)
unfolding create_masternode_record assert_password assert_network valid_outpoint
    valid_transaction_id is_hex_text all_lower_hex all_zeros verify_password decrypt decrypt_data
    open_sealed or_false derive_key same_network get_addresses sorted_keys insert_by_id has ◌===◌
    is_valid_pq_address pq_id_from_address hrp_for_network bech32m_decode bech32m_encode
    convert_bits address_from_id pq_keypair_from_seed pq_id_from_public_key encrypt_or_throw
    non_empty_text encrypt encrypt_data add_masternode save_masternode get_masternode put_masternode
    write_hex hex_digit
masternode_created = refl

abbrev exported : MasternodeRecord → Backup
exported r = record {
  version = 3;
  network = testnet;
  encrypted_mnemonic = some (hidden phrase);
  keys = record { address = own_address; encrypted_seed = hidden seed_hex } ∷ [];
  masternodes = some (r ∷ []);
}

first_backup : export_backup (with_masternode masternode) ≡ ok (exported masternode)
unfolding export_backup exported_mnemonic valid_encrypted_secret sorted_keys insert_by_id
    backup_key_of
first_backup = refl

bad_service : valid_service (units "example.org:8000") ≡ false
unfolding valid_service read_service good_endpoint read_part read_number expect span_digits
bad_service = refl

create_masternode_record-unrestorable_example :
    import_backup plain_services surroundings (exported masternode) password empty_store
    ≢ ok ((testnet, own_address ∷ []), with_masternode masternode)
create_masternode_record-unrestorable_example =
    create_masternode_record-unrestorable plain_services surroundings surroundings registration
      locked (with_masternode masternode) empty_store masternode (exported masternode) password
      ((testnet, own_address ∷ []), with_masternode masternode) masternode_created bad_service
      first_backup

abbrev gone : MasternodeRecord
gone = record masternode {
  service = [];
  status = Status.withdrawn;
  registration_txid = some (replicate 64 b'a');
  withdrawal_txid = some (replicate 64 b'b');
}

abbrev back_again : MasternodeRecord
back_again = record gone {
  status = Status.registered;
  registration_txid = some (replicate 64 b'c');
}

marked :
    mark_masternode_registered (replicate 64 b'0') (replicate 64 b'c') (with_masternode gone)
    ≡ ok (with_masternode back_again)
unfolding mark_masternode_registered is_hex_text all_lower_hex get_masternode save_masternode
    put_masternode ◌===◌
marked = refl

second_backup : export_backup (with_masternode back_again) ≡ ok (exported back_again)
unfolding export_backup exported_mnemonic valid_encrypted_secret sorted_keys insert_by_id
    backup_key_of
second_backup = refl

mark_masternode_registered-unrestorable_example :
    import_backup plain_services surroundings (exported back_again) password empty_store
    ≢ ok ((testnet, own_address ∷ []), with_masternode back_again)
mark_masternode_registered-unrestorable_example =
    mark_masternode_registered-unrestorable plain_services surroundings (replicate 64 b'0')
      (replicate 64 b'c') (replicate 64 b'b') (with_masternode gone) (with_masternode back_again)
      empty_store gone (exported back_again) password
      ((testnet, own_address ∷ []), with_masternode back_again)
      (unfold get_masternode ◌===◌ in refl) refl (λ e. cc) marked second_backup
