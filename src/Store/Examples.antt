-- ===== src/Store/Examples.antt =====
-- A wallet that is created, unlocked, exported and restored, and a masternode with a service that is no
-- endpoint, with concrete libraries.
use organic_web_wallet.Prelude.{
  ℕ, ◌≡◌, refl, true, none, some, List, [], ◌∷◌, length, replicate, get_elem?, ok, ◌===◌, Error,
}
use organic_web_wallet.Platform.{Text, units}
use organic_web_wallet.Platform.Hex.{write_hex, hex_digit, read_hex, byte_of, digit_value}
use organic_web_wallet.Address.{
  testnet, hrp_for_network, pq_id_from_public_key, address_from_id, address_from_public_key,
  pq_id_from_address, bech32m_encode, bech32m_decode, convert_bits, is_valid_pq_address,
}
use organic_web_wallet.Masternode.Service.{encode_service}
use organic_web_wallet.Vault.{
  derive_key, encrypt_data, encrypt, open_sealed, or_false, decrypt_data, decrypt,
  pq_keypair_from_seed,
}
use organic_web_wallet.Store.Records.{
  KeyRecord, WalletMeta, Store, Backup, put_key, put_keys, put_masternodes, insert_by_id,
  sorted_keys, has, set_seed, find_seed,
}
use organic_web_wallet.Store.Checks.{
  assert_password, assert_network, all_lower_hex, is_hex_text, valid_service,
}
use organic_web_wallet.Store.Keys.{
  verifier_plaintext, non_empty_text, encrypt_or_throw, decrypt_seed_or_throw, verify_password,
  address_for_seed, with_decrypted_seed, unlock_key, unlock_keys, lock_wallet, unlock_wallet,
  get_addresses, get_seed,
}
use organic_web_wallet.Store.Wallets.{
  Creation, Created, new_keys, recovery_mnemonic, has_wallet, write_wallet, create_wallet,
  export_backup,
}
use organic_web_wallet.Store.Imports.{import_backup}
use organic_web_wallet.Store.Services.{
  plain_crypto, plain_services, plain-ServiceLaws, plain_entropy, surroundings, phrase, hidden,
}
use organic_web_wallet.Store.Recovery.{create_wallet-restores}
use organic_web_wallet.Store.Steps.{Step, Reachable, empty_store}
use organic_web_wallet.Store.Unlocked.{get_seed-Owns}
use organic_web_wallet.Store.Service.{succeeds, valid_service-encode_service}
use organic_web_wallet.Store.Receive.{receive_many, receive_many_all}

abbrev pub password : Text
password = units "secret"

abbrev pub seed_hex : Text
seed_hex = replicate 64 b'0'

abbrev pub own_address : Text
own_address = units "olcpqtest1pqqqqqqqqqqqqqqqqqqqqqqqqqqqqqqqqqqqqqqqqqqqqqqqqqqqqt5dc3d"

abbrev creation : Creation
creation = record { password = password; network = testnet; count = 1; mnemonic = none }

abbrev created : Created
created = record { network = testnet; addresses = own_address ∷ []; mnemonic = phrase }

abbrev pub first_key : KeyRecord
first_key = record {
  id = 0;
  address = own_address;
  label = 1;
  encrypted_seed = hidden seed_hex;
  created_at = 1000;
}

abbrev pub wallet_meta : WalletMeta
wallet_meta = record {
  network = testnet;
  created_at = 1000;
  verifier = hidden verifier_plaintext;
  encrypted_mnemonic = some (hidden phrase);
}

abbrev pub locked : Store
locked = record {
  database = record { wallet = some wallet_meta; keys = first_key ∷ []; masternodes = [] };
  unlocked = none;
  receive_cursor = 0;
}

wallet_created :
    create_wallet plain_services surroundings creation empty_store ≡ ok (created, locked)
unfolding create_wallet assert_password assert_network encrypt_or_throw non_empty_text encrypt
    encrypt_data derive_key new_keys address_for_seed pq_keypair_from_seed address_from_public_key
    pq_id_from_public_key address_from_id hrp_for_network convert_bits bech32m_encode write_wallet
    put_keys put_key put_masternodes write_hex hex_digit ◌===◌ recovery_mnemonic
wallet_created = refl

own_address_valid : is_valid_pq_address own_address testnet ≡ true
unfolding is_valid_pq_address pq_id_from_address hrp_for_network bech32m_decode bech32m_encode
    convert_bits address_from_id ◌===◌
own_address_valid = refl

verifier_hidden :
    encrypt_or_throw plain_crypto plain_entropy verifier_plaintext password
      Error.verifier_encryption
    ≡ ok (hidden verifier_plaintext)
unfolding encrypt_or_throw non_empty_text encrypt encrypt_data derive_key
verifier_hidden = refl

create_wallet-restores_example :
    (b : Backup) × (t' : Store) × (export_backup locked ≡ ok b)
    × (import_backup plain_services surroundings b password empty_store
        ≡ ok ((b.network, own_address ∷ []), t'))
    × (export_backup t' ≡ ok b)
unfolding has_wallet
create_wallet-restores_example =
    create_wallet-restores plain-ServiceLaws surroundings surroundings creation empty_store locked
      empty_store created (hidden verifier_plaintext) wallet_created refl (λ _. (refl, refl))
      (own_address_valid, tt) (unfold has in refl, tt) refl verifier_hidden

abbrev backup : Backup
backup = record {
  version = 2;
  network = testnet;
  encrypted_mnemonic = some (hidden phrase);
  keys = record { address = own_address; encrypted_seed = hidden seed_hex } ∷ [];
  masternodes = some [];
}

abbrev unlocked : Store
unlocked = record locked { unlocked = some ((own_address, replicate 32 0) ∷ []) }

wallet_unlocked : unlock_wallet plain_services password locked ≡ ok (own_address ∷ [], unlocked)
unfolding unlock_wallet assert_password verify_password decrypt decrypt_data open_sealed or_false
    derive_key unlock_keys unlock_key sorted_keys insert_by_id with_decrypted_seed
    decrypt_seed_or_throw is_hex_text all_lower_hex read_hex byte_of digit_value address_for_seed
    pq_keypair_from_seed address_from_public_key pq_id_from_public_key address_from_id
    hrp_for_network convert_bits bech32m_encode ◌===◌ set_seed lock_wallet
wallet_unlocked = refl

seed_given : get_seed own_address unlocked ≡ ok (replicate 32 0)
unfolding get_seed find_seed ◌===◌
seed_given = refl

get_seed-Owns_example :
    (meta : WalletMeta) × (some wallet_meta ≡ some meta)
    × (address_for_seed plain_services (replicate 32 0) meta.network ≡ ok own_address)
get_seed-Owns_example =
    get_seed-Owns {s = unlocked} own_address (replicate 32 0)
      (Reachable.after {s = locked}
        (Reachable.after Reachable.empty (Step.create surroundings creation created wallet_created))
        (Step.unlock password (own_address ∷ []) wallet_unlocked))
      seed_given

two_keys : Store
two_keys = record locked {
  database = record locked.database {
    keys = first_key ∷ record first_key { id = 1; address = units "second" } ∷ [];
  };
  receive_cursor = 5;
}

receive_many_all_example :
    (out : List Text) × (s' : Store) × (j : ℕ) × (receive_many
        (length (get_addresses two_keys))
        two_keys
      ≡ ok (out, s'))
    × (get_elem? out j ≡ some own_address)
unfolding get_addresses sorted_keys insert_by_id two_keys
receive_many_all_example = receive_many_all two_keys 0 own_address refl

valid_service-encode_service_example :
    valid_service (units "10.0.0.256:80") ≡ succeeds (encode_service (some (units "10.0.0.256:80")))
valid_service-encode_service_example = valid_service-encode_service (units "10.0.0.256:80")
