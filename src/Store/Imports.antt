-- ===== src/Store/Imports.antt =====
-- scripts/pqwallet/pqwallet-store.js: restoring a backup, and the deletion of a wallet.
use organic_web_wallet.Prelude.{
  ℕ, suc, ◌+◌, Bool, true, false, not, ◌||◌, Option, none, some, List, [], ◌∷◌, map, length, ltb,
  ◌==◌, ◌===◌, if◌then◌else◌, Result, ok, ◌>>=◌, ◌>>◌, throw_if, require, bad_phrase, wallet_exists,
  verifier_encryption, seed_corrupt, backup_version, backup_keys, backup_key, backup_duplicate,
  backup_key_mismatch, backup_phrase_mismatch, backup_masternodes, backup_record,
  operator_seed_mismatch,
}
use organic_web_wallet.Platform.{Text, Bytes}
use organic_web_wallet.Address.{Network, is_valid_pq_address}
use organic_web_wallet.Vault.{decrypt, pq_keypair_from_seed}
use organic_web_wallet.Store.Records.{
  KeyRecord, MasternodeRecord, Store, BackupKey, Backup, Services, Surroundings, has,
}
use organic_web_wallet.Store.Checks.{
  assert_password, assert_network, max_keys, valid_encrypted_secret, present,
  canonical_masternode_record,
}
use organic_web_wallet.Store.Keys.{
  verifier_plaintext, encrypt_or_throw, verify_password, address_for_seed, with_decrypted_seed,
  lock_wallet,
}
use organic_web_wallet.Store.Wallets.{pq_wallet_backup_version, has_wallet, write_wallet}

-- The encrypted phrase and what it holds; both are empty where the backup has none.
unfoldable pub import_phrase : Services → Text → Option Text → Result (Text × Text)
import_phrase lib password none = ok ([], [])
import_phrase lib password (some encrypted) = do
  throw_if (not (valid_encrypted_secret encrypted)) bad_phrase
  decrypted ← require (decrypt lib.crypto encrypted password) seed_corrupt
  let mnemonic = lib.phrases.normalize decrypted
  throw_if (not (lib.phrases.validate mnemonic)) bad_phrase
  ok (encrypted, mnemonic)

unfoldable pub check_derived : Services → Text → ℕ → Bytes → Result (Unit {0})
check_derived lib [] index seed = ok tt
check_derived lib (c ∷ cs) index seed = do
  derived ← require (lib.phrases.derive_seed (c ∷ cs) index) bad_phrase
  throw_if (not (lib.noble.bytes_to_hex derived === lib.noble.bytes_to_hex seed))
      backup_phrase_mismatch
  ok tt

unfoldable pub check_backup_key :
    Services → Text → Network → Text → ℕ → List Text → BackupKey → Result (Unit {0})
check_backup_key lib password network mnemonic index seen key = do
  throw_if
      (not (valid_encrypted_secret key.encrypted_seed)
        || not (is_valid_pq_address key.address network))
      backup_key
  throw_if (has seen key.address) backup_duplicate
  with_decrypted_seed lib key.encrypted_seed password λ seed. do
    address ← address_for_seed lib seed network
    throw_if (not (address === key.address)) backup_key_mismatch
    check_derived lib mnemonic index seed

-- The loop over the keys gives the addresses that it has seen.
unfoldable pub check_backup_keys :
    Services → Text → Network → Text → ℕ → List Text → List BackupKey → Result (List Text)
check_backup_keys lib password network mnemonic index seen [] = ok seen
check_backup_keys lib password network mnemonic index seen (key ∷ keys) = do
  check_backup_key lib password network mnemonic index seen key
  check_backup_keys lib password network mnemonic (suc index) (key.address ∷ seen) keys

unfoldable pub check_operator_seed : Services → Text → MasternodeRecord → Result (Unit {0})
check_operator_seed lib password r =
    with_decrypted_seed lib r.encrypted_operator_seed password λ seed. do
      pair ← pq_keypair_from_seed lib.crypto seed
      throw_if (not (lib.noble.bytes_to_hex pair.public_key === r.operator_public_key))
          operator_seed_mismatch
      ok tt

unfoldable pub import_masternodes :
    Services
    → Text
    → Network
    → List Text
    → List Text
    → List MasternodeRecord
    → Result (List MasternodeRecord)
import_masternodes lib password network local ids [] = ok []
import_masternodes lib password network local ids (imported ∷ rest) = do
  r ← canonical_masternode_record lib.noble imported network local
  throw_if (has ids r.id) backup_record
  check_operator_seed lib password r
  others ← import_masternodes lib password network local (r.id ∷ ids) rest
  ok (r ∷ others)

unfoldable pub imported_masternodes : Backup → Result (List MasternodeRecord)
imported_masternodes b = if b.version == 1 then ok [] else require b.masternodes backup_masternodes

unfoldable pub numbered_keys : ℕ → ℕ → List BackupKey → List KeyRecord
numbered_keys now index [] = []
numbered_keys now index (key ∷ keys) =
    record {
      id = index;
      address = key.address;
      label = index + 1;
      encrypted_seed = key.encrypted_seed;
      created_at = now;
    }
    ∷ numbered_keys now (suc index) keys

unfoldable pub import_backup :
    Services → Surroundings → Backup → Text → Store → Result ((Network × List Text) × Store)
unfolding has_wallet
import_backup lib env b password s = do
  assert_password password
  throw_if (not (b.version == 1 || (b.version == 2 || b.version == pq_wallet_backup_version)))
      backup_version
  assert_network b.network
  throw_if (length b.keys == 0) backup_keys
  throw_if (ltb max_keys (length b.keys)) backup_keys
  throw_if (has_wallet s.database) wallet_exists
  (encrypted, mnemonic) ← import_phrase lib password b.encrypted_mnemonic
  seen ← check_backup_keys lib password b.network mnemonic 0 [] b.keys
  listed ← imported_masternodes b
  throw_if (ltb max_keys (length listed)) backup_masternodes
  masternodes ← import_masternodes lib password b.network seen [] listed
  verifier ←
      encrypt_or_throw lib.crypto (env.entropy 0) verifier_plaintext password verifier_encryption
  ok (
    (b.network, map (λ (key : BackupKey). key.address) b.keys),
    write_wallet
        (record {
          network = b.network;
          created_at = env.now;
          verifier = verifier;
          encrypted_mnemonic = present encrypted;
        })
        (numbered_keys env.now 0 b.keys) masternodes s,
  )

unfoldable pub erase_wallet : Store → Store
unfolding lock_wallet
erase_wallet s =
    lock_wallet (record s { database = record { wallet = none; keys = []; masternodes = [] } })

unfoldable pub erase_verified : Services → Text → Store → Result (Bool × Store)
unfolding erase_wallet
erase_verified lib password s = do
  _ ← verify_password lib s.database password
  ok (true, erase_wallet s)

-- `false` where there is no wallet.
unfoldable pub delete_wallet : Services → Text → Store → Result (Bool × Store)
unfolding has_wallet erase_verified
delete_wallet lib password s = do
  assert_password password
  if has_wallet s.database then erase_verified lib password s else ok (false, s)
