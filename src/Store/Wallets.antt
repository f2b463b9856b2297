-- ===== src/Store/Wallets.antt =====
-- scripts/pqwallet/pqwallet-store.js: creation and export of a wallet.
use organic_web_wallet.Prelude.{
  ℕ, zero, suc, ◌+◌, Bool, true, false, not, ◌||◌, Option, none, some, List, [], ◌∷◌, map, ltb,
  if◌then◌else◌, Result, ok, ◌>>=◌, ◌>>◌, throw_if, require, key_count, bad_phrase, wallet_exists,
  not_initialized, verifier_encryption, phrase_encryption, seed_encryption,
}
use organic_web_wallet.Platform.{Text}
use organic_web_wallet.Address.{Network}
use organic_web_wallet.Store.Records.{
  KeyRecord, WalletMeta, MasternodeRecord, Database, Store, BackupKey, Backup, Services,
  Surroundings, put_keys, put_masternodes, sorted_keys,
}
use organic_web_wallet.Store.Checks.{
  assert_password, assert_network, max_keys, valid_encrypted_secret,
}
use organic_web_wallet.Store.Keys.{verifier_plaintext, encrypt_or_throw, address_for_seed}

pub record Creation : Type 0 where
  pub password : Text
  pub network : Network
  pub count : ℕ
  pub mnemonic : Option Text

pub record Created : Type 0 where
  pub network : Network
  pub addresses : List Text
  pub mnemonic : Text

-- The encryptions of a creation are those of the verifier, the phrase and the seeds.
unfoldable pub new_keys :
    Services → Surroundings → Text → Network → Text → ℕ → ℕ → Result (List KeyRecord)
new_keys lib env password network mnemonic index zero = ok []
new_keys lib env password network mnemonic index (suc left) = do
  seed ← require (lib.phrases.derive_seed mnemonic index) bad_phrase
  address ← address_for_seed lib seed network
  encrypted ←
      encrypt_or_throw lib.crypto (env.entropy (2 + index)) (lib.noble.bytes_to_hex seed) password
        seed_encryption
  rest ← new_keys lib env password network mnemonic (suc index) left
  ok (
      record {
        id = index;
        address = address;
        label = index + 1;
        encrypted_seed = encrypted;
        created_at = env.now;
      }
      ∷ rest)

unfoldable pub recovery_mnemonic : Services → Surroundings → Option Text → Text
recovery_mnemonic lib env none = env.fresh_mnemonic
recovery_mnemonic lib env (some t) = lib.phrases.normalize t

unfoldable pub has_wallet : Database → Bool
has_wallet d = elim d.wallet [ none ↦ false | some _ ↦ true ]

-- What one transaction writes: the stores are cleared first.
unfoldable pub write_wallet : WalletMeta → List KeyRecord → List MasternodeRecord → Store → Store
write_wallet meta keys masternodes s = record s {
  database = record {
    wallet = some meta;
    keys = put_keys keys [];
    masternodes = put_masternodes masternodes [];
  };
}

abbrev pub address_of : KeyRecord → Text
address_of r = r.address

unfoldable pub create_wallet : Services → Surroundings → Creation → Store → Result (Created × Store)
unfolding recovery_mnemonic has_wallet
create_wallet lib env r s = do
  assert_password r.password
  assert_network r.network
  throw_if (ltb r.count 1 || ltb max_keys r.count) key_count
  let mnemonic = recovery_mnemonic lib env r.mnemonic
  throw_if (not (lib.phrases.validate mnemonic)) bad_phrase
  throw_if (has_wallet s.database) wallet_exists
  verifier ←
      encrypt_or_throw lib.crypto (env.entropy 0) verifier_plaintext r.password verifier_encryption
  encrypted ← encrypt_or_throw lib.crypto (env.entropy 1) mnemonic r.password phrase_encryption
  keys ← new_keys lib env r.password r.network mnemonic 0 r.count
  ok (
    record { network = r.network; addresses = map address_of keys; mnemonic = mnemonic },
    write_wallet
        (record {
          network = r.network;
          created_at = env.now;
          verifier = verifier;
          encrypted_mnemonic = some encrypted;
        })
        keys [] s,
  )

unfoldable pub backup_key_of : KeyRecord → BackupKey
backup_key_of r = record { address = r.address; encrypted_seed = r.encrypted_seed }

unfoldable pub exported_mnemonic : Option Text → Option Text
exported_mnemonic none = none
exported_mnemonic (some t) = if valid_encrypted_secret t then some t else none

abbrev pub pq_wallet_backup_version : ℕ
pq_wallet_backup_version = 3

unfoldable pub export_backup : Store → Result Backup
unfolding exported_mnemonic
export_backup s = do
  meta ← require s.database.wallet not_initialized
  ok (record {
    version = pq_wallet_backup_version;
    network = meta.network;
    encrypted_mnemonic = exported_mnemonic meta.encrypted_mnemonic;
    keys = map backup_key_of (sorted_keys s.database.keys);
    masternodes = some s.database.masternodes;
  })
