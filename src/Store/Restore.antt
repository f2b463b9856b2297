-- ===== src/Store/Restore.antt =====
-- A wallet can be restored from the backup that is exported from it.
use mathlib.Core.List.{reverse, Perm}
use organic_web_wallet.Prelude.{
  ◌≡◌, refl, ◌∙◌, false, some, List, [], All, map, length, ltb, ◌==◌, Result, ok,
  verifier_encryption,
}
use organic_web_wallet.Platform.{Text}
use organic_web_wallet.Wire.Lists.{Each}
use organic_web_wallet.Store.Records.{
  MasternodeRecord, Store, BackupKey, Backup, Services, Surroundings, put_masternodes,
}
use organic_web_wallet.Store.Checks.{
  assert_password, assert_network, max_keys, present, canonical_masternode_record,
}
use organic_web_wallet.Store.Keys.{verifier_plaintext, encrypt_or_throw}
use organic_web_wallet.Store.Wallets.{has_wallet, exported_mnemonic, export_backup, write_wallet}
use organic_web_wallet.Store.Imports.{
  import_phrase, check_backup_keys, import_masternodes, imported_masternodes, numbered_keys,
  import_backup,
}
use organic_web_wallet.Store.Kept.{
  numbered_keys-Numbered, put_keys-Numbered, sorted_keys-Numbered, backup_keys_of,
}

-- A backup of the current version that passes every check of an import, and is left by it as it is.
pub record IsBackup (lib : Services) (password : Text) (b : Backup) : Type 0 where
  pub version : b.version ≡ 3
  pub password_fits : assert_password password ≡ ok tt
  pub network_fits : assert_network b.network ≡ ok tt
  pub some_keys : (length b.keys == 0) ≡ false
  pub few_keys : ltb max_keys (length b.keys) ≡ false
  pub encrypted : Text
  pub mnemonic : Text
  pub phrase : import_phrase lib password b.encrypted_mnemonic ≡ ok (encrypted, mnemonic)
  pub same_phrase : exported_mnemonic (present encrypted) ≡ b.encrypted_mnemonic
  pub seen : List Text
  pub keys_fit : check_backup_keys lib password b.network mnemonic 0 [] b.keys ≡ ok seen
  pub masternodes : List MasternodeRecord
  pub listed : b.masternodes ≡ some masternodes
  pub few_masternodes : ltb max_keys (length masternodes) ≡ false
  pub accepted : import_masternodes lib password b.network seen [] masternodes ≡ ok masternodes
  pub ordered : put_masternodes masternodes [] ≡ masternodes

pub ok_state :
    {A B : Type 0} {a c : A} {b d : B} → ◌≡◌ {A = Result (A × B)} (ok (a, b)) (ok (c, d)) → b ≡ d
ok_state h = cc

pub ok_shown :
    {A B : Type 0} {a c : A} {b d : B} → ◌≡◌ {A = Result (A × B)} (ok (a, b)) (ok (c, d)) → a ≡ c
ok_shown h = cc

module _ (lib : Services) (password : Text) where
  -- What an import writes.
  abbrev written : Surroundings → Backup → Text → Text → List MasternodeRecord → Store → Store
  written env b verifier encrypted masternodes t =
      write_wallet
        (record {
          network = b.network;
          created_at = env.now;
          verifier = verifier;
          encrypted_mnemonic = present encrypted;
        })
        (numbered_keys env.now 0 b.keys) masternodes t

  export_backup-written :
      (env : Surroundings) (b : Backup) (t : Store) (verifier encrypted : Text)
      (masternodes : List MasternodeRecord)
      → export_backup (written env b verifier encrypted masternodes t)
        ≡ ok (record {
          version = 3;
          network = b.network;
          encrypted_mnemonic = exported_mnemonic (present encrypted);
          keys = b.keys;
          masternodes = some (put_masternodes masternodes []);
        })
  unfolding export_backup write_wallet
  export_backup-written env b t verifier encrypted masternodes =
      let numbers = numbered_keys-Numbered env.now 0 b.keys in
      rw
        (
          put_keys-Numbered 0 (numbered_keys env.now 0 b.keys) [] numbers tt,
          sorted_keys-Numbered 0 (numbered_keys env.now 0 b.keys) numbers,
          backup_keys_of env.now 0 b.keys,
        )
        refl

  -- A backup goes into an empty wallet, and comes out of it again.
  pub IsBackup-restores :
      (env : Surroundings) (b : Backup) (t : Store) (verifier : Text)
      → IsBackup lib password b
      → has_wallet t.database ≡ false
      → encrypt_or_throw lib.crypto (env.entropy 0) verifier_plaintext password verifier_encryption
        ≡ ok verifier
      → (t' : Store) × (import_backup lib env b password t
          ≡ ok ((b.network, map (λ (key : BackupKey). key.address) b.keys), t'))
        × (export_backup t' ≡ ok b)
  unfolding import_backup imported_masternodes
  IsBackup-restores env b t verifier w free made = (
    written env b verifier w.encrypted w.masternodes t,
    rw
        (
          w.password_fits, w.version, w.network_fits, w.some_keys, w.few_keys, free, w.phrase,
          w.keys_fit, w.listed, w.few_masternodes, w.accepted, made,
        )
        refl,
    export_backup-written env b t verifier w.encrypted w.masternodes
        ∙ cc (w.version, w.same_phrase, w.listed, w.ordered),
  )

  -- What a restored wallet exports: the network, the phrase and the keys of the backup from which it
  -- was restored, and the canonical forms of that backup's masternodes.
  pub record Exported (b b' : Backup) : Type 0 where
    pub version : b'.version ≡ 3
    pub network : b'.network ≡ b.network
    pub encrypted_mnemonic : b'.encrypted_mnemonic ≡ b.encrypted_mnemonic
    pub keys : b'.keys ≡ b.keys
    pub local : List Text
    pub listed : List MasternodeRecord
    pub accepted : List MasternodeRecord
    pub stored : List MasternodeRecord
    pub is_local : local ≡ reverse (map (λ (key : BackupKey). key.address) b.keys)
    pub is_listed : imported_masternodes b ≡ ok listed
    pub canonical :
        Each (λ r c. canonical_masternode_record lib.noble r b.network local ≡ ok c) listed accepted
    pub unchanged :
        All (λ c. canonical_masternode_record lib.noble c b.network local ≡ ok c) accepted
    pub is_stored : b'.masternodes ≡ some stored
    pub same_records : Perm stored accepted
