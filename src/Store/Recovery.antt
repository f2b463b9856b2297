-- ===== src/Store/Recovery.antt =====
-- A new wallet can be restored from its backup with its password.
use organic_web_wallet.Prelude.{
  ℕ, zero, suc, ◌+◌, ◌≡◌, refl, ap, true, false, not, ◌||◌, Option, none, some, List, [], ◌∷◌, map,
  length, All, ltb, length-map, ok, require, bind_inv, throw_inv, ok-injective, require_ok,
  not-false, arith, bad_phrase, seed_encryption, phrase_encryption, verifier_encryption, key_count,
  wallet_exists,
}
use mathlib.Core.Path.{subst}
use organic_web_wallet.Platform.{Text}
use organic_web_wallet.Address.{Network, is_valid_pq_address}
use organic_web_wallet.Vault.{decrypt}
use organic_web_wallet.Store.Records.{
  KeyRecord, Services, Surroundings, BackupKey, Backup, Store, put_masternodes,
}
use organic_web_wallet.Store.Checks.{
  valid_encrypted_secret, present, assert_password, assert_network, max_keys,
}
use organic_web_wallet.Store.Keys.{verifier_plaintext, encrypt_or_throw, address_for_seed}
use organic_web_wallet.Store.Wallets.{
  Creation, Created, new_keys, recovery_mnemonic, backup_key_of, address_of, create_wallet,
  has_wallet, write_wallet, export_backup, exported_mnemonic,
}
use organic_web_wallet.Store.Imports.{
  check_backup_keys, import_backup, import_phrase, import_masternodes,
}
use organic_web_wallet.Store.Kept.{Numbered, put_keys-Numbered, sorted_keys-Numbered}
use organic_web_wallet.Store.Restore.{IsBackup, IsBackup-restores, ok_state, ok_shown}
use organic_web_wallet.Store.Secrets.{ServiceLaws, IsRandom, Distinct, stored, created_key_fits}

module _ {lib : Services} (laws : ServiceLaws lib) where
  -- What is known of the keys numbered from `i` on.
  abbrev KeysFit : Text → Network → Text → ℕ → ℕ → List Text → List KeyRecord → Type 0
  KeysFit password network m i n seen keys =
      All (λ a. is_valid_pq_address a network ≡ true) (map address_of keys)
      → Distinct seen (map address_of keys)
      → (seen' : List Text) × (Numbered i keys)
        × (length keys ≡ n)
        × (check_backup_keys lib password network m i seen (map backup_key_of keys) ≡ ok seen')

  new_keys-KeysFit :
      (env : Surroundings) (password : Text) (network : Network) (m : Text) (i n : ℕ)
      (seen : List Text) (keys : List KeyRecord)
      → IsRandom env
      → new_keys lib env password network m i n ≡ ok keys
      → KeysFit password network m i n seen keys
  unfolding new_keys check_backup_keys backup_key_of
  new_keys-KeysFit env password network m i zero seen keys random h =
      rw (← ok-injective h) (λ _ _. (seen, tt, refl, refl))
  new_keys-KeysFit env password network m i (suc n) seen keys random h =
      bind_inv (require (lib.phrases.derive_seed m i) bad_phrase) h λ seed derived h1.
        bind_inv (address_for_seed lib seed network) h1 λ address owned h2.
          bind_inv
            (encrypt_or_throw lib.crypto (env.entropy (2 + i)) (lib.noble.bytes_to_hex seed)
              password seed_encryption)
            h2
            λ encrypted made h3.
              bind_inv (new_keys lib env password network m (suc i) n) h3 λ rest more h4.
                subst (KeysFit password network m i (suc n) seen) (ok-injective h4)
                  λ valid distinct.
                    let (seen', numbers, size, fit) =
                      new_keys-KeysFit env password network m (suc i) n (address ∷ seen) rest random
                        more valid.1 distinct.1 in
                    (
                      seen',
                      (refl, numbers),
                      ap suc size,
                      rw
                          (created_key_fits laws env password network m i seen seed address
                            encrypted random
                            (require_ok (lib.phrases.derive_seed m i) bad_phrase derived) owned made
                            valid.0 distinct.0)
                          fit,
                    )

  recovery_mnemonic-normal :
      (env : Surroundings) (o : Option Text)
      → lib.phrases.normalize env.fresh_mnemonic ≡ env.fresh_mnemonic
      → lib.phrases.normalize (recovery_mnemonic lib env o) ≡ recovery_mnemonic lib env o
  unfolding recovery_mnemonic
  recovery_mnemonic-normal env none fresh = fresh
  recovery_mnemonic-normal env (some t) fresh = laws.normalize_twice t

  import_phrase_stored :
      (password encrypted m : Text)
      → valid_encrypted_secret encrypted ≡ true
      → decrypt lib.crypto encrypted password ≡ some m
      → lib.phrases.normalize m ≡ m
      → lib.phrases.validate m ≡ true
      → import_phrase lib password (some encrypted) ≡ ok (encrypted, m)
  unfolding import_phrase
  import_phrase_stored password encrypted m fits opens normal valid =
      rw (fits, opens, normal, valid) refl

  exported_present :
      (t : Text) → valid_encrypted_secret t ≡ true → exported_mnemonic (present t) ≡ some t
  unfolding exported_mnemonic valid_encrypted_secret
  exported_present [] h = cc
  exported_present (c ∷ cs) h = rw h refl

  addresses_kept :
      (keys : List KeyRecord)
      → map (λ (key : BackupKey). key.address) (map backup_key_of keys) ≡ map address_of keys
  unfolding backup_key_of
  addresses_kept [] = refl
  addresses_kept (r ∷ rs) = rw (addresses_kept rs) refl

  export_backup-new :
      (network : Network) (now : ℕ) (verifier encrypted : Text) (keys : List KeyRecord) (s : Store)
      → valid_encrypted_secret encrypted ≡ true
      → Numbered 0 keys
      → export_backup (
          write_wallet
            (record {
              network = network;
              created_at = now;
              verifier = verifier;
              encrypted_mnemonic = some encrypted;
            })
            keys
            []
            s)
        ≡ ok (record {
          version = 3;
          network = network;
          encrypted_mnemonic = some encrypted;
          keys = map backup_key_of keys;
          masternodes = some [];
        })
  unfolding export_backup write_wallet exported_mnemonic put_masternodes
  export_backup-new network now verifier encrypted keys s fits numbers =
      rw (put_keys-Numbered 0 keys [] numbers tt, sorted_keys-Numbered 0 keys numbers, fits) refl

  -- The backup of the written parts of a new wallet passes every check.
  new_backup :
      (env : Surroundings) (q : Creation) (s : Store) (m verifier encrypted : Text)
      (keys : List KeyRecord)
      → assert_password q.password ≡ ok tt
      → assert_network q.network ≡ ok tt
      → (ltb q.count 1 || ltb max_keys q.count) ≡ false
      → IsRandom env
      → lib.phrases.normalize m ≡ m
      → lib.phrases.validate m ≡ true
      → encrypt_or_throw lib.crypto (env.entropy 1) m q.password phrase_encryption ≡ ok encrypted
      → new_keys lib env q.password q.network m 0 q.count ≡ ok keys
      → All (λ a. is_valid_pq_address a q.network ≡ true) (map address_of keys)
      → Distinct [] (map address_of keys)
      → (b : Backup) × (export_backup (
            write_wallet
              (record {
                network = q.network;
                created_at = env.now;
                verifier = verifier;
                encrypted_mnemonic = some encrypted;
              })
              keys
              []
              s)
          ≡ ok b)
        × (map (λ (key : BackupKey). key.address) b.keys ≡ map address_of keys)
        × IsBackup lib q.password b
  unfolding put_masternodes
  new_backup env q s m verifier encrypted keys fits known count random normal valid made keys_made
        addresses distinct =
      let (seen, numbers, size, keys_fit) =
        new_keys-KeysFit env q.password q.network m 0 q.count [] keys random keys_made addresses
          distinct in
      let (some_text, short, ascii) = laws.phrase_is_short m normal valid in
      let (phrase_fits, opens) =
        stored laws (env.entropy 1) m q.password encrypted phrase_encryption (random 1) some_text
          short ascii made in
      (
        record {
          version = 3;
          network = q.network;
          encrypted_mnemonic = some encrypted;
          keys = map backup_key_of keys;
          masternodes = some [];
        },
        export_backup-new q.network env.now verifier encrypted keys s phrase_fits numbers,
        addresses_kept keys,
        record {
          version = refl;
          password_fits = fits;
          network_fits = known;
          some_keys = ground (arith, size, count, length-map keys backup_key_of);
          few_keys = ground (arith, size, count, length-map keys backup_key_of);
          encrypted = encrypted;
          mnemonic = m;
          phrase = import_phrase_stored q.password encrypted m phrase_fits opens normal valid;
          same_phrase = exported_present encrypted phrase_fits;
          seen = seen;
          keys_fit = keys_fit;
          masternodes = [];
          listed = refl;
          few_masternodes = refl;
          accepted = unfold import_masternodes in refl;
          ordered = refl;
        },
      )

  restored :
      (env env' : Surroundings) (q : Creation) (s s' t : Store) (made : Created)
      (m first encrypted : Text) (keys : List KeyRecord) (verifier : Text)
      → assert_password q.password ≡ ok tt
      → assert_network q.network ≡ ok tt
      → (ltb q.count 1 || ltb max_keys q.count) ≡ false
      → IsRandom env
      → lib.phrases.normalize m ≡ m
      → lib.phrases.validate m ≡ true
      → encrypt_or_throw lib.crypto (env.entropy 1) m q.password phrase_encryption ≡ ok encrypted
      → new_keys lib env q.password q.network m 0 q.count ≡ ok keys
      → All (λ a. is_valid_pq_address a q.network ≡ true) made.addresses
      → Distinct [] made.addresses
      → map address_of keys ≡ made.addresses
      → write_wallet
          (record {
            network = q.network;
            created_at = env.now;
            verifier = first;
            encrypted_mnemonic = some encrypted;
          })
          keys
          []
          s
        ≡ s'
      → has_wallet t.database ≡ false
      → encrypt_or_throw lib.crypto
          (env'.entropy 0)
          verifier_plaintext
          q.password
          verifier_encryption
        ≡ ok verifier
      → (b : Backup) × (t' : Store) × (export_backup s' ≡ ok b)
        × (import_backup lib env' b q.password t ≡ ok ((b.network, made.addresses), t'))
        × (export_backup t' ≡ ok b)
  restored env env' q s s' t made m first encrypted keys verifier fits known count random normal
        phrase hidden keys_made valid distinct shown wrote free sealed =
      let (b, exported, kept, fit) =
        new_backup env q s m first encrypted keys fits known count random normal phrase hidden
          keys_made (rw shown valid) (rw shown distinct) in
      let (t', imported, again) =
        IsBackup-restores lib q.password env' b t verifier fit free sealed in
      (b, t', rw (← wrote) exported, rw (← shown) (rw (← kept) imported), again)

  -- A wallet that is created can be restored in an empty store from its own backup, under its password:
  -- the import succeeds, shows the same addresses, and the restored wallet exports the same backup.
  pub create_wallet-restores :
      (env env' : Surroundings) (q : Creation) (s s' t : Store) (made : Created) (verifier : Text)
      → create_wallet lib env q s ≡ ok (made, s')
      → lib.phrases.normalize env.fresh_mnemonic ≡ env.fresh_mnemonic
      → IsRandom env
      → All (λ a. is_valid_pq_address a q.network ≡ true) made.addresses
      → Distinct [] made.addresses
      → has_wallet t.database ≡ false
      → encrypt_or_throw lib.crypto
          (env'.entropy 0)
          verifier_plaintext
          q.password
          verifier_encryption
        ≡ ok verifier
      → (b : Backup) × (t' : Store) × (export_backup s' ≡ ok b)
        × (import_backup lib env' b q.password t ≡ ok ((b.network, made.addresses), t'))
        × (export_backup t' ≡ ok b)
  unfolding create_wallet
  create_wallet-restores env env' q s s' t made verifier h fresh random valid distinct free sealed =
      bind_inv (assert_password q.password) h λ _ fits h1.
        bind_inv (assert_network q.network) h1 λ _ known h2.
          throw_inv (ltb q.count 1 || ltb max_keys q.count) key_count _ h2 λ count h3.
            throw_inv (not (lib.phrases.validate (recovery_mnemonic lib env q.mnemonic))) bad_phrase
              _ h3
              λ phrase h4. throw_inv (has_wallet s.database) wallet_exists _ h4 λ _ h5.
                bind_inv
                  (encrypt_or_throw lib.crypto (env.entropy 0) verifier_plaintext q.password
                    verifier_encryption)
                  h5
                  λ first _ h6.
                    bind_inv
                      (encrypt_or_throw lib.crypto (env.entropy 1)
                        (recovery_mnemonic lib env q.mnemonic) q.password phrase_encryption)
                      h6
                      λ encrypted hidden h7.
                        bind_inv
                          (new_keys lib env q.password q.network
                            (recovery_mnemonic lib env q.mnemonic) 0 q.count)
                          h7
                          λ keys keys_made h8.
                            restored env env' q s s' t made (recovery_mnemonic lib env q.mnemonic)
                              first encrypted keys verifier fits known count random
                              (recovery_mnemonic-normal env q.mnemonic fresh) (not-false _ phrase)
                              hidden keys_made valid distinct
                              (ap (λ (c : Created). c.addresses) (ok_shown h8)) (ok_state h8) free
                              sealed
