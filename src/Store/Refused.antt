-- ===== src/Store/Refused.antt =====
-- Backups of scripts/pqwallet/pqwallet-store.js that no import accepts.
use organic_web_wallet.Prelude.{
  ◌≡◌, ◌≢◌, false, not, ◌||◌, some, List, [], ◌∷◌, length, ltb, ◌==◌, ◌===◌, ok, bind_inv,
  throw_inv, ok-injective, Bool-cases, inl, inr, ◌⊎◌, backup_record, backup_keys, backup_version,
  wallet_exists, backup_masternodes,
}
use organic_web_wallet.Platform.{Text}
use organic_web_wallet.Address.{Network}
use organic_web_wallet.Store.Records.{
  MasternodeRecord, Store, Backup, Services, Surroundings, get_masternode, has,
}
use organic_web_wallet.Store.Checks.{
  assert_password, assert_network, max_keys, record_is_well_formed, lifecycle_is_valid, or_empty,
  canonical_masternode_record,
}
use organic_web_wallet.Store.Wallets.{has_wallet, pq_wallet_backup_version}
use organic_web_wallet.Store.Imports.{
  check_operator_seed, import_masternodes, imported_masternodes, import_phrase, check_backup_keys,
  import_backup,
}
use organic_web_wallet.Store.Canonical.{IsCanonical, canonical_masternode_record-IsCanonical}

module _ (lib : Services) (password : Text) (network : Network) (local : List Text) where
  -- A record that is imported is canonical.
  imported-IsCanonical :
      (id : Text) (ids : List Text) (rs out : List MasternodeRecord) (r : MasternodeRecord)
      → import_masternodes lib password network local ids rs ≡ ok out
      → get_masternode id rs ≡ some r
      → IsCanonical lib.noble r network local
  unfolding import_masternodes get_masternode
  imported-IsCanonical id ids [] out r h found = cc
  imported-IsCanonical id ids (x ∷ rs) out r h found =
      bind_inv (canonical_masternode_record lib.noble x network local) h λ c accepted h1.
        throw_inv (has ids c.id) backup_record _ h1 λ _ h2.
          bind_inv (check_operator_seed lib password c) h2 λ _ _ h3.
            bind_inv (import_masternodes lib password network local (c.id ∷ ids) rs) h3
              λ others more _. elim (Bool-cases (x.id === id)) [
                | inl same ↦
                    let here : some x ≡ some r = rw same at found in
                    let this : x ≡ r = cc in
                    rw (← this)
                      (canonical_masternode_record-IsCanonical lib.noble x network local c
                        accepted).0
                | inr other ↦
                    imported-IsCanonical id (c.id ∷ ids) rs others r more (rw other at found)
              ]

-- A record that no list of addresses makes acceptable.
abbrev pub Refused : Network → MasternodeRecord → Type 0
Refused network r =
    ((local : List Text) → record_is_well_formed r network local ≡ false)
    ⊎ (lifecycle_is_valid r.status (or_empty r.registration_txid) (or_empty r.withdrawal_txid)
        ≡ false)

module _ (lib : Services) (env : Surroundings) (password : Text) where
  not_canonical :
      (b : Backup) (id : Text) (seen : List Text) (rs all ms : List MasternodeRecord)
      (r : MasternodeRecord)
      → b.version ≡ 3
      → b.masternodes ≡ some rs
      → get_masternode id rs ≡ some r
      → Refused b.network r
      → imported_masternodes b ≡ ok all
      → import_masternodes lib password b.network seen [] all ≡ ok ms
      → ⊥
  unfolding imported_masternodes
  not_canonical b id seen rs all ms r current listed found refused is_listed accepted =
      let same : rs ≡ all = ok-injective (rw (current, listed) at is_listed) in
      let c =
        imported-IsCanonical lib password b.network seen id [] all ms r accepted
          (rw (← same) found) in
      elim refused [
        | inl malformed ↦ cc (c.form, malformed seen)
        | inr dead ↦ cc (c.lifecycle, dead)
      ]

  -- A backup with a refused record cannot be imported, whatever else it holds.
  pub import_backup-refuses :
      (b : Backup) (t : Store) (id : Text) (rs : List MasternodeRecord) (r : MasternodeRecord)
      (out : (Network × List Text) × Store)
      → b.version ≡ 3
      → b.masternodes ≡ some rs
      → get_masternode id rs ≡ some r
      → Refused b.network r
      → import_backup lib env b password t ≢ ok out
  unfolding import_backup imported_masternodes
  import_backup-refuses b t id rs r out current listed found refused h =
      bind_inv (assert_password password) h λ _ _ h1.
        throw_inv
          (not (b.version == 1 || (b.version == 2 || b.version == pq_wallet_backup_version)))
          backup_version _ h1
          λ _ h2. bind_inv (assert_network b.network) h2 λ _ _ h3.
            throw_inv (length b.keys == 0) backup_keys _ h3 λ _ h4.
              throw_inv (ltb max_keys (length b.keys)) backup_keys _ h4 λ _ h5.
                throw_inv (has_wallet t.database) wallet_exists _ h5 λ _ h6.
                  bind_inv (import_phrase lib password b.encrypted_mnemonic) h6 λ phrase _ h7.
                    bind_inv (check_backup_keys lib password b.network phrase.1 0 [] b.keys) h7
                      λ seen _ h8. bind_inv (imported_masternodes b) h8 λ all is_listed h9.
                        throw_inv (ltb max_keys (length all)) backup_masternodes _ h9 λ _ h10.
                          bind_inv (import_masternodes lib password b.network seen [] all) h10
                            λ ms accepted _.
                              not_canonical b id seen rs all ms r current listed found refused
                                is_listed accepted
