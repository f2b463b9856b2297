-- ===== src/Store/Refusals.antt =====
-- Records of masternodes with which a backup cannot be restored.
use organic_web_wallet.Prelude.{
  ◌≡◌, ◌≢◌, refl, sym, ap, ◌∙◌, false, not, ◌||◌, ◌&&◌, some, List, [], ◌∷◌, ltb, ◌===◌, ===→eq,
  ===_refl, Result, ok, ◌>>=◌, require, bind_inv, throw_inv, ok-injective, require_ok, Option-cases,
  Bool-cases, inl, inr, arith, registration_txid, unknown_record, outpoint_form, wrong_network,
  foreign_address, payout_address, operator_payout_address, operator_reward, operator_encryption,
  not_initialized,
}
use organic_web_wallet.Platform.{Text}
use organic_web_wallet.Address.{Network, is_valid_pq_address, pq_id_from_public_key}
use organic_web_wallet.Vault.{pq_keypair_from_seed}
use organic_web_wallet.Store.Records.{
  MasternodeRecord, Status, Store, Backup, Services, Surroundings, before, put_masternode,
  get_masternode, has,
}
use organic_web_wallet.Store.Checks.{
  assert_password, assert_network, valid_outpoint, same_network, is_hex_text, is_empty,
  record_is_well_formed, lifecycle_is_valid, valid_service,
}
use organic_web_wallet.Store.Keys.{encrypt_or_throw, verify_password, get_addresses}
use organic_web_wallet.Store.Wallets.{export_backup}
use organic_web_wallet.Store.Imports.{import_backup}
use organic_web_wallet.Store.Masternodes.{
  Registration, save_masternode, add_masternode, create_masternode_record,
  mark_masternode_registered,
}
use organic_web_wallet.Store.Restore.{ok_state, ok_shown}
use organic_web_wallet.Store.Refused.{import_backup-refuses}

get_masternode-put_masternode :
    (r : MasternodeRecord) (rs : List MasternodeRecord)
    → get_masternode r.id (put_masternode r rs) ≡ some r
unfolding get_masternode put_masternode
get_masternode-put_masternode r [] = rw (===_refl r.id) refl
get_masternode-put_masternode r (x ∷ xs) = elim (Bool-cases (x.id === r.id)) [
  | inl same ↦ rw (same, put_masternode) (rw (===_refl r.id) refl)
  | inr other ↦ elim (Bool-cases (before r.id x.id)) [
    | inl first ↦ rw (other, first, put_masternode) (rw (===_refl r.id) refl)
    | inr later ↦
        rw (other, later, put_masternode, get_masternode)
          (rw (other, get_masternode) (get_masternode-put_masternode r xs))
  ]
]

get_masternode-id :
    (id : Text) (rs : List MasternodeRecord) (r : MasternodeRecord)
    → get_masternode id rs ≡ some r
    → r.id ≡ id
unfolding get_masternode
get_masternode-id id [] r h = cc
get_masternode-id id (x ∷ xs) r h = elim (Bool-cases (x.id === id)) [
  | inl same ↦
      let here : some x ≡ some r = rw same at h in
      let this : x ≡ r = cc in rw (← this) (===→eq x.id id same)
  | inr other ↦ get_masternode-id id xs r (rw other at h)
]

malformed_service :
    (r : MasternodeRecord) (network : Network) (local : List Text)
    → valid_service r.service ≡ false
    → record_is_well_formed r network local ≡ false
unfolding record_is_well_formed
malformed_service r network local bad = rw bad (ground arith)

added_record :
    (service : Text) (s : Store) (r : MasternodeRecord) {made : MasternodeRecord} {s' : Store}
    → r.service ≡ service
    → ◌≡◌ {A = Result (MasternodeRecord × Store)}
        (◌>>=◌ {Y = MasternodeRecord × Store} (add_masternode r s) (λ t. ok (r, t)))
        (ok (made, s'))
    → (made.service ≡ service) × (add_masternode made s ≡ ok s')
added_record service s r {made = made} {s' = s'} kept h =
    bind_inv (add_masternode r s) h λ t added end.
      let same : r ≡ made = ok_shown end in
      let state : t ≡ s' = ok_state end in
      (
        ap (λ (x : MasternodeRecord). x.service) (sym same) ∙ kept,
        rw (← same) (added ∙ ap ok state),
      )

-- What a successful creation of a record adds.
pub create_masternode_record_adds :
    (lib : Services) (env : Surroundings) (q : Registration) (s : Store) {made : MasternodeRecord}
    {s' : Store}
    → create_masternode_record lib env q s ≡ ok (made, s')
    → (made.service ≡ q.service) × (add_masternode made s ≡ ok s')
unfolding create_masternode_record
create_masternode_record_adds lib env q s h = bind_inv (assert_password q.password) h λ _ _ h1.
    bind_inv (assert_network q.network) h1 λ _ _ h2.
      throw_inv (not (valid_outpoint q.collateral_txid q.collateral_vout)) outpoint_form _ h2
        λ _ h3. bind_inv (verify_password lib s.database q.password) h3 λ meta _ h4.
          throw_inv (not (same_network meta.network q.network)) wrong_network _ h4 λ _ h5.
            throw_inv
              (not (has (get_addresses s) q.owner_address)
                || not (has (get_addresses s) q.collateral_address))
              foreign_address _ h5
              λ _ h6.
                throw_inv (not (is_valid_pq_address q.payout_address q.network)) payout_address _ h6
                  λ _ h7.
                    throw_inv
                      (not (is_empty q.operator_payout_address)
                        && not (is_valid_pq_address q.operator_payout_address q.network))
                      operator_payout_address _ h7
                      λ _ h8. throw_inv (ltb 10000 q.operator_reward) operator_reward _ h8 λ _ h9.
                        bind_inv (pq_keypair_from_seed lib.crypto env.fresh_seed) h9 λ pair _ h10.
                          bind_inv (pq_id_from_public_key lib.noble pair.public_key q.network) h10
                            λ id _ h11.
                              bind_inv
                                (encrypt_or_throw lib.crypto (env.entropy 0)
                                  (lib.noble.bytes_to_hex env.fresh_seed) q.password
                                  operator_encryption)
                                h11 λ encrypted _ h12. added_record q.service s _ refl h12

added_is_found :
    (r : MasternodeRecord) (s s' : Store)
    → add_masternode r s ≡ ok s'
    → get_masternode r.id s'.database.masternodes ≡ some r
unfolding add_masternode save_masternode
added_is_found r s s' h = elim (Option-cases (get_masternode r.id s.database.masternodes)) [
  | inl new ↦
      let saved : save_masternode r s ≡ s' = ok-injective (rw (new, add_masternode) at h) in
      rw (← saved) (get_masternode-put_masternode r s.database.masternodes)
  | inr (old, found) ↦ absurd (cc (rw (found, add_masternode) at h))
]

exported_parts :
    (s : Store) (b : Backup)
    → export_backup s ≡ ok b
    → (b.version ≡ 3) × (b.masternodes ≡ some s.database.masternodes)
unfolding export_backup
exported_parts s b h =
    bind_inv (require s.database.wallet not_initialized) h
      λ meta _ end. (cc (ok-injective end), cc (ok-injective end))

module _ (lib : Services) where
  -- A masternode record is created with a service that is no endpoint as well; the backup that is
  -- exported after that cannot be imported into any store, under any password.
  pub create_masternode_record-unrestorable :
      (env env' : Surroundings) (q : Registration) (s s' t : Store) (made : MasternodeRecord)
      (b : Backup) (password : Text) (out : (Network × List Text) × Store)
      → create_masternode_record lib env q s ≡ ok (made, s')
      → valid_service q.service ≡ false
      → export_backup s' ≡ ok b
      → import_backup lib env' b password t ≢ ok out
  create_masternode_record-unrestorable env env' q s s' t made b password out h bad exported =
      let (service, added) = create_masternode_record_adds lib env q s h in
      let (current, listed) = exported_parts s' b exported in
      import_backup-refuses lib env' password b t made.id s'.database.masternodes made out current
        listed (added_is_found made s s' added)
        (inl λ local. malformed_service made b.network local (ap valid_service service ∙ bad))

  dead_lifecycle :
      (registration withdrawal : Text)
      → withdrawal ≢ []
      → lifecycle_is_valid Status.registered registration withdrawal ≡ false
  unfolding lifecycle_is_valid
  dead_lifecycle registration [] some_text = absurd (some_text refl)
  dead_lifecycle registration (c ∷ cs) some_text = ground arith

  -- A withdrawn masternode can be marked as registered again; the backup that is exported after that
  -- cannot be imported into any store, under any password.
  pub mark_masternode_registered-unrestorable :
      (env : Surroundings) (id txid withdrawal : Text) (s s' t : Store) (r : MasternodeRecord)
      (b : Backup) (password : Text) (out : (Network × List Text) × Store)
      → get_masternode id s.database.masternodes ≡ some r
      → r.withdrawal_txid ≡ some withdrawal
      → withdrawal ≢ []
      → mark_masternode_registered id txid s ≡ ok s'
      → export_backup s' ≡ ok b
      → import_backup lib env b password t ≢ ok out
  unfolding mark_masternode_registered save_masternode
  mark_masternode_registered-unrestorable env id txid withdrawal s s' t r b password out found
        withdrew some_text h exported =
      let (current, listed) = exported_parts s' b exported in
      throw_inv (not (is_hex_text 64 txid)) registration_txid _ h λ _ h1.
        bind_inv (require (get_masternode id s.database.masternodes) unknown_record) h1
          λ x is_found end.
            let same : x ≡ r = cc (require_ok _ unknown_record is_found, found) in
            let marked : MasternodeRecord = record r {
              status = Status.registered;
              registration_txid = some txid;
            } in
            let saved : save_masternode marked s ≡ s' = rw (← same) (ok-injective end) in
            import_backup-refuses lib env password b t r.id s'.database.masternodes marked out
              current listed
              (rw (← saved) (get_masternode-put_masternode marked s.database.masternodes))
              (inr (rw withdrew (dead_lifecycle txid withdrawal some_text)))
