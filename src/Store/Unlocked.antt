-- ===== src/Store/Unlocked.antt =====
-- In every reachable state the seeds in memory are those of the stored wallet.
use mathlib.Core.Path.{subst}
use organic_web_wallet.Prelude.{
  wrong_password, registration_txid, withdrawal_txid, unknown_record, ◌≡◌, refl, ap, ◌∙◌, false,
  not, some, List, [], ◌===◌, ok, require, bind_inv, throw_inv, ok-injective, require_ok,
  Option-cases, Bool-cases, inl, inr, wallet_locked, unknown_address, not_initialized,
}
use organic_web_wallet.Platform.{Text, Bytes}
use organic_web_wallet.Store.Records.{
  Status, WalletMeta, MasternodeRecord, Database, Store, Backup, Services, Surroundings,
  sorted_keys, get_masternode,
}
use organic_web_wallet.Store.Checks.{assert_password, is_hex_text}
use organic_web_wallet.Vault.{decrypt}
use organic_web_wallet.Store.Keys.{
  address_for_seed, unlock_keys, lock_wallet, unlock_wallet, verify_password, verifier_plaintext,
  get_next_receive_address, get_seed,
}
use organic_web_wallet.Store.Wallets.{Creation, has_wallet, create_wallet, write_wallet}
use organic_web_wallet.Store.Imports.{import_backup, delete_wallet, erase_verified, erase_wallet}
use organic_web_wallet.Store.Masternodes.{
  add_masternode, save_masternode, mark_masternode_registered, mark_masternode_collateral_withdrawn,
}
use organic_web_wallet.Store.Refusals.{create_masternode_record_adds}
use organic_web_wallet.Store.Steps.{Step, Reachable, IsConsistent, empty_store}
use organic_web_wallet.Store.Consistent.{
  kept-IsConsistent, locked_without_wallet, endings, unlock_keys-Owns, find_seed-Owns, Ends-at,
  done, none-IsConsistent, Ends-bind, Ends,
}

module _ (lib : Services) (s : Store) (inv : IsConsistent lib s) where
  free-IsConsistent :
      (s' : Store) → s'.unlocked ≡ s.unlocked → has_wallet s.database ≡ false → IsConsistent lib s'
  free-IsConsistent s' same free =
      none-IsConsistent lib s' (same ∙ locked_without_wallet lib s inv free)

  create_wallet-IsConsistent :
      (env : Surroundings) (q : Creation) → Ends (IsConsistent lib) (create_wallet lib env q s)
  unfolding create_wallet write_wallet
  create_wallet-IsConsistent env q = search (endings, free-IsConsistent) depth 16

  import_backup-IsConsistent :
      (env : Surroundings) (b : Backup) (password : Text)
      → Ends (IsConsistent lib) (import_backup lib env b password s)
  unfolding import_backup write_wallet
  import_backup-IsConsistent env b password = search (endings, free-IsConsistent) depth 24

  unlocked-IsConsistent :
      (password : Text) (meta : WalletMeta) (seeds : List (Text × Bytes)) (s' : Store)
      → s'.unlocked ≡ some seeds
      → s'.database ≡ s.database
      → verify_password lib s.database password ≡ ok meta
      → unlock_keys lib password meta.network (sorted_keys s.database.keys) [] ≡ ok seeds
      → IsConsistent lib s'
  unfolding verify_password
  unlocked-IsConsistent password meta seeds s' held same verified opened out h =
      let stored : s.database.wallet ≡ some meta =
        bind_inv (require s.database.wallet not_initialized) verified λ found stored rest.
          bind_inv (require (decrypt lib.crypto found.verifier password) wrong_password) rest
            λ verifier _ rest'.
              throw_inv (not (verifier === verifier_plaintext)) wrong_password _ rest'
                λ _ last. require_ok _ not_initialized stored ∙ ap some (ok-injective last) in
      let equal : seeds ≡ out = cc in
      (
        meta,
        ap (λ (d : Database). d.wallet) same ∙ stored,
        rw (← equal) (
            unlock_keys-Owns lib meta.network password (sorted_keys s.database.keys) [] seeds tt
              opened),
      )

  unlock_wallet-IsConsistent :
      (password : Text) → Ends (IsConsistent lib) (unlock_wallet lib password s)
  unfolding unlock_wallet
  unlock_wallet-IsConsistent password = search (endings, unlocked-IsConsistent password) depth 12

  get_next_receive_address-IsConsistent : Ends (IsConsistent lib) (get_next_receive_address s)
  unfolding get_next_receive_address
  get_next_receive_address-IsConsistent = search endings depth 12

  erase_verified-IsConsistent :
      (password : Text) → Ends (IsConsistent lib) (erase_verified lib password s)
  unfolding erase_verified erase_wallet
  erase_verified-IsConsistent password =
      Ends-bind (verify_password lib s.database password)
        λ _ _. done (none-IsConsistent lib (erase_wallet s) refl)

  delete_wallet-IsConsistent :
      (password : Text) → Ends (IsConsistent lib) (delete_wallet lib password s)
  unfolding delete_wallet
  delete_wallet-IsConsistent password = Ends-bind (assert_password password) λ _ _.
      elim (Bool-cases (has_wallet s.database)) [
        | inl stored ↦ rw stored (erase_verified-IsConsistent password)
        | inr free ↦ rw free (done inv)
      ]

  save_masternode-IsConsistent : (r : MasternodeRecord) → IsConsistent lib (save_masternode r s)
  unfolding save_masternode
  save_masternode-IsConsistent r = kept-IsConsistent lib s (save_masternode r s) refl refl inv

  add_masternode-IsConsistent :
      (r : MasternodeRecord) (s' : Store) → add_masternode r s ≡ ok s' → IsConsistent lib s'
  unfolding add_masternode
  add_masternode-IsConsistent r s' h =
      elim (Option-cases (get_masternode r.id s.database.masternodes)) [
        | inl new ↦
            subst (IsConsistent lib) (ok-injective (rw (new, add_masternode) at h))
              (save_masternode-IsConsistent r)
        | inr (old, found) ↦ absurd (cc (rw (found, add_masternode) at h))
      ]

  mark_masternode_registered-IsConsistent :
      (id txid : Text) (s' : Store)
      → mark_masternode_registered id txid s ≡ ok s'
      → IsConsistent lib s'
  unfolding mark_masternode_registered
  mark_masternode_registered-IsConsistent id txid s' h =
      throw_inv (not (is_hex_text 64 txid)) registration_txid _ h λ _ h1.
        bind_inv (require (get_masternode id s.database.masternodes) unknown_record) h1 λ r _ h2.
          subst (IsConsistent lib) (ok-injective h2) (
            save_masternode-IsConsistent
              (record r { status = Status.registered; registration_txid = some txid }))

  mark_masternode_collateral_withdrawn-IsConsistent :
      (id txid : Text) (s' : Store)
      → mark_masternode_collateral_withdrawn id txid s ≡ ok s'
      → IsConsistent lib s'
  unfolding mark_masternode_collateral_withdrawn
  mark_masternode_collateral_withdrawn-IsConsistent id txid s' h =
      throw_inv (not (is_hex_text 64 txid)) withdrawal_txid _ h λ _ h1.
        bind_inv (require (get_masternode id s.database.masternodes) unknown_record) h1 λ r _ h2.
          subst (IsConsistent lib) (ok-injective h2) (
            save_masternode-IsConsistent
              (record r { status = Status.withdrawn; withdrawal_txid = some txid }))

  -- Every step keeps the invariant.
  Step-IsConsistent : {s' : Store} → Step lib s s' → IsConsistent lib s'
  Step-IsConsistent (Step.create env q made h) = Ends-at (create_wallet-IsConsistent env q) h
  Step-IsConsistent (Step.restore env b password shown h) =
      Ends-at (import_backup-IsConsistent env b password) h
  Step-IsConsistent (Step.unlock password addresses h) =
      Ends-at (unlock_wallet-IsConsistent password) h
  Step-IsConsistent {s' = s'} (Step.lock h) =
      none-IsConsistent lib s' (unfold lock_wallet in ap (λ (t : Store). t.unlocked) h)
  Step-IsConsistent (Step.receive address h) = Ends-at get_next_receive_address-IsConsistent h
  Step-IsConsistent (Step.delete password existed h) =
      Ends-at (delete_wallet-IsConsistent password) h
  Step-IsConsistent {s' = s'} (Step.add_masternode env q made h) =
      add_masternode-IsConsistent made s' (create_masternode_record_adds lib env q s h).1
  Step-IsConsistent {s' = s'} (Step.register id txid h) =
      mark_masternode_registered-IsConsistent id txid s' h
  Step-IsConsistent {s' = s'} (Step.withdraw id txid h) =
      mark_masternode_collateral_withdrawn-IsConsistent id txid s' h

-- In every state that a wallet can reach, what is unlocked are seeds of the addresses beside them, on
-- the network of the stored wallet.
pub Reachable-IsConsistent : {lib : Services} {s : Store} → Reachable lib s → IsConsistent lib s
Reachable-IsConsistent {lib = lib} Reachable.empty = none-IsConsistent lib empty_store refl
Reachable-IsConsistent {lib = lib} (Reachable.after {s = s} r step) =
    Step-IsConsistent lib s (Reachable-IsConsistent r) step

-- In every state that a wallet can reach, a seed that is handed out for an address has that address,
-- on the network of the stored wallet.
pub get_seed-Owns :
    {lib : Services} {s : Store} (a : Text) (seed : Bytes)
    → Reachable lib s
    → get_seed a s ≡ ok seed
    → (meta : WalletMeta) × (s.database.wallet ≡ some meta)
      × (address_for_seed lib seed meta.network ≡ ok a)
unfolding get_seed
get_seed-Owns {lib = lib} {s = s} a seed r h =
    bind_inv (require s.unlocked wallet_locked) h λ seeds opened rest.
      let (meta, stored, all) =
        Reachable-IsConsistent r seeds (require_ok _ wallet_locked opened) in
      (
        meta,
        stored,
        find_seed-Owns lib meta.network a seed seeds all (require_ok _ unknown_address rest),
      )
