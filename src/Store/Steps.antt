-- ===== src/Store/Steps.antt =====
-- The states that a wallet can reach from an empty store, and the seeds that are in memory there.
use organic_web_wallet.Prelude.{◌≡◌, Bool, none, some, List, [], All, ok}
use organic_web_wallet.Platform.{Text, Bytes}
use organic_web_wallet.Address.{Network}
use organic_web_wallet.Store.Records.{
  WalletMeta, MasternodeRecord, Store, Backup, Services, Surroundings,
}
use organic_web_wallet.Store.Keys.{
  address_for_seed, lock_wallet, unlock_wallet, get_next_receive_address,
}
use organic_web_wallet.Store.Wallets.{Creation, Created, create_wallet}
use organic_web_wallet.Store.Imports.{import_backup, delete_wallet}
use organic_web_wallet.Store.Masternodes.{
  Registration, create_masternode_record, mark_masternode_registered,
  mark_masternode_collateral_withdrawn,
}

abbrev pub empty_store : Store
empty_store = record {
  database = record { wallet = none; keys = []; masternodes = [] };
  unlocked = none;
  receive_cursor = 0;
}

-- A call that succeeds; one that fails changes nothing.
pub data Step (lib : Services) (s s' : Store) : Type 0 where
  create :
      (env : Surroundings) (q : Creation) (made : Created)
      → create_wallet lib env q s ≡ ok (made, s')
      → Step lib s s'
  restore :
      (env : Surroundings) (b : Backup) (password : Text) (shown : Network × List Text)
      → import_backup lib env b password s ≡ ok (shown, s')
      → Step lib s s'
  unlock :
      (password : Text) (addresses : List Text)
      → unlock_wallet lib password s ≡ ok (addresses, s')
      → Step lib s s'
  lock : s' ≡ lock_wallet s → Step lib s s'
  receive : (address : Text) → get_next_receive_address s ≡ ok (address, s') → Step lib s s'
  delete :
      (password : Text) (existed : Bool)
      → delete_wallet lib password s ≡ ok (existed, s')
      → Step lib s s'
  add_masternode :
      (env : Surroundings) (q : Registration) (made : MasternodeRecord)
      → create_masternode_record lib env q s ≡ ok (made, s')
      → Step lib s s'
  register : (id txid : Text) → mark_masternode_registered id txid s ≡ ok s' → Step lib s s'
  withdraw :
      (id txid : Text) → mark_masternode_collateral_withdrawn id txid s ≡ ok s' → Step lib s s'

pub data Reachable (lib : Services) : Store → Type 0 where
  empty : Reachable lib empty_store
  after : {s s' : Store} → Reachable lib s → Step lib s s' → Reachable lib s'

-- The seed belongs to the address, on the network.
abbrev pub Owns : Services → Network → Text × Bytes → Type 0
Owns lib network (address, seed) = address_for_seed lib seed network ≡ ok address

-- What is unlocked are seeds of the addresses beside them, on the network of the stored wallet.
abbrev pub IsConsistent : Services → Store → Type 0
IsConsistent lib s =
    (seeds : List (Text × Bytes))
    → s.unlocked ≡ some seeds
    → (meta : WalletMeta) × (s.database.wallet ≡ some meta) × All (Owns lib meta.network) seeds
