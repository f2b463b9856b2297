-- ===== src/Store/Records.antt =====
-- The records of the database of scripts/pqwallet/pqwallet-store.js, a backup, and the two stores that
-- hold several records.
use organic_web_wallet.Prelude.{
  ℕ, Bool, ◌||◌, Option, none, some, List, [], ◌∷◌, ◌==◌, ◌===◌, ltb, leb, ◌&&◌, if◌then◌else◌,
}
use organic_web_wallet.Platform.{Text, Bytes, Noble}
use organic_web_wallet.Address.{Network}
use organic_web_wallet.Vault.{Crypto, Entropy}

-- The label is `Address n`, and is kept as that n.
pub record KeyRecord : Type 0 where
  pub id : ℕ
  pub address : Text
  pub label : ℕ
  pub encrypted_seed : Text
  pub created_at : ℕ

pub record WalletMeta : Type 0 where
  pub network : Network
  pub created_at : ℕ
  pub verifier : Text
  pub encrypted_mnemonic : Option Text

-- `other` is a status that the code does not know. A missing field is `none`.
pub data Status : Type 0 where
  draft registered withdrawn other : Status

pub record MasternodeRecord : Type 0 where
  pub id : Text
  pub network : Network
  pub created_at : ℕ
  pub status : Status
  pub owner_address : Text
  pub collateral_address : Text
  pub payout_address : Text
  pub operator_payout_address : Text
  pub operator_reward : ℕ
  pub service : Text
  pub collateral_txid : Text
  pub collateral_vout : ℕ
  pub operator_public_key : Text
  pub encrypted_operator_seed : Text
  pub registration_txid : Option Text
  pub withdrawal_txid : Option Text

-- The object stores. What `getAll` returns stands in the order of the keys, which are the `id`s; the
-- keys of the wallet are numbered as they are added.
pub record Database : Type 0 where
  pub wallet : Option WalletMeta
  pub keys : List KeyRecord
  pub masternodes : List MasternodeRecord

-- `unlocked` holds the decrypted seeds by address.
pub record Store : Type 0 where
  pub database : Database
  pub unlocked : Option (List (Text × Bytes))
  pub receive_cursor : ℕ

pub record BackupKey : Type 0 where
  pub address : Text
  pub encrypted_seed : Text

pub record Backup : Type 0 where
  pub version : ℕ
  pub network : Network
  pub encrypted_mnemonic : Option Text
  pub keys : List BackupKey
  pub masternodes : Option (List MasternodeRecord)

-- `put` replaces the record with the same id, or adds one.
unfoldable pub put_key : KeyRecord → List KeyRecord → List KeyRecord
put_key r [] = r ∷ []
put_key r (x ∷ xs) = if x.id == r.id then r ∷ xs else x ∷ put_key r xs

unfoldable pub put_keys : List KeyRecord → List KeyRecord → List KeyRecord
put_keys [] kept = kept
put_keys (r ∷ rs) kept = put_keys rs (put_key r kept)

-- The order of text keys in the database: by code units, a shorter text first.
unfoldable pub before : Text → Text → Bool
before [] [] = Bool.false
before [] (d ∷ ds) = Bool.true
before (c ∷ cs) [] = Bool.false
before (c ∷ cs) (d ∷ ds) = ltb c d || c == d && before cs ds

-- `put` replaces the record with the same id, or adds one where its id belongs.
unfoldable pub put_masternode : MasternodeRecord → List MasternodeRecord → List MasternodeRecord
put_masternode r [] = r ∷ []
put_masternode r (x ∷ xs) =
    let later = put_masternode r xs in
    if x.id === r.id then r ∷ xs else if before r.id x.id then r ∷ x ∷ xs else x ∷ later

unfoldable pub put_masternodes :
    List MasternodeRecord → List MasternodeRecord → List MasternodeRecord
put_masternodes [] kept = kept
put_masternodes (r ∷ rs) kept = put_masternodes rs (put_masternode r kept)

unfoldable pub get_masternode : Text → List MasternodeRecord → Option MasternodeRecord
get_masternode id [] = none
get_masternode id (x ∷ xs) = if x.id === id then some x else get_masternode id xs

-- `[...records].sort((a, b) => a.id - b.id)`
unfoldable pub insert_by_id : KeyRecord → List KeyRecord → List KeyRecord
insert_by_id r [] = r ∷ []
insert_by_id r (x ∷ xs) = if leb r.id x.id then r ∷ x ∷ xs else x ∷ insert_by_id r xs

unfoldable pub sorted_keys : List KeyRecord → List KeyRecord
unfolding insert_by_id
sorted_keys [] = []
sorted_keys (r ∷ rs) = insert_by_id r (sorted_keys rs)

-- `new Set(...).has(text)`
unfoldable pub has : List Text → Text → Bool
has [] t = Bool.false
has (x ∷ xs) t = x === t || has xs t

-- `seeds.set(address, seed)` and `seeds.get(address)` of a Map
unfoldable pub set_seed : Text → Bytes → List (Text × Bytes) → List (Text × Bytes)
set_seed a seed [] = (a, seed) ∷ []
set_seed a seed ((b, old) ∷ rest) =
    if b === a then (b, seed) ∷ rest else (b, old) ∷ set_seed a seed rest

unfoldable pub find_seed : Text → List (Text × Bytes) → Option Bytes
find_seed a [] = none
find_seed a ((b, seed) ∷ rest) = if b === a then some seed else find_seed a rest

-- scripts/pqwallet/pqmnemonic.js, as far as the store uses it.
pub record Phrases : Type 0 where
  pub normalize : Text → Text
  pub validate : Text → Bool
  pub derive_seed : Text → ℕ → Option Bytes

pub record Services : Type 0 where
  pub noble : Noble
  pub crypto : Crypto
  pub phrases : Phrases

-- The clock, and what the random source gives: an `Entropy` for each encryption of a call, counted from
-- 0, a fresh phrase and a fresh operator seed.
pub record Surroundings : Type 0 where
  pub now : ℕ
  pub entropy : ℕ → Entropy
  pub fresh_mnemonic : Text
  pub fresh_seed : Bytes
