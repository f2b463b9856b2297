-- ===== src/Store/Consistent.antt =====
-- The invariant of the states of scripts/pqwallet/pqwallet-store.js.
use mathlib.Core.Path.{subst}
use organic_web_wallet.Prelude.{
  Error, ◌≡◌, refl, sym, ap, ◌∙◌, Bool, true, false, not, none, some, List, [], ◌∷◌, All, ◌===◌,
  ===→eq, Result, ok, err, ◌>>=◌, ◌>>◌, throw_if, bind_inv, throw_inv, ok-injective, not-false,
  Option-cases, Bool-cases, inl, inr, wallet_corrupt,
}
use organic_web_wallet.Platform.{Text, Bytes}
use organic_web_wallet.Address.{Network}
use organic_web_wallet.Store.Records.{
  KeyRecord, WalletMeta, Database, Store, Services, set_seed, find_seed,
}
use organic_web_wallet.Store.Keys.{
  decrypt_seed_or_throw, address_for_seed, with_decrypted_seed, unlock_key, unlock_keys,
}
use organic_web_wallet.Store.Wallets.{has_wallet}
use organic_web_wallet.Store.Restore.{ok_state}
use organic_web_wallet.Store.Steps.{Owns, IsConsistent}

module _ (lib : Services) where
  module _ (network : Network) where
    set_seed-Owns :
        (a : Text) (seed : Bytes) (seeds : List (Text × Bytes))
        → Owns lib network (a, seed)
        → All (Owns lib network) seeds
        → All (Owns lib network) (set_seed a seed seeds)
    unfolding set_seed
    set_seed-Owns a seed [] h all = (h, tt)
    set_seed-Owns a seed ((b, old) ∷ rest) h all = elim (Bool-cases (b === a)) [
      | inl same ↦ rw (same, set_seed) (rw (===→eq b a same) h, all.1)
      | inr other ↦ rw (other, set_seed) (all.0, set_seed-Owns a seed rest h all.1)
    ]

    pub find_seed-Owns :
        (a : Text) (seed : Bytes) (seeds : List (Text × Bytes))
        → All (Owns lib network) seeds
        → find_seed a seeds ≡ some seed
        → Owns lib network (a, seed)
    unfolding find_seed
    find_seed-Owns a seed [] all h = cc
    find_seed-Owns a seed ((b, kept) ∷ rest) all h = elim (Bool-cases (b === a)) [
      | inl same ↦
          let here : some kept ≡ some seed = rw same at h in
          let found : kept ≡ seed = cc in rw (← found) (rw (← ===→eq b a same) all.0)
      | inr other ↦ find_seed-Owns a seed rest all.1 (rw other at h)
    ]

    unlock_key-Owns :
        (password : Text) (r : KeyRecord) (seed : Bytes)
        → unlock_key lib password network r ≡ ok seed
        → Owns lib network (r.address, seed)
    unfolding unlock_key with_decrypted_seed
    unlock_key-Owns password r seed h =
        bind_inv (decrypt_seed_or_throw lib r.encrypted_seed password) h λ opened _ h1.
          bind_inv (address_for_seed lib opened network) h1 λ address owned h2.
            throw_inv (not (address === r.address)) wallet_corrupt _ h2 λ same h3.
              let found : opened ≡ seed = ok-injective h3 in
              rw (← found) (rw owned (ap ok (===→eq address r.address (not-false _ same))))

    pub unlock_keys-Owns :
        (password : Text) (rs : List KeyRecord) (seeds out : List (Text × Bytes))
        → All (Owns lib network) seeds
        → unlock_keys lib password network rs seeds ≡ ok out
        → All (Owns lib network) out
    unfolding unlock_keys
    unlock_keys-Owns password [] seeds out all h = rw (← ok-injective h) all
    unlock_keys-Owns password (r ∷ rs) seeds out all h =
        bind_inv (unlock_key lib password network r) h λ seed opened h1.
          unlock_keys-Owns password rs (set_seed r.address seed seeds) out
            (set_seed-Owns r.address seed seeds (unlock_key-Owns password r seed opened) all) h1

  stored-has_wallet :
      (d : Database) (meta : WalletMeta) → d.wallet ≡ some meta → has_wallet d ≡ true
  unfolding has_wallet
  stored-has_wallet d meta h = rw (h, has_wallet) refl

  -- Without a wallet nothing is unlocked.
  pub locked_without_wallet :
      (s : Store) → IsConsistent lib s → has_wallet s.database ≡ false → s.unlocked ≡ none
  locked_without_wallet s inv free = elim (Option-cases s.unlocked) [
    | inl locked ↦ locked
    | inr (seeds, opened) ↦
        let (meta, stored, _) = inv seeds opened in cc (stored-has_wallet s.database meta stored)
  ]

  pub none-IsConsistent : (s : Store) → s.unlocked ≡ none → IsConsistent lib s
  none-IsConsistent s locked seeds opened = cc

  -- A step that leaves the wallet and the seeds alone.
  pub kept-IsConsistent :
      (s s' : Store)
      → s'.unlocked ≡ s.unlocked
      → s'.database.wallet ≡ s.database.wallet
      → IsConsistent lib s
      → IsConsistent lib s'
  kept-IsConsistent s s' same_seeds same_wallet inv seeds opened =
      let (meta, stored, all) = inv seeds (sym same_seeds ∙ opened) in
      (meta, same_wallet ∙ stored, all)

-- The state in which a call ends, where it does not throw.
pub data Ends {A : Type 0} (P : Store → Type 0) : Result (A × Store) → Type 0 where
  done : {a : A} {s : Store} → P s → Ends P (ok (a, s))
  failed : {e : Error} → Ends P (err e)

module _ {A : Type 0} {P : Store → Type 0} where
  pub Ends-bind :
      {B : Type 0} (m : Result B) {f : B → Result (A × Store)}
      → ((b : B) → m ≡ ok b → Ends P (f b))
      → Ends P (m >>= f)
  Ends-bind (ok b) rest = rest b refl
  Ends-bind (err e) rest = failed

  pub Ends-throw :
      (c : Bool) (e : Error) {k : Result (A × Store)}
      → (c ≡ false → Ends P k)
      → Ends P (throw_if c e >> k)
  Ends-throw false e rest = rest refl
  Ends-throw true e rest = failed

  pub Ends-at : {r : Result (A × Store)} {a : A} {s : Store} → Ends P r → r ≡ ok (a, s) → P s
  Ends-at (done p) h = subst P (ok_state h) p
  Ends-at failed h = cc

pub ruleset endings = (Ends-throw, Ends-bind, done)
