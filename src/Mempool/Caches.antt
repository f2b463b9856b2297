-- ===== src/Mempool/Caches.antt =====
-- The cached balances of scripts/mempool.js over sequences of its operations, at one block count of
-- the wallet.
use organic_web_wallet.Prelude.{
  ℕ, zero, suc, ◌+◌, ◌≤◌, ◌≡◌, refl, ap, ◌∙◌, Bool, true, false, Option, some, List, [], ◌∷◌,
  length, arith, ◌⊎◌, inl, inr, if◌then◌else◌,
}
use organic_web_wallet.Prelude.Int.{ℤ, pos, negsuc, ◌-ℤ◌}
use organic_web_wallet.Mempool.Transactions.{COutpoint, CTxOut, LegacyTx}
use organic_web_wallet.Mempool.{
  Mempool, Status, Balances, invalid, invalidate_balance_cache, get_outpoint_status,
  set_outpoint_status, add_outpoint_status, remove_outpoint_status, set_spent, spend_all,
  add_transaction,
}
use organic_web_wallet.Mempool.Spendable.{
  is_spendable, loop_outputs, loop_txs, loop_spendable_balance, balance_internal, or_update,
  keep_valid, ours_p2pkh, ours_p2cs, only_ours, get_balance, get_cold_balance, get_immature_balance,
}

-- The mempools that come about from the empty one, or from any that has been invalidated, while the
-- block count stays the same. The wallet's block count does not change together with an invalidation,
-- and so a change of it is not a step. A transaction has an input, and the immature cold balance, whose
-- getter fills the cold balance with another value, is not read.
pub data CacheReachable (maturity c : ℕ) : Mempool → Type 0 where
  empty : CacheReachable maturity c (record {
    statuses = [];
    txs = [];
    balances = record {
      balance = invalid;
      cold_balance = invalid;
      immature_balance = invalid;
      immature_cold_balance = invalid;
    };
  })
  invalidated : (m : Mempool) → CacheReachable maturity c (invalidate_balance_cache m)
  sets :
      {m : Mempool} (o : COutpoint) (s : Status)
      → CacheReachable maturity c m
      → CacheReachable maturity c (set_outpoint_status m o s)
  adds :
      {m : Mempool} (o : COutpoint) (s : Status)
      → CacheReachable maturity c m
      → CacheReachable maturity c (add_outpoint_status m o s)
  removes :
      {m : Mempool} (o : COutpoint) (s : Status)
      → CacheReachable maturity c m
      → CacheReachable maturity c (remove_outpoint_status m o s)
  transaction :
      {m : Mempool} (tx : LegacyTx)
      → 1 ≤ length tx.vin
      → CacheReachable maturity c m
      → CacheReachable maturity c (add_transaction m tx)
  balance :
      {m : Mempool}
      → CacheReachable maturity c m
      → CacheReachable maturity c (get_balance maturity m c).1
  cold_balance :
      {m : Mempool}
      → CacheReachable maturity c m
      → CacheReachable maturity c (get_cold_balance maturity m c).1
  immature_balance :
      {m : Mempool}
      → CacheReachable maturity c m
      → CacheReachable maturity c (get_immature_balance maturity m c).1

module _ (maturity : ℕ) where
  -- The three balances, computed anew
  abbrev pub spendable_now : Mempool → ℕ → ℤ
  spendable_now m c = pos (balance_internal maturity m ours_p2pkh (some c) false)

  abbrev pub cold_now : Mempool → ℕ → ℤ
  cold_now m c = pos (balance_internal maturity m ours_p2cs (some c) false)

  abbrev pub immature_now : Mempool → ℕ → ℤ
  immature_now m c =
      pos (balance_internal maturity m only_ours (some c) true) -ℤ spendable_now m c -ℤ cold_now m c

  -- A cache that is not valid, or holds what would be computed.
  record IsCurrent (m : Mempool) (c : ℕ) : Type 0 where
    balance : (m.balances.balance ≡ invalid) ⊎ (m.balances.balance ≡ spendable_now m c)
    cold : (m.balances.cold_balance ≡ invalid) ⊎ (m.balances.cold_balance ≡ cold_now m c)
    immature :
        (m.balances.immature_balance ≡ invalid) ⊎ (m.balances.immature_balance ≡ immature_now m c)

  or_update_current : (z fresh : ℤ) → (z ≡ invalid) ⊎ (z ≡ fresh) → or_update z fresh ≡ fresh
  unfolding or_update
  or_update_current z fresh (inl h) = rw h refl
  or_update_current (pos n) fresh (inr h) = h
  or_update_current (negsuc zero) fresh (inr h) = refl
  or_update_current (negsuc (suc n)) fresh (inr h) = h

  outputs_frame :
      (m : Mempool) (b : Balances) (requirement : Status) (fn : LegacyTx → ℕ → CTxOut → ℕ → ℕ)
      (tx : LegacyTx) (outputs : List CTxOut) (i value : ℕ)
      → loop_outputs (record m { balances = b }) requirement fn tx i outputs value
        ≡ loop_outputs m requirement fn tx i outputs value
  unfolding loop_outputs is_spendable get_outpoint_status
  outputs_frame m b requirement fn tx [] i value = refl
  outputs_frame m b requirement fn tx (o ∷ outputs) i value =
      outputs_frame m b requirement fn tx outputs (i + 1) (
        if is_spendable m requirement (record { txid = tx.txid; n = i })
        then fn tx i o value
        else value)

  txs_frame :
      (m : Mempool) (b : Balances) (requirement : Status) (fn : LegacyTx → ℕ → CTxOut → ℕ → ℕ)
      (txs : List LegacyTx) (value : ℕ)
      → loop_txs (record m { balances = b }) requirement fn txs value
        ≡ loop_txs m requirement fn txs value
  unfolding loop_txs
  txs_frame m b requirement fn [] value = refl
  txs_frame m b requirement fn (tx ∷ txs) value =
      rw (outputs_frame m b requirement fn tx tx.vout 0 value)
        (txs_frame m b requirement fn txs (loop_outputs m requirement fn tx 0 tx.vout value))

  -- A balance does not depend on the caches.
  internal_frame :
      (m : Mempool) (b : Balances) (requirement : Status) (c : Option ℕ) (immature : Bool)
      → balance_internal maturity (record m { balances = b }) requirement c immature
        ≡ balance_internal maturity m requirement c immature
  unfolding balance_internal loop_spendable_balance
  internal_frame m b requirement c immature = txs_frame m b requirement _ m.txs 0

  unset-IsCurrent :
      (m : Mempool) (c : ℕ)
      → m.balances.balance ≡ invalid
      → m.balances.cold_balance ≡ invalid
      → m.balances.immature_balance ≡ invalid
      → IsCurrent m c
  unset-IsCurrent m c plain cold immature = record {
    balance = inl plain;
    cold = inl cold;
    immature = inl immature;
  }

  -- Once an outpoint has been spent, no cache is valid.
  spend_all-IsCurrent :
      (m : Mempool) (c : ℕ) (inputs : List COutpoint)
      → IsCurrent m c ⊎ (1 ≤ length inputs)
      → IsCurrent (spend_all m inputs) c
  unfolding spend_all set_spent add_outpoint_status set_outpoint_status invalidate_balance_cache
  spend_all-IsCurrent m c [] (inl h) = h
  spend_all-IsCurrent m c [] (inr h) = absurd (omega (arith, h))
  spend_all-IsCurrent m c (o ∷ inputs) h =
      spend_all-IsCurrent (set_spent m o) c inputs
        (inl (unset-IsCurrent (set_spent m o) c refl refl refl))

  -- New caches on the same outpoints and transactions
  recached :
      (m : Mempool) (b : Balances) (c : ℕ)
      → (b.balance ≡ invalid) ⊎ (b.balance ≡ spendable_now m c)
      → (b.cold_balance ≡ invalid) ⊎ (b.cold_balance ≡ cold_now m c)
      → (b.immature_balance ≡ invalid) ⊎ (b.immature_balance ≡ immature_now m c)
      → IsCurrent (record m { balances = b }) c
  recached m b c plain cold immature = record {
    balance = rw internal_frame plain;
    cold = rw internal_frame cold;
    immature =
        rw
          (
            internal_frame m b ours_p2pkh (some c) false,
            internal_frame m b ours_p2cs (some c) false,
            internal_frame m b only_ours (some c) true,
          )
          immature;
  }

  plain_is :
      (m : Mempool) (c : ℕ) → IsCurrent m c → (get_balance maturity m c).0 ≡ spendable_now m c
  unfolding get_balance
  plain_is m c h = or_update_current m.balances.balance (spendable_now m c) h.balance

  cold_is : (m : Mempool) (c : ℕ) → IsCurrent m c → (get_cold_balance maturity m c).0 ≡ cold_now m c
  unfolding get_cold_balance
  cold_is m c h = or_update_current m.balances.cold_balance (cold_now m c) h.cold

  get_balance-IsCurrent :
      (m : Mempool) (c : ℕ) → IsCurrent m c → IsCurrent (get_balance maturity m c).1 c
  unfolding get_balance
  get_balance-IsCurrent m c h = recached m _ c (inr (plain_is m c h)) h.cold h.immature

  get_cold_balance-IsCurrent :
      (m : Mempool) (c : ℕ) → IsCurrent m c → IsCurrent (get_cold_balance maturity m c).1 c
  unfolding get_cold_balance
  get_cold_balance-IsCurrent m c h = recached m _ c h.balance (inr (cold_is m c h)) h.immature

  -- What the two other balances give while the immature one is read
  fresh_is :
      (m : Mempool) (c : ℕ)
      → IsCurrent m c
      → pos (balance_internal maturity m only_ours (some c) true)
          -ℤ (get_balance maturity m c).0
          -ℤ (get_cold_balance maturity (get_balance maturity m c).1 c).0
        ≡ immature_now m c
  unfolding get_balance
  fresh_is m c h =
      let after = cold_is (get_balance maturity m c).1 c (get_balance-IsCurrent m c h) in
      rw after (rw (plain_is m c h) (rw internal_frame refl))

  -- What holds of the fresh value, and of the cache unless it is invalid
  keep_valid_lem :
      (P : ℤ × Mempool → Type 0) (z : ℤ) (kept fresh : ℤ × Mempool)
      → P fresh
      → (z ≡ invalid) ⊎ P kept
      → P (keep_valid z kept fresh)
  unfolding keep_valid
  keep_valid_lem P z kept fresh now (inl unset) = rw unset now
  keep_valid_lem P (negsuc zero) kept fresh now (inr h) = now
  keep_valid_lem P (negsuc (suc n)) kept fresh now (inr h) = h
  keep_valid_lem P (pos n) kept fresh now (inr h) = h

  get_immature_balance-IsCurrent :
      (m : Mempool) (c : ℕ)
      → IsCurrent m c
      → ((get_immature_balance maturity m c).0 ≡ immature_now m c)
        × IsCurrent (get_immature_balance maturity m c).1 c
  unfolding get_immature_balance get_balance get_cold_balance
  get_immature_balance-IsCurrent m c h =
      let one = get_balance-IsCurrent m c h in
      let two = get_cold_balance-IsCurrent (get_balance maturity m c).1 c one in
      keep_valid_lem (λ r. (r.0 ≡ immature_now m c) × IsCurrent r.1 c) m.balances.immature_balance _
        _
        (
          fresh_is m c h,
          recached m _ c (inr (plain_is m c h))
              (inr (
                cold_is (get_balance maturity m c).1 c one
                ∙ ap pos (
                    internal_frame m
                      (record (m.balances) { balance = (get_balance maturity m c).0 }) ours_p2cs
                      (some c) false)))
              (inr (fresh_is m c h)),
        )
        (elim h.immature [ inl unset ↦ inl unset | inr current ↦ inr (current, h) ])

-- Whatever is cached is current.
CacheReachable-IsCurrent :
    (maturity c : ℕ) (m : Mempool) → CacheReachable maturity c m → IsCurrent maturity m c
unfolding add_transaction add_outpoint_status remove_outpoint_status set_outpoint_status
    invalidate_balance_cache
CacheReachable-IsCurrent maturity c m empty = unset-IsCurrent maturity _ c refl refl refl
CacheReachable-IsCurrent maturity c m (sets o s r) = unset-IsCurrent maturity _ c refl refl refl
CacheReachable-IsCurrent maturity c m (adds o s r) = unset-IsCurrent maturity _ c refl refl refl
CacheReachable-IsCurrent maturity c m (removes o s r) = unset-IsCurrent maturity _ c refl refl refl
CacheReachable-IsCurrent maturity c m (transaction tx some_left r) =
    spend_all-IsCurrent maturity _ c tx.vin (inr some_left)
CacheReachable-IsCurrent maturity c m (invalidated before) =
    unset-IsCurrent maturity _ c refl refl refl
CacheReachable-IsCurrent maturity c m (balance r) =
    get_balance-IsCurrent maturity _ c (CacheReachable-IsCurrent maturity c _ r)
CacheReachable-IsCurrent maturity c m (cold_balance r) =
    get_cold_balance-IsCurrent maturity _ c (CacheReachable-IsCurrent maturity c _ r)
CacheReachable-IsCurrent maturity c m (immature_balance r) =
    let (_, after) =
      get_immature_balance-IsCurrent maturity _ c (CacheReachable-IsCurrent maturity c _ r) in
    after

-- While the block count stays the same, in every mempool that comes about from the empty one, or from any
-- whose caches have been invalidated, by changes of outpoints, transactions that have inputs, and the
-- other getters, the three balances that are read are what they are when they are computed anew,
-- whatever is cached. This is for the operations without `getImmatureColdBalance`.
pub balances_current :
    (maturity c : ℕ) (m : Mempool)
    → CacheReachable maturity c m
    → ((get_balance maturity m c).0 ≡ spendable_now maturity m c)
      × (((get_cold_balance maturity m c).0 ≡ cold_now maturity m c)
          × ((get_immature_balance maturity m c).0 ≡ immature_now maturity m c))
balances_current maturity c m r =
    let h = CacheReachable-IsCurrent maturity c m r in
    let (immature, _) = get_immature_balance-IsCurrent maturity m c h in
    (plain_is maturity m c h, (cold_is maturity m c h, immature))
