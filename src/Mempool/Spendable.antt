-- ===== src/Mempool/Spendable.antt =====
-- scripts/mempool.js: the outputs that can be spent and the cached balances.
use organic_web_wallet.Prelude.{
  ℕ, zero, ◌+◌, ◌*◌, Bool, true, false, not, ◌&&◌, ◌||◌, Option, none, some, List, [], ◌∷◌, ◌++◌,
  ltb, leb, if◌then◌else◌,
}
use organic_web_wallet.Prelude.Int.{ℤ, pos, negsuc, ◌-ℤ◌}
use organic_web_wallet.Mempool.Transactions.{COutpoint, CTxOut, LegacyTx, is_immature}
use organic_web_wallet.Mempool.{get_outpoint_status, Status, MempoolUtxo, Mempool, meets}

-- Neither spent nor locked, and with the bits that are asked for.
unfoldable pub is_spendable : Mempool → Status → COutpoint → Bool
is_spendable m requirement o =
    let s = get_outpoint_status m o in not (s.spent || s.locked) && meets s requirement

-- The inner loop of `loopSpendableBalance`, over the outputs from an index on.
unfoldable pub loop_outputs {ℓ} :
    {T : Type ℓ}
    → Mempool
    → Status
    → (LegacyTx → ℕ → CTxOut → T → T)
    → LegacyTx
    → ℕ
    → List CTxOut
    → T
    → T
loop_outputs m requirement fn tx i [] value = value
loop_outputs m requirement fn tx i (out ∷ outputs) value =
    loop_outputs m requirement fn tx (i + 1) outputs (
      if is_spendable m requirement (record { txid = tx.txid; n = i })
      then fn tx i out value
      else value)

unfoldable pub loop_txs {ℓ} :
    {T : Type ℓ} → Mempool → Status → (LegacyTx → ℕ → CTxOut → T → T) → List LegacyTx → T → T
loop_txs m requirement fn [] value = value
loop_txs m requirement fn (tx ∷ txs) value =
    loop_txs m requirement fn txs (loop_outputs m requirement fn tx 0 tx.vout value)

unfoldable pub loop_spendable_balance {ℓ} :
    {T : Type ℓ} → Mempool → Status → T → (LegacyTx → ℕ → CTxOut → T → T) → T
loop_spendable_balance m requirement initial fn = loop_txs m requirement fn m.txs initial

-- `bal >= (target * 11) / 10 && bal > 0`, without the rounding of the division; `none` is the
-- infinite target.
unfoldable pub is_reached : Option ℕ → ℕ → Bool
is_reached none bal = false
is_reached (some target) bal = leb (target * 11) (bal * 10) && ltb 0 bal

pub record UtxoQuery : Type 0 where
  pub requirement : Status
  pub include_immature : Bool
  pub target : Option ℕ
  pub block_count : ℕ

abbrev pub utxo_of : LegacyTx → ℕ → CTxOut → MempoolUtxo
utxo_of tx i out = record {
  outpoint = record { txid = tx.txid; n = i };
  script = out.script;
  value = out.value;
}

-- With the outputs so far and their total.
unfoldable pub collect :
    ℕ → UtxoQuery → LegacyTx → ℕ → CTxOut → List MempoolUtxo × ℕ → List MempoolUtxo × ℕ
collect maturity q tx i out (utxos, bal) =
    if not q.include_immature && is_immature maturity q.block_count tx || is_reached q.target bal
    then (utxos, bal)
    else (utxos ++ (utxo_of tx i out ∷ []), bal + out.value)

unfoldable pub get_utxos : ℕ → Mempool → UtxoQuery → List MempoolUtxo
get_utxos maturity m q =
    let (utxos, bal) = loop_spendable_balance m q.requirement ([], 0) (collect maturity q) in utxos

-- `tx.isImmature(blockCount)`, where `none` is an undefined block count: the difference is not a number
-- then, and not less than the maturity.
unfoldable pub is_immature_at : ℕ → Option ℕ → LegacyTx → Bool
is_immature_at maturity none tx = false
is_immature_at maturity (some block_count) tx = is_immature maturity block_count tx

unfoldable pub count_value : ℕ → Option ℕ → Bool → LegacyTx → ℕ → CTxOut → ℕ → ℕ
unfolding is_immature_at
count_value maturity block_count include_immature tx i out value =
    if not (is_immature_at maturity block_count tx) || include_immature
    then value + out.value
    else value

unfoldable pub balance_internal : ℕ → Mempool → Status → Option ℕ → Bool → ℕ
balance_internal maturity m requirement block_count include_immature =
    loop_spendable_balance m requirement 0 (count_value maturity block_count include_immature)

-- `getOrUpdateInvalid`
unfoldable pub or_update : ℤ → ℤ → ℤ
or_update (negsuc zero) fresh = fresh
or_update value fresh = value

abbrev pub ours_p2pkh : Status
ours_p2pkh = record { ours = true; p2pkh = true; p2cs = false; spent = false; locked = false }

abbrev pub ours_p2cs : Status
ours_p2cs = record { ours = true; p2pkh = false; p2cs = true; spent = false; locked = false }

abbrev pub only_ours : Status
only_ours = record { ours = true; p2pkh = false; p2cs = false; spent = false; locked = false }

-- A getter gives its value and the mempool with the cache filled.
unfoldable pub get_balance : ℕ → Mempool → ℕ → ℤ × Mempool
get_balance maturity m block_count =
    let value =
      or_update m.balances.balance
        (pos (balance_internal maturity m ours_p2pkh (some block_count) false)) in
    (value, record m { balances = record (m.balances) { balance = value } })

unfoldable pub get_cold_balance : ℕ → Mempool → ℕ → ℤ × Mempool
get_cold_balance maturity m block_count =
    let value =
      or_update m.balances.cold_balance
        (pos (balance_internal maturity m ours_p2cs (some block_count) false)) in
    (value, record m { balances = record (m.balances) { cold_balance = value } })

-- `getOrUpdateInvalid` where the update reads other balances, which are not read for a valid cache
unfoldable pub keep_valid : ℤ → ℤ × Mempool → ℤ × Mempool → ℤ × Mempool
keep_valid (negsuc zero) kept fresh = fresh
keep_valid value kept fresh = kept

-- What a valid cache holds is given without reading the two other balances.
unfoldable pub get_immature_balance : ℕ → Mempool → ℕ → ℤ × Mempool
get_immature_balance maturity m block_count =
    let all = pos (balance_internal maturity m only_ours (some block_count) true) in
    let (plain, m1) = get_balance maturity m block_count in
    let (cold, m2) = get_cold_balance maturity m1 block_count in
    let fresh = all -ℤ plain -ℤ cold in
    keep_valid m.balances.immature_balance (m.balances.immature_balance, m)
      (fresh, record m2 { balances = record (m2.balances) { immature_balance = fresh } })

-- `getColdBalance()`, without a block count
unfoldable pub cold_balance_without_count : ℕ → Mempool → ℤ × Mempool
cold_balance_without_count maturity m =
    let value =
      or_update m.balances.cold_balance (pos (balance_internal maturity m ours_p2cs none false)) in
    (value, record m { balances = record (m.balances) { cold_balance = value } })

unfoldable pub get_immature_cold_balance : ℕ → Mempool → ℕ → ℤ × Mempool
get_immature_cold_balance maturity m block_count =
    let all = pos (balance_internal maturity m ours_p2cs (some block_count) true) in
    let (cold, m1) = cold_balance_without_count maturity m in
    let fresh = all -ℤ cold in
    keep_valid m.balances.immature_cold_balance (m.balances.immature_cold_balance, m)
      (fresh, record m1 { balances = record (m1.balances) { immature_cold_balance = fresh } })
