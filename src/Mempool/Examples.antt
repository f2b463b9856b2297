-- ===== src/Mempool/Examples.antt =====
-- A wallet with a mature output, an immature one and a spent one.
use organic_web_wallet.Prelude.{ℕ, ◌≡◌, refl, arith, true, false, none, some, [], ◌∷◌, All, ◌===◌}
use organic_web_wallet.Prelude.Int.{pos, negsuc}
use organic_web_wallet.Platform.{units}
use organic_web_wallet.Mempool.Transactions.{COutpoint, LegacyTx, same_outpoint}
use organic_web_wallet.Mempool.{
  Mempool, set_outpoint_status, invalid, is_spent, add_transaction, get_outpoint_status, get_status,
  with_bits, spent_bit,
}
use organic_web_wallet.Mempool.Spendable.{
  UtxoQuery, get_balance, get_cold_balance, get_immature_balance, ours_p2pkh, ours_p2cs, get_utxos,
  balance_internal, get_immature_cold_balance,
}
use organic_web_wallet.Mempool.Caches.{
  CacheReachable, empty, sets, transaction, balance, spendable_now, cold_now, immature_now,
  balances_current,
}
use organic_web_wallet.Mempool.Unspent.{total_value, total_value-get_utxos}
use organic_web_wallet.Mempool.Spending.{add_transaction-is_spent}
use organic_web_wallet.Mempool.Cold.{get_immature_cold_balance_zero}

abbrev at : ℕ → COutpoint
at n = record { txid = units "ab"; n = n }

abbrev payment : LegacyTx
payment = record {
  txid = units "ab";
  block_height = pos 5;
  vin = record { txid = units "cd"; n = 0 } ∷ [];
  vout =
      record { script = units "76"; value = 700 }
      ∷ record { script = units "76"; value = 300 }
      ∷ [];
}

abbrev pool : Mempool
pool = record {
  statuses = (at 0, ours_p2pkh) ∷ (at 1, with_bits ours_p2pkh spent_bit) ∷ [];
  txs = payment ∷ [];
  balances = record {
    balance = invalid;
    cold_balance = invalid;
    immature_balance = invalid;
    immature_cold_balance = invalid;
  };
}

abbrev query : UtxoQuery
query = record {
  requirement = ours_p2pkh;
  include_immature = false;
  target = none;
  block_count = 10;
}

total_value-get_utxos_example :
    total_value (get_utxos 100 pool query) ≡ balance_internal 100 pool ours_p2pkh (some 10) false
total_value-get_utxos_example = total_value-get_utxos 100 pool query refl

second_spent : is_spent pool (at 1) ≡ true
unfolding is_spent get_outpoint_status get_status same_outpoint ◌===◌ with_bits
second_spent = refl

abbrev spender : LegacyTx
spender = record { txid = units "ef"; block_height = negsuc 0; vin = at 0 ∷ []; vout = [] }

add_transaction-is_spent_example :
    All (λ i. is_spent (add_transaction pool spender) i ≡ true) (at 0 ∷ [])
    × (is_spent (add_transaction pool spender) (at 1) ≡ true)
add_transaction-is_spent_example = add_transaction-is_spent pool spender (at 1) second_spent

get_immature_cold_balance_zero_example :
    let (value, m') = get_immature_cold_balance 100 pool 10 in
    (value ≡ pos 0)
    × (m'.balances.cold_balance ≡ pos (balance_internal 100 pool ours_p2cs (some 10) true))
get_immature_cold_balance_zero_example = get_immature_cold_balance_zero 100 pool 10 refl refl

-- The coin of an empty pool is declared ours, its transaction comes in, and the balance is read.
abbrev no_coins : Mempool
no_coins = record {
  statuses = [];
  txs = [];
  balances = record {
    balance = invalid;
    cold_balance = invalid;
    immature_balance = invalid;
    immature_cold_balance = invalid;
  };
}

abbrev cached_pool : Mempool
cached_pool =
    (get_balance 100 (add_transaction (set_outpoint_status no_coins (at 0) ours_p2pkh) payment)
      10).1

cached_pool-CacheReachable : CacheReachable 100 10 cached_pool
cached_pool-CacheReachable =
    balance (transaction payment (omega arith) (sets (at 0) ours_p2pkh empty))

balances_current_example :
    ((get_balance 100 cached_pool 10).0 ≡ spendable_now 100 cached_pool 10)
    × (((get_cold_balance 100 cached_pool 10).0 ≡ cold_now 100 cached_pool 10)
        × ((get_immature_balance 100 cached_pool 10).0 ≡ immature_now 100 cached_pool 10))
balances_current_example = balances_current 100 10 cached_pool cached_pool-CacheReachable
