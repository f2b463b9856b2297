-- ===== src/Mempool/Transactions.antt =====
-- The parts of scripts/transaction.js that scripts/mempool.js uses. Amounts are whole satoshi below
-- 2 ^ 53, where sums of Numbers are exact.
use organic_web_wallet.Prelude.{ℕ, Bool, true, false, not, ◌&&◌, ◌||◌, List, [], ◌∷◌, ◌==◌, ◌===◌}
use organic_web_wallet.Prelude.Int.{ℤ, pos, leb_ℤ, ◌-ℤ◌}
use organic_web_wallet.Platform.{Text, units}

-- The code compares outpoints by the text of the id followed by the index, which for ids of one length
-- says the same.
pub record COutpoint : Type 0 where
  pub txid : Text
  pub n : ℕ

unfoldable pub same_outpoint : COutpoint → COutpoint → Bool
same_outpoint a b = a.txid === b.txid && a.n == b.n

pub record CTxOut : Type 0 where
  pub script : Text
  pub value : ℕ

unfoldable pub is_empty : CTxOut → Bool
is_empty o = o.value == 0 && (o.script === units "f8" || o.script === [])

-- `vin` holds the outpoints that are spent; a height of -1 is a transaction without a block.
pub record LegacyTx : Type 0 where
  pub txid : Text
  pub block_height : ℤ
  pub vin : List COutpoint
  pub vout : List CTxOut

unfoldable pub is_coin_stake : LegacyTx → Bool
unfolding is_empty
is_coin_stake tx = elim tx.vout [ o ∷ p ∷ outputs ↦ is_empty o | _ ↦ false ]

-- `/^0*$/`
unfoldable pub only_zeros : Text → Bool
only_zeros [] = true
only_zeros (c ∷ cs) = c == b'0' && only_zeros cs

unfoldable pub is_coin_base : LegacyTx → Bool
unfolding only_zeros
is_coin_base tx = elim tx.vin [ i ∷ [] ↦ only_zeros i.txid | _ ↦ false ]

-- `blockCount - this.blockHeight < coinbaseMaturity`, for a generated coin
unfoldable pub is_immature : ℕ → ℕ → LegacyTx → Bool
is_immature maturity block_count tx =
    (is_coin_stake tx || is_coin_base tx)
    && not (leb_ℤ (pos maturity) (pos block_count -ℤ tx.block_height))
