-- ===== src/Legacy/Spending.antt =====
-- `createTransaction` of scripts/wallet.js. What it reads of the wallet is its argument: the mempool, the
-- block count, the shield library's balance, and the addresses that `getNewChangeAddress` gives.
use organic_web_wallet.Prelude.{
  ℕ, zero, suc, ◌+◌, ◌/◌, ◌%◌, Bool, true, false, not, ◌&&◌, some, List, [], ◌∷◌, ltb, leb, ◌===◌,
  ◌-◌, if◌then◌else◌, Result, ok, err, ◌>>=◌, ◌>>◌, throw_if, not_enough_balance,
  no_change_delegation, below_consensus,
}
use organic_web_wallet.Prelude.Int.{ℤ, pos, negsuc, leb_ℤ, ◌-ℤ◌}
use organic_web_wallet.Platform.{Text}
use organic_web_wallet.Mempool.{Mempool, MempoolUtxo}
use organic_web_wallet.Mempool.Spendable.{
  get_utxos, get_balance, get_cold_balance, ours_p2pkh, ours_p2cs,
}
use organic_web_wallet.Legacy.Addresses.{Library, Chain, is_shield_address}
use organic_web_wallet.Legacy.Transaction.{Transaction}
use organic_web_wallet.Legacy.Builder.{
  TransactionBuilder, ShieldRequest, create, get_fee, add_utxos, add_output, add_proposal_output,
  add_cold_stake_output, equally_subtract_amt, build,
}

pub record Wallet : Type 0 where
  pub mempool : Mempool
  pub block_count : ℕ
  pub shield_balance : ℕ
  pub new_return_address : Text
  pub new_change_address : Text

-- An empty text stands for an address that is not given.
pub record Options : Type 0 where
  pub is_delegation : Bool
  pub use_delegated_inputs : Bool
  pub use_shield_inputs : Bool
  pub delegate_change : Bool
  pub change_delegation_address : Text
  pub is_proposal : Bool
  pub subtract_fee_from_amt : Bool
  pub change_address : Text
  pub return_address : Text
  pub memo : Text

abbrev pub coin : ℕ
coin = 100000000

-- `if (!address) address = this.getNewChangeAddress()`
unfoldable pub or_new : Text → Text → Text
or_new [] fresh = fresh
or_new (c ∷ cs) fresh = c ∷ cs

-- The balance that may be spent, with the cache that reading it fills.
unfoldable pub available : Chain → Wallet → Options → ℤ × Mempool
available chain w o =
    if o.use_delegated_inputs
    then get_cold_balance chain.coinbase_maturity w.mempool w.block_count
    else if o.use_shield_inputs
    then (pos w.shield_balance, w.mempool)
    else get_balance chain.coinbase_maturity w.mempool w.block_count

-- The split of a delegation: `more` outputs of the target's value
unfoldable pub add_stakes :
    Library → Chain → Text → Text → ℕ → TransactionBuilder → Result TransactionBuilder
add_stakes library chain owner staker zero b = ok b
add_stakes library chain owner staker (suc more) b = do
  b1 ← add_cold_stake_output library chain b owner staker (pos chain.stake_split_target) false
  add_stakes library chain owner staker more b1

-- The first output of the split takes what is left over.
unfoldable pub add_delegation :
    Library → Chain → Text → Text → ℕ → TransactionBuilder → Result TransactionBuilder
add_delegation library chain owner staker value b = do
  let target = chain.stake_split_target
  throw_if (ltb value coin) below_consensus
  if ltb value target
      then add_cold_stake_output library chain b owner staker (pos value) false
      else add_cold_stake_output library chain b owner staker (pos (target + value % target)) false
        >>= add_stakes library chain owner staker (value / target - 1)

unfoldable pub add_primary :
    Library → Chain → Wallet → Options → Text → ℕ → TransactionBuilder → Result TransactionBuilder
add_primary library chain w o address value b =
    if o.is_delegation
    then add_delegation library chain (or_new o.return_address w.new_return_address) address value b
    else if o.is_proposal
    then ok (add_proposal_output library chain b address (pos value))
    else add_output library chain b address (pos value) false o.memo

-- What is left when the inputs have paid the outputs and the fee
unfoldable pub settle :
    Library → Chain → Wallet → Options → ℤ → TransactionBuilder → Result TransactionBuilder
settle library chain w o (negsuc n) b =
    if o.subtract_fee_from_amt then equally_subtract_amt (n + 1) b else err not_enough_balance
settle library chain w o (pos zero) b = ok b
settle library chain w o (pos (suc n)) b =
    let address = or_new o.change_address w.new_change_address in
    if o.delegate_change && leb coin (suc n)
    then add_cold_stake_output library chain b address o.change_delegation_address (pos (suc n))
        true
    else add_output library chain b address (pos (suc n)) true []

unfoldable pub spendable_utxos : Chain → Wallet → Options → ℕ → List MempoolUtxo
spendable_utxos chain w o value = get_utxos chain.coinbase_maturity w.mempool (record {
  requirement = if o.use_delegated_inputs then ours_p2cs else ours_p2pkh;
  include_immature = false;
  target = some value;
  block_count = w.block_count;
})

-- The inputs and the change; a shield transaction gets its change from the shield library.
unfoldable pub add_inputs :
    Library → Chain → Wallet → Options → Text → ℕ → TransactionBuilder → Result TransactionBuilder
add_inputs library chain w o address value b = do
  let b1 = add_utxos library b (spendable_utxos chain w o value)
  if is_shield_address library chain address
      then ok b1
      else get_fee chain b1 >>= λ fee.
          settle library chain w o (pos b1.value_in -ℤ b1.value_out -ℤ fee) b1

unfoldable pub created :
    Library → Chain → Wallet → Options → Text → ℕ → ℤ → Result (Transaction × List ShieldRequest)
created library chain w o address value balance = do
  throw_if (not (leb_ℤ (pos value) balance)) not_enough_balance
  throw_if (o.delegate_change && o.change_delegation_address === []) no_change_delegation
  b ← add_primary library chain w o address value create
  b1 ← if o.use_shield_inputs then ok b else add_inputs library chain w o address value b
  ok (build b1)

unfoldable pub create_transaction :
    Library
    → Chain
    → Wallet
    → Options
    → Text
    → ℕ
    → Result (Transaction × List ShieldRequest) × Wallet
create_transaction library chain w o address value =
    let (balance, mempool) = available chain w o in
    let w1 = record w { mempool = mempool } in
    (created library chain w1 o address value balance, w1)
