-- ===== src/Masternode/FeeCoins.antt =====
-- `estimateMasternodeRegistrationSize` and `selectMasternodeFeeCoins` of
-- scripts/pqwallet/pqmasternode.js. Fee rate and values are what `BigInt(…)` makes of the arguments.
use organic_web_wallet.Prelude.{
  ℕ, ◌+◌, ◌-◌, ◌*◌, ◌/◌, Bool, ◌&&◌, ◌||◌, Option, none, some, List, [], ◌∷◌, length, ltb, leb,
  ◌==◌, ◌===◌, if◌then◌else◌, Result, ok, err, ◌>>=◌, ◌>>◌, throw_if, require, masternode_shape,
  fee_selection, fee_rate_not_positive, fee_funds,
}
use organic_web_wallet.Prelude.Int.{ℤ, pos, negsuc}
use organic_web_wallet.Platform.{Text}
use organic_web_wallet.Coins.{
  Coin, Paid, authorization_size, compact_size_length, total_of, pq_dust_sats, given_address,
}
use organic_web_wallet.Coins.Search.{sort_by_value}

abbrev pub registration_data_size : ℕ
registration_data_size = 11318

unfoldable pub registration_size : ℕ → ℕ → ℕ
registration_size inputs outputs =
    let payload_length =
      3
      + inputs * authorization_size
      + compact_size_length registration_data_size
      + registration_data_size in
    4
    + compact_size_length inputs
    + inputs * 41
    + compact_size_length outputs
    + outputs * 44
    + 4
    + 1
    + 1
    + compact_size_length payload_length
    + payload_length

-- With whole arguments that are not negative; every other one is refused as 0 is.
unfoldable pub estimate_masternode_registration_size : ℕ → ℕ → Result ℕ
estimate_masternode_registration_size inputs outputs = do
  throw_if (ltb inputs 1 || (ltb 2 inputs || (ltb outputs 1 || ltb 2 outputs))) masternode_shape
  ok (registration_size inputs outputs)

pub record FeeUtxo : Type 0 where
  pub txid : Text
  pub vout : ℕ
  pub address : Text
  pub value : ℤ

pub record CollateralPoint : Type 0 where
  pub txid : Text
  pub vout : ℕ

unfoldable pub is_collateral : CollateralPoint → Text → ℕ → Bool
is_collateral c txid vout = txid === c.txid && vout == c.vout

coin_of : FeeUtxo → ℕ → Coin
coin_of u n = record { txid = u.txid; vout = u.vout; address = u.address; value_sats = n }

-- The two filters: not the collateral, and of a positive value.
unfoldable pub fee_candidate : CollateralPoint → FeeUtxo → Option Coin
unfolding coin_of
fee_candidate c u =
    if is_collateral c u.txid u.vout
    then none
    else elim u.value [ pos n ↦ if ltb 0 n then some (coin_of u n) else none | negsuc n ↦ none ]

unfoldable pub keep_some : Option Coin → List Coin → List Coin
keep_some (some coin) rest = coin ∷ rest
keep_some none rest = rest

unfoldable pub fee_candidates : CollateralPoint → List FeeUtxo → List Coin
unfolding fee_candidate
fee_candidates c [] = []
fee_candidates c (u ∷ utxos) = keep_some (fee_candidate c u) (fee_candidates c utxos)

pub record FeeSelection : Type 0 where
  pub inputs : List Coin
  pub outputs : List Paid
  pub fee : ℕ
  pub change : ℕ

unfoldable pub registration_fee : ℕ → ℕ → ℕ
registration_fee inputs rate = (registration_size inputs 1 * rate + 1000 - 1) / 1000

-- Where the code's change is negative the one here is 0, and below the dust all the same.
unfoldable pub attempt : ℕ → Text → List Coin → Option FeeSelection
attempt rate change_address inputs =
    let fee = registration_fee (length inputs) rate in
    let change = total_of inputs - fee in
    if leb pq_dust_sats change
    then some (record {
      inputs = inputs;
      outputs = record { value = change; address = change_address } ∷ [];
      fee = fee;
      change = change;
    })
    else none

-- The first of two that there is.
unfoldable pub or_else : Option FeeSelection → Option FeeSelection → Option FeeSelection
or_else (some s) later = some s
or_else none later = later

unfoldable pub single : ℕ → Text → List Coin → Option FeeSelection
single rate address [] = none
single rate address (c ∷ coins) =
    or_else (attempt rate address (c ∷ [])) (single rate address coins)

-- `if (!best || selected.change < best.change) best = selected`
unfoldable pub better : Option FeeSelection → Option FeeSelection → Option FeeSelection
better best none = best
better none (some s) = some s
better (some b) (some s) = if ltb s.change b.change then some s else some b

unfoldable pub fee_pairs_with :
    ℕ → Text → Coin → List Coin → Option FeeSelection → Option FeeSelection
fee_pairs_with rate address c [] best = best
fee_pairs_with rate address c (d ∷ coins) best =
    fee_pairs_with rate address c coins (better best (attempt rate address (c ∷ d ∷ [])))

unfoldable pub fee_pairs : ℕ → Text → List Coin → Option FeeSelection → Option FeeSelection
fee_pairs rate address [] best = best
fee_pairs rate address (c ∷ coins) best =
    fee_pairs rate address coins (fee_pairs_with rate address c coins best)

unfoldable pub search_fee_coins : ℕ → Text → List Coin → Option FeeSelection
search_fee_coins rate address coins =
    or_else (single rate address coins) (fee_pairs rate address coins none)

pub record FeeRequest : Type 0 where
  pub utxos : List FeeUtxo
  pub collateral : CollateralPoint
  pub rate : ℤ
  pub change_address : Option Text

unfoldable pub rate_of : ℤ → Result ℕ
rate_of (pos n) = if ltb 0 n then ok n else err fee_rate_not_positive
rate_of (negsuc n) = err fee_rate_not_positive

unfoldable pub select_masternode_fee_coins : FeeRequest → Result FeeSelection
select_masternode_fee_coins r = do
  address ← require (given_address r.change_address) fee_selection
  rate ← rate_of r.rate
  require (search_fee_coins rate address (sort_by_value (fee_candidates r.collateral r.utxos)))
      fee_funds
