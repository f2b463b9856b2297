-- ===== src/Masternode/FeeSelection.antt =====
-- What the fee coins of a registration are worth, and that the collateral is none of them.
use mathlib.Core.Path.{subst}
use organic_web_wallet.Prelude.{
  ℕ, ◌+◌, ◌-◌, ◌≤◌, ◌≡◌, refl, false, Option, none, some, List, [], ◌∷◌, length, All, arith, ltb,
  leb, ok, inl, inr, require, bind_inv, require_ok, Bool-cases, fee_selection,
}
use organic_web_wallet.Prelude.Int.{ℤ, pos, negsuc}
use organic_web_wallet.Platform.{Text}
use organic_web_wallet.Coins.{Coin, total_of, pq_dust_sats, given_address}
use organic_web_wallet.Coins.Search.{sort_by_value}
use organic_web_wallet.Coins.Sort.{All-sort}
use organic_web_wallet.Masternode.FeeCoins.{
  CollateralPoint, FeeUtxo, FeeSelection, FeeRequest, is_collateral, fee_candidate, fee_candidates,
  registration_fee, attempt, keep_some, or_else, single, better, fee_pairs_with, fee_pairs,
  search_fee_coins, rate_of, select_masternode_fee_coins,
}

abbrev pub Free : CollateralPoint → Coin → Type 0
Free c coin = is_collateral c coin.txid coin.vout ≡ false

-- One or two coins, none of them the collateral, pay the fee of a registration of their number; all
-- that is left goes to the one output, and is no dust.
pub record IsFeeSelection (c : CollateralPoint) (rate : ℕ) (address : Text) (s : FeeSelection)
    : Type 0 where
  pub free : All (Free c) s.inputs
  pub some_inputs : 1 ≤ length s.inputs
  pub few_inputs : length s.inputs ≤ 2
  pub conserved : total_of s.inputs ≡ s.change + s.fee
  pub fee : s.fee ≡ registration_fee (length s.inputs) rate
  pub no_dust : pq_dust_sats ≤ s.change
  pub outputs : s.outputs ≡ record { value = s.change; address = address } ∷ []

module _ (c : CollateralPoint) (rate : ℕ) (address : Text) where
  -- The selection so far, if there is one.
  abbrev Good : Option FeeSelection → Type 0
  Good none = Unit {0}
  Good (some s) = IsFeeSelection c rate address s

  attempt-Good :
      (inputs : List Coin)
      → All (Free c) inputs
      → 1 ≤ length inputs
      → length inputs ≤ 2
      → Good (attempt rate address inputs)
  unfolding attempt
  attempt-Good inputs free least most =
      elim (Bool-cases
        (leb pq_dust_sats (total_of inputs - registration_fee (length inputs) rate))) [
          | inl enough ↦ rw enough (record {
            free = free;
            some_inputs = least;
            few_inputs = most;
            conserved = ground arith;
            fee = refl;
            no_dust = ground arith;
            outputs = refl;
          })
          | inr poor ↦ rw poor tt
        ]

  better-Good : (best next : Option FeeSelection) → Good best → Good next → Good (better best next)
  unfolding better
  better-Good best none g h = g
  better-Good none (some s) g h = h
  better-Good (some b) (some s) g h = elim (Bool-cases (ltb s.change b.change)) [
    | inl less ↦ rw less h
    | inr more ↦ rw more g
  ]

  or_else-Good :
      (first later : Option FeeSelection) → Good first → Good later → Good (or_else first later)
  unfolding or_else
  or_else-Good (some s) later g h = g
  or_else-Good none later g h = h

  single-Good : (coins : List Coin) → All (Free c) coins → Good (single rate address coins)
  unfolding single
  single-Good [] free = tt
  single-Good (x ∷ coins) free =
      or_else-Good (attempt rate address (x ∷ [])) (single rate address coins)
        (attempt-Good (x ∷ []) (free.0, tt) (omega arith) (omega arith)) (single-Good coins free.1)

  pairs_with-Good :
      (x : Coin) (coins : List Coin) (best : Option FeeSelection)
      → Free c x
      → All (Free c) coins
      → Good best
      → Good (fee_pairs_with rate address x coins best)
  unfolding fee_pairs_with
  pairs_with-Good x [] best f free g = g
  pairs_with-Good x (y ∷ coins) best f free g =
      pairs_with-Good x coins (better best (attempt rate address (x ∷ y ∷ []))) f free.1 (
        better-Good best _ g
          (attempt-Good (x ∷ y ∷ []) (f, (free.0, tt)) (omega arith) (omega arith)))

  pairs-Good :
      (coins : List Coin) (best : Option FeeSelection)
      → All (Free c) coins
      → Good best
      → Good (fee_pairs rate address coins best)
  unfolding fee_pairs
  pairs-Good [] best free g = g
  pairs-Good (x ∷ coins) best free g =
      pairs-Good coins (fee_pairs_with rate address x coins best) free.1
        (pairs_with-Good x coins best free.0 free.1 g)

  search-Good :
      (coins : List Coin) → All (Free c) coins → Good (search_fee_coins rate address coins)
  unfolding search_fee_coins
  search-Good coins free =
      or_else-Good (single rate address coins) (fee_pairs rate address coins none)
        (single-Good coins free) (pairs-Good coins none free tt)

fee_candidate-Free :
    (c : CollateralPoint) (u : FeeUtxo) (coin : Coin) → fee_candidate c u ≡ some coin → Free c coin
unfolding fee_candidate
fee_candidate-Free c u coin h = ground arith

rate_is : (z : ℤ) (n : ℕ) → rate_of z ≡ ok n → z ≡ pos n
unfolding rate_of
rate_is (pos m) n h = ground arith
rate_is (negsuc m) n h = cc

keep_some-Free :
    (c : CollateralPoint) (found : Option Coin) (rest : List Coin)
    → ((coin : Coin) → found ≡ some coin → Free c coin)
    → All (Free c) rest
    → All (Free c) (keep_some found rest)
unfolding keep_some
keep_some-Free c none rest f h = h
keep_some-Free c (some coin) rest f h = (f coin refl, h)

candidates-Free :
    (c : CollateralPoint) (utxos : List FeeUtxo) → All (Free c) (fee_candidates c utxos)
unfolding fee_candidates
candidates-Free c [] = tt
candidates-Free c (u ∷ utxos) =
    keep_some-Free c (fee_candidate c u) (fee_candidates c utxos) (fee_candidate-Free c u)
      (candidates-Free c utxos)

-- What `selectMasternodeFeeCoins` gives is a fee selection for the rate and the change address of the
-- request; the collateral is none of its inputs.
pub select_masternode_fee_coins-IsFeeSelection :
    (r : FeeRequest) (s : FeeSelection)
    → select_masternode_fee_coins r ≡ ok s
    → (address : Text) × (rate : ℕ) × (given_address r.change_address ≡ some address)
      × (r.rate ≡ pos rate)
      × IsFeeSelection r.collateral rate address s
unfolding select_masternode_fee_coins
select_masternode_fee_coins-IsFeeSelection r s h =
    bind_inv (require (given_address r.change_address) fee_selection) h λ address given h1.
      bind_inv (rate_of r.rate) h1 λ rate rated h2.
        let coins = fee_candidates r.collateral r.utxos in
        let found : search_fee_coins rate address (sort_by_value coins) ≡ some s =
          require_ok _ _ h2 in
        (
          address,
          rate,
          require_ok _ _ given,
          rate_is r.rate rate rated,
          subst (Good r.collateral rate address) found (
              search-Good r.collateral rate address (sort_by_value coins)
                (All-sort (Free r.collateral) coins (candidates-Free r.collateral r.utxos))),
        )
