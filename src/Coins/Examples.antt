-- ===== src/Coins/Examples.antt =====
-- The choice of coins on two wallets: one with a coin that is enough, one with coins that are not.
use organic_web_wallet.Prelude.{
  ℕ, ◌≤◌, ◌≡◌, refl, some, List, [], ◌∷◌, All, ok, err, map_result, leb, ◌+◌, if◌then◌else◌,
  too_many_inputs, insufficient_funds,
}
use organic_web_wallet.Prelude.Int.{pos}
use organic_web_wallet.Platform.{bigint, number, units, whole}
use organic_web_wallet.Coins.{
  Utxo, Coin, Selection, Ask, to_big_int, compact_size_length, transfer_size, fee_for, total_from,
  total_of, given_address, with_change, build_selection, pq_dust_sats,
}
use organic_web_wallet.Coins.Search.{
  SelectRequest, first_single, is_no_better, keep_better, try_pair, pairs_with, all_pairs,
  insert_by_value, sort_by_value, natural, candidate, give_up, search_coins, check_request,
  select_coins,
}
use organic_web_wallet.Coins.Sort.{AllPairs}
use organic_web_wallet.Coins.Build.{Affordable, IsSelection}
use organic_web_wallet.Coins.Select.{TakenFrom, Cheapest}
use organic_web_wallet.Coins.Outcomes.{
  select_coins-IsSelection, select_coins-Cheapest, select_coins-fails,
}

abbrev utxo : ℕ → ℕ → Utxo
utxo vout value = record {
  txid = units "aa";
  vout = vout;
  address = units "me";
  value = number (pos value);
}

abbrev coin : ℕ → ℕ → Coin
coin vout value = record {
  txid = units "aa";
  vout = vout;
  address = units "me";
  value_sats = value;
}

abbrev request : List Utxo → SelectRequest
request utxos = record {
  utxos = utxos;
  amount_sats = bigint (pos 1000000);
  fee_rate = some (bigint (pos 1000000));
  configured = bigint (pos 0);
  recipient_address = units "you";
  change_address = some (units "me");
}

abbrev ask : Ask
ask = record {
  amount = 1000000;
  fee_rate = 1000000;
  recipient = units "you";
  change_address = some (units "me");
}

abbrev rich : List Coin
rich = coin 0 20000000 ∷ coin 1 4500000 ∷ coin 2 5900000 ∷ []

abbrev rich_request : SelectRequest
rich_request = request (utxo 0 20000000 ∷ utxo 1 4500000 ∷ utxo 2 5900000 ∷ [])

-- The least coin that is enough; 3,879,000 is the fee with change.
abbrev selection : Selection
selection = record {
  inputs = coin 2 5900000 ∷ [];
  outputs =
      record { value = 1000000; address = units "you" }
      ∷ record { value = 1021000; address = units "me" }
      ∷ [];
  fee = 3879000;
  change = 1021000;
}

rich_checks : check_request rich_request ≡ ok (ask, rich)
unfolding check_request to_big_int whole map_result candidate natural
rich_checks = refl

rich_selects : select_coins rich_request ≡ ok selection
unfolding select_coins check_request to_big_int whole map_result candidate natural search_coins
    first_single sort_by_value insert_by_value build_selection total_of total_from fee_for
    transfer_size compact_size_length given_address with_change
rich_selects = refl

select_coins-IsSelection_example :
    IsSelection ask selection
    × TakenFrom rich selection
    × All (λ p. pq_dust_sats ≤ p.value) selection.outputs
select_coins-IsSelection_example =
    select_coins-IsSelection rich_request ask rich selection rich_checks rich_selects

select_coins-Cheapest_example : Cheapest ask rich selection
select_coins-Cheapest_example =
    select_coins-Cheapest rich_request ask rich selection rich_checks rich_selects

abbrev poor : List Coin
poor = coin 0 2500000 ∷ coin 1 2500000 ∷ coin 2 2500000 ∷ []

abbrev poor_request : SelectRequest
poor_request = request (utxo 0 2500000 ∷ utxo 1 2500000 ∷ utxo 2 2500000 ∷ [])

poor_checks : check_request poor_request ≡ ok (ask, poor)
unfolding check_request to_big_int whole map_result candidate natural
poor_checks = refl

poor_fails : select_coins poor_request ≡ err insufficient_funds
unfolding select_coins check_request to_big_int whole map_result candidate natural search_coins
    first_single sort_by_value insert_by_value build_selection total_of total_from fee_for
    transfer_size compact_size_length given_address with_change all_pairs pairs_with try_pair
    is_no_better keep_better give_up
poor_fails = refl

select_coins-fails_example :
    All (λ c. ¬ Affordable ask (c ∷ [])) poor
    × AllPairs (λ c d. ¬ Affordable ask (c ∷ d ∷ [])) poor
    × (insufficient_funds ≡ (
        if leb (ask.amount + fee_for 3 1 ask.fee_rate) (total_of poor)
        then too_many_inputs
        else insufficient_funds))
unfolding given_address
select_coins-fails_example =
    select_coins-fails poor_request ask poor (units "me") insufficient_funds poor_checks refl
      poor_fails
