-- ===== src/Masternode/Examples.antt =====
-- Fee coins, the data and the size of a registration, a signed registration and a withdrawal.
use organic_web_wallet.Prelude.{ℕ, ◌≡◌, refl, some, [], ◌∷◌, ok, ◌===◌}
use organic_web_wallet.Prelude.Int.{pos, negsuc}
use organic_web_wallet.Platform.{Text, units}
use organic_web_wallet.Coins.{compact_size_length, total_of, total_from, given_address}
use organic_web_wallet.Coins.Search.{sort_by_value, insert_by_value}
use organic_web_wallet.Masternode.FeeCoins.{
  FeeRequest, FeeSelection, is_collateral, fee_candidate, keep_some, fee_candidates,
  registration_size, registration_fee, attempt, or_else, single, better, fee_pairs_with, fee_pairs,
  search_fee_coins, rate_of, select_masternode_fee_coins,
}
use organic_web_wallet.Masternode.FeeSelection.{
  IsFeeSelection, select_masternode_fee_coins-IsFeeSelection,
}

abbrev fee_request : FeeRequest
fee_request = record {
  utxos =
      record { txid = units "aa"; vout = 0; address = units "me"; value = pos 400000000000 }
      ∷ record { txid = units "aa"; vout = 1; address = units "me"; value = pos 12000000 }
      ∷ record { txid = units "bb"; vout = 0; address = units "me"; value = pos 8000000 }
      ∷ record { txid = units "cc"; vout = 0; address = units "me"; value = negsuc 0 }
      ∷ [];
  collateral = record { txid = units "aa"; vout = 0 };
  rate = pos 1000000;
  change_address = some (units "me");
}

-- 15156000 is the fee for one input and 18929000 the fee for two: neither coin alone is enough.
abbrev fee_selection : FeeSelection
fee_selection = record {
  inputs =
      record { txid = units "bb"; vout = 0; address = units "me"; value_sats = 8000000 }
      ∷ record { txid = units "aa"; vout = 1; address = units "me"; value_sats = 12000000 }
      ∷ [];
  outputs = record { value = 1071000; address = units "me" } ∷ [];
  fee = 18929000;
  change = 1071000;
}

fee_selected : select_masternode_fee_coins fee_request ≡ ok fee_selection
unfolding is_collateral fee_candidate keep_some fee_candidates registration_size registration_fee
    attempt or_else single better fee_pairs_with fee_pairs search_fee_coins rate_of
    select_masternode_fee_coins compact_size_length total_of total_from given_address sort_by_value
    insert_by_value ◌===◌
fee_selected = refl

select_masternode_fee_coins-IsFeeSelection_example :
    (address : Text) × (rate : ℕ) × (given_address (some (units "me")) ≡ some address)
    × (pos 1000000 ≡ pos rate)
    × IsFeeSelection fee_request.collateral rate address fee_selection
select_masternode_fee_coins-IsFeeSelection_example =
    select_masternode_fee_coins-IsFeeSelection fee_request fee_selection fee_selected
