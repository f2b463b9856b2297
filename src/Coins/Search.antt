-- ===== src/Coins/Search.antt =====
-- scripts/pqwallet/pqcoinselect.js: the search over single coins and pairs, and selectCoins.
use organic_web_wallet.Prelude.{
  ℕ, ◌+◌, Bool, false, not, Option, none, some, List, [], ◌∷◌, length, ltb, leb, ◌==◌,
  if◌then◌else◌, Result, ok, err, ◌>>=◌, ◌>>◌, throw_if, map_result, amount_not_positive,
  amount_dust, fee_rate_not_positive, missing_recipient, insufficient_funds, negative_value,
  too_many_inputs,
}
use organic_web_wallet.Prelude.Int.{ℤ, pos, negsuc}
use organic_web_wallet.Platform.{Text, Numeric, bigint}
use organic_web_wallet.Coins.{
  fee_for, Ask, get_default_fee_rate_sat_per_kb, pq_dust_sats, Selection, build_selection, Coin,
  total_of, Utxo, to_big_int,
}

-- `for (const candidate of sorted)`: the first coin that is enough by itself.
unfoldable pub first_single : Ask → List Coin → Result (Option Selection)
first_single ask [] = ok none
first_single ask (c ∷ coins) =
    build_selection ask (c ∷ []) >>= elim [ some s ↦ ok (some s) | none ↦ first_single ask coins ]

-- The best selection so far with its total.
abbrev pub Best : Type 0
Best = Option (Selection × ℕ)

unfoldable pub is_no_better : Best → ℕ → Bool
is_no_better (some (s, best_total)) total = leb best_total total
is_no_better none total = false

unfoldable pub keep_better : Best → ℕ → Option Selection → Best
keep_better best total (some s) = some (s, total)
keep_better best total none = best

-- The body of the inner loop.
unfoldable pub try_pair : Ask → Coin → Coin → Best → Result Best
unfolding is_no_better keep_better
try_pair ask c d best =
    let total = total_of (c ∷ d ∷ []) in
    if is_no_better best total
    then ok best
    else (build_selection ask (c ∷ d ∷ []) >>= λ selection. ok (keep_better best total selection))

unfoldable pub pairs_with : Ask → Coin → List Coin → Best → Result Best
pairs_with ask c [] best = ok best
pairs_with ask c (d ∷ coins) best = do best' ← try_pair ask c d best; pairs_with ask c coins best'

unfoldable pub all_pairs : Ask → List Coin → Best → Result Best
all_pairs ask [] best = ok best
all_pairs ask (c ∷ coins) best = do best' ← pairs_with ask c coins best; all_pairs ask coins best'

-- `sort` is stable: a coin stands behind those of its value that stood before it.
unfoldable pub insert_by_value : Coin → List Coin → List Coin
insert_by_value c [] = c ∷ []
insert_by_value c (d ∷ coins) =
    if leb c.value_sats d.value_sats then c ∷ d ∷ coins else d ∷ insert_by_value c coins

unfoldable pub sort_by_value : List Coin → List Coin
sort_by_value [] = []
sort_by_value (c ∷ coins) = insert_by_value c (sort_by_value coins)

unfoldable pub natural : ℤ → Result ℕ
natural (pos n) = ok n
natural (negsuc n) = err negative_value

unfoldable pub candidate : Utxo → Result Coin
unfolding natural
candidate u = do
  z ← to_big_int u.value
  n ← natural z
  ok (record { txid = u.txid; vout = u.vout; address = u.address; value_sats = n })

-- The two errors that end a search in vain.
unfoldable pub give_up : Ask → List Coin → Result Selection
give_up ask candidates =
    if leb (ask.amount + fee_for 3 1 ask.fee_rate) (total_of candidates)
    then err too_many_inputs
    else err insufficient_funds

unfoldable pub search_coins : Ask → List Coin → Result Selection
search_coins ask candidates = do
  single ← first_single ask (sort_by_value candidates)
  elim single [
    | some s ↦ ok s
    | none ↦
        all_pairs ask (sort_by_value candidates) none
        >>= elim [ some (s, _) ↦ ok s | none ↦ give_up ask candidates ]
  ]

-- The argument of `selectCoins`; `configured` is the chain's fee parameter.
pub record SelectRequest : Type 0 where
  pub utxos : List Utxo
  pub amount_sats : Numeric
  pub fee_rate : Option Numeric
  pub configured : Numeric
  pub recipient_address : Text
  pub change_address : Option Text

abbrev pub positive : ℤ → Bool
positive (pos n) = ltb 0 n
positive (negsuc n) = false

abbrev pub magnitude : ℤ → ℕ
magnitude (pos n) = n
magnitude (negsuc n) = 0

-- A rate that is not given is the default one.
abbrev pub chosen_rate : Option Numeric → Numeric → Numeric
chosen_rate (some rate) configured = rate
chosen_rate none configured = bigint (pos (get_default_fee_rate_sat_per_kb configured))

-- The checks on the arguments, in their order.
unfoldable pub check_request : SelectRequest → Result (Ask × List Coin)
check_request r = do
  amount ← to_big_int r.amount_sats
  throw_if (not (positive amount)) amount_not_positive
  throw_if (ltb (magnitude amount) pq_dust_sats) amount_dust
  fee_rate ← to_big_int (chosen_rate r.fee_rate r.configured)
  throw_if (not (positive fee_rate)) fee_rate_not_positive
  throw_if (length r.recipient_address == 0) missing_recipient
  throw_if (length r.utxos == 0) insufficient_funds
  candidates ← map_result candidate r.utxos
  ok (
    record {
      amount = magnitude amount;
      fee_rate = magnitude fee_rate;
      recipient = r.recipient_address;
      change_address = r.change_address;
    },
    candidates,
  )

unfoldable pub select_coins : SelectRequest → Result Selection
select_coins r = do (ask, candidates) ← check_request r; search_coins ask candidates
