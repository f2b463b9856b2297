-- ===== src/Coins.antt =====
-- scripts/pqwallet/pqcoinselect.js: the fee policy, and a selection of given coins.
pub mod Search
pub mod Sort
pub mod Build
pub mod Loops
pub mod Select
pub mod Outcomes
pub mod Size
mod Examples
mod SizeExample
use organic_web_wallet.Prelude.{
  ℕ, ◌+◌, ◌-◌, ◌*◌, ◌/◌, not, ◌&&◌, Option, none, some, List, [], ◌∷◌, length, ltb, leb, ◌==◌,
  if◌then◌else◌, Result, ok, err, ◌>>=◌, ◌>>◌, require, not_whole, transfer_shape,
  missing_change_address,
}
use organic_web_wallet.Prelude.Int.{ℤ, pos}
use organic_web_wallet.Platform.{
  Text, Numeric, number, text, whole, is_safe_integer, all_digits, digits_value,
}

abbrev pub pq_dust_sats : ℕ
pq_dust_sats = 114600

abbrev pub pq_default_fee_rate_sat_per_kb : ℕ
pq_default_fee_rate_sat_per_kb = 1000000

-- PQ_PUBLIC_KEY_SIZE + PQ_SIGNATURE_SIZE
abbrev pub authorization_size : ℕ
authorization_size = 1312 + 2420

-- The chain parameter `minFeePerByte` in satoshi per kilobyte; `other` is an absent parameter.
unfoldable pub get_default_fee_rate_sat_per_kb : Numeric → ℕ
get_default_fee_rate_sat_per_kb (number (pos n)) =
    if is_safe_integer (pos n) && ltb 0 n then n * 1000 else pq_default_fee_rate_sat_per_kb
get_default_fee_rate_sat_per_kb (text s) =
    if not (length s == 0) && (all_digits s && ltb 0 (digits_value 0 s))
    then digits_value 0 s * 1000
    else pq_default_fee_rate_sat_per_kb
get_default_fee_rate_sat_per_kb _ = pq_default_fee_rate_sat_per_kb

unfoldable pub to_big_int : Numeric → Result ℤ
to_big_int value = require (whole value) not_whole

unfoldable pub compact_size_length : ℕ → ℕ
compact_size_length value =
    if ltb value 0xfd
    then 1
    else if leb value 0xffff
    then 3
    else if leb value 0xffffffff
    then 5
    else 9

unfoldable pub transfer_size : ℕ → ℕ → ℕ
transfer_size inputs outputs =
    let payload_length = 3 + inputs * authorization_size in
    4
    + compact_size_length inputs
    + inputs * 41
    + compact_size_length outputs
    + outputs * 44
    + 4
    + 1
    + 1
    + compact_size_length payload_length
    + payload_length

unfoldable pub estimate_transfer_size : ℤ → ℤ → Result ℕ
estimate_transfer_size (pos inputs) (pos outputs) = ok (transfer_size inputs outputs)
estimate_transfer_size _ _ = err transfer_shape

unfoldable pub fee_for : ℕ → ℕ → ℕ → ℕ
fee_for inputs outputs fee_rate = (transfer_size inputs outputs * fee_rate + 1000 - 1) / 1000

-- A coin as the caller gives it, and with the value that it was found to have.
pub record Utxo : Type 0 where
  pub txid : Text
  pub vout : ℕ
  pub address : Text
  pub value : Numeric

pub record Coin : Type 0 where
  pub txid : Text
  pub vout : ℕ
  pub address : Text
  pub value_sats : ℕ

pub record Paid : Type 0 where
  pub value : ℕ
  pub address : Text

pub record Selection : Type 0 where
  pub inputs : List Coin
  pub outputs : List Paid
  pub fee : ℕ
  pub change : ℕ

-- What stays the same over all attempts.
pub record Ask : Type 0 where
  pub amount : ℕ
  pub fee_rate : ℕ
  pub recipient : Text
  pub change_address : Option Text

-- `reduce` from the left
unfoldable pub total_from : ℕ → List Coin → ℕ
total_from sum [] = sum
total_from sum (c ∷ coins) = total_from (sum + c.value_sats) coins

unfoldable pub total_of : List Coin → ℕ
unfolding total_from
total_of coins = total_from 0 coins

-- An empty text counts as no address.
unfoldable pub given_address : Option Text → Option Text
given_address (some (c ∷ cs)) = some (c ∷ cs)
given_address _ = none

-- One output, with all that is left over as the fee.
unfoldable pub without_change : Ask → List Coin → Selection
without_change ask inputs = record {
  inputs = inputs;
  outputs = record { value = ask.amount; address = ask.recipient } ∷ [];
  fee = total_of inputs - ask.amount;
  change = 0;
}

unfoldable pub with_change : Ask → List Coin → Text → Selection
with_change ask inputs address =
    let fee = fee_for (length inputs) 2 ask.fee_rate in
    let change = total_of inputs - ask.amount - fee in
    record {
      inputs = inputs;
      outputs =
          record { value = ask.amount; address = ask.recipient }
          ∷ record { value = change; address = address }
          ∷ [];
      fee = fee;
      change = change;
    }

-- Where the code's difference is negative the one here is 0, and below the dust all the same.
unfoldable pub build_selection : Ask → List Coin → Result (Option Selection)
build_selection ask inputs =
    let total = total_of inputs in
    let one_output_fee = fee_for (length inputs) 1 ask.fee_rate in
    let two_output_fee = fee_for (length inputs) 2 ask.fee_rate in
    if ltb total (ask.amount + one_output_fee)
    then ok none
    else if not (leb pq_dust_sats (total - ask.amount - one_output_fee))
    then ok (some (without_change ask inputs))
    else (do
      address ← require (given_address ask.change_address) missing_change_address
      ok (
          some (
            if leb pq_dust_sats (total - ask.amount - two_output_fee)
            then with_change ask inputs address
            else without_change ask inputs)))
