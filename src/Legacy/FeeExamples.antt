-- ===== src/Legacy/FeeExamples.antt =====
-- A payment from a wallet with one coin, and one that spends the whole coin.
use mathlib.Core.List.{flatten}
use organic_web_wallet.Prelude.{
  ℕ, ◌≡◌, refl, true, false, none, some, List, [], ◌∷◌, map, replicate, arith, ok, ◌===◌,
}
use organic_web_wallet.Prelude.Int.{ℤ, pos, negsuc}
use organic_web_wallet.Platform.{units}
use organic_web_wallet.Mempool.Transactions.{
  same_outpoint, is_immature, is_coin_stake, is_coin_base, is_empty, only_zeros,
}
use organic_web_wallet.Mempool.{Mempool, invalid, get_outpoint_status, get_status, meets}
use organic_web_wallet.Mempool.Spendable.{
  ours_p2pkh, get_balance, get_cold_balance, or_update, balance_internal, loop_spendable_balance,
  loop_txs, loop_outputs, is_spendable, count_value, collect, get_utxos, is_reached,
}
use organic_web_wallet.Legacy.Addresses.{
  Library, Chain, d_sha256, decode_address, is_exchange_address, is_shield_address, starts_with,
  verify_bech32, verify_bytes, verify_pubkey,
}
use organic_web_wallet.Legacy.Transaction.{
  Transaction, serialize, serialize_input, serialize_output, serialize_sapling, serialize_shield,
}
use organic_web_wallet.Legacy.Builder.{
  ShieldRequest, p2pkh_script, add_cold_stake_output, add_exchange_output, add_output,
  add_p2pkh_output, add_proposal_output, add_script, add_shield_output, add_utxo, add_utxos, build,
  cold_stake_script, create, equally_subtract_amt, estimated_size, exchange_script, get_fee,
  is_dust, min_fee, output_fee, proposal_script, push_output, subtract_from,
}
use organic_web_wallet.Legacy.Spending.{
  Wallet, Options, spendable_utxos, create_transaction, created, available, add_inputs, add_primary,
  add_delegation, add_stakes, or_new, settle,
}
use organic_web_wallet.Legacy.Encoding.{num_to_bytes, num_to_var_int}
use organic_web_wallet.Wire.Codec.{le_bytes}
use organic_web_wallet.Legacy.Fees.{Spends, create_transaction-Pays}

-- A library in which each text decodes to one address, and each digest is 0.
abbrev a_library : Library
a_library = record {
  sha256 = λ b. replicate 32 0;
  base58 = λ t. some (127 ∷ replicate 24 0);
  bech32_prefix = λ t. none;
  from_hex = λ t. 1 ∷ replicate 31 2;
}

abbrev a_chain : Chain
a_chain = record {
  pubkey_address = 127 ∷ [];
  exchange_address_prefix = 3 ∷ 21 ∷ [];
  shield_prefix = units "tolc";
  min_fee_per_byte = 1000;
  stake_split_target = 50000000000;
  coinbase_maturity = 1;
  collateral_in_sats = 1000000000000;
}

abbrev a_mempool : ℕ → Mempool
a_mempool amount = record {
  statuses = (record { txid = units "aa"; n = 0 }, ours_p2pkh) ∷ [];
  txs =
      record {
        txid = units "aa";
        block_height = pos 3;
        vin = record { txid = units "bb"; n = 1 } ∷ [];
        vout = record { script = units "76"; value = amount } ∷ [];
      }
      ∷ [];
  balances = record {
    balance = invalid;
    cold_balance = invalid;
    immature_balance = invalid;
    immature_cold_balance = invalid;
  };
}

abbrev a_wallet : ℕ → Wallet
a_wallet amount = record {
  mempool = a_mempool amount;
  block_count = 10;
  shield_balance = 0;
  new_return_address = units "r";
  new_change_address = units "c";
}

abbrev default_options : Options
default_options = record {
  is_delegation = false;
  use_delegated_inputs = false;
  use_shield_inputs = false;
  delegate_change = false;
  change_delegation_address = [];
  is_proposal = false;
  subtract_fee_from_amt = true;
  change_address = [];
  return_address = [];
  memo = [];
}

-- A transaction with the one input and with outputs of these values to the one address
abbrev paying : List ℤ → Transaction × List ShieldRequest
paying values = (
  record {
    version = 1;
    vin =
        record {
          txid = 1 ∷ replicate 31 2;
          n = 0;
          script_sig = 1 ∷ replicate 31 2;
          sequence = 4294967295;
        }
        ∷ [];
    vout = map (λ v. record { script = p2pkh_script (replicate 20 0); value = v }) values;
    lock_time = 0;
    value_balance = pos 0;
    shield_spend = [];
    shield_output = [];
    binding_sig = [];
  },
  [],
)

a_payment :
    (create_transaction a_library a_chain (a_wallet 5000000) default_options (units "x") 1000000).0
    ≡ ok (paying (pos 1000000 ∷ pos 3773000 ∷ []))
unfolding created available add_inputs add_primary add_delegation add_stakes or_new settle serialize
    serialize_input serialize_output serialize_sapling serialize_shield get_balance get_cold_balance
    or_update balance_internal loop_spendable_balance loop_txs loop_outputs is_spendable
    get_outpoint_status get_status meets count_value collect get_utxos is_reached same_outpoint
    is_immature is_coin_stake is_coin_base is_empty only_zeros d_sha256 decode_address
    is_exchange_address is_shield_address starts_with verify_bech32 verify_bytes verify_pubkey
    add_cold_stake_output add_exchange_output add_output add_p2pkh_output add_proposal_output
    add_script add_shield_output add_utxo add_utxos build cold_stake_script create
    equally_subtract_amt estimated_size exchange_script get_fee is_dust min_fee output_fee
    proposal_script push_output subtract_from num_to_bytes num_to_var_int create_transaction
    spendable_utxos p2pkh_script flatten ◌===◌ le_bytes
a_payment = refl

-- Spending a coin whole takes the fee from the payment, here more than the payment is worth: the output
-- is negative.
a_small_payment :
    (create_transaction a_library a_chain (a_wallet 100000) default_options (units "x") 100000).0
    ≡ ok (paying (negsuc 92999 ∷ []))
unfolding created available add_inputs add_primary add_delegation add_stakes or_new settle serialize
    serialize_input serialize_output serialize_sapling serialize_shield get_balance get_cold_balance
    or_update balance_internal loop_spendable_balance loop_txs loop_outputs is_spendable
    get_outpoint_status get_status meets count_value collect get_utxos is_reached same_outpoint
    is_immature is_coin_stake is_coin_base is_empty only_zeros d_sha256 decode_address
    is_exchange_address is_shield_address starts_with verify_bech32 verify_bytes verify_pubkey
    add_cold_stake_output add_exchange_output add_output add_p2pkh_output add_proposal_output
    add_script add_shield_output add_utxo add_utxos build cold_stake_script create
    equally_subtract_amt estimated_size exchange_script get_fee is_dust min_fee output_fee
    proposal_script push_output subtract_from num_to_bytes num_to_var_int create_transaction
    spendable_utxos p2pkh_script flatten ◌===◌ le_bytes
a_small_payment = refl

create_transaction-Pays_example :
    Spends a_library a_chain
      (spendable_utxos a_chain
        (create_transaction a_library a_chain
          (a_wallet 5000000)
          default_options
          (units "x")
          1000000).1
        default_options
        1000000)
      (paying (pos 1000000 ∷ pos 3773000 ∷ [])).0
unfolding is_shield_address is_exchange_address verify_bech32 verify_pubkey verify_bytes starts_with
    or_new
create_transaction-Pays_example =
    create_transaction-Pays a_library a_chain (a_wallet 5000000) default_options (units "x") 1000000
      (paying (pos 1000000 ∷ pos 3773000 ∷ [])) refl refl refl refl a_payment (omega arith)
      (record { amounts = (refl, (refl, tt)); few = omega arith })
