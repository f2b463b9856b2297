-- ===== src/Legacy/Examples.antt =====
-- Transactions with and without shield data, and what is shown of them.
use organic_web_wallet.Prelude.{◌≡◌, refl, true, false, [], ◌∷◌, replicate, arith, ok, inl, inr}
use organic_web_wallet.Prelude.Int.{pos, negsuc}
use organic_web_wallet.Legacy.Transaction.{
  TxIn, TxOut, ShieldSpend, ShieldOutput, Transaction, serialize, from_bytes,
}
use organic_web_wallet.Legacy.Builder.{
  p2pkh_script, exchange_script, proposal_script, cold_stake_script,
}
use organic_web_wallet.Legacy.Recognised.{Taken, scripts-Taken}
use organic_web_wallet.Legacy.Items.{InputFits, OutputFits}
use organic_web_wallet.Legacy.Trip.{Fits, Unshielded, from_bytes-serialize}

abbrev an_input : TxIn
an_input = record {
  txid = 7 ∷ replicate 31 9;
  n = 258;
  script_sig = replicate 300 5;
  sequence = 4294967295;
}

abbrev an_output : TxOut
an_output = record { script = 0x6a ∷ []; value = pos 1000000 }

abbrev a_spend : ShieldSpend
a_spend = record {
  cv = 1 ∷ replicate 31 2;
  anchor = 3 ∷ replicate 31 4;
  nullifier = 5 ∷ replicate 31 6;
  rk = 7 ∷ replicate 31 8;
  proof = replicate 192 10;
  spend_auth_sig = replicate 64 11;
}

abbrev a_shield_output : ShieldOutput
a_shield_output = record {
  cv = 1 ∷ replicate 31 2;
  cmu = 3 ∷ replicate 31 4;
  ephemeral_key = 5 ∷ replicate 31 6;
  enc_ciphertext = replicate 580 12;
  out_ciphertext = replicate 80 13;
  proof = replicate 192 14;
}

abbrev shielded_tx : Transaction
shielded_tx = record {
  version = 3;
  vin = an_input ∷ [];
  vout = an_output ∷ [];
  lock_time = 0;
  value_balance = negsuc 4999;
  shield_spend = a_spend ∷ [];
  shield_output = a_shield_output ∷ [];
  binding_sig = replicate 64 15;
}

abbrev plain_tx : Transaction
plain_tx = record shielded_tx {
  value_balance = pos 0;
  shield_spend = [];
  shield_output = [];
  binding_sig = [];
}

an_input-InputFits : InputFits an_input
an_input-InputFits = record {
  txid = refl;
  n = omega arith;
  script_sig = omega arith;
  sequence = omega arith;
}

an_output-OutputFits : OutputFits an_output
an_output-OutputFits = record {
  script = omega arith;
  amount = 1000000;
  value = refl;
  small = omega arith;
}

shielded_tx-Fits : Fits shielded_tx
shielded_tx-Fits = record {
  version = omega arith;
  inputs = (an_input-InputFits, tt);
  few_inputs = omega arith;
  outputs = (an_output-OutputFits, tt);
  few_outputs = omega arith;
  lock_time = omega arith;
  shield = inr (record {
    sapling = omega arith;
    binding_sig = refl;
    spends = (
      record {
        cv = refl;
        anchor = refl;
        nullifier = refl;
        rk = refl;
        proof = refl;
        spend_auth_sig = refl;
      },
      tt,
    );
    few_spends = omega arith;
    outputs = (
      record {
        cv = refl;
        cmu = refl;
        ephemeral_key = refl;
        enc_ciphertext = refl;
        out_ciphertext = refl;
        proof = refl;
      },
      tt,
    );
    few_outputs = omega arith;
    value_balance = omega arith;
  });
}

plain_tx-Unshielded : Unshielded plain_tx
plain_tx-Unshielded = record {
  binding_sig = refl;
  shield_spend = refl;
  shield_output = refl;
  value_balance = refl;
}

plain_tx-Fits : Fits plain_tx
plain_tx-Fits = record {
  version = omega arith;
  inputs = (an_input-InputFits, tt);
  few_inputs = omega arith;
  outputs = (an_output-OutputFits, tt);
  few_outputs = omega arith;
  lock_time = omega arith;
  shield = inl plain_tx-Unshielded;
}

from_bytes-serialize_example : from_bytes (serialize shielded_tx) ≡ ok shielded_tx
from_bytes-serialize_example = from_bytes-serialize shielded_tx shielded_tx-Fits

scripts-Taken_example :
    Taken (p2pkh_script (replicate 20 1)) true false false false
    × (Taken (cold_stake_script (replicate 20 1) (replicate 20 2)) false true false false
        × (Taken (exchange_script (replicate 20 1)) false false true false
            × Taken (proposal_script (replicate 32 3)) false false false true))
scripts-Taken_example =
    scripts-Taken (replicate 20 1) (replicate 20 2) (replicate 32 3) refl refl refl
