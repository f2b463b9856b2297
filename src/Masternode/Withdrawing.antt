-- ===== src/Masternode/Withdrawing.antt =====
-- scripts/pqwallet/pqmasternode.js: the withdrawal of a collateral.
use organic_web_wallet.Prelude.{
  ℕ, ◌-◌, not, ◌||◌, none, some, [], ◌∷◌, ltb, leb, if◌then◌else◌, Error, Result, ok, err, ◌>>=◌,
  ◌>>◌, throw_if, testnet_only, collateral_value, withdrawal_fee, collateral_key, signature_failed,
}
use organic_web_wallet.Prelude.Int.{ℤ, pos, negsuc}
use organic_web_wallet.Platform.{Text, Noble, hex, Numeric, bigint, number}
use organic_web_wallet.Address.{Network, pq_id_from_address}
use organic_web_wallet.Wire.Payload.{pq_transfer_mode}
use organic_web_wallet.Signer.{SignRequest, Signed, sign_transfer}
use organic_web_wallet.Signer.Keys.{MlDsa}
use organic_web_wallet.Masternode.{
  CollateralCoin, is_collateral_value, pq_masternode_collateral_sats, assert_key_owns_address,
}
use organic_web_wallet.Masternode.Registering.{is_testnet}

-- The fee is what `BigInt(…)` makes of the argument.
pub record Withdrawal : Type 0 where
  pub collateral : CollateralCoin
  pub destination_address : Text
  pub fee : ℤ
  pub network : Network
  pub genesis_display : Text
  pub locktime : Numeric

unfoldable pub withdrawal_request : Withdrawal → ℕ → SignRequest
withdrawal_request w value = record {
  inputs =
      record {
        outpoint = record {
          txid = hex w.collateral.txid;
          vout = some (number (pos w.collateral.vout));
          sequence = some (number (pos 0xffffffff));
        };
        prevout = some (record {
          value = w.collateral.value_sats;
          script = none;
          address = some w.collateral.key.address;
        });
        public_key = w.collateral.key.public_key;
        secret_key = w.collateral.key.secret_key;
      }
      ∷ [];
  outputs =
      record { value = bigint (pos value); script = none; address = some w.destination_address }
      ∷ [];
  locktime = w.locktime;
  network = w.network;
  genesis_display = w.genesis_display;
  mode = pq_transfer_mode;
  payload_data = [];
}

-- A failed verification is reported as a missing key.
renamed_error : Error → Error
renamed_error signature_failed = collateral_key
renamed_error e = e

unfoldable pub rename_failure : Result Signed → Result Signed
unfolding renamed_error
rename_failure (ok s) = ok s
rename_failure (err e) = err (renamed_error e)

unfoldable pub withdrawal_fee_of : ℤ → Result ℕ
withdrawal_fee_of (pos n) =
    if ltb n 1 || leb pq_masternode_collateral_sats n then err withdrawal_fee else ok n
withdrawal_fee_of (negsuc n) = err withdrawal_fee

-- The value is that of a collateral when the fee is taken from it.
unfoldable pub sign_collateral_withdrawal : Noble → MlDsa → Withdrawal → Result Signed
sign_collateral_withdrawal noble ml w = do
  throw_if (not (is_testnet w.network)) testnet_only
  throw_if (not (is_collateral_value w.collateral.value_sats)) collateral_value
  _ ← assert_key_owns_address noble w.collateral.key w.network
  _ ← pq_id_from_address w.destination_address w.network
  fee ← withdrawal_fee_of w.fee
  rename_failure
      (sign_transfer noble ml (withdrawal_request w (pq_masternode_collateral_sats - fee)))
