-- ===== src/Masternode/WithdrawalExamples.antt =====
-- The withdrawal of a collateral, on concrete input.
use mathlib.Core.List.{flatten}
use organic_web_wallet.Prelude.{◌≡◌, refl, [], ◌∷◌, ◌++◌, replicate, arith, ok, ◌===◌, map_result}
use organic_web_wallet.Prelude.Int.{pos}
use organic_web_wallet.Platform.{Bytes, Text, bigint, number, units, whole, source_bytes}
use organic_web_wallet.Platform.Hex.{
  plain_noble, read_hex, write_hex, byte_of, digit_value, hex_digit,
}
use organic_web_wallet.Address.{
  testnet, has_pq_prefix, hrp_for_network, pq_id_from_public_key, address_from_id,
  pq_id_from_address, pq_script_from_address, bech32m_encode, bech32m_decode, convert_bits,
}
use organic_web_wallet.Wire.Codec.{
  le_bytes, compact_size, encode_compact_size, to_big_int, u32le, i64le, i16le,
}
use organic_web_wallet.Wire.Payload.{
  given, mode_has_data, build_authorizations, has_size, field_bytes, build_payload,
}
use organic_web_wallet.Wire.Serialize.{
  script_bytes, address_script, script_sig_bytes, serialize_tx_in, serialize_tx_out,
  resolve_payload, serialize_transfer,
}
use organic_web_wallet.Wire.Parse.{txid_of}
use organic_web_wallet.Wire.Examples.{header, footer, key}
use organic_web_wallet.Signer.{
  Signed, held, check_input, resolve_script, resolve_output, assert_prevout_binds_public_key,
  spent_outputs, sign_input, sign_inputs, context_of, transfer_of, sign_pq_transaction,
  sign_transfer,
}
use organic_web_wallet.Signer.Keys.{pq_sign, pq_verify}
use organic_web_wallet.Signer.Message.{
  zip, message_input, message_key, message_data, signature_message,
}
use organic_web_wallet.Signer.Examples.{plain_ml_dsa}
use organic_web_wallet.Masternode.{
  RoleKey, CollateralCoin, is_collateral_value, assert_key_owns_address,
}
use organic_web_wallet.Masternode.Withdrawing.{
  Withdrawal, withdrawal_request, rename_failure, withdrawal_fee_of, sign_collateral_withdrawal,
}
use organic_web_wallet.Masternode.Withdrawn.{
  WithdrawalIsSafe, sign_collateral_withdrawal-WithdrawalIsSafe,
}

-- The address of the id that the plain hash gives to every key.
abbrev pub own_address : Text
own_address = units "olcpqtest1pqqqqqqqqqqqqqqqqqqqqqqqqqqqqqqqqqqqqqqqqqqqqqqqqqqqqt5dc3d"

abbrev pub own_script : Bytes
own_script = 0xff ∷ 0x51 ∷ 0x20 ∷ replicate 32 0

abbrev pub own_key : RoleKey
own_key = record { public_key = given key; secret_key = given []; address = own_address }

abbrev own_collateral : CollateralCoin
own_collateral = record {
  txid = replicate 64 b'0';
  vout = 1;
  value_sats = bigint (pos 400000000000);
  key = own_key;
}

abbrev withdrawal : Withdrawal
withdrawal = record {
  collateral = own_collateral;
  destination_address = own_address;
  fee = pos 1000;
  network = testnet;
  genesis_display = replicate 64 b'a';
  locktime = number (pos 0);
}

abbrev withdrawal_raw : Bytes
withdrawal_raw =
    header
    ++ (replicate 32 0
        ++ ((1 ∷ 0 ∷ 0 ∷ 0 ∷ 0 ∷ 255 ∷ 255 ∷ 255 ∷ 255 ∷ 1 ∷ 24 ∷ 156 ∷ 219 ∷ 33 ∷ 93 ∷ 0 ∷ 0 ∷ 0
              ∷ 35 ∷ [])
            ++ (own_script ++ (footer ++ ((1 ∷ 1 ∷ 1 ∷ []) ++ (key ++ replicate 2420 0))))))

abbrev signed_withdrawal : Signed
signed_withdrawal = record {
  raw = withdrawal_raw;
  raw_hex = plain_noble.bytes_to_hex withdrawal_raw;
  txid = plain_noble.bytes_to_hex (replicate 32 0);
}

withdrawal_signed :
    sign_collateral_withdrawal plain_noble plain_ml_dsa withdrawal ≡ ok signed_withdrawal
unfolding sign_collateral_withdrawal is_collateral_value assert_key_owns_address withdrawal_request
    rename_failure withdrawal_fee_of sign_transfer hrp_for_network address_from_id
    pq_id_from_address pq_script_from_address bech32m_encode bech32m_decode convert_bits
    sign_pq_transaction held check_input resolve_script resolve_output
    assert_prevout_binds_public_key spent_outputs sign_input sign_inputs context_of transfer_of
    pq_sign pq_verify zip message_input message_key message_data signature_message has_pq_prefix
    pq_id_from_public_key ◌===◌ write_hex hex_digit read_hex byte_of digit_value serialize_transfer
    resolve_payload build_payload mode_has_data build_authorizations has_size field_bytes
    encode_compact_size to_big_int whole compact_size i16le u32le i64le le_bytes serialize_tx_in
    serialize_tx_out script_bytes address_script script_sig_bytes source_bytes map_result flatten
    txid_of
withdrawal_signed = refl

sign_collateral_withdrawal-WithdrawalIsSafe_example :
    WithdrawalIsSafe plain_noble plain_ml_dsa withdrawal signed_withdrawal
sign_collateral_withdrawal-WithdrawalIsSafe_example =
    sign_collateral_withdrawal-WithdrawalIsSafe plain_noble plain_ml_dsa withdrawal
      signed_withdrawal withdrawal_signed (omega arith)
