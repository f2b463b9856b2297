-- ===== src/Signer/Examples.antt =====
-- A run of the signer, with a concrete library whose signatures are all alike.
use mathlib.Core.List.{flatten}
use organic_web_wallet.Prelude.{
  ◌≡◌, refl, true, none, some, [], ◌∷◌, ◌++◌, length, replicate, arith, ok, ◌>>=◌, ◌===◌,
  map_result,
}
use organic_web_wallet.Prelude.Int.{pos}
use organic_web_wallet.Platform.{Bytes, bytes, number, whole, source_bytes}
use organic_web_wallet.Platform.Hex.{
  plain_noble, plain_noble_laws, read_hex, write_hex, byte_of, digit_value, hex_digit,
}
use organic_web_wallet.Address.{
  testnet, has_pq_prefix, pq_id_from_public_key, pq_address_from_script, address_from_public_key,
}
use organic_web_wallet.Wire.Codec.{
  le_bytes, compact_size, encode_compact_size, to_big_int, u32le, i64le, i16le,
}
use organic_web_wallet.Wire.Payload.{
  given, mode_has_data, build_authorizations, has_size, field_bytes, build_payload,
}
use organic_web_wallet.Wire.Serialize.{
  script_bytes, script_sig_bytes, serialize_tx_in, serialize_tx_out, resolve_payload,
  serialize_transfer,
}
use organic_web_wallet.Wire.Parse.{Transaction, includes, parse_pq_transaction, txid_of}
use organic_web_wallet.Wire.Examples.{header, middle, footer, key, script}
use organic_web_wallet.Signer.Keys.{MlDsa, pq_sign, pq_verify}
use organic_web_wallet.Signer.Message.{
  zip, message_input, message_key, message_data, signature_message,
}
use organic_web_wallet.Signer.{
  SignInput, SignRequest, Signed, held, check_input, resolve_script, resolve_output,
  assert_prevout_binds_public_key, spent_outputs, sign_input, sign_inputs, context_of, transfer_of,
  sign_pq_transaction,
}
use organic_web_wallet.Signer.Verified.{ReadBack, sign_pq_transaction-ReadBack}
use organic_web_wallet.Signer.Binding.{assert_prevout_binds_public_key-address_from_public_key}

abbrev pub plain_ml_dsa : MlDsa
plain_ml_dsa = record {
  sign = λ secret_key message context. some (replicate 2420 0);
  verify = λ public_key message signature context. true;
}

-- The script of the id that the plain hash gives to every key.
abbrev own_script : Bytes
own_script = 0xff ∷ 0x51 ∷ 0x20 ∷ replicate 32 0

abbrev own_coin : SignInput
own_coin = record {
  outpoint = record {
    txid = bytes (replicate 32 7);
    vout = some (number (pos 1));
    sequence = none;
  };
  prevout =
      some (record { value = number (pos 2000); script = some (bytes own_script); address = none });
  public_key = given key;
  secret_key = given [];
}

abbrev request : SignRequest
request = record {
  inputs = own_coin ∷ [];
  outputs = record { value = number (pos 1000); script = some (bytes script); address = none } ∷ [];
  locktime = number (pos 0);
  network = testnet;
  genesis_display = replicate 64 b'1';
  mode = 1;
  payload_data = [];
}

abbrev signed_raw : Bytes
signed_raw =
    header
    ++ (replicate 32 7
        ++ (middle ++ (script ++ (footer ++ (1 ∷ 1 ∷ 1 ∷ (key ++ replicate 2420 0))))))

abbrev signed : Signed
signed = record {
  raw = signed_raw;
  raw_hex = plain_noble.bytes_to_hex signed_raw;
  txid = plain_noble.bytes_to_hex (replicate 32 0);
}

own_coin_bound : assert_prevout_binds_public_key plain_noble testnet (own_script, key) ≡ ok tt
unfolding assert_prevout_binds_public_key has_pq_prefix pq_id_from_public_key ◌===◌ write_hex
    hex_digit
own_coin_bound = refl

request_signed : sign_pq_transaction plain_noble plain_ml_dsa request ≡ ok signed
unfolding sign_pq_transaction held check_input resolve_script resolve_output
    assert_prevout_binds_public_key spent_outputs sign_input sign_inputs context_of transfer_of
    pq_sign pq_verify zip message_input message_key message_data signature_message has_pq_prefix
    pq_id_from_public_key ◌===◌ write_hex hex_digit read_hex byte_of digit_value serialize_transfer
    resolve_payload build_payload mode_has_data build_authorizations has_size field_bytes
    encode_compact_size to_big_int whole compact_size i16le u32le i64le le_bytes serialize_tx_in
    serialize_tx_out script_bytes script_sig_bytes source_bytes map_result flatten txid_of
request_signed = refl

sign_pq_transaction-ReadBack_example :
    (tx : Transaction) × (parse_pq_transaction plain_noble (bytes signed_raw) (1 ∷ []) ≡ ok tx)
    × ReadBack plain_noble plain_ml_dsa request signed_raw tx
unfolding includes
sign_pq_transaction-ReadBack_example =
    sign_pq_transaction-ReadBack plain_noble plain_ml_dsa request signed (1 ∷ []) request_signed
      (omega arith) refl (omega arith)

assert_prevout_binds_public_key-address_from_public_key_example :
    (length own_script ≡ 35)
    × (pq_address_from_script plain_noble (bytes own_script) testnet
        ≡ (address_from_public_key plain_noble key testnet >>= λ address. ok (some address)))
assert_prevout_binds_public_key-address_from_public_key_example =
    assert_prevout_binds_public_key-address_from_public_key plain_noble plain_noble_laws testnet
      own_script key (omega arith) own_coin_bound
