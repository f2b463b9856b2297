-- ===== src/Masternode/SigningExamples.antt =====
-- A signed registration of a masternode, with concrete libraries.
use mathlib.Core.List.{flatten}
use organic_web_wallet.Prelude.{
  ◌≡◌, refl, none, some, [], ◌∷◌, ◌++◌, length, replicate, arith, ok, ◌===◌, map_result,
}
use organic_web_wallet.Prelude.Int.{pos}
use organic_web_wallet.Platform.{Bytes, bigint, number, units, whole, source_bytes}
use organic_web_wallet.Platform.Hex.{
  plain_noble, plain_noble_laws, read_hex, write_hex, byte_of, digit_value, hex_digit,
}
use organic_web_wallet.Address.{
  testnet, hrp_for_network, address_from_id, pq_id_from_address, bech32m_encode, bech32m_decode,
  convert_bits,
}
use organic_web_wallet.Address.Tests.{test_address, test_id}
use organic_web_wallet.Address.Examples.{test_script}
use organic_web_wallet.Wire.Codec.{
  le_bytes, signed, compact_size, encode_compact_size, to_big_int, u32le, i64le, i16le,
}
use organic_web_wallet.Wire.Payload.{
  given, mode_has_data, build_authorizations, has_size, field_bytes, build_payload,
}
use organic_web_wallet.Wire.Serialize.{
  Request, script_bytes, address_script, script_sig_bytes, serialize_tx_in, serialize_tx_out,
  resolve_payload, serialize_transfer,
}
use organic_web_wallet.Wire.Examples.{header, middle, key, seal, spent}
use organic_web_wallet.Staking.{is_hash, all_lower_hex}
use organic_web_wallet.Masternode.Encoding.{
  all_zeros, encode_outpoint, checked_public_key, or_zero_signature, checked_signature, reward_of,
  operator_payout, has_address, encode_masternode_registration,
  length-encode_masternode_registration,
}
use organic_web_wallet.Masternode.Service.{
  span_digits, read_number, expect, read_part, encode_endpoint, encode_service,
}
use organic_web_wallet.Masternode.FeeCoins.{registration_size}
use organic_web_wallet.Masternode.Size.{length-registration_size}
use organic_web_wallet.Masternode.{owner, operator, collateral, RegistrationRequest}
use organic_web_wallet.Masternode.Registering.{SignedRegistration, operation_of, fee_signatures}
use organic_web_wallet.Masternode.WithdrawalExamples.{own_script, own_key, own_address}

abbrev registration : RegistrationRequest
registration = record {
  fee_inputs =
      record {
        txid = replicate 64 b'0';
        vout = 0;
        sequence = none;
        prevout =
            some
              (record { value = number (pos 20000000); script = none; address = some own_address });
        public_key = given key;
        secret_key = given [];
      }
      ∷ [];
  outputs = record { value = number (pos 1000); script = none; address = some own_address } ∷ [];
  collateral = record {
    txid = replicate 64 b'1';
    vout = 1;
    value_sats = bigint (pos 400000000000);
    key = own_key;
  };
  owner = own_key;
  operator = own_key;
  payout_address = own_address;
  operator_payout_address = none;
  operator_reward = none;
  service = some (units "1.2.3.4:1025");
  network = testnet;
  genesis_display = replicate 64 b'a';
  locktime = number (pos 0);
}

abbrev registration_data : Bytes
registration_data =
    (1 ∷ 1 ∷ [])
    ++ ((replicate 32 0x11 ++ (1 ∷ 0 ∷ 0 ∷ 0 ∷ []))
        ++ (key
            ++ (key
                ++ (key
                    ++ (replicate 32 0
                        ++ ((0 ∷ 0 ∷ [])
                            ++ (replicate 32 0
                                ++ ((replicate 10 0 ++ (0xff ∷ 0xff ∷ 1 ∷ 2 ∷ 3 ∷ 4 ∷ 4 ∷ 1 ∷ []))
                                    ++ (replicate 2420 0
                                        ++ (replicate 2420 0 ++ replicate 2420 0))))))))))

registration_encoded :
    encode_masternode_registration plain_noble (operation_of registration) testnet
    ≡ ok registration_data
unfolding operation_of all_zeros encode_outpoint checked_public_key or_zero_signature
    checked_signature reward_of operator_payout has_address encode_masternode_registration
    span_digits read_number expect read_part encode_endpoint encode_service is_hash all_lower_hex
    hrp_for_network address_from_id pq_id_from_address bech32m_encode bech32m_decode convert_bits
    has_size field_bytes ◌===◌ write_hex hex_digit read_hex byte_of digit_value to_big_int whole
    u32le le_bytes
registration_encoded = refl

length-encode_masternode_registration_example : length registration_data ≡ 11318
length-encode_masternode_registration_example =
    length-encode_masternode_registration plain_noble plain_noble_laws (operation_of registration)
      testnet registration_data registration_encoded

abbrev amount_1000 : Bytes
amount_1000 = 0xe8 ∷ 3 ∷ 0 ∷ 0 ∷ 0 ∷ 0 ∷ 0 ∷ 0 ∷ 35 ∷ []

abbrev added_data : Bytes
added_data = (253 ∷ 54 ∷ 44 ∷ []) ++ registration_data

abbrev role_message : Bytes
role_message =
    replicate 32 0xaa
    ++ ((3 ∷ 0 ∷ 8 ∷ 0 ∷ 1 ∷ 6 ∷ 1 ∷ [])
        ++ ((replicate 32 0
              ++ ((0 ∷ 0 ∷ 0 ∷ 0 ∷ 255 ∷ 255 ∷ 255 ∷ 255 ∷ 0 ∷ 0x2d ∷ 0x31 ∷ 1 ∷ 0 ∷ 0 ∷ 0 ∷ 0 ∷ 35
                    ∷ [])
                  ++ own_script))
            ++ ((1 ∷ [])
                ++ ((amount_1000 ++ own_script)
                    ++ ((0 ∷ 0 ∷ 0 ∷ 0 ∷ 1 ∷ [])
                        ++ (key ++ (added_data ++ (0 ∷ 0 ∷ 0 ∷ 0 ∷ []))))))))

abbrev registration_raw : Bytes
registration_raw =
    header
    ++ (replicate 32 0
        ++ ((0 ∷ 0 ∷ 0 ∷ 0 ∷ 0 ∷ 255 ∷ 255 ∷ 255 ∷ 255 ∷ 1 ∷ [])
            ++ (amount_1000
                ++ (own_script
                    ++ ((0 ∷ 0 ∷ 0 ∷ 0 ∷ 0 ∷ 1 ∷ 253 ∷ 208 ∷ 58 ∷ [])
                        ++ ((1 ∷ 6 ∷ 1 ∷ []) ++ (key ++ (replicate 2420 0 ++ added_data))))))))

abbrev signed_registration : SignedRegistration
signed_registration = record {
  signed = record {
    raw = registration_raw;
    raw_hex = plain_noble.bytes_to_hex registration_raw;
    txid = plain_noble.bytes_to_hex (replicate 32 0);
  };
  role_message = role_message;
  owner_proof = record { role = owner; public_key = key; signature = replicate 2420 0 };
  operator_proof = record { role = operator; public_key = key; signature = replicate 2420 0 };
  collateral_proof = record { role = collateral; public_key = key; signature = replicate 2420 0 };
  signed_data = registration_data;
  fee_signatures =
      record { public_key = given key; signature = replicate 2420 0; message = role_message } ∷ [];
}

-- A registration to be serialized with a key and a signature at hand.
abbrev sized_request : Request
sized_request = record {
  inputs = spent ∷ [];
  outputs = record { value = number (pos 1000); script = none; address = some test_address } ∷ [];
  locktime = number (pos 0);
  payload = none;
  mode = 6;
  payload_data = replicate 11318 0;
  network = some testnet;
}

abbrev sized_raw : Bytes
sized_raw =
    header
    ++ (replicate 32 7
        ++ (middle
            ++ ((0xff ∷ 0x51 ∷ 0x20 ∷ test_id)
                ++ ((0 ∷ 0 ∷ 0 ∷ 0 ∷ 0 ∷ 1 ∷ 253 ∷ 208 ∷ 58 ∷ [])
                    ++ ((1 ∷ 6 ∷ 1 ∷ [])
                        ++ (key ++ (seal ++ ((253 ∷ 54 ∷ 44 ∷ []) ++ replicate 11318 0))))))))

sized_written : serialize_transfer plain_noble sized_request ≡ ok sized_raw
unfolding serialize_transfer resolve_payload build_payload mode_has_data build_authorizations
    has_size field_bytes encode_compact_size to_big_int whole compact_size i16le u32le i64le
    le_bytes serialize_tx_in serialize_tx_out script_bytes address_script script_sig_bytes
    source_bytes map_result flatten
sized_written = rw test_script refl

length-registration_size_example : length sized_raw ≡ registration_size 1 1
length-registration_size_example =
    length-registration_size plain_noble sized_request sized_raw refl refl (omega arith) (refl, tt)
      (refl, tt) sized_written
