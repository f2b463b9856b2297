-- ===== src/Coins/SizeExample.antt =====
-- The size of a transfer from one input to the address of tests/unit/pqaddress.spec.js.
use mathlib.Core.List.{flatten}
use organic_web_wallet.Prelude.{
  ◌≡◌, refl, none, some, [], ◌∷◌, ◌++◌, length, replicate, ok, map_result,
}
use organic_web_wallet.Prelude.Int.{pos}
use organic_web_wallet.Platform.{Bytes, number, whole, source_bytes}
use organic_web_wallet.Platform.Hex.{plain_noble}
use organic_web_wallet.Address.{testnet}
use organic_web_wallet.Address.Tests.{test_address, test_id}
use organic_web_wallet.Address.Examples.{test_script}
use organic_web_wallet.Wire.Codec.{
  le_bytes, compact_size, encode_compact_size, to_big_int, u32le, i64le, i16le,
}
use organic_web_wallet.Wire.Payload.{
  mode_has_data, build_authorizations, has_size, field_bytes, build_payload,
}
use organic_web_wallet.Wire.Serialize.{
  Request, address_script, script_bytes, script_sig_bytes, serialize_tx_in, serialize_tx_out,
  resolve_payload, serialize_transfer,
}
use organic_web_wallet.Wire.Examples.{spent, payload_bytes, header, middle, footer}
use organic_web_wallet.Coins.{transfer_size}
use organic_web_wallet.Coins.Size.{length-serialize_transfer}

abbrev payment : Request
payment = record {
  inputs = spent ∷ [];
  outputs = record { value = number (pos 1000); script = none; address = some test_address } ∷ [];
  locktime = number (pos 0);
  payload = none;
  mode = 1;
  payload_data = [];
  network = some testnet;
}

abbrev payment_raw : Bytes
payment_raw =
    header
    ++ (replicate 32 7 ++ (middle ++ ((0xff ∷ 0x51 ∷ 0x20 ∷ test_id) ++ (footer ++ payload_bytes))))

payment_written : serialize_transfer plain_noble payment ≡ ok payment_raw
unfolding serialize_transfer resolve_payload build_payload mode_has_data build_authorizations
    has_size field_bytes encode_compact_size to_big_int whole compact_size i16le u32le i64le
    le_bytes serialize_tx_in serialize_tx_out script_bytes address_script script_sig_bytes
    source_bytes map_result flatten
payment_written = rw test_script refl

-- 4 + 1 + 41 + 1 + 44 + 4 + 2 + 3 + 3735
length-serialize_transfer_example : length payment_raw ≡ transfer_size 1 1
length-serialize_transfer_example =
    length-serialize_transfer plain_noble payment payment_raw refl refl (refl, tt) (refl, tt)
      payment_written
