-- ===== src/Address/Tests.antt =====
-- The vectors of tests/unit/pqaddress.spec.js.
use organic_web_wallet.Prelude.{◌≡◌, refl, [], ◌∷◌, ◌===◌, ok, err, address_payload}
use organic_web_wallet.Platform.{Text, Bytes, units}
use organic_web_wallet.Address.{
  testnet, regtest, hrp_for_network, address_from_id, pq_id_from_address, bech32m_encode,
  bech32m_decode, convert_bits,
}

abbrev pub test_address : Text
test_address = units "olcpqtest1ppf0kwsev98fsffnp9hpe0chp509e7mvpgpzyd5erfslqtgsxkrls25pmyv"

-- 0a5f6743…06b0ff
abbrev pub test_id : Bytes
test_id =
    0x0a ∷ 0x5f ∷ 0x67 ∷ 0x43 ∷ 0x2c ∷ 0x29 ∷ 0xd3 ∷ 0x04 ∷ 0xa6 ∷ 0x61 ∷ 0x2d ∷ 0xc3 ∷ 0x97 ∷ 0xe2
    ∷ 0xe1 ∷ 0xa3 ∷ 0xcb ∷ 0x9f ∷ 0x6d ∷ 0x81 ∷ 0x40 ∷ 0x44 ∷ 0x46 ∷ 0xd3 ∷ 0x23 ∷ 0x4c ∷ 0x3e
    ∷ 0x05 ∷ 0xa2 ∷ 0x06 ∷ 0xb0 ∷ 0xff ∷ []

pub test_address_decodes : pq_id_from_address test_address testnet ≡ ok test_id
unfolding pq_id_from_address hrp_for_network ◌===◌ bech32m_decode convert_bits address_from_id
    bech32m_encode
test_address_decodes = refl

test_id_encodes : address_from_id test_id testnet ≡ ok test_address
unfolding hrp_for_network ◌===◌ convert_bits address_from_id bech32m_encode
test_id_encodes = refl

-- The testnet address is refused on regtest.
wrong_network : pq_id_from_address test_address regtest ≡ err address_payload
unfolding pq_id_from_address hrp_for_network ◌===◌ bech32m_decode convert_bits address_from_id
    bech32m_encode
wrong_network = refl
