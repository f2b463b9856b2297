-- ===== src/Address/Examples.antt =====
-- The theorems on addresses at the vector of tests/unit/pqaddress.spec.js.
use organic_web_wallet.Prelude.{◌≡◌, refl, false, some, ◌∷◌, length, ok}
use organic_web_wallet.Platform.{bytes}
use organic_web_wallet.Platform.Hex.{plain_noble}
use organic_web_wallet.Address.{
  testnet, regtest, pq_script_from_address, pq_address_from_script, is_valid_pq_address,
}
use organic_web_wallet.Address.Tests.{test_address, test_id, test_address_decodes}
use organic_web_wallet.Address.Canonical.{
  one_network, pq_address_from_script-pq_script_from_address,
}

one_network_example : is_valid_pq_address test_address regtest ≡ false
one_network_example = one_network test_address test_id test_address_decodes

pub test_script : pq_script_from_address test_address testnet ≡ ok (0xff ∷ 0x51 ∷ 0x20 ∷ test_id)
unfolding pq_script_from_address
test_script = rw test_address_decodes refl

pq_address_from_script-pq_script_from_address_example :
    (length (0xff ∷ 0x51 ∷ 0x20 ∷ test_id) ≡ 35)
    × (pq_address_from_script plain_noble (bytes (0xff ∷ 0x51 ∷ 0x20 ∷ test_id)) testnet
        ≡ ok (some test_address))
pq_address_from_script-pq_script_from_address_example =
    pq_address_from_script-pq_script_from_address plain_noble test_address testnet
      (0xff ∷ 0x51 ∷ 0x20 ∷ test_id) test_script
