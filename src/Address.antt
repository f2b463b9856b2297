-- ===== src/Address.antt =====
-- scripts/pqwallet/pqaddress.js: bech32m text, regrouping of bits, and PQ addresses and scripts.
mod Bech32m
mod Groups
pub mod Canonical
pub mod Tests
pub mod Examples
unfoldable pub use Bech32m.{bech32m_encode, bech32m_decode}
unfoldable pub use Groups.{convert_bits}
use organic_web_wallet.Prelude.{
  ℕ, Bool, true, false, not, ◌&&◌, ◌||◌, Option, none, some, [], ◌∷◌, ◌++◌, length, drop, get_or,
  ◌==◌, ◌===◌, if◌then◌else◌, Result, ok, err, ◌>>=◌, ◌>>◌, throw_if, require, unsupported_network,
  public_key_size, id_size, address_case, address_payload, id_length, non_canonical_address,
}
use organic_web_wallet.Platform.{Text, Bytes, Noble, ByteSource, source_bytes, units}
use organic_web_wallet.Address.Bech32m.{lower}

-- `unknown` is a name that the tables below do not hold.
pub data Network : Type 0 where
  testnet regtest unknown : Network

-- mldsa.js
abbrev pub pq_public_key_size : ℕ
pq_public_key_size = 1312

abbrev pub pq_id_size : ℕ
pq_id_size = 32

abbrev pub pq_script_size : ℕ
pq_script_size = 35

abbrev pub pq_address_hrp : Network → Option Text
pq_address_hrp testnet = some (units "olcpqtest")
pq_address_hrp regtest = some (units "olcpqregtest")
pq_address_hrp unknown = none

abbrev pub pq_address_domain : Network → Option Text
pq_address_domain testnet = some (units "OLC/PQ/ML-DSA-44/testnet/address/v1")
pq_address_domain regtest = some (units "OLC/PQ/ML-DSA-44/regtest/address/v1")
pq_address_domain unknown = none

unfoldable pub hrp_for_network : Network → Result Text
hrp_for_network network = require (pq_address_hrp network) unsupported_network

unfoldable pub pq_id_from_public_key : Noble → Bytes → Network → Result Bytes
pq_id_from_public_key noble public_key network = do
  throw_if (not (length public_key == pq_public_key_size)) public_key_size
  domain ← require (pq_address_domain network) unsupported_network
  ok (noble.sha256 (domain ++ public_key))

unfoldable pub address_from_id : Bytes → Network → Result Text
address_from_id id network = do
  throw_if (not (length id == pq_id_size)) id_size
  hrp ← hrp_for_network network
  groups ← convert_bits id 8 5 true
  bech32m_encode hrp (1 ∷ groups)

unfoldable pub address_from_public_key : Noble → Bytes → Network → Result Text
address_from_public_key noble public_key network = do
  id ← pq_id_from_public_key noble public_key network
  address_from_id id network

unfoldable pub pq_id_from_address : Text → Network → Result Bytes
unfolding lower
pq_id_from_address address network = do
  hrp ← hrp_for_network network
  throw_if (not (address === lower address)) address_case
  (decoded_hrp, decoded) ← bech32m_decode address
  throw_if
      (not (decoded_hrp === hrp) || (not (length decoded == 53) || not (get_or decoded 0 0 == 1)))
      address_payload
  id ← convert_bits (drop 1 decoded) 5 8 false
  throw_if (not (length id == pq_id_size)) id_length
  again ← address_from_id id network
  throw_if (not (again === address)) non_canonical_address
  ok id

unfoldable pub pq_script_from_address : Text → Network → Result Bytes
pq_script_from_address address network = do
  id ← pq_id_from_address address network
  ok ((0xff ∷ 0x51 ∷ 0x20 ∷ []) ++ id)

unfoldable pub has_pq_prefix : Bytes → Bool
has_pq_prefix script =
    get_or script 0 0 == 0xff && (get_or script 1 0 == 0x51 && get_or script 2 0 == 0x20)

unfoldable pub script_address : Bytes → Network → Result (Option Text)
unfolding has_pq_prefix
script_address bytes network =
    if not (length bytes == pq_script_size)
    then ok none
    else if not (has_pq_prefix bytes)
    then ok none
    else (address_from_id (drop 3 bytes) network >>= λ address. ok (some address))

-- `none` is the `null` of a script of another form.
unfoldable pub pq_address_from_script : Noble → ByteSource → Network → Result (Option Text)
unfolding script_address
pq_address_from_script noble script network = do
  _ ← hrp_for_network network
  bytes ← source_bytes noble script
  script_address bytes network

unfoldable pub is_valid_pq_address : Text → Network → Bool
is_valid_pq_address address network = elim (pq_id_from_address address network) [
  | ok _ ↦ true
  | err _ ↦ false
]
