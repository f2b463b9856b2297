-- ===== src/Operator.antt =====
-- scripts/pqwallet/pqoperator.js: the configuration that a masternode operator is given, which holds
-- the operator's seed under a wrapping key. BLAKE2b and XChaCha20-Poly1305 of @noble are the record
-- `OperatorCrypto`.
pub mod Sealed
pub mod Trip
mod Examples
use organic_web_wallet.Prelude.{
  ℕ, ◌+◌, ◌*◌, ◌≡◌, not, Option, none, some, ◌∷◌, ◌++◌, length, take, drop, get_or, replicate,
  reverse, ◌==◌, ◌===◌, Result, ok, err, ◌>>=◌, ◌>>◌, throw_if, require, public_key_size,
  operator_network, operator_seed_size, operator_nonce_size, wrapping_key_size, genesis_length,
  genesis_form, encrypted_seed_size, config_form, config_version, config_size, config_decryption,
  config_key_mismatch, bad_hex, Error,
}
use organic_web_wallet.Platform.{Text, Bytes, Noble, units}
use organic_web_wallet.Address.{Network, testnet, regtest, unknown, pq_public_key_size}
use organic_web_wallet.Vault.{Crypto, pq_seed_size, pq_keypair_from_seed}
use organic_web_wallet.Store.Checks.{is_hex_text}

-- `blake2b` (key, salt, personalization) of no input, with 32 bytes of output; `seal` and `unseal` (key,
-- nonce, associated data, text), of which the second may throw.
pub record OperatorCrypto : Type 0 where
  pub blake2b : Bytes → Bytes → Bytes → Bytes
  pub seal : Bytes → Bytes → Bytes → Bytes → Bytes
  pub unseal : Bytes → Bytes → Bytes → Bytes → Option Bytes

pub record OperatorCryptoLaws (cipher : OperatorCrypto) : Type 0 where
  pub unseal-seal :
      (key nonce added b : Bytes)
      → cipher.unseal key nonce added (cipher.seal key nonce added b) ≡ some b
  pub length-seal :
      (key nonce added b : Bytes) → length (cipher.seal key nonce added b) ≡ length b + 16

abbrev pub pq_operator_record_version : ℕ
pq_operator_record_version = 2

abbrev pub pq_operator_nonce_size : ℕ
pq_operator_nonce_size = 24

abbrev pub pq_operator_wrapping_key_size : ℕ
pq_operator_wrapping_key_size = 32

abbrev pub pq_operator_encrypted_seed_size : ℕ
pq_operator_encrypted_seed_size = 48

abbrev pub pq_operator_record_size : ℕ
pq_operator_record_size =
    1 + pq_public_key_size + pq_operator_nonce_size + pq_operator_encrypted_seed_size

abbrev pub pq_operator_config_size : ℕ
pq_operator_config_size = pq_operator_record_size + pq_operator_wrapping_key_size

abbrev pub operator_kdf_context : Bytes
operator_kdf_context = units "OLCPQOP1"

abbrev pub operator_domain : Network → Option Bytes
operator_domain testnet = some (units "OLC/PQ/ML-DSA-44/testnet/operator-seed/v1")
operator_domain regtest = some (units "OLC/PQ/ML-DSA-44/regtest/operator-seed/v1")
operator_domain unknown = none

unfoldable pub exact_bytes : Bytes → ℕ → Error → Result Bytes
exact_bytes value size e = do throw_if (not (length value == size)) e; ok value

unfoldable pub derive_operator_storage_key : OperatorCrypto → Bytes → Result Bytes
unfolding exact_bytes
derive_operator_storage_key cipher wrapping_key = do
  key ← exact_bytes wrapping_key pq_operator_wrapping_key_size wrapping_key_size
  ok (cipher.blake2b key (replicate 16 0) (operator_kdf_context ++ replicate 8 0))

unfoldable pub associated_data : Network → Bytes → Bytes → Result Bytes
unfolding exact_bytes
associated_data network public_key genesis = do
  domain ← require (operator_domain network) operator_network
  key ← exact_bytes public_key pq_public_key_size public_key_size
  hash ← exact_bytes genesis 32 genesis_length
  ok (domain ++ (pq_operator_record_version ∷ (key ++ hash)))

pub record SeedRequest : Type 0 where
  pub seed : Bytes
  pub public_key : Bytes
  pub wrapping_key : Bytes
  pub nonce : Bytes
  pub network : Network
  pub genesis_wire : Bytes

pub record SeedRecord : Type 0 where
  pub version : ℕ
  pub public_key : Bytes
  pub nonce : Bytes
  pub encrypted_seed : Bytes

unfoldable pub encrypt_operator_seed_record : OperatorCrypto → SeedRequest → Result SeedRecord
unfolding exact_bytes
encrypt_operator_seed_record cipher q = do
  seed ← exact_bytes q.seed pq_seed_size operator_seed_size
  public_key ← exact_bytes q.public_key pq_public_key_size public_key_size
  nonce ← exact_bytes q.nonce pq_operator_nonce_size operator_nonce_size
  storage_key ← derive_operator_storage_key cipher q.wrapping_key
  added ← associated_data q.network public_key q.genesis_wire
  encrypted ←
      exact_bytes (cipher.seal storage_key nonce added seed) pq_operator_encrypted_seed_size
        encrypted_seed_size
  ok (record {
    version = pq_operator_record_version;
    public_key = public_key;
    nonce = nonce;
    encrypted_seed = encrypted;
  })

unfoldable pub genesis_wire : Noble → Text → Result Bytes
genesis_wire noble genesis_display = do
  throw_if (not (is_hex_text 64 genesis_display)) genesis_form
  bytes ← require (noble.hex_to_bytes genesis_display) bad_hex
  ok (reverse bytes)

-- What is not given is filled in by the random source.
pub record ConfigRequest : Type 0 where
  pub seed : Bytes
  pub wrapping_key : Bytes
  pub nonce : Bytes
  pub network : Network
  pub genesis_display : Text

pub record OperatorConfig : Type 0 where
  pub config : Text
  pub public_key : Bytes

unfoldable pub config_bytes : SeedRecord → Bytes → Bytes
config_bytes r wrap = r.version ∷ (r.public_key ++ (r.nonce ++ (r.encrypted_seed ++ wrap)))

unfoldable pub create_operator_config :
    Noble → Crypto → OperatorCrypto → ConfigRequest → Result OperatorConfig
unfolding config_bytes
create_operator_config noble crypto cipher q = do
  pair ← pq_keypair_from_seed crypto q.seed
  genesis ← genesis_wire noble q.genesis_display
  r ← encrypt_operator_seed_record cipher (record {
    seed = q.seed;
    public_key = pair.public_key;
    wrapping_key = q.wrapping_key;
    nonce = q.nonce;
    network = q.network;
    genesis_wire = genesis;
  })
  let config = noble.bytes_to_hex (config_bytes r q.wrapping_key)
  throw_if (not (length config == 2 * pq_operator_config_size)) config_size
  ok (record { config = config; public_key = pair.public_key })

-- `try { … } catch { throw new Error('Could not decrypt operator config'); }`
unfoldable pub renamed : Result Bytes → Result Bytes
renamed (ok b) = ok b
renamed (err e) = err config_decryption

unfoldable pub open_seed :
    Noble → OperatorCrypto → Network → Text → Bytes → Bytes → Bytes → Bytes → Result Bytes
open_seed noble cipher network genesis_display public_key nonce encrypted storage_key = do
  genesis ← genesis_wire noble genesis_display
  added ← associated_data network public_key genesis
  require (cipher.unseal storage_key nonce added encrypted) config_decryption

pub record OperatorSeed : Type 0 where
  pub seed : Bytes
  pub public_key : Bytes

unfoldable pub open_config :
    Noble
    → Crypto
    → OperatorCrypto
    → Network
    → Text
    → Bytes
    → Bytes
    → Bytes
    → Bytes
    → Result OperatorSeed
unfolding renamed open_seed
open_config noble crypto cipher network genesis_display public_key nonce encrypted wrapping_key = do
  storage_key ← derive_operator_storage_key cipher wrapping_key
  seed ←
      renamed
        (open_seed noble cipher network genesis_display public_key nonce encrypted storage_key)
  generated ← pq_keypair_from_seed crypto seed
  throw_if (not (noble.bytes_to_hex generated.public_key === noble.bytes_to_hex public_key))
      config_key_mismatch
  ok (record { seed = seed; public_key = public_key })

-- The slices of the bytes, each after the one before it.
unfoldable pub decrypt_operator_config :
    Noble → Crypto → OperatorCrypto → Text → Network → Text → Result OperatorSeed
decrypt_operator_config noble crypto cipher config network genesis_display = do
  throw_if (not (is_hex_text (2 * pq_operator_config_size) config)) config_form
  bytes ← require (noble.hex_to_bytes config) bad_hex
  throw_if (not (get_or bytes 0 0 == pq_operator_record_version)) config_version
  let after_key = drop pq_public_key_size (drop 1 bytes)
  let after_nonce = drop pq_operator_nonce_size after_key
  open_config noble crypto cipher network genesis_display (take pq_public_key_size (drop 1 bytes))
      (take pq_operator_nonce_size after_key) (take pq_operator_encrypted_seed_size after_nonce)
      (drop pq_operator_encrypted_seed_size after_nonce)
