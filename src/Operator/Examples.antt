-- ===== src/Operator/Examples.antt =====
-- An operator's configuration with concrete libraries.
use organic_web_wallet.Prelude.{
  ◌≡◌, refl, some, ◌∷◌, ◌++◌, drop, replicate, All-append, All-replicate, arith, ok,
}
use organic_web_wallet.Platform.{Bytes, IsByte}
use organic_web_wallet.Platform.Hex.{
  plain_noble, plain_noble_laws, write_hex, hex_digit, read_hex, byte_of, digit_value,
}
use organic_web_wallet.Address.{testnet}
use organic_web_wallet.Vault.{pq_keypair_from_seed}
use organic_web_wallet.Store.Checks.{all_lower_hex, is_hex_text}
use organic_web_wallet.Store.Services.{plain_crypto, plain-ServiceLaws}
use organic_web_wallet.Operator.{
  OperatorCrypto, OperatorCryptoLaws, ConfigRequest, OperatorConfig, exact_bytes,
  derive_operator_storage_key, associated_data, encrypt_operator_seed_record, genesis_wire,
  create_operator_config, decrypt_operator_config,
}
use organic_web_wallet.Operator.Trip.{decrypt_operator_config-create_operator_config}

-- A cipher that fills the tag with ones; it is not given bytes that are none.
abbrev plain_cipher : OperatorCrypto
plain_cipher = record {
  blake2b = λ _ _ _. replicate 32 0;
  seal = λ _ _ _ b. replicate 16 1 ++ b;
  unseal = λ _ _ _ c. some (drop 16 c);
}

plain_cipher_laws : OperatorCryptoLaws plain_cipher
plain_cipher_laws = record { unseal-seal = λ _ _ _ _. refl; length-seal = λ _ _ _ b. omega arith }

abbrev request : ConfigRequest
request = record {
  seed = replicate 32 7;
  wrapping_key = replicate 32 9;
  nonce = replicate 24 8;
  network = testnet;
  genesis_display = replicate 64 b'a';
}

abbrev config : Bytes
config =
    2
    ∷ (replicate 1312 0
        ++ (replicate 24 8 ++ ((replicate 16 1 ++ replicate 32 7) ++ replicate 32 9)))

abbrev operator_config : OperatorConfig
operator_config = record { config = plain_noble.bytes_to_hex config; public_key = replicate 1312 0 }

config_created :
    create_operator_config plain_noble plain_crypto plain_cipher request ≡ ok operator_config
unfolding create_operator_config pq_keypair_from_seed genesis_wire is_hex_text all_lower_hex
    read_hex byte_of digit_value encrypt_operator_seed_record exact_bytes
    derive_operator_storage_key associated_data write_hex hex_digit
config_created = refl

decrypt_operator_config-create_operator_config_example :
    decrypt_operator_config plain_noble plain_crypto plain_cipher operator_config.config testnet
      (replicate 64 b'a')
    ≡ ok (record { seed = replicate 32 7; public_key = replicate 1312 0 })
decrypt_operator_config-create_operator_config_example =
    decrypt_operator_config-create_operator_config plain_noble plain_crypto plain_cipher
      plain_cipher_laws plain_noble_laws plain-ServiceLaws.bytes_to_hex_lower request
      operator_config (λ _. All-replicate IsByte 1312 0 (omega arith))
      (λ _ _ _ b h. All-append IsByte (replicate 16 1) b (omega arith) h) (omega arith)
      (omega arith) (omega arith) config_created
