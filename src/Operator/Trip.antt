-- ===== src/Operator/Trip.antt =====
-- A configuration that is created is opened to the seed in it.
use organic_web_wallet.Prelude.{
  ◌≡◌, refl, ap, true, not, ◌∷◌, ◌++◌, length, ◌==◌, ===_refl, ok, bind_inv, throw_inv,
  ok-injective, not-false, arith, config_size,
}
use organic_web_wallet.Platform.{Text, Bytes, IsBytes, Noble, NobleLaws}
use organic_web_wallet.Address.{Network}
use organic_web_wallet.Vault.{Crypto, Keypair, pq_keypair_from_seed}
use organic_web_wallet.Store.Checks.{is_hex_text, all_lower_hex}
use organic_web_wallet.Operator.{
  OperatorCrypto, OperatorCryptoLaws, SeedRequest, SeedRecord, ConfigRequest, OperatorConfig,
  OperatorSeed, encrypt_operator_seed_record, genesis_wire, config_bytes, create_operator_config,
  renamed, open_seed, open_config, decrypt_operator_config,
}
use organic_web_wallet.Operator.Sealed.{
  keypair_is, sliced, Sealed, parts_are_bytes, encrypt_operator_seed_record-Sealed,
}

module _ (noble : Noble) (crypto : Crypto) (cipher : OperatorCrypto)
    (laws : OperatorCryptoLaws cipher) where
  -- The parts of a configuration open to the sealed seed.
  open_config-Sealed :
      (q : SeedRequest) (r : SeedRecord) (genesis_display : Text) (pair : Keypair)
      (s : Sealed cipher q r)
      → pq_keypair_from_seed crypto q.seed ≡ ok pair
      → pair.public_key ≡ q.public_key
      → genesis_wire noble genesis_display ≡ ok q.genesis_wire
      → open_config noble crypto cipher q.network genesis_display q.public_key q.nonce
          (cipher.seal s.storage_key q.nonce s.added q.seed)
          q.wrapping_key
        ≡ ok (record { seed = q.seed; public_key = q.public_key })
  unfolding open_config open_seed renamed
  open_config-Sealed q r genesis_display pair s made same genesis =
      rw
        (
          s.derived,
          genesis,
          s.bound,
          laws.unseal-seal s.storage_key q.nonce s.added q.seed,
          renamed,
          made,
          same,
          ===_refl (noble.bytes_to_hex q.public_key),
        )
        refl

  -- The configuration text is read back as its bytes.
  module _ (hex : NobleLaws noble)
      (lower : (b : Bytes) → IsBytes b → all_lower_hex (noble.bytes_to_hex b) ≡ true) where
    decrypt_operator_config-config_bytes :
        (network : Network) (genesis_display : Text) (k n e w : Bytes) (out : OperatorSeed)
        → IsBytes (2 ∷ (k ++ (n ++ (e ++ w))))
        → length k ≡ 1312
        → length n ≡ 24
        → length e ≡ 48
        → (length (noble.bytes_to_hex (2 ∷ (k ++ (n ++ (e ++ w))))) == 2834) ≡ true
        → open_config noble crypto cipher network genesis_display k n e w ≡ ok out
        → decrypt_operator_config noble crypto cipher
            (noble.bytes_to_hex (2 ∷ (k ++ (n ++ (e ++ w)))))
            network
            genesis_display
          ≡ ok out
    unfolding decrypt_operator_config is_hex_text
    decrypt_operator_config-config_bytes network genesis_display k n e w out are_bytes hk hn he size
          opens =
        let (s1, s2, s3, s4) = sliced k n e w hk hn he in
        let all = 2 ∷ (k ++ (n ++ (e ++ w))) in
        rw
          (
            size,
            lower (2 ∷ (k ++ (n ++ (e ++ w)))) are_bytes,
            hex.hex_to_bytes-bytes_to_hex (2 ∷ (k ++ (n ++ (e ++ w)))) are_bytes,
            s1,
            s2,
            s3,
            s4,
          )
          opens

    -- A created configuration is opened, on the network and for the genesis block that it was created
    -- for, to the seed in it with its public key. The hexadecimal is in small letters; seed, keys,
    -- ciphertexts, nonce and wrapping key are bytes.
    pub decrypt_operator_config-create_operator_config :
        (q : ConfigRequest) (c : OperatorConfig)
        → ((seed : Bytes) → IsBytes (crypto.keygen seed).public_key)
        → ((key nonce added b : Bytes) → IsBytes b → IsBytes (cipher.seal key nonce added b))
        → IsBytes q.seed
        → IsBytes q.nonce
        → IsBytes q.wrapping_key
        → create_operator_config noble crypto cipher q ≡ ok c
        → decrypt_operator_config noble crypto cipher c.config q.network q.genesis_display
          ≡ ok (record { seed = q.seed; public_key = c.public_key })
    unfolding create_operator_config config_bytes
    decrypt_operator_config-create_operator_config q c keys sealed_bytes seed nonce wrap h =
        bind_inv (pq_keypair_from_seed crypto q.seed) h λ pair made h1.
          bind_inv (genesis_wire noble q.genesis_display) h1 λ genesis hash h2.
            let asked : SeedRequest = record {
              seed = q.seed;
              public_key = pair.public_key;
              wrapping_key = q.wrapping_key;
              nonce = q.nonce;
              network = q.network;
              genesis_wire = genesis;
            } in
            bind_inv (encrypt_operator_seed_record cipher asked) h2 λ r encrypted h3.
              throw_inv (not (length (noble.bytes_to_hex (config_bytes r q.wrapping_key)) == 2834))
                config_size _ h3
                λ size end.
                  let s : Sealed cipher asked r =
                    encrypt_operator_seed_record-Sealed cipher asked r encrypted in
                  let all =
                    pair.public_key
                    ++ (q.nonce
                        ++ (cipher.seal s.storage_key q.nonce s.added q.seed ++ q.wrapping_key)) in
                  let flat : config_bytes r q.wrapping_key ≡ 2 ∷ all =
                    ap (λ (x : SeedRecord). config_bytes x q.wrapping_key) s.record_form in
                  let public_bytes : IsBytes pair.public_key =
                    rw (keypair_is crypto q.seed pair made) (keys q.seed) in
                  rw (← ok-injective end) (
                    rw flat (
                      decrypt_operator_config-config_bytes q.network q.genesis_display
                        pair.public_key q.nonce (cipher.seal s.storage_key q.nonce s.added q.seed)
                        q.wrapping_key (record { seed = q.seed; public_key = pair.public_key })
                        (
                          omega arith,
                          parts_are_bytes pair.public_key q.nonce
                              (cipher.seal s.storage_key q.nonce s.added q.seed) q.wrapping_key
                              public_bytes nonce
                              (sealed_bytes s.storage_key q.nonce s.added q.seed seed) wrap,
                        )
                        s.key_fits s.nonce_fits s.seed_fits (rw (← flat) (not-false _ size))
                        (open_config-Sealed asked r q.genesis_display pair s made refl hash)))
