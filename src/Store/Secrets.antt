-- ===== src/Store/Secrets.antt =====
-- What a new wallet relies on, and the secrets and keys that it stores.
use organic_web_wallet.Prelude.{
  ℕ, ◌+◌, ◌<◌, ◌≤◌, ◌≡◌, ◌≢◌, refl, true, false, not, Option, none, some, List, [], ◌∷◌, length,
  All, ◌==◌, ===_refl, ok, bind_inv, throw_inv, arith, seed_encryption, Error,
}
use organic_web_wallet.Platform.{Text, Bytes, IsBytes, NobleLaws}
use organic_web_wallet.Address.{Network, is_valid_pq_address}
use organic_web_wallet.Vault.{
  CryptoLaws, Entropy, encrypt, decrypt, pq_keypair_from_seed, pq_seed_size,
}
use organic_web_wallet.Vault.Trip.{decrypt-encrypt, length-encrypt}
use organic_web_wallet.Store.Records.{Services, Surroundings, has}
use organic_web_wallet.Store.Checks.{is_hex_text, all_lower_hex, valid_encrypted_secret}
use organic_web_wallet.Store.Keys.{
  non_empty_text, encrypt_or_throw, decrypt_seed_or_throw, address_for_seed, with_decrypted_seed,
}
use organic_web_wallet.Store.Imports.{check_derived, check_backup_key}

-- What the wallet relies on: hexadecimal in small letters, seeds that are bytes, normalizing twice is
-- normalizing once, and a valid phrase in its normal form is 24 words of at most 8 ASCII letters, with
-- single spaces between them.
pub record ServiceLaws (lib : Services) : Type 0 where
  pub noble : NobleLaws lib.noble
  pub crypto : CryptoLaws lib.crypto
  pub bytes_to_hex_lower : (b : Bytes) → IsBytes b → all_lower_hex (lib.noble.bytes_to_hex b) ≡ true
  pub derive_seed-IsBytes :
      (m seed : Text) (i : ℕ) → lib.phrases.derive_seed m i ≡ some seed → IsBytes seed
  pub normalize_twice :
      (m : Text) → lib.phrases.normalize (lib.phrases.normalize m) ≡ lib.phrases.normalize m
  pub phrase_is_short :
      (m : Text)
      → lib.phrases.normalize m ≡ m
      → lib.phrases.validate m ≡ true
      → (0 < length m) × (length m ≤ 215) × All (λ c. c < 128) m

-- The random source fills salts of 16 and vectors of 12 bytes.
abbrev pub IsRandom : Surroundings → Type 0
IsRandom env = (n : ℕ) → (length (env.entropy n).salt ≡ 16) × (length (env.entropy n).iv ≡ 12)

-- No address stands twice, nor among those already seen.
abbrev pub Distinct : List Text → List Text → Type 0
Distinct seen [] = Unit {0}
Distinct seen (a ∷ others) = (has seen a ≡ false) × Distinct (a ∷ seen) others

non_empty_text_ok :
    (o : Option Text) (e : Error) (t : Text) → non_empty_text o e ≡ ok t → (o ≡ some t) × (t ≢ [])
unfolding non_empty_text
non_empty_text_ok none e t h = cc
non_empty_text_ok (some []) e t h = cc
non_empty_text_ok (some (c ∷ cs)) e t h = (cc, λ empty. cc)

lower_hex-ascii : (t : Text) → all_lower_hex t ≡ true → All (λ c. c < 128) t
unfolding all_lower_hex
lower_hex-ascii [] h = tt
lower_hex-ascii (c ∷ cs) h = (ground arith, lower_hex-ascii cs (ground arith))

not_empty : (t : Text) → 0 < length t → t ≢ []
not_empty [] h e = omega arith
not_empty (c ∷ cs) h e = cc

fits_secret : (t : Text) → t ≢ [] → length t ≤ 512 → valid_encrypted_secret t ≡ true
unfolding valid_encrypted_secret
fits_secret [] some_text h = absurd (some_text refl)
fits_secret (c ∷ cs) some_text h = ground arith

module _ {lib : Services} (laws : ServiceLaws lib) where
  -- An encrypted ASCII text of at most 215 characters may be stored, and is decrypted to itself.
  pub stored :
      (e : Entropy) (plaintext password encrypted : Text) (error : Error)
      → (length e.salt ≡ 16) × (length e.iv ≡ 12)
      → 0 < length plaintext
      → length plaintext ≤ 215
      → All (λ c. c < 128) plaintext
      → encrypt_or_throw lib.crypto e plaintext password error ≡ ok encrypted
      → (valid_encrypted_secret encrypted ≡ true)
        × (decrypt lib.crypto encrypted password ≡ some plaintext)
  unfolding encrypt_or_throw
  stored e plaintext password encrypted error sizes some_text short ascii h =
      let (made, given) =
        non_empty_text_ok (encrypt lib.crypto e plaintext password) error encrypted h in
      (
        fits_secret encrypted given (
            omega (
              arith,
              length-encrypt laws.crypto e plaintext password encrypted sizes.0 sizes.1 ascii made,
            )),
        decrypt-encrypt laws.crypto e plaintext password encrypted sizes.0 sizes.1
            (not_empty plaintext some_text) ascii given made,
      )

  length-seed :
      (seed : Bytes) (network : Network) (address : Text)
      → address_for_seed lib seed network ≡ ok address
      → length seed ≡ 32
  unfolding address_for_seed pq_keypair_from_seed
  length-seed seed network address h =
      bind_inv (pq_keypair_from_seed lib.crypto seed) h λ pair made _.
        throw_inv (not (length seed == pq_seed_size)) _ _ made λ size _. ground (arith, size)

  -- The text of a seed is read back as that seed.
  seed_text :
      (seed : Bytes)
      → IsBytes seed
      → length seed ≡ 32
      → (is_hex_text 64 (lib.noble.bytes_to_hex seed) ≡ true)
        × (length (lib.noble.bytes_to_hex seed) ≡ 64)
  unfolding is_hex_text
  seed_text seed are_bytes size =
      let hex = lib.noble.bytes_to_hex seed in
      let back = laws.noble.hex_to_bytes-bytes_to_hex seed are_bytes in
      let doubled : length hex ≡ 64 = omega (arith, laws.noble.length-hex_to_bytes hex seed back) in
      (rw (doubled, laws.bytes_to_hex_lower seed are_bytes) refl, doubled)

  pub check_derived_self :
      (m : Text) (i : ℕ) (seed : Bytes)
      → lib.phrases.derive_seed m i ≡ some seed
      → check_derived lib m i seed ≡ ok tt
  unfolding check_derived
  check_derived_self [] i seed h = refl
  check_derived_self (c ∷ cs) i seed h = rw (h, ===_refl (lib.noble.bytes_to_hex seed)) refl

  -- A key that was just made passes the check of an import.
  pub created_key_fits :
      (env : Surroundings) (password : Text) (network : Network) (m : Text) (i : ℕ)
      (seen : List Text) (seed : Bytes) (address encrypted : Text)
      → IsRandom env
      → lib.phrases.derive_seed m i ≡ some seed
      → address_for_seed lib seed network ≡ ok address
      → encrypt_or_throw lib.crypto
          (env.entropy (2 + i))
          (lib.noble.bytes_to_hex seed)
          password
          seed_encryption
        ≡ ok encrypted
      → is_valid_pq_address address network ≡ true
      → has seen address ≡ false
      → check_backup_key lib password network m i seen
          (record { address = address; encrypted_seed = encrypted })
        ≡ ok tt
  unfolding check_backup_key with_decrypted_seed decrypt_seed_or_throw
  created_key_fits env password network m i seen seed address encrypted random derived owned made
        valid new_address =
      let are_bytes = laws.derive_seed-IsBytes m seed i derived in
      let (hex, size) = seed_text seed are_bytes (length-seed seed network address owned) in
      let ascii =
        lower_hex-ascii (lib.noble.bytes_to_hex seed) (laws.bytes_to_hex_lower seed are_bytes) in
      let (fits, opens) =
        stored (env.entropy (2 + i)) (lib.noble.bytes_to_hex seed) password encrypted
          seed_encryption (random (2 + i)) (omega arith) (omega arith) ascii made in
      rw
        (
          fits,
          valid,
          new_address,
          opens,
          hex,
          laws.noble.hex_to_bytes-bytes_to_hex seed are_bytes,
          owned,
          ===_refl address,
        )
        (check_derived_self m i seed derived)
