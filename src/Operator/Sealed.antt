-- ===== src/Operator/Sealed.antt =====
-- What the encryption of scripts/pqwallet/pqoperator.js puts into a configuration.
use organic_web_wallet.Prelude.{
  ℕ, ◌≡◌, sym, not, ◌++◌, length, All-append, take, drop, ◌==◌, ok, bind_inv, throw_inv,
  ok-injective, arith, take-append_eq, drop-append_eq, Error, operator_seed_size, public_key_size,
  operator_nonce_size, encrypted_seed_size, seed_size, key_sizes, ◌||◌,
}
use organic_web_wallet.Platform.{Bytes, IsBytes, IsByte}
use organic_web_wallet.Address.{pq_public_key_size}
use organic_web_wallet.Vault.{
  Crypto, Keypair, pq_keypair_from_seed, pq_seed_size, pq_secret_key_size,
}
use organic_web_wallet.Operator.{
  OperatorCrypto, SeedRequest, SeedRecord, exact_bytes, derive_operator_storage_key,
  associated_data, encrypt_operator_seed_record,
}

exact_inv :
    (value : Bytes) (size : ℕ) (e : Error) {b : Bytes}
    → exact_bytes value size e ≡ ok b
    → (b ≡ value) × (length value ≡ size)
unfolding exact_bytes
exact_inv value size e h =
    throw_inv (not (length value == size)) e _ h
      λ fits end. (sym (ok-injective end), ground (arith, fits))

-- The parts of a seed record, and how its seed was sealed.
pub record Sealed (cipher : OperatorCrypto) (q : SeedRequest) (r : SeedRecord) : Type 0 where
  pub storage_key : Bytes
  pub derived : derive_operator_storage_key cipher q.wrapping_key ≡ ok storage_key
  pub added : Bytes
  pub bound : associated_data q.network q.public_key q.genesis_wire ≡ ok added
  pub record_form : r ≡ record {
    version = 2;
    public_key = q.public_key;
    nonce = q.nonce;
    encrypted_seed = cipher.seal storage_key q.nonce added q.seed;
  }
  pub key_fits : length q.public_key ≡ 1312
  pub nonce_fits : length q.nonce ≡ 24
  pub seed_fits : length (cipher.seal storage_key q.nonce added q.seed) ≡ 48

pub encrypt_operator_seed_record-Sealed :
    (cipher : OperatorCrypto) (q : SeedRequest) (r : SeedRecord)
    → encrypt_operator_seed_record cipher q ≡ ok r
    → Sealed cipher q r
unfolding encrypt_operator_seed_record
encrypt_operator_seed_record-Sealed cipher q r h =
    bind_inv (exact_bytes q.seed 32 operator_seed_size) h λ seed seed_is h1.
      bind_inv (exact_bytes q.public_key 1312 public_key_size) h1 λ public_key key_is h2.
        bind_inv (exact_bytes q.nonce 24 operator_nonce_size) h2 λ nonce nonce_is h3.
          bind_inv (derive_operator_storage_key cipher q.wrapping_key) h3 λ storage_key derived h4.
            bind_inv (associated_data q.network public_key q.genesis_wire) h4 λ added bound h5.
              bind_inv
                (exact_bytes (cipher.seal storage_key nonce added seed) 48 encrypted_seed_size) h5
                λ encrypted encrypted_is end.
                  let (seed_same, _) = exact_inv q.seed 32 operator_seed_size seed_is in
                  let (key_same, key_fits) = exact_inv q.public_key 1312 public_key_size key_is in
                  let (nonce_same, nonce_fits) =
                    exact_inv q.nonce 24 operator_nonce_size nonce_is in
                  let (encrypted_same, seed_fits) =
                    exact_inv (cipher.seal storage_key nonce added seed) 48 encrypted_seed_size
                      encrypted_is in
                  record {
                    storage_key = storage_key;
                    derived = derived;
                    added = added;
                    bound = rw (← key_same) bound;
                    record_form =
                        cc (ok-injective end, seed_same, key_same, nonce_same, encrypted_same);
                    key_fits = key_fits;
                    nonce_fits = nonce_fits;
                    seed_fits = rw (← nonce_same, ← seed_same) seed_fits;
                  }

-- The slices of a configuration are its parts.
pub sliced :
    (k n e w : Bytes)
    → length k ≡ 1312
    → length n ≡ 24
    → length e ≡ 48
    → (take 1312 (k ++ (n ++ (e ++ w))) ≡ k)
      × (take 24 (drop 1312 (k ++ (n ++ (e ++ w)))) ≡ n)
      × (take 48 (drop 24 (drop 1312 (k ++ (n ++ (e ++ w))))) ≡ e)
      × (drop 48 (drop 24 (drop 1312 (k ++ (n ++ (e ++ w))))) ≡ w)
sliced k n e w hk hn he =
    let first = drop-append_eq 1312 k (n ++ (e ++ w)) hk in
    let second = drop-append_eq 24 n (e ++ w) hn in
    (
      take-append_eq 1312 k (n ++ (e ++ w)) hk,
      rw first (take-append_eq 24 n (e ++ w) hn),
      rw (first, second) (take-append_eq 48 e w he),
      rw (first, second) (drop-append_eq 48 e w he),
    )

pub keypair_is :
    (crypto : Crypto) (seed : Bytes) (pair : Keypair)
    → pq_keypair_from_seed crypto seed ≡ ok pair
    → pair ≡ crypto.keygen seed
unfolding pq_keypair_from_seed
keypair_is crypto seed pair h = throw_inv (not (length seed == pq_seed_size)) seed_size _ h λ _ h1.
    throw_inv
      (not (length (crypto.keygen seed).secret_key == pq_secret_key_size)
        || not (length (crypto.keygen seed).public_key == pq_public_key_size))
      key_sizes _ h1 λ _ end. sym (ok-injective end)

pub parts_are_bytes :
    (k n e w : Bytes)
    → IsBytes k
    → IsBytes n
    → IsBytes e
    → IsBytes w
    → IsBytes (k ++ (n ++ (e ++ w)))
parts_are_bytes k n e w hk hn he hw =
    All-append IsByte k (n ++ (e ++ w)) hk
      (All-append IsByte n (e ++ w) hn (All-append IsByte e w he hw))
