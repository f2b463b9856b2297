-- ===== src/Vault.antt =====
-- scripts/aes-gcm.js: a text encrypted under a password, and scripts/pqwallet/mldsa.js: the key pair of
-- a seed. What the browser and the @noble libraries do (UTF-8, base64, PBKDF2, AES-GCM, key
-- generation) is the record `Crypto` with its laws.
pub mod Trip
use organic_web_wallet.Prelude.{
  ℕ, ◌+◌, ◌*◌, ◌≤◌, ◌<◌, All, ◌≡◌, not, ◌||◌, Option, none, some, [], ◌∷◌, ◌++◌, length, take, drop,
  ◌==◌, Result, ok, ◌>>=◌, ◌>>◌, throw_if, seed_size, key_sizes,
}
use organic_web_wallet.Platform.{Text, Bytes}
use organic_web_wallet.Address.{pq_public_key_size}

pub record Keypair : Type 0 where
  pub secret_key : Bytes
  pub public_key : Bytes

-- `none` of a function stands for a call that throws.
pub record Crypto : Type 0 where
  pub encode_text : Text → Bytes
  pub decode_text : Bytes → Text
  pub btoa : Bytes → Text
  pub atob : Text → Option Bytes
  pub pbkdf2 : Bytes → Bytes → Bytes
  pub seal : Bytes → Bytes → Bytes → Option Bytes
  pub unseal : Bytes → Bytes → Bytes → Option Bytes
  pub keygen : Bytes → Keypair

-- What `getRandomValues` fills in for one encryption.
pub record Entropy : Type 0 where
  pub salt : Bytes
  pub iv : Bytes

-- The documented behaviour that the code relies on: decoding undoes encoding, and the cipher opens
-- under the same key and vector what it sealed.
pub record CryptoLaws (crypto : Crypto) : Type 0 where
  -- Of other texts, a lone surrogate would be replaced, and a byte order mark left out.
  pub decode-encode :
      (t : Text) → All (λ c. c < 128) t → crypto.decode_text (crypto.encode_text t) ≡ t
  pub atob-btoa : (b : Bytes) → crypto.atob (crypto.btoa b) ≡ some b
  pub unseal-seal :
      (key iv b c : Bytes) → crypto.seal key iv b ≡ some c → crypto.unseal key iv c ≡ some b
  -- A byte for an ASCII character, a tag of 16 bytes, four base64 digits for three bytes.
  pub length-encode_text :
      (t : Text) → All (λ c. c < 128) t → length (crypto.encode_text t) ≡ length t
  pub length-seal : (key iv b c : Bytes) → crypto.seal key iv b ≡ some c → length c ≡ length b + 16
  pub length-btoa : (b : Bytes) → 3 * length (crypto.btoa b) ≤ 4 * (length b + 2)

-- 250000 rounds of PBKDF2 with SHA-256, by either of two libraries.
unfoldable pub derive_key : Crypto → Text → Bytes → Bytes
derive_key crypto password salt = crypto.pbkdf2 (crypto.encode_text password) salt

-- A failure is caught and gives the empty text.
unfoldable pub encrypt_data : Crypto → Entropy → Text → Text → Text
unfolding derive_key
encrypt_data crypto e secret password =
    elim (crypto.seal (derive_key crypto password e.salt) e.iv (crypto.encode_text secret)) [
      | none ↦ []
      | some content ↦ crypto.btoa (e.salt ++ (e.iv ++ content))
    ]

-- `none` is `false`.
unfoldable pub encrypt : Crypto → Entropy → Text → Text → Option Text
encrypt crypto e secret [] = none
encrypt crypto e secret (c ∷ cs) = some (encrypt_data crypto e secret (c ∷ cs))

unfoldable pub open_sealed : Crypto → Text → Bytes → Text
unfolding derive_key
open_sealed crypto password buffer =
    elim (crypto.unseal (derive_key crypto password (take 16 buffer)) (take 12 (drop 16 buffer))
      (drop (16 + 12) buffer)) [ none ↦ [] | some content ↦ crypto.decode_text content ]

unfoldable pub decrypt_data : Crypto → Text → Text → Text
decrypt_data crypto encrypted password = elim (crypto.atob encrypted) [
  | none ↦ []
  | some buffer ↦ open_sealed crypto password buffer
]

-- `text || false`
unfoldable pub or_false : Text → Option Text
or_false [] = none
or_false (c ∷ cs) = some (c ∷ cs)

unfoldable pub decrypt : Crypto → Text → Text → Option Text
decrypt crypto encrypted [] = none
decrypt crypto encrypted (c ∷ cs) = or_false (decrypt_data crypto encrypted (c ∷ cs))

abbrev pub pq_seed_size : ℕ
pq_seed_size = 32

abbrev pub pq_secret_key_size : ℕ
pq_secret_key_size = 2560

unfoldable pub pq_keypair_from_seed : Crypto → Bytes → Result Keypair
pq_keypair_from_seed crypto seed = do
  throw_if (not (length seed == pq_seed_size)) seed_size
  let pair = crypto.keygen seed
  throw_if
      (not (length pair.secret_key == pq_secret_key_size)
        || not (length pair.public_key == pq_public_key_size))
      key_sizes
  ok pair
