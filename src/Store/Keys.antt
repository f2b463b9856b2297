-- ===== src/Store/Keys.antt =====
-- scripts/pqwallet/pqwallet-store.js: secrets under the password, the key pairs behind them, and the
-- locked and unlocked wallet.
use organic_web_wallet.Prelude.{
  Error, ℕ, suc, ◌+◌, ◌%◌, Bool, true, false, not, Option, none, some, List, [], ◌∷◌, map, length,
  get_or, ◌===◌, ◌==◌, Result, ok, err, ◌>>=◌, ◌>>◌, throw_if, require, bad_hex, not_initialized,
  wrong_password, seed_corrupt, wallet_corrupt, wallet_locked, unknown_address, phrase_unavailable,
  phrase_corrupt, bad_phrase,
}
use organic_web_wallet.Platform.{Text, Bytes, units}
use organic_web_wallet.Address.{Network, address_from_public_key}
use organic_web_wallet.Vault.{Crypto, Entropy, encrypt, decrypt, pq_keypair_from_seed}
use organic_web_wallet.Store.Records.{
  KeyRecord, WalletMeta, Database, Store, Services, sorted_keys, set_seed, find_seed,
}
use organic_web_wallet.Store.Checks.{assert_password, is_hex_text, valid_encrypted_secret}

abbrev pub verifier_plaintext : Text
verifier_plaintext = units "olc-pq-wallet-verifier-v1"

-- `typeof encrypted !== 'string' || encrypted.length === 0` throws.
unfoldable pub non_empty_text : Option Text → Error → Result Text
non_empty_text none e = err e
non_empty_text (some []) e = err e
non_empty_text (some (c ∷ cs)) e = ok (c ∷ cs)

unfoldable pub encrypt_or_throw : Crypto → Entropy → Text → Text → Error → Result Text
encrypt_or_throw crypto entropy plaintext password e =
    non_empty_text (encrypt crypto entropy plaintext password) e

unfoldable pub decrypt_seed_or_throw : Services → Text → Text → Result Bytes
decrypt_seed_or_throw lib encrypted_seed password = do
  hex ← require (decrypt lib.crypto encrypted_seed password) seed_corrupt
  throw_if (not (is_hex_text 64 hex)) seed_corrupt
  require (lib.noble.hex_to_bytes hex) bad_hex

unfoldable pub verify_password : Services → Database → Text → Result WalletMeta
verify_password lib database password = do
  meta ← require database.wallet not_initialized
  verifier ← require (decrypt lib.crypto meta.verifier password) wrong_password
  throw_if (not (verifier === verifier_plaintext)) wrong_password
  ok meta

unfoldable pub address_for_seed : Services → Bytes → Network → Result Text
address_for_seed lib seed network = do
  pair ← pq_keypair_from_seed lib.crypto seed
  address_from_public_key lib.noble pair.public_key network

-- The seed is wiped when the callback is done; here it is only passed on.
unfoldable pub with_decrypted_seed {ℓ} :
    {A : Type ℓ} → Services → Text → Text → (Bytes → Result A) → Result A
with_decrypted_seed lib encrypted_seed password callback = do
  seed ← decrypt_seed_or_throw lib encrypted_seed password
  callback seed

unfoldable pub unlock_key : Services → Text → Network → KeyRecord → Result Bytes
unlock_key lib password network r = with_decrypted_seed lib r.encrypted_seed password λ seed. do
  address ← address_for_seed lib seed network
  throw_if (not (address === r.address)) wallet_corrupt
  ok seed

unfoldable pub unlock_keys :
    Services → Text → Network → List KeyRecord → List (Text × Bytes) → Result (List (Text × Bytes))
unlock_keys lib password network [] seeds = ok seeds
unlock_keys lib password network (r ∷ rs) seeds = do
  seed ← unlock_key lib password network r
  unlock_keys lib password network rs (set_seed r.address seed seeds)

unfoldable pub lock_wallet : Store → Store
lock_wallet s = record s { unlocked = none; receive_cursor = 0 }

unfoldable pub unlock_wallet : Services → Text → Store → Result (List Text × Store)
unfolding lock_wallet
unlock_wallet lib password s = do
  assert_password password
  meta ← verify_password lib s.database password
  seeds ← unlock_keys lib password meta.network (sorted_keys s.database.keys) []
  ok (
    map (λ (entry : Text × Bytes). entry.0) seeds,
    record (lock_wallet s) { unlocked = some seeds; receive_cursor = 0 },
  )

unfoldable pub is_unlocked : Store → Bool
is_unlocked s = elim s.unlocked [ none ↦ false | some _ ↦ true ]

unfoldable pub is_initialized : Store → Bool
is_initialized s = elim s.database.wallet [ none ↦ false | some _ ↦ true ]

unfoldable pub get_addresses : Store → List Text
get_addresses s = map (λ (r : KeyRecord). r.address) (sorted_keys s.database.keys)

unfoldable pub get_next_receive_address : Store → Result (Text × Store)
unfolding get_addresses
get_next_receive_address s = do
  let addresses = get_addresses s
  throw_if (length addresses == 0) not_initialized
  ok (
    get_or addresses (s.receive_cursor % length addresses) [],
    record s { receive_cursor = s.receive_cursor + 1 },
  )

unfoldable pub get_seed : Text → Store → Result Bytes
get_seed address s = do
  seeds ← require s.unlocked wallet_locked
  require (find_seed address seeds) unknown_address

-- The seeds of the phrase, from an index on, belong to the addresses.
unfoldable pub check_phrase : Services → Network → Text → ℕ → List KeyRecord → Result (Unit {0})
check_phrase lib network mnemonic index [] = ok tt
check_phrase lib network mnemonic index (r ∷ rs) = do
  seed ← require (lib.phrases.derive_seed mnemonic index) bad_phrase
  address ← address_for_seed lib seed network
  throw_if (not (address === r.address)) phrase_corrupt
  check_phrase lib network mnemonic (suc index) rs

-- `normalizePQMnemonic` of anything but a text is empty.
unfoldable pub normalized : Services → Option Text → Text
normalized lib none = []
normalized lib (some t) = lib.phrases.normalize t

unfoldable pub stored_mnemonic : Option Text → Result Text
stored_mnemonic none = err phrase_unavailable
stored_mnemonic (some t) = do throw_if (not (valid_encrypted_secret t)) phrase_unavailable; ok t

unfoldable pub get_recovery_mnemonic : Services → Text → Store → Result Text
get_recovery_mnemonic lib password s = do
  assert_password password
  meta ← verify_password lib s.database password
  encrypted ← stored_mnemonic meta.encrypted_mnemonic
  let mnemonic = normalized lib (decrypt lib.crypto encrypted password)
  throw_if (not (lib.phrases.validate mnemonic)) phrase_corrupt
  check_phrase lib meta.network mnemonic 0 (sorted_keys s.database.keys)
  ok mnemonic
