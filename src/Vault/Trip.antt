-- ===== src/Vault/Trip.antt =====
-- What is encrypted under a password is decrypted under it.
use organic_web_wallet.Prelude.{
  ◌+◌, ◌*◌, ◌≤◌, ◌<◌, All, drop, ◌≡◌, ◌≢◌, refl, sym, ◌∙◌, inl, inr, some, [], ◌∷◌, ◌++◌, length,
  arith, Option-cases, take-append_eq, drop-append_eq, length-append,
}
use mathlib.Core.List.{append_assoc}
use organic_web_wallet.Platform.{Text, Bytes}
use organic_web_wallet.Vault.{
  Crypto, CryptoLaws, Entropy, derive_key, encrypt_data, encrypt, open_sealed, decrypt_data,
  or_false, decrypt,
}

module _ {crypto : Crypto} (laws : CryptoLaws crypto) where
  open_sealed-append :
      (salt iv content b : Bytes) (password : Text)
      → length salt ≡ 16
      → length iv ≡ 12
      → crypto.unseal (derive_key crypto password salt) iv content ≡ some b
      → open_sealed crypto password (salt ++ (iv ++ content)) ≡ crypto.decode_text b
  unfolding open_sealed
  open_sealed-append salt iv content b password hs hi opens =
      let third : drop (16 + 12) (salt ++ (iv ++ content)) ≡ content =
        rw (← append_assoc)
          (drop-append_eq (16 + 12) (salt ++ iv) content (omega (arith, length-append salt iv))) in
      rw
        (
          take-append_eq 16 salt (iv ++ content) hs,
          drop-append_eq 16 salt (iv ++ content) hs,
          take-append_eq 12 iv content hi,
          third,
          open_sealed,
        )
        (rw opens refl)

  or_false_nonempty : (t : Text) → t ≢ [] → or_false t ≡ some t
  unfolding or_false
  or_false_nonempty [] h = absurd (h refl)
  or_false_nonempty (c ∷ cs) h = refl

  encrypt_data-cases :
      (e : Entropy) (secret password : Text)
      → length e.salt ≡ 16
      → length e.iv ≡ 12
      → All (λ c. c < 128) secret
      → encrypt_data crypto e secret password ≢ []
      → decrypt_data crypto (encrypt_data crypto e secret password) password ≡ secret
  unfolding encrypt_data decrypt_data
  encrypt_data-cases e secret password hs hi ascii made =
      let key = derive_key crypto password e.salt in
      let plain = crypto.encode_text secret in
      elim (Option-cases (crypto.seal key e.iv plain)) [
        | inl fails ↦ absurd (made (rw (fails, encrypt_data) refl))
        | inr (content, sealed) ↦
            rw (sealed, encrypt_data, laws.atob-btoa (e.salt ++ (e.iv ++ content)), decrypt_data)
              (open_sealed-append e.salt e.iv content plain password hs hi
                  (laws.unseal-seal key e.iv plain content sealed)
                ∙ laws.decode-encode secret ascii)
      ]

  -- An ASCII text that is not empty, encrypted under a password with a salt of 16 bytes and a vector of 12,
  -- is decrypted under that password to the same text, unless the encryption has failed.
  pub decrypt-encrypt :
      (e : Entropy) (secret password encrypted : Text)
      → length e.salt ≡ 16
      → length e.iv ≡ 12
      → secret ≢ []
      → All (λ c. c < 128) secret
      → encrypted ≢ []
      → encrypt crypto e secret password ≡ some encrypted
      → decrypt crypto encrypted password ≡ some secret
  unfolding encrypt decrypt
  decrypt-encrypt e secret [] encrypted hs hi some_secret ascii made h = cc
  decrypt-encrypt e secret (c ∷ cs) encrypted hs hi some_secret ascii made h =
      let same : encrypt_data crypto e secret (c ∷ cs) ≡ encrypted = cc in
      rw (← same) (
        rw
          (encrypt_data-cases e secret (c ∷ cs) hs hi ascii
            (λ none_made. made (sym same ∙ none_made)))
          (or_false_nonempty secret some_secret))

  length-encrypt_data :
      (e : Entropy) (secret password : Text)
      → length e.salt ≡ 16
      → length e.iv ≡ 12
      → All (λ c. c < 128) secret
      → 3 * length (encrypt_data crypto e secret password) ≤ 4 * (length secret + 46)
  unfolding encrypt_data
  length-encrypt_data e secret password hs hi ascii =
      let key = derive_key crypto password e.salt in
      let plain = crypto.encode_text secret in
      elim (Option-cases (crypto.seal key e.iv plain)) [
        | inl fails ↦ rw (fails, encrypt_data) (omega arith)
        | inr (content, sealed) ↦
            rw (sealed, encrypt_data)
              (omega (
                arith,
                laws.length-btoa (e.salt ++ (e.iv ++ content)),
                length-append e.salt (e.iv ++ content),
                length-append e.iv content,
                laws.length-seal key e.iv plain content sealed,
                laws.length-encode_text secret ascii,
              ))
      ]

  -- An encrypted ASCII text is not much longer than base64 makes it.
  pub length-encrypt :
      (e : Entropy) (secret password encrypted : Text)
      → length e.salt ≡ 16
      → length e.iv ≡ 12
      → All (λ c. c < 128) secret
      → encrypt crypto e secret password ≡ some encrypted
      → 3 * length encrypted ≤ 4 * (length secret + 46)
  unfolding encrypt
  length-encrypt e secret [] encrypted hs hi ascii h = cc
  length-encrypt e secret (c ∷ cs) encrypted hs hi ascii h =
      let same : encrypt_data crypto e secret (c ∷ cs) ≡ encrypted = cc in
      rw (← same) (length-encrypt_data e secret (c ∷ cs) hs hi ascii)
