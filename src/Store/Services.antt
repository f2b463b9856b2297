-- ===== src/Store/Services.antt =====
-- Concrete libraries for the examples: a cipher that hides nothing, one phrase, one key.
use organic_web_wallet.Prelude.{
  ◌+◌, ◌≡◌, refl, sym, ap, Bool, some, [], ◌∷◌, ◌++◌, length, drop, replicate, All-replicate, arith,
  ◌===◌, ===→eq,
}
use mathlib.Core.Path.{subst}
use organic_web_wallet.Platform.{Text, Bytes, IsByte, IsBytes, units}
use organic_web_wallet.Platform.Hex.{plain_noble, plain_noble_laws, write_hex, hex_digit}
use organic_web_wallet.Vault.{Crypto, CryptoLaws, Entropy}
use organic_web_wallet.Store.Records.{Phrases, Services, Surroundings}
use organic_web_wallet.Store.Checks.{all_lower_hex}
use organic_web_wallet.Store.Secrets.{ServiceLaws}

abbrev pub plain_crypto : Crypto
plain_crypto = record {
  encode_text = λ t. t;
  decode_text = λ b. b;
  btoa = λ b. b;
  atob = λ t. some t;
  pbkdf2 = λ _ _. [];
  seal = λ _ _ b. some (replicate 16 0 ++ b);
  unseal = λ _ _ c. some (drop 16 c);
  keygen = λ _. record { secret_key = replicate 2560 0; public_key = replicate 1312 0 };
}

sealed_opens : (b c : Bytes) → some (replicate 16 0 ++ b) ≡ some c → some (drop 16 c) ≡ some b
sealed_opens b c h =
    let same : replicate 16 0 ++ b ≡ c = cc in ap (λ (x : Bytes). some (drop 16 x)) (sym same)

sealed_grows : (b c : Bytes) → some (replicate 16 0 ++ b) ≡ some c → length c ≡ length b + 16
sealed_grows b c h = let same : replicate 16 0 ++ b ≡ c = cc in rw (← same) (omega arith)

pub plain_crypto_laws : CryptoLaws plain_crypto
plain_crypto_laws = record {
  decode-encode = λ _ _. refl;
  atob-btoa = λ _. refl;
  unseal-seal = λ _ _ b c h. sealed_opens b c h;
  length-encode_text = λ _ _. refl;
  length-seal = λ _ _ b c h. sealed_grows b c h;
  length-btoa = λ b. omega arith;
}

abbrev pub phrase : Text
phrase = units "abandon ability"

abbrev pub plain_phrases : Phrases
plain_phrases = record {
  normalize = λ t. t;
  validate = λ t. t === phrase;
  derive_seed = λ _ _. some (replicate 32 0);
}

abbrev pub plain_services : Services
plain_services = record { noble = plain_noble; crypto = plain_crypto; phrases = plain_phrases }

write_hex-lower : (b : Bytes) → IsBytes b → all_lower_hex (write_hex b) ≡ Bool.true
unfolding write_hex hex_digit all_lower_hex
write_hex-lower [] h = refl
write_hex-lower (x ∷ xs) h = ground (arith, write_hex-lower xs h.1)

zero_seed : (seed : Bytes) → some (replicate 32 0) ≡ some seed → IsBytes seed
zero_seed seed h =
    let same : replicate 32 0 ≡ seed = cc in
    subst IsBytes same (All-replicate IsByte 32 0 (omega arith))

pub plain-ServiceLaws : ServiceLaws plain_services
plain-ServiceLaws = record {
  noble = plain_noble_laws;
  crypto = plain_crypto_laws;
  bytes_to_hex_lower = write_hex-lower;
  derive_seed-IsBytes = λ _ seed _ h. zero_seed seed h;
  normalize_twice = λ _. refl;
  phrase_is_short = λ m _ h. rw (===→eq m phrase h) (omega arith, omega arith, omega arith);
}

abbrev pub plain_entropy : Entropy
plain_entropy = record { salt = replicate 16 0; iv = replicate 12 0 }

abbrev pub surroundings : Surroundings
surroundings = record {
  now = 1000;
  entropy = λ _. plain_entropy;
  fresh_mnemonic = phrase;
  fresh_seed = replicate 32 0;
}

-- What the cipher makes of a text.
abbrev pub hidden : Text → Text
hidden t = replicate 44 0 ++ t
