-- ===== src/Legacy/Addresses.antt =====
-- The transparent addresses of scripts/encoding.js and scripts/misc.js, and `#decodeAddress` of
-- scripts/transaction_builder.js.
use organic_web_wallet.Prelude.{
  ℕ, ◌-◌, Bool, true, false, not, ◌&&◌, ◌||◌, Option, none, some, [], ◌∷◌, length, take, drop, ◌==◌,
  ◌===◌, if◌then◌else◌, Result, ok, ◌>>=◌, ◌>>◌, throw_if, require, bad_base58, address_checksum,
}
use organic_web_wallet.Platform.{Bytes, Text}

-- The libraries that the files import: SHA-256 (@noble/hashes), bs58, the prefix that `bech32.decode`
-- reads, and `Buffer.from(text, 'hex')`. A decoder that throws gives `none`.
pub record Library : Type 0 where
  pub sha256 : Bytes → Bytes
  pub base58 : Text → Option Bytes
  pub bech32_prefix : Text → Option Text
  pub from_hex : Text → Bytes

-- `cChainParams.current`
pub record Chain : Type 0 where
  pub pubkey_address : Bytes
  pub exchange_address_prefix : Bytes
  pub shield_prefix : Text
  pub min_fee_per_byte : ℕ
  pub stake_split_target : ℕ
  pub coinbase_maturity : ℕ
  pub collateral_in_sats : ℕ

unfoldable pub d_sha256 : Library → Bytes → Bytes
d_sha256 library b = library.sha256 (library.sha256 b)

-- `expected.every((n, i) => n === bytes[i])`
unfoldable pub starts_with : Bytes → Bytes → Bool
starts_with [] bytes = true
starts_with (n ∷ expected) [] = false
starts_with (n ∷ expected) (b ∷ bytes) = n == b && starts_with expected bytes

abbrev pub payload_of : Bytes → Bytes
payload_of b = take (length b - 4) b

abbrev pub checksum_of : Bytes → Bytes
checksum_of b = drop (length b - 4) b

unfoldable pub verify_bytes : Library → Bytes → Bytes → Bool
verify_bytes library expected b =
    (length b == 25 || length b == 27)
    && (starts_with expected b
        && starts_with (take 4 (d_sha256 library (payload_of b))) (checksum_of b))

unfoldable pub verify_pubkey : Library → Text → Bytes → Bool
verify_pubkey library address expected = elim (library.base58 address) [
  | some b ↦ verify_bytes library expected b
  | none ↦ false
]

unfoldable pub verify_bech32 : Library → Text → Text → Bool
verify_bech32 library address expected = elim (library.bech32_prefix address) [
  | some prefix ↦ prefix === expected
  | none ↦ false
]

unfoldable pub is_exchange_address : Library → Chain → Text → Bool
is_exchange_address library chain address =
    verify_pubkey library address chain.exchange_address_prefix

unfoldable pub is_shield_address : Library → Chain → Text → Bool
is_shield_address library chain address = verify_bech32 library address chain.shield_prefix

-- A text of fewer than four bytes has a shorter checksum, and so it is refused.
unfoldable pub decode_address : Library → Chain → Text → Result Bytes
decode_address library chain address = do
  b ← require (library.base58 address) bad_base58
  throw_if (not (take 4 (d_sha256 library (payload_of b)) === checksum_of b)) address_checksum
  ok (drop (if is_exchange_address library chain address then 3 else 1) (payload_of b))
