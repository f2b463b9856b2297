-- ===== src/Staking.antt =====
-- scripts/pqwallet/pqstaking.js: a stake request, and the checks of its header and reservations.
pub mod SignedBlocks
pub mod Previous
pub mod Merkle
pub mod Sealed
pub mod Coin
pub mod Principal
mod Examples
use organic_web_wallet.Prelude.{
  ℕ, ◌+◌, Bool, true, false, ◌&&◌, ◌||◌, List, [], ◌∷◌, length, take, drop, reverse, ltb, leb, ◌==◌,
  ◌===◌, if◌then◌else◌, Result, ok, ◌>>=◌, ◌>>◌, throw_if, block_too_large,
}
use organic_web_wallet.Prelude.Int.{ℤ, pos, negsuc}
use organic_web_wallet.Platform.{
  Bytes, Text, Noble, Numeric, number, units, is_digit, is_safe_integer,
}
use organic_web_wallet.Address.{Network, testnet, regtest, unknown}
use organic_web_wallet.Wire.Codec.{le_value, signed}
use organic_web_wallet.Staking.Previous.{hex_bytes, max_block_bytes}

abbrev max_template_age : ℕ
max_template_age = 60

abbrev pub block_domain : Network → Text
block_domain testnet = units "OLC/PQ/ML-DSA-44/testnet/block/v1"
block_domain regtest = units "OLC/PQ/ML-DSA-44/regtest/block/v1"
block_domain unknown = []

-- What the server sends; a list that is no array is refused as the empty one is.
pub record Template : Type 0 where
  pub version : ℕ
  pub network : Network
  pub genesis : Text
  pub tip : Text
  pub height : Numeric
  pub expires : Numeric
  pub previous_transaction : Text
  pub header : Text
  pub transactions : List Text

pub record Candidate : Type 0 where
  pub txid : Text
  pub vout : ℕ
  pub address : Text
  pub value_sats : ℕ

pub record Keypair : Type 0 where
  pub public_key : Bytes
  pub secret_key : Bytes

-- `now` is in seconds; a reserved outpoint is the pair that its text `txid:vout` is made of.
pub record StakeRequest : Type 0 where
  pub template : Template
  pub candidate : Candidate
  pub keypair : Keypair
  pub network : Network
  pub genesis_display : Text
  pub expected_tip : Text
  pub reserved_outpoints : List (Text × ℕ)
  pub now : ℕ

-- `/^[0-9a-f]{64}$/`
unfoldable pub all_lower_hex : Text → Bool
all_lower_hex [] = true
all_lower_hex (c ∷ cs) = (is_digit c || leb b'a' c && leb c b'f') && all_lower_hex cs

unfoldable pub is_hash : Text → Bool
is_hash t = length t == 64 && all_lower_hex t

unfoldable pub same_network : Network → Network → Bool
same_network testnet testnet = true
same_network regtest regtest = true
same_network _ _ = false

-- `Number.isSafeInteger(x)` with bounds: of a natural Number between the two.
unfoldable pub safe_between : ℕ → ℕ → Numeric → Bool
safe_between least greatest (number (pos n)) =
    is_safe_integer (pos n) && (leb least n && leb n greatest)
safe_between least greatest _ = false

unfoldable pub safe_from : ℕ → Numeric → Bool
safe_from least (number (pos n)) = is_safe_integer (pos n) && leb least n
safe_from least _ = false

unfoldable pub is_fresh : StakeRequest → Bool
is_fresh r =
    r.template.version == 1
    && (same_network r.network r.template.network
        && (r.template.genesis === r.genesis_display
            && (is_hash r.genesis_display
                && (is_hash r.expected_tip
                    && (r.template.tip === r.expected_tip
                        && (safe_from 1 r.template.height
                            && safe_between (r.now + 1) (r.now + max_template_age)
                                r.template.expires))))))

unfoldable pub is_reserved : List (Text × ℕ) → Text → ℕ → Bool
is_reserved [] txid vout = false
is_reserved ((t, n) ∷ reserved) txid vout =
    t === txid && n == vout || is_reserved reserved txid vout

-- The 4 bytes of a header from an offset on.
abbrev header_field : ℕ → Bytes → ℕ
header_field offset header = le_value (take 4 (drop offset header))

-- Version 7 has a header of 80 bytes, later ones have 112.
unfoldable pub header_fits : ℤ → ℕ → Bool
header_fits (pos version) size = leb 7 version && size == (if version == 7 then 80 else 112)
header_fits (negsuc version) size = false

unfoldable pub is_current_header : Noble → StakeRequest → Bytes → Bool
is_current_header noble r header =
    header_fits (signed 32 (header_field 0 header)) (length header)
    && (header_field 76 header == 0
        && (noble.bytes_to_hex (reverse (take 32 (drop 4 header))) === r.expected_tip
            && (leb r.now (header_field 68 header + max_template_age)
                && leb (header_field 68 header) (r.now + 15))))

-- The transactions' bytes, with the total so far.
unfoldable pub block_transactions : Noble → ℕ → List Text → Result (List Bytes)
block_transactions noble total [] = ok []
block_transactions noble total (raw ∷ transactions) = do
  parsed ← hex_bytes noble raw max_block_bytes
  throw_if (ltb max_block_bytes (total + length parsed)) block_too_large
  more ← block_transactions noble (total + length parsed) transactions
  ok (parsed ∷ more)
