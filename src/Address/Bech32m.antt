-- ===== src/Address/Bech32m.antt =====
-- The bech32m half of scripts/pqwallet/pqaddress.js. A text is the list of its code units.
-- `lower` and `upper` treat ASCII: on any other text the code throws for the character or the case,
-- and so does the model, though perhaps with the other one of these two errors.
use Prim.Native.Nat.{bit_and, bit_xor}
use organic_web_wallet.Prelude.{
  ℕ, ◌+◌, ◌-◌, ◌*◌, ◌/◌, ◌%◌, ◌^◌, Bool, true, not, ◌&&◌, ◌||◌, Option, none, some, List, [], ◌∷◌,
  ◌++◌, map, length, take, drop, get_or, replicate, ltb, leb, ◌==◌, ◌===◌, if◌then◌else◌, Result,
  ok, ◌>>=◌, ◌>>◌, throw_if, require, map_result, invalid_hrp, hrp_case, hrp_character, data_value,
  bech_too_long, bech_length, bech_character, mixed_case, separator_index, data_character,
  bech_checksum,
}
use organic_web_wallet.Platform.{Text, units}

abbrev bech32m_const : ℕ
bech32m_const = 0x2bc830a3

abbrev charset : Text
charset = units "qpzry9x8gf2tvdw0s3jn54khce6mua7l"

abbrev generator : List ℕ
generator = 0x3b6a57b2 ∷ 0x26508e6d ∷ 0x1ea119fa ∷ 0x3d4233dd ∷ 0x2a1462b3 ∷ []

-- `for (let i = 0; i < 5; i += 1) if ((top >>> i) & 1) chk ^= GENERATOR[i];` from `i` on
xor_generators : ℕ → ℕ → List ℕ → ℕ → ℕ
xor_generators top i [] chk = chk
xor_generators top i (g ∷ gs) chk =
    xor_generators top (i + 1) gs (if top / 2 ^ i % 2 == 1 then bit_xor chk g else chk)

-- `chk` stays below 2 ^ 30, so that the 32-bit operations lose nothing.
polymod_from : ℕ → List ℕ → ℕ
polymod_from chk [] = chk
polymod_from chk (value ∷ values) =
    polymod_from
      (xor_generators (chk / 2 ^ 25) 0 generator (bit_xor (bit_and chk 0x1ffffff * 2 ^ 5) value))
      values

polymod : List ℕ → ℕ
unfolding polymod_from xor_generators
polymod values = polymod_from 1 values

hrp_expand : Text → List ℕ
hrp_expand hrp = map (λ c. c / 2 ^ 5) hrp ++ (0 ∷ map (λ c. bit_and c 31) hrp)

checksum : Text → List ℕ → List ℕ
unfolding polymod hrp_expand
checksum hrp values =
    let mod32 = bit_xor (polymod (hrp_expand hrp ++ (values ++ replicate 6 0))) bech32m_const in
    map (λ i. bit_and (mod32 / 2 ^ (5 * (5 - i))) 31) (0 ∷ 1 ∷ 2 ∷ 3 ∷ 4 ∷ 5 ∷ [])

verify_checksum : Text → List ℕ → Bool
unfolding polymod hrp_expand
verify_checksum hrp values = polymod (hrp_expand hrp ++ values) == bech32m_const

unfoldable pub lower : Text → Text
lower = map (λ c. if leb b'A' c && leb c b'Z' then c + 32 else c)

unfoldable pub upper : Text → Text
upper = map (λ c. if leb b'a' c && leb c b'z' then c - 32 else c)

all_printable : Text → Bool
all_printable [] = true
all_printable (c ∷ cs) = not (ltb c 33 || ltb 126 c) && all_printable cs

all_groups : List ℕ → Bool
all_groups [] = true
all_groups (v ∷ vs) = not (ltb 31 v) && all_groups vs

unfoldable pub bech32m_encode : Text → List ℕ → Result Text
unfolding checksum lower all_printable all_groups
bech32m_encode hrp values = do
  throw_if (length hrp == 0) invalid_hrp
  throw_if (not (hrp === lower hrp)) hrp_case
  throw_if (not (all_printable hrp)) hrp_character
  throw_if (not (all_groups values)) data_value
  throw_if (ltb 90 (length hrp + 1 + length values + 6)) bech_too_long
  ok ((hrp ++ (b'1' ∷ [])) ++ map (λ value. get_or charset value 0) (values ++ checksum hrp values))

-- `String.lastIndexOf`, with `i` the index of the first unit left; `none` is -1.
last_index_of : ℕ → ℕ → Text → Option ℕ
last_index_of c i [] = none
last_index_of c i (d ∷ ds) = elim (last_index_of c (i + 1) ds) [
  | some j ↦ some j
  | none ↦ if c == d then some i else none
]

-- `String.indexOf` of one character, in the same way
index_of : ℕ → ℕ → Text → Option ℕ
index_of c i [] = none
index_of c i (d ∷ ds) = let later = index_of c (i + 1) ds in if c == d then some i else later

-- `separator < 1` holds of -1 too
unfoldable pub bech32m_decode : Text → Result (Text × List ℕ)
unfolding verify_checksum lower upper all_printable last_index_of index_of map_result
bech32m_decode bech = do
  throw_if (ltb (length bech) 8 || ltb 90 (length bech)) bech_length
  throw_if (not (all_printable bech)) bech_character
  throw_if (not (bech === lower bech) && not (bech === upper bech)) mixed_case
  let normalized = lower bech
  separator ← require (last_index_of b'1' 0 normalized) separator_index
  throw_if (ltb separator 1 || ltb (length normalized) (separator + 7)) separator_index
  let hrp = take separator normalized
  values ←
      map_result (λ c. require (index_of c 0 charset) data_character)
        (drop (separator + 1) normalized)
  throw_if (not (verify_checksum hrp values)) bech_checksum
  ok (hrp, take (length values - 6) values)
