-- ===== src/Platform/Hex.antt =====
-- A concrete hash and hex library: the assumptions on the real one can be met.
use organic_web_wallet.Prelude.{
  ℕ, ◌+◌, ◌-◌, ◌*◌, ◌/◌, ◌%◌, ◌<◌, ◌≡◌, refl, ◌&&◌, Option, none, some, [], ◌∷◌, length, replicate,
  arith, ltb, leb, if◌then◌else◌,
}
use organic_web_wallet.Platform.{Text, Bytes, IsBytes, Noble, NobleLaws}

unfoldable pub hex_digit : ℕ → ℕ
hex_digit d = if ltb d 10 then 48 + d else 87 + d

unfoldable pub digit_value : ℕ → Option ℕ
digit_value c =
    if leb 48 c && leb c 57
    then some (c - 48)
    else if leb 97 c && leb c 102
    then some (c - 87)
    else if leb 65 c && leb c 70
    then some (c - 55)
    else none

unfoldable pub byte_of : Option ℕ → Option ℕ → Option Bytes → Option Bytes
byte_of (some hi) (some lo) (some rest) = some ((hi * 16 + lo) ∷ rest)
byte_of _ _ _ = none

unfoldable pub read_hex : Text → Option Bytes
read_hex [] = some []
read_hex (c ∷ []) = none
read_hex (c ∷ d ∷ cs) = byte_of (digit_value c) (digit_value d) (read_hex cs)

unfoldable pub write_hex : Bytes → Text
write_hex [] = []
write_hex (b ∷ bs) = hex_digit (b / 16) ∷ hex_digit (b % 16) ∷ write_hex bs

digit_value-hex_digit : (d : ℕ) → d < 16 → digit_value (hex_digit d) ≡ some d
unfolding digit_value hex_digit
digit_value-hex_digit d h = ground arith

read_hex-write_hex : (b : Bytes) → IsBytes b → read_hex (write_hex b) ≡ some b
unfolding read_hex write_hex byte_of
read_hex-write_hex [] h = refl
read_hex-write_hex (b ∷ bs) h =
    rw
      (
        digit_value-hex_digit (b / 16) (omega arith),
        digit_value-hex_digit (b % 16) (omega arith),
        read_hex-write_hex bs h.1,
      )
      (ground arith)

digit_value_small : (c d : ℕ) → digit_value c ≡ some d → d < 16
unfolding digit_value
digit_value_small c d h = ground arith

byte_of-IsBytes :
    (x y : Option ℕ) (r : Option Bytes) (b : Bytes)
    → ((d : ℕ) → x ≡ some d → d < 16)
    → ((d : ℕ) → y ≡ some d → d < 16)
    → ((t : Bytes) → r ≡ some t → IsBytes t)
    → byte_of x y r ≡ some b
    → IsBytes b
unfolding byte_of
byte_of-IsBytes (some hi) (some lo) (some t) [] hx hy hr e = tt
byte_of-IsBytes (some hi) (some lo) (some t) (b ∷ bs) hx hy hr e =
    ground (arith, hx hi, hy lo, hr t)
byte_of-IsBytes (some hi) (some lo) none b hx hy hr e = cc
byte_of-IsBytes (some hi) none r b hx hy hr e = cc
byte_of-IsBytes none y r b hx hy hr e = cc

read_hex-IsBytes : (t : Text) (b : Bytes) → read_hex t ≡ some b → IsBytes b
unfolding read_hex
read_hex-IsBytes [] [] e = tt
read_hex-IsBytes [] (b ∷ bs) e = cc
read_hex-IsBytes (c ∷ []) b e = cc
read_hex-IsBytes (c ∷ d ∷ cs) b e =
    byte_of-IsBytes (digit_value c) (digit_value d) (read_hex cs) b (digit_value_small c)
      (digit_value_small d) (read_hex-IsBytes cs) e

length-byte_of :
    (x y : Option ℕ) (r : Option Bytes) (b : Bytes) (n : ℕ)
    → ((t : Bytes) → r ≡ some t → 2 * length t ≡ n)
    → byte_of x y r ≡ some b
    → 2 * length b ≡ 2 + n
unfolding byte_of
length-byte_of (some hi) (some lo) (some t) [] n h e = cc
length-byte_of (some hi) (some lo) (some t) (b ∷ bs) n h e = ground (arith, h t)
length-byte_of (some hi) (some lo) none b n h e = cc
length-byte_of (some hi) none r b n h e = cc
length-byte_of none y r b n h e = cc

length-read_hex : (t : Text) (b : Bytes) → read_hex t ≡ some b → 2 * length b ≡ length t
unfolding read_hex
length-read_hex [] [] e = refl
length-read_hex [] (b ∷ bs) e = cc
length-read_hex (c ∷ []) b e = cc
length-read_hex (c ∷ d ∷ cs) b e = omega (
  arith,
  length-byte_of (digit_value c) (digit_value d) (read_hex cs) b (length cs) (length-read_hex cs) e,
)

-- Not a hash, only 32 bytes.
abbrev pub plain_noble : Noble
plain_noble = record {
  sha256 = λ _. replicate 32 0;
  hex_to_bytes = read_hex;
  bytes_to_hex = write_hex;
}

pub plain_noble_laws : NobleLaws plain_noble
plain_noble_laws = record {
  length-sha256 = λ _. refl;
  sha256-IsBytes = λ _. omega arith;
  hex_to_bytes-IsBytes = read_hex-IsBytes;
  length-hex_to_bytes = length-read_hex;
  hex_to_bytes-bytes_to_hex = read_hex-write_hex;
}
