-- ===== src/Platform/Numbers.antt =====
-- Values that the program accepts as numbers, and its conversion of them to a BigInt.
use organic_web_wallet.Prelude.{
  ℕ, ◌+◌, ◌-◌, ◌*◌, ◌^◌, Bool, true, ◌&&◌, Option, none, some, List, [], ◌∷◌, ltb, leb,
  if◌then◌else◌,
}
use organic_web_wallet.Prelude.Int.{ℤ, pos, negsuc}

-- `number` is a whole Number, `fraction` any other Number, `other` a value of another type.
pub data Numeric : Type 0 where
  bigint : ℤ → Numeric
  number : ℤ → Numeric
  fraction : Numeric
  text : List ℕ → Numeric
  other : Numeric

-- Number.MAX_SAFE_INTEGER
abbrev pub max_safe_integer : ℕ
max_safe_integer = 2 ^ 53 - 1

-- Number.isSafeInteger
abbrev pub is_safe_integer : ℤ → Bool
is_safe_integer (pos n) = leb n max_safe_integer
is_safe_integer (negsuc n) = ltb n max_safe_integer

abbrev pub is_digit : ℕ → Bool
is_digit c = leb b'0' c && leb c b'9'

unfoldable pub all_digits : List ℕ → Bool
all_digits [] = true
all_digits (c ∷ cs) = is_digit c && all_digits cs

unfoldable pub digits_value : ℕ → List ℕ → ℕ
digits_value n [] = n
digits_value n (c ∷ cs) = digits_value (n * 10 + (c - b'0')) cs

-- BigInt of a text that matches /^(0|[1-9]\d*)$/
unfoldable pub decimal : List ℕ → Option ℤ
unfolding all_digits digits_value
decimal [] = none
decimal (c ∷ []) = if is_digit c then some (pos (c - b'0')) else none
decimal (c ∷ cs) =
    if ltb b'0' c && (is_digit c && all_digits cs)
    then some (pos (digits_value 0 (c ∷ cs)))
    else none

-- The value of a whole number, of whichever kind.
unfoldable pub whole : Numeric → Option ℤ
unfolding decimal
whole (bigint z) = some z
whole (number z) = if is_safe_integer z then some z else none
whole fraction = none
whole (text s) = decimal s
whole other = none
