-- ===== src/Address/Groups.antt =====
-- `convertBits` of scripts/pqwallet/pqaddress.js, on 32-bit patterns: `shl` and `shr` are `<<` and
-- `>>>`, whose counts are taken modulo 32. With 32-bit output groups the code's last `&` reads the
-- pattern as a signed number; the model gives the pattern (the callers ask for 5 and 8 bits).
use Prim.Native.Nat.{bit_and, bit_or}
use organic_web_wallet.Prelude.{
  ℕ, zero, suc, ◌+◌, ◌-◌, ◌*◌, ◌/◌, ◌%◌, ◌^◌, Bool, not, ◌||◌, List, [], ◌∷◌, ◌++◌, ltb, leb, ◌==◌,
  if◌then◌else◌, Result, ok, err, ◌>>=◌, ◌>>◌, throw_if, from_bits, to_bits, group_value,
  group_padding,
}

shl : ℕ → ℕ → ℕ
shl x k = x * 2 ^ (k % 32) % 2 ^ 32

shr : ℕ → ℕ → ℕ
shr x k = x / 2 ^ (k % 32)

-- `while (bits >= toBits) { … }`; `bits` falls in every round, so that it bounds their number.
drain : ℕ → ℕ → ℕ → ℕ → List ℕ → ℕ × List ℕ
unfolding shr
drain zero to acc bits out = (bits, out)
drain (suc fuel) to acc bits out =
    let left = bits - to in
    let more = drain fuel to acc left (out ++ (bit_and (shr acc left) (2 ^ to - 1) ∷ [])) in
    if leb to bits then more else (bits, out)

-- The loop over the values still to come, from the accumulator, its bits and the output so far.
regroup : ℕ → ℕ → List ℕ → ℕ → ℕ → List ℕ → Result (ℕ × ℕ × List ℕ)
unfolding drain shl
regroup from to [] acc bits out = ok (acc, bits, out)
regroup from to (value ∷ values) acc bits out =
    let acc' = bit_or (shl acc from) value in
    let (bits', out') = drain (bits + from) to acc' (bits + from) out in
    let more = regroup from to values acc' bits' out' in
    if leb (2 ^ from) value then err group_value else more

unfoldable pub convert_bits : List ℕ → ℕ → ℕ → Bool → Result (List ℕ)
unfolding regroup shl
convert_bits values from to pad = do
  throw_if (ltb from 1 || ltb 32 from) from_bits
  throw_if (ltb to 1 || ltb 32 to) to_bits
  (acc, bits, out) ← regroup from to values 0 0 []
  let last = bit_and (shl acc (to - bits)) (2 ^ to - 1)
  let padded = if ltb 0 bits then out ++ (last ∷ []) else out
  if pad then ok padded else (throw_if (leb from bits || not (last == 0)) group_padding >> ok out)
