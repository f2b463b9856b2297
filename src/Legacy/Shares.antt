-- ===== src/Legacy/Shares.antt =====
-- `equallySubtractAmt` of scripts/transaction_builder.js takes exactly the amount from the outputs.
use native.Mathlib.Nat.{div-add-mod'}
use organic_web_wallet.Prelude.{
  ℕ, suc, ◌+◌, ◌*◌, ◌/◌, ◌%◌, ◌≡◌, refl, ap, List, [], ◌∷◌, map, All, length, arith, length-map, ok,
  bind_inv, ok-injective,
}
use organic_web_wallet.Prelude.Int.{ℤ, pos, negsuc, pos_part, neg_part, ◌-ℤ◌}
use organic_web_wallet.Legacy.Transaction.{TxOut, serialize_output}
use organic_web_wallet.Legacy.Builder.{
  TransactionBuilder, less, subtract_from, equally_subtract_amt,
}
use organic_web_wallet.Legacy.Sizes.{
  IsAmount, outputs_size, outputs_size-append, outputs_size_one, serialize_output-same_script,
}
use organic_web_wallet.Legacy.Books.{amount_of}

-- What is left of an amount, if it is one.
less_amount :
    (q : ℕ) (z : ℤ)
    → neg_part z ≡ 0
    → neg_part (z -ℤ pos q) ≡ 0
    → pos_part (z -ℤ pos q) + q ≡ pos_part z
less_amount q (pos n) h left = ground arith
less_amount q (negsuc n) h left = absurd (omega (arith, h))

less_twice :
    (q r : ℕ) (z : ℤ)
    → neg_part z ≡ 0
    → neg_part (z -ℤ pos q -ℤ pos r) ≡ 0
    → pos_part (z -ℤ pos q -ℤ pos r) + (q + r) ≡ pos_part z
less_twice q r (pos n) h left = ground arith
less_twice q r (negsuc n) h left = absurd (omega (arith, h))

outputs_size-cons :
    (out : TxOut) (vout : List TxOut)
    → outputs_size (out ∷ vout) ≡ outputs_size (out ∷ []) + outputs_size vout
outputs_size-cons out vout = outputs_size-append (out ∷ []) vout

same_size :
    (a b : TxOut) (as' bs : List TxOut)
    → length (serialize_output a) ≡ length (serialize_output b)
    → outputs_size as' ≡ outputs_size bs
    → outputs_size (a ∷ as') ≡ outputs_size (b ∷ bs)
same_size a b as' bs h more =
    rw (outputs_size-cons a as', outputs_size-cons b bs)
      (omega (arith, h, more, outputs_size_one a, outputs_size_one b))

-- Outputs that each gave the same share
map-less :
    (q : ℕ) (vout : List TxOut)
    → All IsAmount vout
    → All IsAmount (map (less q) vout)
    → (amount_of (map (less q) vout) + length vout * q ≡ amount_of vout)
      × (outputs_size (map (less q) vout) ≡ outputs_size vout)
unfolding amount_of
map-less q [] h left = (omega arith, refl)
map-less q (o ∷ vout) h left =
    let (amounts, sizes) = map-less q vout h.1 left.1 in
    let share = less_amount q o.value h.0 left.0 in
    let distribute : suc (length vout) * q ≡ q + length vout * q = grind arith in
    (
      omega (arith, amounts, share, distribute),
      same_size (less q o) o (map (less q) vout) vout
          (serialize_output-same_script (less q o) o refl left.0 h.0) sizes,
    )

-- The outputs give the amount together and keep their sizes.
pub record Subtracted (value : ℕ) (before after : List TxOut) : Type 0 where
  pub as_many : length after ≡ length before
  pub amounts : amount_of after + value ≡ amount_of before
  pub sizes : outputs_size after ≡ outputs_size before

subtract_from-Subtracted :
    (value : ℕ) (before after : List TxOut)
    → All IsAmount before
    → subtract_from value before ≡ ok after
    → All IsAmount after
    → Subtracted value before after
unfolding subtract_from amount_of
subtract_from-Subtracted value [] after h e = absurd (cc)
subtract_from-Subtracted value (out ∷ outputs) after h e =
    let count = length (out ∷ outputs) in
    let q = value / count in
    let r = value % count in
    rw (← ok-injective e) λ left.
      let (amounts, sizes) = map-less q outputs h.1 left.1 in
      let first = less_twice q r out.value h.0 left.0 in
      let whole = div-add-mod' value count in
      let distribute : q * suc (length outputs) ≡ q + length outputs * q = grind arith in
      record {
        as_many = ap suc (length-map outputs (less q));
        amounts = omega (arith, amounts, first, whole, distribute);
        sizes =
            same_size (less r (less q out)) out (map (less q) outputs) outputs
              (serialize_output-same_script (less r (less q out)) out refl left.0 h.0) sizes;
      }

-- If all of the outputs still are amounts, they have given the amount together, and the rest of the
-- transaction is as it was.
pub equally_subtract_amt-Subtracted :
    (value : ℕ) (b b1 : TransactionBuilder)
    → All IsAmount b.transaction.vout
    → equally_subtract_amt value b ≡ ok b1
    → All IsAmount b1.transaction.vout
    → (b1.transaction ≡ record (b.transaction) { vout = b1.transaction.vout })
      × Subtracted value b.transaction.vout b1.transaction.vout
unfolding equally_subtract_amt
equally_subtract_amt-Subtracted value b b1 h e =
    bind_inv (subtract_from value b.transaction.vout) e λ vout subtracts e1.
      rw (← ok-injective e1)
        λ left. (refl, subtract_from-Subtracted value b.transaction.vout vout h subtracts left)
