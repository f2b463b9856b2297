-- ===== src/Legacy/Settling.antt =====
-- What is paid when scripts/wallet.js has added the change of a transaction.
use organic_web_wallet.Prelude.{
  ℕ, zero, suc, ◌+◌, ◌-◌, ◌*◌, ◌≤◌, ◌≡◌, refl, ap, ◌∙◌, true, false, [], ◌∷◌, All, length, arith,
  ok, bind_inv, if_inv, ok-injective, Bool-cases, inl, inr, leb, ◌&&◌,
}
use organic_web_wallet.Prelude.Int.{ℤ, pos, negsuc, pos_part, neg_part, ◌-ℤ◌}
use organic_web_wallet.Platform.{Bytes}
use organic_web_wallet.Legacy.Addresses.{
  Library, Chain, is_exchange_address, is_shield_address, decode_address,
}
use organic_web_wallet.Legacy.Transaction.{TxOut, Transaction, serialize_output}
use organic_web_wallet.Legacy.Builder.{
  TransactionBuilder, min_fee, output_fee, is_dust, estimated_size, push_output, add_script,
  add_p2pkh_output, add_output, add_cold_stake_output, equally_subtract_amt,
}
use organic_web_wallet.Legacy.Spending.{Wallet, Options, coin, or_new, settle}
use organic_web_wallet.Legacy.Sizes.{
  IsAmount, estimated_size-append, estimated_size-same, serialize_output-same_script,
}
use organic_web_wallet.Legacy.Books.{amount_of, amount_of-append, Books}
use organic_web_wallet.Legacy.Shares.{equally_subtract_amt-Subtracted}

-- Inputs that are worth `n` pay for the outputs and for at least the minimal fee for each byte.
pub record Pays (chain : Chain) (n : ℕ) (t : Transaction) : Type 0 where
  pub paid : ℕ
  pub inputs : n ≡ amount_of t.vout + paid
  pub enough : estimated_size t * min_fee chain ≤ paid

-- What the result has to be like for its size and its sums to be those of a plain transaction
pub record IsPlain (t : Transaction) : Type 0 where
  pub amounts : All IsAmount t.vout
  pub few : length t.vout ≤ 252

pub change_balance :
    (n g f : ℕ)
    → n + neg_part (pos n -ℤ pos g -ℤ (pos f -ℤ pos 0))
      ≡ g + f + pos_part (pos n -ℤ pos g -ℤ (pos f -ℤ pos 0))
change_balance n g f = ground arith

not_dust :
    (chain : Chain) (out : TxOut) (c : ℕ)
    → is_dust chain out (pos c) ≡ false
    → output_fee chain out ≤ c
unfolding is_dust
not_dust chain out c h = ground arith

minus_amount : (c fee : ℕ) → fee ≤ c → pos c -ℤ pos fee ≡ pos (c - fee)
minus_amount c fee h = ground arith

module _ (chain : Chain) (n : ℕ) (b : TransactionBuilder) (h : Books n b) where
  subtract-Pays :
      (v : ℕ) (b1 : TransactionBuilder)
      → n + v ≡ amount_of b.transaction.vout + estimated_size b.transaction * min_fee chain
      → equally_subtract_amt v b ≡ ok b1
      → IsPlain b1.transaction
      → Pays chain n b1.transaction
  subtract-Pays v b1 short e plain =
      let (only_outputs, kept) = equally_subtract_amt-Subtracted v b b1 h.amounts e plain.amounts in
      let same : estimated_size b1.transaction ≡ estimated_size b.transaction =
        ap estimated_size only_outputs
        ∙ estimated_size-same b.transaction b1.transaction.vout (rw h.version refl)
            (omega (arith, kept.as_many, plain.few)) kept.as_many kept.sizes in
      record {
        paid = estimated_size b.transaction * min_fee chain;
        inputs = omega (arith, kept.amounts, short);
        enough = rw same (omega arith);
      }

  push_change-Pays :
      (script : Bytes) (c handled : ℕ)
      → n ≡ amount_of b.transaction.vout + estimated_size b.transaction * min_fee chain + c
      → output_fee chain (record { script = script; value = pos c }) ≤ c
      → (let rest = pos (c - output_fee chain (record { script = script; value = pos c })) in
          let b1 =
            push_output
              (record b { handled_fee = handled })
              (record { script = script; value = rest }) in
          IsPlain b1.transaction → Pays chain n b1.transaction)
  unfolding push_output amount_of output_fee
  push_change-Pays script c handled left worth plain =
      let whole : TxOut = record { script = script; value = pos c } in
      let fee = length (serialize_output whole) * min_fee chain in
      let out : TxOut = record { script = script; value = pos (c - fee) } in
      let size =
        estimated_size-append b.transaction out (rw h.version refl) plain.few
        ∙ ap (λ k. estimated_size b.transaction + k)
            (serialize_output-same_script out whole refl refl refl) in
      let distribute : (estimated_size b.transaction + length (serialize_output whole))
            * min_fee chain
          ≡ estimated_size b.transaction * min_fee chain + fee =
        grind arith in
      record {
        paid = estimated_size b.transaction * min_fee chain + fee;
        inputs = omega (arith, left, worth, amount_of-append b.transaction.vout (out ∷ []));
        enough = rw (size, distribute) (omega arith);
      }

  -- A change that is worth its bytes, without the fee for them
  add_change-Pays :
      (script : Bytes) (c : ℕ)
      → n ≡ amount_of b.transaction.vout + estimated_size b.transaction * min_fee chain + c
      → IsPlain (add_script chain b script (pos c) true).transaction
      → Pays chain n (add_script chain b script (pos c) true).transaction
  unfolding add_script
  add_change-Pays script c left =
      let out : TxOut = record { script = script; value = pos c } in
      elim (Bool-cases (is_dust chain out (pos c))) [
        | inl dust ↦ rw dust λ plain. record {
          paid = estimated_size b.transaction * min_fee chain + c;
          inputs = omega (arith, left);
          enough = omega arith;
        }
        | inr more ↦
            let worth = not_dust chain out c more in
            rw (more, minus_amount c (output_fee chain out) worth)
              (push_change-Pays script c (b.handled_fee + output_fee chain out) left worth)
      ]

  add_change-Pays_of :
      (script : Bytes) (c : ℕ) (b1 : TransactionBuilder)
      → n ≡ amount_of b.transaction.vout + estimated_size b.transaction * min_fee chain + c
      → add_script chain b script (pos c) true ≡ b1
      → IsPlain b1.transaction
      → Pays chain n b1.transaction
  add_change-Pays_of script c b1 left is = rw (← is) (add_change-Pays script c left)

  pub settle-Pays :
      (library : Library) (w : Wallet) (o : Options) (z : ℤ) (b1 : TransactionBuilder)
      → is_shield_address library chain (or_new o.change_address w.new_change_address) ≡ false
      → is_exchange_address library chain (or_new o.change_address w.new_change_address) ≡ false
      → n + neg_part z
        ≡ amount_of b.transaction.vout + estimated_size b.transaction * min_fee chain + pos_part z
      → settle library chain w o z b ≡ ok b1
      → IsPlain b1.transaction
      → Pays chain n b1.transaction
  unfolding settle add_output add_p2pkh_output add_cold_stake_output
  settle-Pays library w o (negsuc k) b1 shield exchange total e plain =
      if_inv o.subtract_fee_from_amt e
        (λ _ e1. subtract-Pays (k + 1) b1 (omega (arith, total)) e1 plain) (λ _ e1. absurd (cc))
  settle-Pays library w o (pos zero) b1 shield exchange total e plain =
      rw (← ok-injective e) (record {
        paid = estimated_size b.transaction * min_fee chain;
        inputs = omega (arith, total);
        enough = omega arith;
      })
  settle-Pays library w o (pos (suc k)) b1 shield exchange total e plain =
      let address = or_new o.change_address w.new_change_address in
      let left : n
          ≡ amount_of b.transaction.vout + estimated_size b.transaction * min_fee chain + suc k =
        omega (arith, total) in
      if_inv (o.delegate_change && leb coin (suc k)) e
        (λ _ e1. bind_inv (decode_address library chain address) e1 λ owner _ e2.
          bind_inv (decode_address library chain o.change_delegation_address) e2
            λ staker _ e3. add_change-Pays_of _ (suc k) b1 left (ok-injective e3) plain)
        (λ _ e1.
          if_inv (is_shield_address library chain address) e1 (λ is_shield _. absurd (cc))
            (λ _ e2.
              if_inv (is_exchange_address library chain address) e2 (λ is_exchange _. absurd (cc))
                (λ _ e3.
                  bind_inv (decode_address library chain address) e3
                    λ decoded _ e4. add_change-Pays_of _ (suc k) b1 left (ok-injective e4) plain)))
