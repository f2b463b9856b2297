-- ===== src/Legacy/Books.antt =====
-- What the methods of scripts/transaction_builder.js keep of the sums: the builder's totals are those
-- of its inputs and outputs as long as no fee has been subtracted.
use organic_web_wallet.Prelude.{
  ℕ, zero, suc, ◌+◌, ◌-◌, ◌/◌, ◌%◌, ◌≡◌, refl, ap, sym, ◌∙◌, false, List, [], ◌∷◌, ◌++◌, All, arith,
  ltb, ok, bind_inv, throw_inv, if_inv, ok-injective, All-append, Bool-cases, inl, inr,
  below_consensus,
}
use organic_web_wallet.Prelude.Int.{ℤ, pos, negsuc, pos_part, neg_part, ◌+ℤ◌}
use organic_web_wallet.Platform.{Bytes, Text}
use organic_web_wallet.Mempool.{MempoolUtxo}
use organic_web_wallet.Mempool.Unspent.{total_value}
use organic_web_wallet.Legacy.Addresses.{
  Library, Chain, is_exchange_address, is_shield_address, decode_address,
}
use organic_web_wallet.Legacy.Transaction.{TxOut}
use organic_web_wallet.Legacy.Builder.{
  TransactionBuilder, create, is_dust, add_utxo, add_utxos, push_output, add_script,
  add_exchange_output, add_p2pkh_output, add_output, add_proposal_output, add_cold_stake_output,
}
use organic_web_wallet.Legacy.Spending.{
  Wallet, Options, coin, add_stakes, add_delegation, add_primary,
}
use organic_web_wallet.Legacy.Sizes.{IsAmount}

-- The sum of the outputs' values, none of which is negative
unfoldable pub amount_of : List TxOut → ℕ
amount_of [] = 0
amount_of (out ∷ vout) = pos_part out.value + amount_of vout

pub amount_of-append :
    (vout more : List TxOut) → amount_of (vout ++ more) ≡ amount_of vout + amount_of more
unfolding amount_of
amount_of-append [] more = omega arith
amount_of-append (out ∷ vout) more = omega (arith, amount_of-append vout more)

-- A builder of a transparent transaction whose inputs are worth `n`, before its change
pub record Books (n : ℕ) (b : TransactionBuilder) : Type 0 where
  pub value_in : b.value_in ≡ n
  pub value_out : b.value_out ≡ pos (amount_of b.transaction.vout)
  pub shield_requests : b.shield_requests ≡ []
  pub version : b.transaction.version ≡ 1
  pub handled_fee : b.handled_fee ≡ 0
  pub amounts : All IsAmount b.transaction.vout

pub create-Books : Books 0 create
unfolding create amount_of
create-Books = record {
  value_in = refl;
  value_out = refl;
  shield_requests = refl;
  version = refl;
  handled_fee = refl;
  amounts = tt;
}

add_amounts : (a : ℕ) (z : ℤ) → neg_part z ≡ 0 → pos a +ℤ z ≡ pos (a + pos_part z)
add_amounts a (pos n) h = ground arith
add_amounts a (negsuc n) h = absurd (omega (arith, h))

push_output-Books :
    (n : ℕ) (b : TransactionBuilder) (out : TxOut)
    → Books n b
    → IsAmount out
    → Books n (push_output b out)
unfolding push_output amount_of
push_output-Books n b out h amount = record {
  value_in = h.value_in;
  value_out =
      rw (h.value_out, add_amounts (amount_of b.transaction.vout) out.value amount)
        (ap pos (sym (amount_of-append b.transaction.vout (out ∷ []) ∙ omega arith)));
  shield_requests = h.shield_requests;
  version = h.version;
  handled_fee = h.handled_fee;
  amounts = All-append IsAmount b.transaction.vout (out ∷ []) h.amounts (amount, tt);
}

add_script-Books :
    (chain : Chain) (n : ℕ) (b : TransactionBuilder) (script : Bytes) (value : ℕ)
    → Books n b
    → Books n (add_script chain b script (pos value) false)
unfolding add_script
add_script-Books chain n b script value h =
    let out : TxOut = record { script = script; value = pos value } in
    elim (Bool-cases (is_dust chain out (pos value))) [
      | inl dust ↦ rw dust (push_output-Books n b out h refl)
      | inr enough ↦ rw enough (push_output-Books n b out h refl)
    ]

pub add_utxos-Books :
    (library : Library) (utxos : List MempoolUtxo) (n : ℕ) (b : TransactionBuilder)
    → Books n b
    → Books (n + total_value utxos) (add_utxos library b utxos)
unfolding add_utxos add_utxo
add_utxos-Books library [] n b h = let none_left : n + 0 ≡ n = omega arith in rw none_left h
add_utxos-Books library (utxo ∷ utxos) n b h =
    let first : Books (n + utxo.value) (add_utxo library b utxo) = record {
      value_in = ap (λ v. v + utxo.value) h.value_in;
      value_out = h.value_out;
      shield_requests = h.shield_requests;
      version = h.version;
      handled_fee = h.handled_fee;
      amounts = h.amounts;
    } in
    let as_one : n + (utxo.value + total_value utxos) ≡ n + utxo.value + total_value utxos =
      omega arith in
    rw as_one (add_utxos-Books library utxos (n + utxo.value) (add_utxo library b utxo) first)

module _ (library : Library) (chain : Chain) where
  cold_stake-Books :
      (n : ℕ) (b b1 : TransactionBuilder) (owner staker : Text) (value : ℕ)
      → Books n b
      → add_cold_stake_output library chain b owner staker (pos value) false ≡ ok b1
      → Books n b1
  unfolding add_cold_stake_output
  cold_stake-Books n b b1 owner staker value h e =
      bind_inv (decode_address library chain owner) e λ decoded _ e1.
        bind_inv (decode_address library chain staker) e1
          λ decoded2 _ e2. rw (← ok-injective e2) (add_script-Books chain n b _ value h)

  add_stakes-Books :
      (n : ℕ) (owner staker : Text) (more : ℕ) (b b1 : TransactionBuilder)
      → Books n b
      → add_stakes library chain owner staker more b ≡ ok b1
      → Books n b1
  unfolding add_stakes
  add_stakes-Books n owner staker zero b b1 h e = rw (← ok-injective e) h
  add_stakes-Books n owner staker (suc more) b b1 h e =
      bind_inv
        (add_cold_stake_output library chain b owner staker (pos chain.stake_split_target) false) e
        λ b2 first rest.
          add_stakes-Books n owner staker more b2 b1
            (cold_stake-Books n b b2 owner staker chain.stake_split_target h first) rest

  add_delegation-Books :
      (n : ℕ) (owner staker : Text) (value : ℕ) (b b1 : TransactionBuilder)
      → Books n b
      → add_delegation library chain owner staker value b ≡ ok b1
      → Books n b1
  unfolding add_delegation
  add_delegation-Books n owner staker value b b1 h e =
      let target = chain.stake_split_target in
      throw_inv (ltb value coin) below_consensus _ e λ large e1.
        if_inv (ltb value target) e1 (λ _ e2. cold_stake-Books n b b1 owner staker value h e2)
          (λ _ e2.
            bind_inv
              (add_cold_stake_output library chain b owner staker (pos (target + value % target))
                false)
              e2
              λ b2 first rest.
                add_stakes-Books n owner staker (value / target - 1) b2 b1
                  (cold_stake-Books n b b2 owner staker (target + value % target) h first) rest)

  add_output-Books :
      (n : ℕ) (b b1 : TransactionBuilder) (address : Text) (value : ℕ) (memo : Text)
      → is_shield_address library chain address ≡ false
      → Books n b
      → add_output library chain b address (pos value) false memo ≡ ok b1
      → Books n b1
  unfolding add_output add_exchange_output add_p2pkh_output
  add_output-Books n b b1 address value memo plain h e =
      if_inv (is_shield_address library chain address) e (λ shield _. absurd (cc))
        (λ _ e1.
          if_inv (is_exchange_address library chain address) e1
            (λ _ e2.
              bind_inv (decode_address library chain address) e2
                λ decoded _ e3. rw (← ok-injective e3) (add_script-Books chain n b _ value h))
            (λ _ e2.
              bind_inv (decode_address library chain address) e2
                λ decoded _ e3. rw (← ok-injective e3) (add_script-Books chain n b _ value h)))

  pub add_primary-Books :
      (n : ℕ) (w : Wallet) (o : Options) (address : Text) (value : ℕ) (b b1 : TransactionBuilder)
      → is_shield_address library chain address ≡ false
      → Books n b
      → add_primary library chain w o address value b ≡ ok b1
      → Books n b1
  unfolding add_primary add_proposal_output
  add_primary-Books n w o address value b b1 plain h e =
      if_inv o.is_delegation e (λ _ e1. add_delegation-Books n _ address value b b1 h e1)
        (λ _ e1.
          if_inv o.is_proposal e1
            (λ _ e2. rw (← ok-injective e2) (add_script-Books chain n b _ value h))
            (λ _ e2. add_output-Books n b b1 address value o.memo plain h e2))
