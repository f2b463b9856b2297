-- ===== src/Legacy/Inputs.antt =====
-- The inputs of the transactions that scripts/transaction_builder.js and scripts/wallet.js build: only
-- `addUTXOs` adds any.
use mathlib.Core.List.{append-nil, append_assoc}
use organic_web_wallet.Prelude.{
  ℕ, zero, suc, ◌+◌, ◌-◌, ◌/◌, ◌%◌, ◌≡◌, refl, sym, ◌∙◌, Bool, true, false, List, [], ◌∷◌, ◌++◌,
  map, ltb, leb, ◌&&◌, ok, bind_inv, throw_inv, if_inv, ok-injective, Bool-cases, inl, inr,
  below_consensus,
}
use organic_web_wallet.Prelude.Int.{ℤ, pos, negsuc}
use organic_web_wallet.Platform.{Bytes, Text}
use organic_web_wallet.Mempool.{MempoolUtxo}
use organic_web_wallet.Legacy.Addresses.{
  Library, Chain, is_exchange_address, is_shield_address, decode_address,
}
use organic_web_wallet.Legacy.Transaction.{TxIn}
use organic_web_wallet.Legacy.Builder.{
  TransactionBuilder, is_dust, add_utxo, add_utxos, push_output, add_script, add_shield_output,
  add_exchange_output, add_p2pkh_output, add_output, add_proposal_output, add_cold_stake_output,
  subtract_from, equally_subtract_amt,
}
use organic_web_wallet.Legacy.Spending.{
  Wallet, Options, coin, or_new, add_stakes, add_delegation, add_primary, settle,
}

-- The input that spends a coin: its outpoint, its script to be signed, and the last sequence number.
abbrev pub spending : Library → MempoolUtxo → TxIn
spending library utxo = record {
  txid = library.from_hex utxo.outpoint.txid;
  n = utxo.outpoint.n;
  script_sig = library.from_hex utxo.script;
  sequence = 4294967295;
}

pub add_utxos-vin :
    (library : Library) (utxos : List MempoolUtxo) (b : TransactionBuilder)
    → (add_utxos library b utxos).transaction.vin
      ≡ b.transaction.vin ++ map (spending library) utxos
unfolding add_utxos add_utxo
add_utxos-vin library [] b = sym (append-nil b.transaction.vin)
add_utxos-vin library (utxo ∷ utxos) b =
    add_utxos-vin library utxos (add_utxo library b utxo)
    ∙ append_assoc b.transaction.vin (spending library utxo ∷ []) (map (spending library) utxos)

add_script-vin :
    (chain : Chain) (b : TransactionBuilder) (script : Bytes) (value : ℤ) (subtract : Bool)
    → (add_script chain b script value subtract).transaction.vin ≡ b.transaction.vin
unfolding add_script push_output
add_script-vin chain b script value subtract =
    elim (Bool-cases
      (is_dust chain (record { script = script; value = value }) value && subtract)) [
        | inl dust ↦ rw dust refl
        | inr enough ↦ elim (Bool-cases subtract) [
          | inl paid ↦ rw (enough, paid) refl
          | inr whole ↦ rw (enough, whole) refl
        ]
      ]

module _ (library : Library) (chain : Chain) where
  cold_stake-vin :
      (b b1 : TransactionBuilder) (owner staker : Text) (value : ℤ) (is_change : Bool)
      → add_cold_stake_output library chain b owner staker value is_change ≡ ok b1
      → b1.transaction.vin ≡ b.transaction.vin
  unfolding add_cold_stake_output
  cold_stake-vin b b1 owner staker value is_change e =
      bind_inv (decode_address library chain owner) e λ decoded _ e1.
        bind_inv (decode_address library chain staker) e1
          λ decoded2 _ e2. rw (← ok-injective e2) (add_script-vin chain b _ value is_change)

  add_stakes-vin :
      (owner staker : Text) (more : ℕ) (b b1 : TransactionBuilder)
      → add_stakes library chain owner staker more b ≡ ok b1
      → b1.transaction.vin ≡ b.transaction.vin
  unfolding add_stakes
  add_stakes-vin owner staker zero b b1 e = rw (← ok-injective e) refl
  add_stakes-vin owner staker (suc more) b b1 e =
      bind_inv
        (add_cold_stake_output library chain b owner staker (pos chain.stake_split_target) false) e
        λ b2 first rest.
          add_stakes-vin owner staker more b2 b1 rest
          ∙ cold_stake-vin b b2 owner staker (pos chain.stake_split_target) false first

  add_delegation-vin :
      (owner staker : Text) (value : ℕ) (b b1 : TransactionBuilder)
      → add_delegation library chain owner staker value b ≡ ok b1
      → b1.transaction.vin ≡ b.transaction.vin
  unfolding add_delegation
  add_delegation-vin owner staker value b b1 e =
      let target = chain.stake_split_target in
      throw_inv (ltb value coin) below_consensus _ e λ large e1.
        if_inv (ltb value target) e1 (λ _ e2. cold_stake-vin b b1 owner staker (pos value) false e2)
          (λ _ e2.
            bind_inv
              (add_cold_stake_output library chain b owner staker (pos (target + value % target))
                false)
              e2
              λ b2 first rest.
                add_stakes-vin owner staker (value / target - 1) b2 b1 rest
                ∙ cold_stake-vin b b2 owner staker (pos (target + value % target)) false first)

  add_output-vin :
      (b b1 : TransactionBuilder) (address : Text) (value : ℤ) (is_change : Bool) (memo : Text)
      → add_output library chain b address value is_change memo ≡ ok b1
      → b1.transaction.vin ≡ b.transaction.vin
  unfolding add_output add_exchange_output add_p2pkh_output add_shield_output
  add_output-vin b b1 address value is_change memo e =
      if_inv (is_shield_address library chain address) e (λ _ e1. rw (← ok-injective e1) refl)
        (λ _ e1.
          if_inv (is_exchange_address library chain address) e1
            (λ _ e2.
              bind_inv (decode_address library chain address) e2
                λ decoded _ e3. rw (← ok-injective e3) (add_script-vin chain b _ value false))
            (λ _ e2.
              bind_inv (decode_address library chain address) e2
                λ decoded _ e3. rw (← ok-injective e3) (add_script-vin chain b _ value is_change)))

  pub add_primary-vin :
      (w : Wallet) (o : Options) (address : Text) (value : ℕ) (b b1 : TransactionBuilder)
      → add_primary library chain w o address value b ≡ ok b1
      → b1.transaction.vin ≡ b.transaction.vin
  unfolding add_primary add_proposal_output
  add_primary-vin w o address value b b1 e =
      if_inv o.is_delegation e (λ _ e1. add_delegation-vin _ address value b b1 e1)
        (λ _ e1.
          if_inv o.is_proposal e1
            (λ _ e2. rw (← ok-injective e2) (add_script-vin chain b _ (pos value) false))
            (λ _ e2. add_output-vin b b1 address (pos value) false o.memo e2))

  pub settle-vin :
      (w : Wallet) (o : Options) (z : ℤ) (b b1 : TransactionBuilder)
      → settle library chain w o z b ≡ ok b1
      → b1.transaction.vin ≡ b.transaction.vin
  unfolding settle equally_subtract_amt
  settle-vin w o (negsuc k) b b1 e =
      if_inv o.subtract_fee_from_amt e
        (λ _ e1.
          bind_inv (subtract_from (k + 1) b.transaction.vout) e1
            λ vout _ e2. rw (← ok-injective e2) refl)
        (λ _ e1. absurd (cc))
  settle-vin w o (pos zero) b b1 e = rw (← ok-injective e) refl
  settle-vin w o (pos (suc k)) b b1 e =
      let address = or_new o.change_address w.new_change_address in
      if_inv (o.delegate_change && leb coin (suc k)) e
        (λ _ e1. cold_stake-vin b b1 address o.change_delegation_address (pos (suc k)) true e1)
        (λ _ e1. add_output-vin b b1 address (pos (suc k)) true [] e1)
