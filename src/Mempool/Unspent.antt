-- ===== src/Mempool/Unspent.antt =====
-- The unspent outputs and the balances are two views of one loop.
use organic_web_wallet.Prelude.{
  ℕ, ◌+◌, ◌≡◌, refl, true, none, some, List, [], ◌∷◌, ◌++◌, arith, inl, inr, Bool-cases,
}
use organic_web_wallet.Mempool.Transactions.{LegacyTx, CTxOut, is_immature}
use organic_web_wallet.Mempool.{Mempool, Status, MempoolUtxo}
use organic_web_wallet.Mempool.Spendable.{
  UtxoQuery, utxo_of, is_spendable, loop_outputs, loop_txs, loop_spendable_balance, is_reached,
  collect, get_utxos, is_immature_at, count_value, balance_internal,
}

-- What a step on a spendable output keeps is kept by two loops that run side by side.
module _ {ℓ κ} {S : Type ℓ} {T : Type κ} (m : Mempool) (requirement : Status) (R : S → T → Type 0)
    (f : LegacyTx → ℕ → CTxOut → S → S) (g : LegacyTx → ℕ → CTxOut → T → T)
    (step : (tx : LegacyTx) (i : ℕ) (out : CTxOut) (s : S) (t : T)
      → is_spendable m requirement (record { txid = tx.txid; n = i }) ≡ true
      → R s t
      → R (f tx i out s) (g tx i out t)) where
  outputs_keep :
      (tx : LegacyTx) (i : ℕ) (outputs : List CTxOut) (s : S) (t : T)
      → R s t
      → R
          (loop_outputs m requirement f tx i outputs s)
          (loop_outputs m requirement g tx i outputs t)
  unfolding loop_outputs
  outputs_keep tx i [] s t r = r
  outputs_keep tx i (out ∷ outputs) s t r =
      elim (Bool-cases (is_spendable m requirement (record { txid = tx.txid; n = i }))) [
        | inl e ↦
            rw e (
              outputs_keep tx (i + 1) outputs (f tx i out s) (g tx i out t) (step tx i out s t e r))
        | inr e ↦ rw e (outputs_keep tx (i + 1) outputs s t r)
      ]

  txs_keep :
      (txs : List LegacyTx) (s : S) (t : T)
      → R s t
      → R (loop_txs m requirement f txs s) (loop_txs m requirement g txs t)
  unfolding loop_txs
  txs_keep [] s t r = r
  txs_keep (tx ∷ txs) s t r = txs_keep txs _ _ (outputs_keep tx 0 tx.vout s t r)

  pub loop_keeps :
      (s : S) (t : T)
      → R s t
      → R (loop_spendable_balance m requirement s f) (loop_spendable_balance m requirement t g)
  unfolding loop_spendable_balance
  loop_keeps s t r = txs_keep m.txs s t r

abbrev pub total_value : List MempoolUtxo → ℕ
total_value [] = 0
total_value (u ∷ utxos) = u.value + total_value utxos

total_value-append :
    (utxos more : List MempoolUtxo)
    → total_value (utxos ++ more) ≡ total_value utxos + total_value more
total_value-append [] more = omega arith
total_value-append (u ∷ utxos) more = omega (arith, total_value-append utxos more)

-- Without a target, the outputs of `getUTXOs` are worth what `balanceInternal` counts for the
-- same requirement, block count and treatment of immature coins.
pub total_value-get_utxos :
    (maturity : ℕ) (m : Mempool) (q : UtxoQuery)
    → q.target ≡ none
    → total_value (get_utxos maturity m q)
      ≡ balance_internal maturity m q.requirement (some q.block_count) q.include_immature
unfolding get_utxos balance_internal collect count_value is_immature_at is_reached
total_value-get_utxos maturity m q endless =
    loop_keeps m q.requirement (λ (found : List MempoolUtxo × ℕ) value. total_value found.0 ≡ value)
      (collect maturity q) (count_value maturity (some q.block_count) q.include_immature)
      (λ tx i out s value e r. elim (Bool-cases (is_immature maturity q.block_count tx)) [
        | inl young ↦ elim (Bool-cases q.include_immature) [
          | inl wanted ↦
              rw (endless, young, wanted, total_value-append s.0 (utxo_of tx i out ∷ []))
                (omega arith)
          | inr refused ↦ rw (endless, young, refused) r
        ]
        | inr old ↦ elim (Bool-cases q.include_immature) [
          | inl wanted ↦
              rw (endless, old, wanted, total_value-append s.0 (utxo_of tx i out ∷ []))
                (omega arith)
          | inr refused ↦
              rw (endless, old, refused, total_value-append s.0 (utxo_of tx i out ∷ []))
                (omega arith)
        ]
      ])
      ([], 0) 0 refl
