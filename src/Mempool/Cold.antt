-- ===== src/Mempool/Cold.antt =====
-- The immature cold balance, which is read without a block count.
use mathlib.Core.Path.{subst}
use organic_web_wallet.Prelude.{
  ℕ, ◌+◌, ◌≡◌, refl, ap, sym, true, false, none, some, arith, Bool-cases, inl, inr,
}
use organic_web_wallet.Prelude.Int.{ℤ, pos, ◌-ℤ◌}
use organic_web_wallet.Mempool.Transactions.{is_immature}
use organic_web_wallet.Mempool.{Mempool, Status, invalid}
use organic_web_wallet.Mempool.Spendable.{
  is_immature_at, count_value, keep_valid, balance_internal, ours_p2cs, or_update,
  cold_balance_without_count, get_immature_cold_balance,
}
use organic_web_wallet.Mempool.Unspent.{loop_keeps}

minus_self : (n : ℕ) → pos n -ℤ pos n ≡ pos 0
minus_self n = ground arith

-- Without a block count, no coin is immature.
without_count :
    (maturity : ℕ) (m : Mempool) (requirement : Status) (block_count : ℕ)
    → balance_internal maturity m requirement none false
      ≡ balance_internal maturity m requirement (some block_count) true
unfolding balance_internal count_value is_immature_at
without_count maturity m requirement block_count =
    loop_keeps m requirement (λ (a b : ℕ). a ≡ b) (count_value maturity none false)
      (count_value maturity (some block_count) true)
      (λ tx i out s t e r. elim (Bool-cases (is_immature maturity block_count tx)) [
        | inl young ↦ rw young (ap (λ v. v + out.value) r)
        | inr old ↦ rw old (ap (λ v. v + out.value) r)
      ])
      0 0 refl

fresh_value :
    (z : ℤ) (a b : ℕ)
    → z ≡ invalid
    → a ≡ b
    → (pos b -ℤ or_update z (pos a) ≡ pos 0) × (or_update z (pos a) ≡ pos b)
unfolding or_update
fresh_value z a b unset same = rw (unset, same) (minus_self b, refl)

keep_valid_fresh :
    (z : ℤ) (kept fresh : ℤ × Mempool) → z ≡ invalid → keep_valid z kept fresh ≡ fresh
unfolding keep_valid
keep_valid_fresh z kept fresh unset = rw unset refl

-- Where neither cache is valid, the immature cold balance is 0, whatever coins there are, and the cold
-- balance that is cached with it counts the immature coins.
pub get_immature_cold_balance_zero :
    (maturity : ℕ) (m : Mempool) (block_count : ℕ)
    → m.balances.immature_cold_balance ≡ invalid
    → m.balances.cold_balance ≡ invalid
    → (let (value, m') = get_immature_cold_balance maturity m block_count in
        (value ≡ pos 0)
        × (m'.balances.cold_balance
            ≡ pos (balance_internal maturity m ours_p2cs (some block_count) true)))
unfolding get_immature_cold_balance cold_balance_without_count
get_immature_cold_balance_zero maturity m block_count h1 h2 =
    subst
      (λ (r : ℤ × Mempool).
        (r.0 ≡ pos 0)
        × (r.1.balances.cold_balance
            ≡ pos (balance_internal maturity m ours_p2cs (some block_count) true)))
      (sym (keep_valid_fresh m.balances.immature_cold_balance _ _ h1))
      (fresh_value m.balances.cold_balance _ _ h2 (without_count maturity m ours_p2cs block_count))
