-- ===== src/Mempool/Spending.antt =====
-- A transaction that is added spends its inputs.
use organic_web_wallet.Prelude.{
  ◌≡◌, ◌⊎◌, inl, inr, refl, ap, ◌∙◌, Bool, true, ◌||◌, List, [], ◌∷◌, All, arith, ==_refl, ===_refl,
  Bool-cases,
}
use organic_web_wallet.Mempool.Transactions.{LegacyTx, COutpoint, same_outpoint}
use organic_web_wallet.Mempool.{
  Mempool, Status, with_bits, get_status, put_status, put_tx, invalidate_balance_cache,
  get_outpoint_status, set_outpoint_status, add_outpoint_status, set_spent, is_spent, spent_bit,
  spend_all, add_transaction,
}

same_outpoint_refl : (o : COutpoint) → same_outpoint o o ≡ true
unfolding same_outpoint
same_outpoint_refl o = rw (===_refl o.txid, ==_refl o.n) refl

pub get_status-put_status :
    (entries : List (COutpoint × Status)) (o : COutpoint) (s : Status)
    → get_status (put_status entries o s) o ≡ s
unfolding get_status put_status
get_status-put_status [] o s = rw (same_outpoint_refl o) refl
get_status-put_status ((p, t) ∷ entries) o s = elim (Bool-cases (same_outpoint p o)) [
  | inl e ↦ rw e (rw e refl)
  | inr e ↦ rw e (rw e (get_status-put_status entries o s))
]

-- Any other lookup gives the status that is put or the one that was there.
get_put_cases :
    (entries : List (COutpoint × Status)) (o q : COutpoint) (s : Status)
    → (get_status (put_status entries q s) o ≡ s)
      ⊎ (get_status (put_status entries q s) o ≡ get_status entries o)
unfolding get_status put_status
get_put_cases [] o q s = elim (Bool-cases (same_outpoint q o)) [
  | inl e ↦ inl (rw e refl)
  | inr e ↦ inr (rw e refl)
]
get_put_cases ((p, t) ∷ entries) o q s = elim (Bool-cases (same_outpoint p q)) [
  | inl e ↦ elim (Bool-cases (same_outpoint p o)) [
    | inl f ↦ inl (rw e (rw f refl))
    | inr f ↦ inr (rw e (rw f refl))
  ]
  | inr e ↦ elim (Bool-cases (same_outpoint p o)) [
    | inl f ↦ inr (rw e (rw f refl))
    | inr f ↦ elim (get_put_cases entries o q s) [
      | inl g ↦ inl (rw e (rw f g))
      | inr g ↦ inr (rw e (rw f g))
    ]
  ]
]

or_true : (b : Bool) → (b || true) ≡ true
or_true b = ground arith

pub set_spent-is_spent : (m : Mempool) (o : COutpoint) → is_spent (set_spent m o) o ≡ true
unfolding is_spent set_spent add_outpoint_status set_outpoint_status get_outpoint_status
    invalidate_balance_cache with_bits
set_spent-is_spent m o =
    let old = get_status m.statuses o in
    ap (λ (s : Status). s.spent) (get_status-put_status m.statuses o (with_bits old spent_bit))
    ∙ or_true old.spent

set_spent_keeps :
    (m : Mempool) (q o : COutpoint) → is_spent m o ≡ true → is_spent (set_spent m q) o ≡ true
unfolding is_spent set_spent add_outpoint_status set_outpoint_status get_outpoint_status
    invalidate_balance_cache with_bits
set_spent_keeps m q o h =
    let old = get_status m.statuses q in
    elim (get_put_cases m.statuses o q (with_bits (get_status m.statuses q) spent_bit)) [
      | inl e ↦ ap (λ (s : Status). s.spent) e ∙ or_true old.spent
      | inr e ↦ ap (λ (s : Status). s.spent) e ∙ h
    ]

spend_all_keeps :
    (m : Mempool) (inputs : List COutpoint) (o : COutpoint)
    → is_spent m o ≡ true
    → is_spent (spend_all m inputs) o ≡ true
unfolding spend_all
spend_all_keeps m [] o h = h
spend_all_keeps m (i ∷ inputs) o h =
    spend_all_keeps (set_spent m i) inputs o (set_spent_keeps m i o h)

spend_all_lem :
    (m : Mempool) (inputs : List COutpoint)
    → All (λ o. is_spent (spend_all m inputs) o ≡ true) inputs
unfolding spend_all
spend_all_lem m [] = tt
spend_all_lem m (o ∷ inputs) = (
  spend_all_keeps (set_spent m o) inputs o (set_spent-is_spent m o),
  spend_all_lem (set_spent m o) inputs,
)

-- All inputs of a transaction are spent once it is added, and what was spent before still is.
pub add_transaction-is_spent :
    (m : Mempool) (tx : LegacyTx) (o : COutpoint)
    → is_spent m o ≡ true
    → All (λ i. is_spent (add_transaction m tx) i ≡ true) tx.vin
      × (is_spent (add_transaction m tx) o ≡ true)
unfolding add_transaction is_spent get_outpoint_status
add_transaction-is_spent m tx o h = (
  spend_all_lem (record m { txs = put_tx m.txs tx }) tx.vin,
  spend_all_keeps (record m { txs = put_tx m.txs tx }) tx.vin o h,
)
