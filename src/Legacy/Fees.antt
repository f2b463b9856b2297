-- ===== src/Legacy/Fees.antt =====
-- What the transactions that `createTransaction` of scripts/wallet.js makes pay.
use mathlib.Core.Path.{subst}
use organic_web_wallet.Prelude.{
  ℕ, ◌+◌, ◌*◌, ◌≤◌, ◌≡◌, refl, ap, sym, ◌∙◌, false, List, [], ◌∷◌, ◌++◌, map, length, arith, ok,
  bind_inv, throw_inv, if_inv, if◌then◌else◌, ok-injective, not, ◌&&◌, not_enough_balance,
  no_change_delegation, ◌===◌,
}
use organic_web_wallet.Prelude.Int.{ℤ, pos, leb_ℤ, ◌-ℤ◌}
use organic_web_wallet.Platform.{Text}
use organic_web_wallet.Mempool.{MempoolUtxo}
use organic_web_wallet.Mempool.Unspent.{total_value}
use organic_web_wallet.Legacy.Addresses.{Library, Chain, is_exchange_address, is_shield_address}
use organic_web_wallet.Legacy.Transaction.{TxIn, Transaction}
use organic_web_wallet.Legacy.Builder.{
  TransactionBuilder, ShieldRequest, create, min_fee, estimated_size, get_fee, add_utxos, build,
}
use organic_web_wallet.Legacy.Spending.{
  Wallet, Options, or_new, add_primary, spendable_utxos, add_inputs, available, created,
  create_transaction,
}
use organic_web_wallet.Legacy.Books.{
  amount_of, Books, create-Books, add_utxos-Books, add_primary-Books,
}
use organic_web_wallet.Legacy.Inputs.{spending, add_utxos-vin, add_primary-vin, settle-vin}
use organic_web_wallet.Legacy.Settling.{Pays, change_balance, settle-Pays, IsPlain}

-- `build` leaves a transaction with inputs as it is.
build_inputs :
    (b : TransactionBuilder) (vin : List TxIn)
    → b.transaction.vin ≡ vin
    → 1 ≤ length (build b).0.vin
    → (build b).0 ≡ b.transaction
unfolding build
build_inputs b [] is = rw is λ some. absurd (omega (arith, some))
build_inputs b (i ∷ vin) is = rw is λ _. refl

get_fee_plain :
    (chain : Chain) (n : ℕ) (b : TransactionBuilder) (fee : ℤ)
    → Books n b
    → get_fee chain b ≡ ok fee
    → fee ≡ pos (estimated_size b.transaction * min_fee chain) -ℤ pos 0
unfolding get_fee
get_fee_plain chain n b fee h = rw (h.shield_requests, h.handled_fee) λ e. sym (ok-injective e)

-- The transaction spends just the coins that are listed, and pays what they are worth.
pub record Spends (library : Library) (chain : Chain) (utxos : List MempoolUtxo) (t : Transaction)
    : Type 0 where
  pub inputs : t.vin ≡ map (spending library) utxos
  pub pays : Pays chain (total_value utxos) t

module _ (library : Library) (chain : Chain) (w : Wallet) (o : Options) (address : Text)
    (value : ℕ) where
  add_inputs-Pays :
      (b b1 : TransactionBuilder)
      → Books 0 b
      → is_shield_address library chain address ≡ false
      → is_shield_address library chain (or_new o.change_address w.new_change_address) ≡ false
      → is_exchange_address library chain (or_new o.change_address w.new_change_address) ≡ false
      → add_inputs library chain w o address value b ≡ ok b1
      → IsPlain b1.transaction
      → Pays chain (total_value (spendable_utxos chain w o value)) b1.transaction
  unfolding add_inputs
  add_inputs-Pays b b1 h transparent shield exchange e plain =
      let utxos = spendable_utxos chain w o value in
      let filled = add_utxos library b utxos in
      let from_none : 0 + total_value utxos ≡ total_value utxos = omega arith in
      let books = subst (λ n. Books n filled) from_none (add_utxos-Books library utxos 0 b h) in
      if_inv (is_shield_address library chain address) e (λ is_shield _. absurd (cc))
        (λ _ e1. bind_inv (get_fee chain filled) e1 λ fee fees e2.
          let is_fee = get_fee_plain chain (total_value utxos) filled fee books fees in
          settle-Pays chain (total_value utxos) filled books library w o _ b1 shield exchange
            (rw (books.value_in, books.value_out, is_fee)
              (change_balance (total_value utxos) (amount_of filled.transaction.vout)
                (estimated_size filled.transaction * min_fee chain)))
            e2 plain)

  add_inputs-vin :
      (b b1 : TransactionBuilder)
      → is_shield_address library chain address ≡ false
      → add_inputs library chain w o address value b ≡ ok b1
      → b1.transaction.vin
        ≡ b.transaction.vin ++ map (spending library) (spendable_utxos chain w o value)
  unfolding add_inputs
  add_inputs-vin b b1 transparent e =
      let utxos = spendable_utxos chain w o value in
      if_inv (is_shield_address library chain address) e (λ is_shield _. absurd (cc))
        (λ _ e1. bind_inv (get_fee chain (add_utxos library b utxos)) e1 λ fee _ e2.
          settle-vin library chain w o _ (add_utxos library b utxos) b1 e2
          ∙ add_utxos-vin library utxos b)

  created-Spends :
      (balance : ℤ) (built : Transaction × List ShieldRequest)
      → o.use_shield_inputs ≡ false
      → is_shield_address library chain address ≡ false
      → is_shield_address library chain (or_new o.change_address w.new_change_address) ≡ false
      → is_exchange_address library chain (or_new o.change_address w.new_change_address) ≡ false
      → created library chain w o address value balance ≡ ok built
      → 1 ≤ length built.0.vin
      → IsPlain built.0
      → Spends library chain (spendable_utxos chain w o value) built.0
  unfolding created create
  created-Spends balance built from_coins transparent shield exchange e some plain =
      throw_inv (not (leb_ℤ (pos value) balance)) not_enough_balance _ e λ _ e1.
        throw_inv (o.delegate_change && o.change_delegation_address === []) no_change_delegation _
          e1
          λ _ e2. bind_inv (add_primary library chain w o address value create) e2 λ b primary e3.
            bind_inv
              (if o.use_shield_inputs then ok b else add_inputs library chain w o address value b)
              e3
              λ b1 inputs e4.
                if_inv o.use_shield_inputs inputs (λ from_shield _. absurd (cc))
                  λ _ adds.
                    let is : build b1 ≡ built = ok-injective e4 in
                    let same = build_inputs b1 b1.transaction.vin refl (rw is some) in
                    let is_transaction : b1.transaction ≡ built.0 = sym same ∙ ap (λ r. r.0) is in
                    let books =
                      add_primary-Books library chain 0 w o address value create b transparent
                        create-Books primary in
                    subst (Spends library chain (spendable_utxos chain w o value)) is_transaction
                      (record {
                        inputs =
                            add_inputs-vin b b1 transparent adds
                            ∙ ap
                                (λ vin.
                                  vin ++ map (spending library) (spendable_utxos chain w o value))
                                (add_primary-vin library chain w o address value create b primary);
                        pays =
                            add_inputs-Pays b b1 books transparent shield exchange adds
                              (subst IsPlain (sym is_transaction) plain);
                      })

-- What `createTransaction` makes of the wallet's coins for an address that is not a shield address, with
-- a change address that is neither a shield nor an exchange address, has as its inputs the spendable
-- coins that are chosen for the value, each with its outpoint, its script and the last sequence
-- number, and no other; and it spends exactly what these coins are worth: the outputs take a part of
-- it, and the rest pays at least the minimal fee for each byte of the transaction with its
-- signatures. This holds when the transaction has inputs, no output of it is negative, and it has at
-- most 252 outputs.
pub create_transaction-Pays :
    (library : Library) (chain : Chain) (w : Wallet) (o : Options) (address : Text) (value : ℕ)
    (built : Transaction × List ShieldRequest)
    → o.use_shield_inputs ≡ false
    → is_shield_address library chain address ≡ false
    → is_shield_address library chain (or_new o.change_address w.new_change_address) ≡ false
    → is_exchange_address library chain (or_new o.change_address w.new_change_address) ≡ false
    → (create_transaction library chain w o address value).0 ≡ ok built
    → 1 ≤ length built.0.vin
    → IsPlain built.0
    → Spends library chain
        (spendable_utxos chain (create_transaction library chain w o address value).1 o value)
        built.0
unfolding create_transaction
create_transaction-Pays library chain w o address value built from_coins transparent shield exchange
      e some plain =
    created-Spends library chain (record w { mempool = (available chain w o).1 }) o address value
      (available chain w o).0 built from_coins transparent shield exchange e some plain
