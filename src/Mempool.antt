-- ===== src/Mempool.antt =====
-- scripts/mempool.js: the states of outpoints and the transactions.
pub mod Caches
pub mod Spendable
pub mod Transactions
pub mod Unspent
pub mod Spending
pub mod Cold
mod Examples
use organic_web_wallet.Prelude.{
  ℕ, ◌+◌, Bool, true, false, not, ◌&&◌, ◌||◌, Option, none, some, List, [], ◌∷◌, ◌===◌,
  if◌then◌else◌, get_elem?, Result, ok, ◌>>=◌, require, missing_output,
}
use organic_web_wallet.Prelude.Int.{ℤ, negsuc}
use organic_web_wallet.Platform.{Text}
use organic_web_wallet.Mempool.Transactions.{COutpoint, CTxOut, LegacyTx, same_outpoint}

-- The bits of an `OutpointState`.
pub record Status : Type 0 where
  pub ours : Bool
  pub p2pkh : Bool
  pub p2cs : Bool
  pub spent : Bool
  pub locked : Bool

abbrev pub no_status : Status
no_status = record { ours = false; p2pkh = false; p2cs = false; spent = false; locked = false }

-- `old | added`
unfoldable pub with_bits : Status → Status → Status
with_bits old added = record {
  ours = old.ours || added.ours;
  p2pkh = old.p2pkh || added.p2pkh;
  p2cs = old.p2cs || added.p2cs;
  spent = old.spent || added.spent;
  locked = old.locked || added.locked;
}

-- `old & ~removed`
unfoldable pub without_bits : Status → Status → Status
without_bits old removed = record {
  ours = old.ours && not removed.ours;
  p2pkh = old.p2pkh && not removed.p2pkh;
  p2cs = old.p2cs && not removed.p2cs;
  spent = old.spent && not removed.spent;
  locked = old.locked && not removed.locked;
}

-- `(status & requirement) === requirement`
unfoldable pub meets : Status → Status → Bool
meets status requirement =
    (status.ours || not requirement.ours)
    && ((status.p2pkh || not requirement.p2pkh)
        && ((status.p2cs || not requirement.p2cs)
            && ((status.spent || not requirement.spent)
                && (status.locked || not requirement.locked))))

-- A `Map` in the order of insertion: a key that is there keeps its place.
unfoldable pub get_status : List (COutpoint × Status) → COutpoint → Status
get_status [] o = no_status
get_status ((p, s) ∷ entries) o =
    let later = get_status entries o in if same_outpoint p o then s else later

unfoldable pub put_status :
    List (COutpoint × Status) → COutpoint → Status → List (COutpoint × Status)
put_status [] o s = (o, s) ∷ []
put_status ((p, t) ∷ entries) o s =
    let later = put_status entries o s in
    if same_outpoint p o then (p, s) ∷ entries else (p, t) ∷ later

unfoldable pub put_tx : List LegacyTx → LegacyTx → List LegacyTx
put_tx [] tx = tx ∷ []
put_tx (t ∷ txs) tx =
    let later = put_tx txs tx in if t.txid === tx.txid then tx ∷ txs else t ∷ later

unfoldable pub get_tx : List LegacyTx → Text → Option LegacyTx
get_tx [] txid = none
get_tx (t ∷ txs) txid = let later = get_tx txs txid in if t.txid === txid then some t else later

-- A cached balance; -1 stands for one that is not valid.
pub record Balances : Type 0 where
  pub balance : ℤ
  pub cold_balance : ℤ
  pub immature_balance : ℤ
  pub immature_cold_balance : ℤ

-- The event that an update emits is left out.
pub record Mempool : Type 0 where
  pub statuses : List (COutpoint × Status)
  pub txs : List LegacyTx
  pub balances : Balances

abbrev pub invalid : ℤ
invalid = negsuc 0

-- The cache of the immature cold balance is not among those that the code invalidates.
unfoldable pub invalidate_balance_cache : Mempool → Mempool
invalidate_balance_cache m = record m {
  balances = record (m.balances) {
    immature_balance = invalid;
    balance = invalid;
    cold_balance = invalid;
  };
}

unfoldable pub get_outpoint_status : Mempool → COutpoint → Status
get_outpoint_status m o = get_status m.statuses o

unfoldable pub set_outpoint_status : Mempool → COutpoint → Status → Mempool
set_outpoint_status m o s =
    invalidate_balance_cache (record m { statuses = put_status m.statuses o s })

unfoldable pub add_outpoint_status : Mempool → COutpoint → Status → Mempool
add_outpoint_status m o s = set_outpoint_status m o (with_bits (get_outpoint_status m o) s)

unfoldable pub remove_outpoint_status : Mempool → COutpoint → Status → Mempool
remove_outpoint_status m o s = set_outpoint_status m o (without_bits (get_outpoint_status m o) s)

abbrev pub spent_bit : Status
spent_bit = record { ours = false; p2pkh = false; p2cs = false; spent = true; locked = false }

unfoldable pub set_spent : Mempool → COutpoint → Mempool
set_spent m o = add_outpoint_status m o spent_bit

unfoldable pub is_spent : Mempool → COutpoint → Bool
is_spent m o = let s = get_outpoint_status m o in s.spent

unfoldable pub spend_all : Mempool → List COutpoint → Mempool
spend_all m [] = m
spend_all m (o ∷ inputs) = spend_all (set_spent m o) inputs

unfoldable pub add_transaction : Mempool → LegacyTx → Mempool
add_transaction m tx = spend_all (record m { txs = put_tx m.txs tx }) tx.vin

pub record MempoolUtxo : Type 0 where
  pub outpoint : COutpoint
  pub script : Text
  pub value : ℕ

-- `none` is the `null` of an unknown transaction.
unfoldable pub outpoint_to_utxo : Mempool → COutpoint → Result (Option MempoolUtxo)
outpoint_to_utxo m o = elim (get_tx m.txs o.txid) [
  | none ↦ ok none
  | some tx ↦ require (get_elem? tx.vout o.n) missing_output >>= λ out.
      ok (some (record { outpoint = o; script = out.script; value = out.value }))
]

unfoldable pub is_ours : Mempool → COutpoint → Bool
is_ours m o = let s = get_outpoint_status m o in s.ours

abbrev utxo_value : Option MempoolUtxo → ℕ
utxo_value (some u) = u.value
utxo_value none = 0

-- The sum over the inputs that are ours, and whether all are.
unfoldable pub get_debit : Mempool → List COutpoint → Result (ℕ × Bool)
get_debit m [] = ok (0, true)
get_debit m (o ∷ inputs) = (if is_ours m o then outpoint_to_utxo m o else ok none) >>= λ u.
    get_debit m inputs >>= λ (sum, own). ok (utxo_value u + sum, is_ours m o && own)

-- The same over the outputs, from an index on.
unfoldable pub get_credit : Mempool → Text → ℕ → List CTxOut → ℕ × Bool
get_credit m txid i [] = (0, true)
get_credit m txid i (out ∷ outputs) =
    let (sum, own) = get_credit m txid (i + 1) outputs in
    let ours = is_ours m (record { txid = txid; n = i }) in
    (if ours then out.value + sum else sum, ours && own)
