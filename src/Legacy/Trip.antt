-- ===== src/Legacy/Trip.antt =====
-- A transaction that `serialize` of scripts/transaction.js writes is what `fromHex` reads.
use mathlib.Core.List.{flatten, append-nil}
use organic_web_wallet.Prelude.{
  ℕ, suc, ◌^◌, ◌<◌, ◌≤◌, ◌≡◌, refl, ap, sym, ◌∙◌, true, [], ◌∷◌, ◌++◌, map, All, length, arith,
  Bool-cases, ok, ◌⊎◌, inl, inr,
}
use organic_web_wallet.Prelude.Int.{pos}
use organic_web_wallet.Platform.{Bytes, max_safe_integer}
use organic_web_wallet.Wire.Codec.{read}
use organic_web_wallet.Wire.LittleEndian.{read-append}
use organic_web_wallet.Legacy.Encoding.{
  num_to_bytes, weighted, bytes_to_num, num_to_var_int, read_num,
}
use organic_web_wallet.Legacy.VarInt.{read_num-num_to_bytes}
use organic_web_wallet.Legacy.Items.{
  InputFits, OutputFits, SpendFits, ShieldOutputFits, BalanceFits, read_list-map,
  read_input-serialize_input, read_output-serialize_output, read_spend-serialize_spend,
  read_shield_output-serialize_shield_output, signed-int64_bytes,
}
use organic_web_wallet.Legacy.Transaction.{
  Transaction, shield_flag, has_sapling_version, serialize_input, serialize_output, serialize_spend,
  serialize_shield_output, serialize_shield, serialize_sapling, serialize, read_input, read_output,
  read_spend, read_shield_output, read_shield, read_sapling, from_bytes,
}

-- A transaction without shield data
pub record Unshielded (t : Transaction) : Type 0 where
  pub binding_sig : t.binding_sig ≡ []
  pub shield_spend : t.shield_spend ≡ []
  pub shield_output : t.shield_output ≡ []
  pub value_balance : t.value_balance ≡ pos 0

-- A transaction with shield data
pub record Shielded (t : Transaction) : Type 0 where
  pub sapling : 3 ≤ t.version
  pub binding_sig : length t.binding_sig ≡ 64
  pub spends : All SpendFits t.shield_spend
  pub few_spends : length t.shield_spend ≤ max_safe_integer
  pub outputs : All ShieldOutputFits t.shield_output
  pub few_outputs : length t.shield_output ≤ max_safe_integer
  pub value_balance : BalanceFits t.value_balance

pub record Fits (t : Transaction) : Type 0 where
  pub version : t.version < 2 ^ 32
  pub inputs : All InputFits t.vin
  pub few_inputs : length t.vin ≤ max_safe_integer
  pub outputs : All OutputFits t.vout
  pub few_outputs : length t.vout ≤ max_safe_integer
  pub lock_time : t.lock_time < 2 ^ 32
  pub shield : Unshielded t ⊎ Shielded t

-- The transaction that `fromHex` has built before it comes to the shield data.
bare : Transaction → Transaction
bare t = record t { value_balance = pos 0; shield_spend = []; shield_output = []; binding_sig = [] }

read_flag : (b : ℕ) (s : Bytes) → read_num 1 (b ∷ s) ≡ ok (b, s)
unfolding read_num bytes_to_num weighted
read_flag b s = rw (read-append 1 (b ∷ []) s refl) (ap (λ n. ok (n, s)) (omega arith))

read_whole : (n : ℕ) (b : Bytes) → length b ≡ n → read n b ≡ ok (b, [])
read_whole n b h = rw (← append-nil b) (rw (read-append n b [] h) (rw append-nil refl))

-- What is written behind the balance.
shield_rest : Transaction → Bytes
shield_rest t =
    num_to_var_int (length t.shield_spend)
    ++ (flatten (map serialize_spend t.shield_spend)
        ++ (num_to_var_int (length t.shield_output)
            ++ (flatten (map serialize_shield_output t.shield_output) ++ t.binding_sig)))

read_shield-serialize_shield :
    (t : Transaction)
    → Shielded t
    → (flag : ℕ) → read_shield (bare t) (suc flag) (serialize_shield t) ≡ ok t
unfolding read_shield serialize_shield shield_rest bare
read_shield-serialize_shield t h flag =
    let (n, reads, is_balance) =
      signed-int64_bytes t.value_balance (shield_rest t) h.value_balance in
    rw reads (
      rw
        (read_list-map serialize_spend read_spend SpendFits read_spend-serialize_spend
          t.shield_spend _ h.spends h.few_spends)
        (rw
          (read_list-map serialize_shield_output read_shield_output ShieldOutputFits
            read_shield_output-serialize_shield_output t.shield_output _ h.outputs h.few_outputs)
          (rw (read_whole 64 t.binding_sig h.binding_sig, is_balance) refl)))

shield_flag_set : (b : Bytes) → length b ≡ 64 → shield_flag b ≡ 1
shield_flag_set [] h = omega arith
shield_flag_set (x ∷ b) h = refl

has_sapling : (t : Transaction) → Shielded t → has_sapling_version t.version ≡ true
has_sapling t h = let enough = h.sapling in ground arith

bare-Unshielded : (t : Transaction) → Unshielded t → bare t ≡ t
unfolding bare
bare-Unshielded t h = λ i. record t {
  value_balance = sym h.value_balance i;
  shield_spend = sym h.shield_spend i;
  shield_output = sym h.shield_output i;
  binding_sig = sym h.binding_sig i;
}

read_sapling-serialize_sapling :
    (t : Transaction)
    → Unshielded t ⊎ Shielded t
    → read_sapling (bare t) (serialize_sapling t) ≡ ok t
unfolding read_sapling serialize_sapling read_shield bare
read_sapling-serialize_sapling t (inl h) = elim (Bool-cases (has_sapling_version t.version)) [
  | inl new ↦ rw (new, ap shield_flag h.binding_sig) (rw read_flag (ap ok (bare-Unshielded t h)))
  | inr old ↦ rw old (ap ok (bare-Unshielded t h))
]
read_sapling-serialize_sapling t (inr h) =
    rw (has_sapling t h, shield_flag_set t.binding_sig h.binding_sig)
      (rw read_flag (read_shield-serialize_shield t h 0))

-- What is written of a transaction before its shield data, and `tail` behind it.
with_tail : Transaction → Bytes → Bytes
with_tail t tail =
    num_to_bytes (pos t.version) 4
    ++ (num_to_var_int (length t.vin)
        ++ (flatten (map serialize_input t.vin)
            ++ (num_to_var_int (length t.vout)
                ++ (flatten (map serialize_output t.vout)
                    ++ (num_to_bytes (pos t.lock_time) 4 ++ tail)))))

from_bytes-with_tail :
    (t : Transaction) (tail : Bytes)
    → Fits t
    → from_bytes (with_tail t tail) ≡ read_sapling (bare t) tail
unfolding from_bytes with_tail bare
from_bytes-with_tail t tail h = rw (read_num-num_to_bytes 4 t.version _ h.version) (
    rw
      (read_list-map serialize_input read_input InputFits read_input-serialize_input t.vin _
        h.inputs h.few_inputs)
      (rw
        (read_list-map serialize_output read_output OutputFits read_output-serialize_output t.vout _
          h.outputs h.few_outputs)
        (rw (read_num-num_to_bytes 4 t.lock_time _ h.lock_time) refl)))

-- Reading the bytes that a transaction is written to gives the transaction back, if its numbers,
-- ids and lists fit in their fields: with its shield data if it has some, and without if it has
-- none.
pub from_bytes-serialize : (t : Transaction) → Fits t → from_bytes (serialize t) ≡ ok t
unfolding serialize with_tail
from_bytes-serialize t h =
    from_bytes-with_tail t (serialize_sapling t) h ∙ read_sapling-serialize_sapling t h.shield
