-- ===== src/Legacy/Sizes.antt =====
-- How many bytes `serialize` of scripts/transaction.js writes, as a function of the outputs.
use mathlib.Core.List.{flatten}
use organic_web_wallet.Prelude.{
  ℕ, ◌+◌, ◌≤◌, ◌≡◌, ap, ◌∙◌, false, List, [], ◌∷◌, ◌++◌, map, length, arith, length-append,
}
use organic_web_wallet.Prelude.Int.{ℤ, pos, negsuc, neg_part}
use organic_web_wallet.Wire.LittleEndian.{length-le_bytes}
use organic_web_wallet.Legacy.Encoding.{num_to_bytes, num_to_var_int}
use organic_web_wallet.Legacy.VarInt.{num_to_bytes-le_bytes}
use organic_web_wallet.Legacy.Transaction.{
  TxOut, Transaction, has_sapling_version, serialize_input, serialize_output, serialize_sapling,
  serialize,
}
use organic_web_wallet.Legacy.Builder.{with_dummy, estimated_size}

abbrev pub IsAmount : TxOut → Type 0
IsAmount out = neg_part out.value ≡ 0

unfoldable pub outputs_size : List TxOut → ℕ
outputs_size vout = length (flatten (map serialize_output vout))

length-num_to_bytes : (n k : ℕ) → length (num_to_bytes (pos n) k) ≡ k
length-num_to_bytes n k = ap length (num_to_bytes-le_bytes n k) ∙ length-le_bytes k n

value_size : (z : ℤ) → neg_part z ≡ 0 → length (num_to_bytes z 8) ≡ 8
value_size (pos n) h = length-num_to_bytes n 8
value_size (negsuc n) h = omega arith

-- Of two outputs with one script, both amounts, the bytes are as many.
pub serialize_output-same_script :
    (a b : TxOut)
    → a.script ≡ b.script
    → IsAmount a
    → IsAmount b
    → length (serialize_output a) ≡ length (serialize_output b)
unfolding serialize_output
serialize_output-same_script a b same ha hb =
    rw same (simp length-append (omega (arith, value_size a.value ha, value_size b.value hb)))

pub outputs_size-append :
    (vout more : List TxOut) → outputs_size (vout ++ more) ≡ outputs_size vout + outputs_size more
unfolding outputs_size flatten
outputs_size-append [] more = omega arith
outputs_size-append (o ∷ vout) more =
    simp length-append (omega (arith, outputs_size-append vout more))

short_count_ok : (n : ℕ) → n ≤ 252 → length (num_to_var_int n) ≡ 1
unfolding num_to_var_int
short_count_ok n h = ground arith

pub outputs_size_one : (out : TxOut) → outputs_size (out ∷ []) ≡ length (serialize_output out)
unfolding outputs_size flatten
outputs_size_one out = simp length-append (omega arith)

-- The bytes in front of the outputs and behind them
base_size : Transaction → ℕ
base_size t =
    length (num_to_bytes (pos t.version) 4)
    + length (num_to_var_int (length (map with_dummy t.vin)))
    + length (flatten (map serialize_input (map with_dummy t.vin)))
    + length (num_to_bytes (pos t.lock_time) 4)

size_split :
    (t : Transaction)
    → has_sapling_version t.version ≡ false
    → length t.vout ≤ 252
    → estimated_size t ≡ base_size t + 1 + outputs_size t.vout
unfolding estimated_size serialize serialize_sapling base_size outputs_size
size_split t old few =
    rw old (simp length-append (omega (arith, short_count_ok (length t.vout) few)))

-- One more output is as many more bytes as it has.
pub estimated_size-append :
    (t : Transaction) (out : TxOut)
    → has_sapling_version t.version ≡ false
    → length (t.vout ++ (out ∷ [])) ≤ 252
    → estimated_size (record t { vout = t.vout ++ (out ∷ []) })
      ≡ estimated_size t + length (serialize_output out)
unfolding base_size
estimated_size-append t out old few =
    let more : length (t.vout ++ (out ∷ [])) ≡ length t.vout + 1 =
      length-append t.vout (out ∷ []) in
    let before = size_split t old (omega arith) in
    let after = size_split (record t { vout = t.vout ++ (out ∷ []) }) old few in
    omega (arith, before, after, outputs_size-append t.vout (out ∷ []), outputs_size_one out)

-- Outputs of as many bytes make a transaction of as many bytes.
pub estimated_size-same :
    (t : Transaction) (outs : List TxOut)
    → has_sapling_version t.version ≡ false
    → length t.vout ≤ 252
    → length outs ≡ length t.vout
    → outputs_size outs ≡ outputs_size t.vout
    → estimated_size (record t { vout = outs }) ≡ estimated_size t
unfolding base_size
estimated_size-same t outs old few as_many same =
    let before = size_split t old few in
    let after = size_split (record t { vout = outs }) old (omega arith) in omega arith
