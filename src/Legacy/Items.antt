-- ===== src/Legacy/Items.antt =====
-- The inputs, outputs and shield data that `serialize` of scripts/transaction.js writes are what
-- `fromHex` reads.
use mathlib.Core.List.{flatten, append_assoc, reverse-reverse}
use organic_web_wallet.Prelude.{
  ℕ, ◌+◌, ◌^◌, ◌<◌, ◌≤◌, ◌≡◌, refl, ◌∙◌, List, [], ◌∷◌, ◌++◌, map, All, length, reverse, arith,
  Result, ok, length-reverse,
}
use organic_web_wallet.Prelude.Int.{ℤ, pos, negsuc}
use organic_web_wallet.Platform.{Bytes, max_safe_integer}
use organic_web_wallet.Wire.Codec.{signed}
use organic_web_wallet.Wire.LittleEndian.{read-append}
use organic_web_wallet.Wire.Parse.{read_many}
use organic_web_wallet.Legacy.Encoding.{num_to_var_int, read_num}
use organic_web_wallet.Legacy.VarInt.{
  read_num-num_to_bytes, read_num-le_bytes, var_int_to_num-num_to_var_int,
}
use organic_web_wallet.Legacy.Transaction.{
  TxIn, TxOut, ShieldSpend, ShieldOutput, int64_bytes, serialize_input, serialize_output,
  serialize_spend, serialize_shield_output, to_number, read_script, read_input, read_output,
  read_spend, read_shield_output, read_list,
}

pub record InputFits (i : TxIn) : Type 0 where
  pub txid : length i.txid ≡ 32
  pub n : i.n < 2 ^ 32
  pub script_sig : length i.script_sig ≤ max_safe_integer
  pub sequence : i.sequence < 2 ^ 32

pub record OutputFits (o : TxOut) : Type 0 where
  pub script : length o.script ≤ max_safe_integer
  pub amount : ℕ
  pub value : o.value ≡ pos amount
  pub small : amount ≤ max_safe_integer

pub record SpendFits (s : ShieldSpend) : Type 0 where
  pub cv : length s.cv ≡ 32
  pub anchor : length s.anchor ≡ 32
  pub nullifier : length s.nullifier ≡ 32
  pub rk : length s.rk ≡ 32
  pub proof : length s.proof ≡ 192
  pub spend_auth_sig : length s.spend_auth_sig ≡ 64

pub record ShieldOutputFits (o : ShieldOutput) : Type 0 where
  pub cv : length o.cv ≡ 32
  pub cmu : length o.cmu ≡ 32
  pub ephemeral_key : length o.ephemeral_key ≡ 32
  pub enc_ciphertext : length o.enc_ciphertext ≡ 580
  pub out_ciphertext : length o.out_ciphertext ≡ 80
  pub proof : length o.proof ≡ 192

to_number_ok : (n : ℕ) → n ≤ max_safe_integer → to_number n ≡ ok n
unfolding to_number
to_number_ok n h = ground arith

read_script-append :
    (script rest : Bytes)
    → length script ≤ max_safe_integer
    → read_script (num_to_var_int (length script) ++ (script ++ rest)) ≡ ok (script, rest)
unfolding read_script
read_script-append script rest h =
    rw (var_int_to_num-num_to_var_int (length script) (script ++ rest) (omega arith))
      (rw (to_number_ok (length script) h) (read-append (length script) script rest refl))

-- A length that is not too large, and the items that are read one by one.
module _ {A : Type 0} (write : A → Bytes) (item : Bytes → Result (A × Bytes)) (F : A → Type 0)
    (trip : (a : A) (rest : Bytes) → F a → item (write a ++ rest) ≡ ok (a, rest)) where
  read_many-map :
      (xs : List A) (rest : Bytes)
      → All F xs
      → read_many item (length xs) (flatten (map write xs) ++ rest) ≡ ok (xs, rest)
  unfolding read_many flatten
  read_many-map [] rest h = refl
  read_many-map (x ∷ xs) rest h =
      rw (append_assoc (write x) (flatten (map write xs)) rest)
        (rw (trip x (flatten (map write xs) ++ rest) h.0) (rw (read_many-map xs rest h.1) refl))

  pub read_list-map :
      (xs : List A) (rest : Bytes)
      → All F xs
      → length xs ≤ max_safe_integer
      → read_list item (num_to_var_int (length xs) ++ (flatten (map write xs) ++ rest))
        ≡ ok (xs, rest)
  unfolding read_list
  read_list-map xs rest h few =
      rw (var_int_to_num-num_to_var_int (length xs) _ (omega arith))
        (rw (to_number_ok (length xs) few) (read_many-map xs rest h))

reversed : (b : Bytes) (n : ℕ) → length b ≡ n → length (reverse b) ≡ n
reversed b n h = length-reverse b ∙ h

pub read_input-serialize_input :
    (i : TxIn) (rest : Bytes) → InputFits i → read_input (serialize_input i ++ rest) ≡ ok (i, rest)
unfolding read_input serialize_input
read_input-serialize_input i rest h = simp append_assoc (
    rw (read-append 32 (reverse i.txid) _ (reversed i.txid 32 h.txid)) (
      rw (read_num-num_to_bytes 4 i.n _ h.n) (
        rw (read_script-append i.script_sig _ h.script_sig)
          (rw (read_num-num_to_bytes 4 i.sequence rest h.sequence) (rw reverse-reverse refl)))))

pub read_output-serialize_output :
    (o : TxOut) (rest : Bytes)
    → OutputFits o
    → read_output (serialize_output o ++ rest) ≡ ok (o, rest)
unfolding read_output serialize_output
read_output-serialize_output o rest h = simp append_assoc (
    rw h.value (
      rw (read_num-num_to_bytes 8 h.amount _ (omega (arith, h.small)))
        (rw (to_number_ok h.amount h.small) (rw (read_script-append o.script rest h.script) refl))))

pub read_spend-serialize_spend :
    (s : ShieldSpend) (rest : Bytes)
    → SpendFits s
    → read_spend (serialize_spend s ++ rest) ≡ ok (s, rest)
unfolding read_spend serialize_spend
read_spend-serialize_spend s rest h = simp append_assoc (
    rw (read-append 32 (reverse s.cv) _ (reversed s.cv 32 h.cv)) (
      rw (read-append 32 (reverse s.anchor) _ (reversed s.anchor 32 h.anchor)) (
        rw (read-append 32 (reverse s.nullifier) _ (reversed s.nullifier 32 h.nullifier)) (
          rw (read-append 32 (reverse s.rk) _ (reversed s.rk 32 h.rk)) (
            rw (read-append 192 s.proof _ h.proof) (
              rw (read-append 64 s.spend_auth_sig rest h.spend_auth_sig) (
                rw
                  (
                    reverse-reverse s.cv,
                    reverse-reverse s.anchor,
                    reverse-reverse s.nullifier,
                    reverse-reverse s.rk,
                  )
                  refl)))))))

pub read_shield_output-serialize_shield_output :
    (o : ShieldOutput) (rest : Bytes)
    → ShieldOutputFits o
    → read_shield_output (serialize_shield_output o ++ rest) ≡ ok (o, rest)
unfolding read_shield_output serialize_shield_output
read_shield_output-serialize_shield_output o rest h = simp append_assoc (
    rw (read-append 32 (reverse o.cv) _ (reversed o.cv 32 h.cv)) (
      rw (read-append 32 (reverse o.cmu) _ (reversed o.cmu 32 h.cmu)) (
        rw
          (read-append 32 (reverse o.ephemeral_key) _ (reversed o.ephemeral_key 32 h.ephemeral_key))
          (rw (read-append 580 o.enc_ciphertext _ h.enc_ciphertext) (
            rw (read-append 80 o.out_ciphertext _ h.out_ciphertext) (
              rw (read-append 192 o.proof rest h.proof) (
                rw (reverse-reverse o.cv, reverse-reverse o.cmu, reverse-reverse o.ephemeral_key)
                  refl)))))))

-- A balance that a number holds exactly.
abbrev pub BalanceFits : ℤ → Type 0
BalanceFits (pos n) = n ≤ max_safe_integer
BalanceFits (negsuc n) = n + 1 ≤ max_safe_integer

pub signed-int64_bytes :
    (z : ℤ) (rest : Bytes)
    → BalanceFits z
    → (n : ℕ) × (read_num 8 (int64_bytes z ++ rest) ≡ ok (n, rest)) × (signed 64 n ≡ z)
unfolding int64_bytes signed
signed-int64_bytes (pos n) rest h = (n, read_num-le_bytes 8 n rest (omega arith), ground arith)
signed-int64_bytes (negsuc n) rest h = (_, read_num-le_bytes 8 _ rest (omega arith), ground arith)
