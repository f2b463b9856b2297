-- ===== src/Legacy/Transaction.antt =====
-- `serialize` and `fromHex` of scripts/transaction.js. A hexadecimal text is kept as the bytes that it
-- stands for, a transaction id as the bytes of its text. Bytes that end early and numbers above
-- 2^53 - 1, which `Number` rounds, are errors here.
use mathlib.Core.List.{flatten}
use organic_web_wallet.Prelude.{
  ℕ, zero, suc, ◌+◌, ◌-◌, ◌^◌, Bool, List, [], ◌∷◌, ◌++◌, map, length, reverse, leb, if◌then◌else◌,
  Result, ok, err, ◌>>=◌, compact_size_too_large,
}
use organic_web_wallet.Prelude.Int.{ℤ, pos, negsuc}
use organic_web_wallet.Platform.{Bytes, max_safe_integer}
use organic_web_wallet.Wire.Codec.{le_bytes, signed, read}
use organic_web_wallet.Wire.Parse.{read_many}
use organic_web_wallet.Legacy.Encoding.{num_to_bytes, num_to_var_int, read_num, var_int_to_num}

pub record TxIn : Type 0 where
  pub txid : Bytes
  pub n : ℕ
  pub script_sig : Bytes
  pub sequence : ℕ

pub record TxOut : Type 0 where
  pub script : Bytes
  pub value : ℤ

pub record ShieldSpend : Type 0 where
  pub cv : Bytes
  pub anchor : Bytes
  pub nullifier : Bytes
  pub rk : Bytes
  pub proof : Bytes
  pub spend_auth_sig : Bytes

pub record ShieldOutput : Type 0 where
  pub cv : Bytes
  pub cmu : Bytes
  pub ephemeral_key : Bytes
  pub enc_ciphertext : Bytes
  pub out_ciphertext : Bytes
  pub proof : Bytes

-- The fields that are on the wire.
pub record Transaction : Type 0 where
  pub version : ℕ
  pub vin : List TxIn
  pub vout : List TxOut
  pub lock_time : ℕ
  pub value_balance : ℤ
  pub shield_spend : List ShieldSpend
  pub shield_output : List ShieldOutput
  pub binding_sig : Bytes

abbrev pub sapling_tx_version : ℕ
sapling_tx_version = 3

abbrev pub has_sapling_version : ℕ → Bool
has_sapling_version version = leb sapling_tx_version version

-- `Number(this.hasShieldData)`, where `hasShieldData` is `bindingSig !== ''`
abbrev pub shield_flag : Bytes → ℕ
shield_flag [] = 0
shield_flag (b ∷ bs) = 1

-- `writeBigInt64LE`
unfoldable pub int64_bytes : ℤ → Bytes
int64_bytes (pos n) = le_bytes 8 n
int64_bytes (negsuc n) = le_bytes 8 (2 ^ 64 - (n + 1))

unfoldable pub serialize_input : TxIn → Bytes
serialize_input i =
    reverse i.txid
    ++ (num_to_bytes (pos i.n) 4
        ++ (num_to_var_int (length i.script_sig)
            ++ (i.script_sig ++ num_to_bytes (pos i.sequence) 4)))

-- `CTxOut.serialize`
unfoldable pub serialize_output : TxOut → Bytes
serialize_output o = num_to_bytes o.value 8 ++ (num_to_var_int (length o.script) ++ o.script)

unfoldable pub serialize_spend : ShieldSpend → Bytes
serialize_spend s =
    reverse s.cv
    ++ (reverse s.anchor
        ++ (reverse s.nullifier ++ (reverse s.rk ++ (s.proof ++ s.spend_auth_sig))))

unfoldable pub serialize_shield_output : ShieldOutput → Bytes
serialize_shield_output o =
    reverse o.cv
    ++ (reverse o.cmu
        ++ (reverse o.ephemeral_key ++ (o.enc_ciphertext ++ (o.out_ciphertext ++ o.proof))))

unfoldable pub serialize_shield : Transaction → Bytes
serialize_shield t =
    int64_bytes t.value_balance
    ++ (num_to_var_int (length t.shield_spend)
        ++ (flatten (map serialize_spend t.shield_spend)
            ++ (num_to_var_int (length t.shield_output)
                ++ (flatten (map serialize_shield_output t.shield_output) ++ t.binding_sig))))

unfoldable pub serialize_sapling : Transaction → Bytes
serialize_sapling t =
    if has_sapling_version t.version then shield_flag t.binding_sig ∷ serialize_shield t else []

unfoldable pub serialize : Transaction → Bytes
serialize t =
    num_to_bytes (pos t.version) 4
    ++ (num_to_var_int (length t.vin)
        ++ (flatten (map serialize_input t.vin)
            ++ (num_to_var_int (length t.vout)
                ++ (flatten (map serialize_output t.vout)
                    ++ (num_to_bytes (pos t.lock_time) 4 ++ serialize_sapling t)))))

-- `Number(…)` of a BigInt
unfoldable pub to_number : ℕ → Result ℕ
to_number n = if leb n max_safe_integer then ok n else err compact_size_too_large

unfoldable pub read_script : Bytes → Result (Bytes × Bytes)
read_script s = do (size, rest) ← var_int_to_num s; n ← to_number size; read n rest

unfoldable pub read_input : Bytes → Result (TxIn × Bytes)
read_input s = do
  (txid, s1) ← read 32 s
  (n, s2) ← read_num 4 s1
  (script, s3) ← read_script s2
  (sequence, s4) ← read_num 4 s3
  ok (record { txid = reverse txid; n = n; script_sig = script; sequence = sequence }, s4)

unfoldable pub read_output : Bytes → Result (TxOut × Bytes)
read_output s = do
  (sats, s1) ← read_num 8 s
  value ← to_number sats
  (script, s2) ← read_script s1
  ok (record { script = script; value = pos value }, s2)

unfoldable pub read_spend : Bytes → Result (ShieldSpend × Bytes)
read_spend s = do
  (cv, s1) ← read 32 s
  (anchor, s2) ← read 32 s1
  (nullifier, s3) ← read 32 s2
  (rk, s4) ← read 32 s3
  (proof, s5) ← read 192 s4
  (sig, s6) ← read 64 s5
  ok (
    record {
      cv = reverse cv;
      anchor = reverse anchor;
      nullifier = reverse nullifier;
      rk = reverse rk;
      proof = proof;
      spend_auth_sig = sig;
    },
    s6,
  )

unfoldable pub read_shield_output : Bytes → Result (ShieldOutput × Bytes)
read_shield_output s = do
  (cv, s1) ← read 32 s
  (cmu, s2) ← read 32 s1
  (key, s3) ← read 32 s2
  (enc, s4) ← read 580 s3
  (out, s5) ← read 80 s4
  (proof, s6) ← read 192 s5
  ok (
    record {
      cv = reverse cv;
      cmu = reverse cmu;
      ephemeral_key = reverse key;
      enc_ciphertext = enc;
      out_ciphertext = out;
      proof = proof;
    },
    s6,
  )

-- A length, and as many items.
unfoldable pub read_list :
    {A : Type 0} → (Bytes → Result (A × Bytes)) → Bytes → Result (List A × Bytes)
read_list item s = do (size, rest) ← var_int_to_num s; n ← to_number size; read_many item n rest

-- The shield data behind the flag; a 0 and what follows it is left alone.
unfoldable pub read_shield : Transaction → ℕ → Bytes → Result Transaction
read_shield t zero s = ok t
read_shield t (suc flag) s = do
  (balance, s1) ← read_num 8 s
  (spends, s2) ← read_list read_spend s1
  (outputs, s3) ← read_list read_shield_output s2
  (sig, _) ← read 64 s3
  ok (record t {
    value_balance = signed 64 balance;
    shield_spend = spends;
    shield_output = outputs;
    binding_sig = sig;
  })

unfoldable pub read_sapling : Transaction → Bytes → Result Transaction
read_sapling t s =
    if has_sapling_version t.version
    then (read_num 1 s >>= λ flag. read_shield t flag.0 flag.1)
    else ok t

-- `Transaction.fromHex`, which fills a transaction without shield data.
unfoldable pub from_bytes : Bytes → Result Transaction
from_bytes s = do
  (version, s1) ← read_num 4 s
  (vin, s2) ← read_list read_input s1
  (vout, s3) ← read_list read_output s2
  (lock_time, s4) ← read_num 4 s3
  read_sapling
      (record {
        version = version;
        vin = vin;
        vout = vout;
        lock_time = lock_time;
        value_balance = pos 0;
        shield_spend = [];
        shield_output = [];
        binding_sig = [];
      })
      s4
