-- ===== src/Legacy/Builder.antt =====
-- scripts/transaction_builder.js, each method as a function on the builder's state. A fee is a whole
-- number, since the number of bytes and the fee for each are.
use organic_web_wallet.Prelude.{
  ℕ, ◌+◌, ◌*◌, ◌/◌, ◌%◌, Bool, false, not, ◌&&◌, List, [], ◌∷◌, ◌++◌, map, length, replicate, ◌==◌,
  if◌then◌else◌, Result, ok, err, ◌>>=◌, no_outputs, no_shield_data,
}
use organic_web_wallet.Prelude.Int.{ℤ, pos, leb_ℤ, ◌-ℤ◌, ◌+ℤ◌}
use organic_web_wallet.Platform.{Bytes, Text}
use organic_web_wallet.Mempool.{MempoolUtxo}
use organic_web_wallet.Legacy.Script.Op
use organic_web_wallet.Legacy.Addresses.{
  Library, Chain, is_exchange_address, is_shield_address, decode_address,
}
use organic_web_wallet.Legacy.Transaction.{
  TxIn, TxOut, Transaction, sapling_tx_version, serialize_output, serialize,
}

-- What `#addShieldOutput` leaves for the shield library in place of an output.
pub record ShieldRequest : Type 0 where
  pub address : Text
  pub value : ℤ
  pub memo : Text

pub record TransactionBuilder : Type 0 where
  pub transaction : Transaction
  pub shield_requests : List ShieldRequest
  pub value_in : ℕ
  pub value_out : ℤ
  pub handled_fee : ℕ

unfoldable pub create : TransactionBuilder
create = record {
  transaction = record {
    version = 1;
    vin = [];
    vout = [];
    lock_time = 0;
    value_balance = pos 0;
    shield_spend = [];
    shield_output = [];
    binding_sig = [];
  };
  shield_requests = [];
  value_in = 0;
  value_out = pos 0;
  handled_fee = 0;
}

-- `MIN_FEE_PER_BYTE`
unfoldable pub min_fee : Chain → ℕ
min_fee chain = if chain.min_fee_per_byte == 0 then 1000 else chain.min_fee_per_byte

-- The fee for an output's bytes
unfoldable pub output_fee : Chain → TxOut → ℕ
output_fee chain out = length (serialize_output out) * min_fee chain

unfoldable pub is_dust : Chain → TxOut → ℤ → Bool
is_dust chain out value = not (leb_ℤ (pos (output_fee chain out)) value)

abbrev pub script_sig_max_size : ℕ
script_sig_max_size = 108

abbrev pub with_dummy : TxIn → TxIn
with_dummy i = record i { script_sig = replicate script_sig_max_size 0 }

-- The bytes of the transaction, with a dummy signature in each input
unfoldable pub estimated_size : Transaction → ℕ
estimated_size t = length (serialize (record t { vin = map with_dummy t.vin }))

-- `getFee`; a shield output has no bytes yet, and so the code throws.
unfoldable pub get_fee : Chain → TransactionBuilder → Result ℤ
get_fee chain b = elim b.shield_requests [
  | [] ↦ ok (pos (estimated_size b.transaction * min_fee chain) -ℤ pos b.handled_fee)
  | _ ↦ err no_shield_data
]

unfoldable pub add_utxo : Library → TransactionBuilder → MempoolUtxo → TransactionBuilder
add_utxo library b utxo = record b {
  transaction = record (b.transaction) {
    vin =
        b.transaction.vin
        ++ (record {
          txid = library.from_hex utxo.outpoint.txid;
          n = utxo.outpoint.n;
          script_sig = library.from_hex utxo.script;
          sequence = 4294967295;
        }
            ∷ []);
  };
  value_in = b.value_in + utxo.value;
}

unfoldable pub add_utxos : Library → TransactionBuilder → List MempoolUtxo → TransactionBuilder
add_utxos library b [] = b
add_utxos library b (utxo ∷ utxos) = add_utxos library (add_utxo library b utxo) utxos

unfoldable pub add_shield_output : TransactionBuilder → Text → ℤ → Text → TransactionBuilder
add_shield_output b address value memo = record b {
  transaction = record (b.transaction) { version = sapling_tx_version };
  shield_requests =
      b.shield_requests ++ (record { address = address; value = value; memo = memo } ∷ []);
}

-- `vout.push(out)` and the sum of the values
unfoldable pub push_output : TransactionBuilder → TxOut → TransactionBuilder
push_output b out = record b {
  transaction = record (b.transaction) { vout = b.transaction.vout ++ (out ∷ []) };
  value_out = b.value_out +ℤ out.value;
}

-- `#addScript`; a change pays for its own bytes, and is left out if it is worth less.
unfoldable pub add_script : Chain → TransactionBuilder → Bytes → ℤ → Bool → TransactionBuilder
add_script chain b script value subtract_fee_from_amt =
    let out : TxOut = record { script = script; value = value } in
    let fee = output_fee chain out in
    if is_dust chain out value && subtract_fee_from_amt
    then b
    else if subtract_fee_from_amt
    then push_output (record b { handled_fee = b.handled_fee + fee })
        (record { script = script; value = value -ℤ pos fee })
    else push_output b out

unfoldable pub p2pkh_script : Bytes → Bytes
p2pkh_script decoded =
    Op.dup ∷ Op.hash160 ∷ length decoded ∷ (decoded ++ (Op.equalverify ∷ Op.checksig ∷ []))

unfoldable pub exchange_script : Bytes → Bytes
exchange_script decoded = Op.exchangeaddr ∷ p2pkh_script decoded

unfoldable pub proposal_script : Bytes → Bytes
proposal_script hash = Op.return ∷ 32 ∷ hash

unfoldable pub cold_stake_script : Bytes → Bytes → Bytes
cold_stake_script owner staker =
    Op.dup
    ∷ Op.hash160
    ∷ Op.rot
    ∷ Op.if_op
    ∷ Op.checkcoldstakeverify_lof
    ∷ length staker
    ∷ (staker
        ++ (Op.else_op ∷ length owner ∷ (owner ++ (Op.endif ∷ Op.equalverify ∷ Op.checksig ∷ []))))

unfoldable pub add_exchange_output :
    Library → Chain → TransactionBuilder → Text → ℤ → Result TransactionBuilder
add_exchange_output library chain b address value = do
  decoded ← decode_address library chain address
  ok (add_script chain b (exchange_script decoded) value false)

unfoldable pub add_p2pkh_output :
    Library → Chain → TransactionBuilder → Text → ℤ → Bool → Result TransactionBuilder
add_p2pkh_output library chain b address value is_change = do
  decoded ← decode_address library chain address
  ok (add_script chain b (p2pkh_script decoded) value is_change)

unfoldable pub add_output :
    Library → Chain → TransactionBuilder → Text → ℤ → Bool → Text → Result TransactionBuilder
add_output library chain b address value is_change memo =
    if is_shield_address library chain address
    then ok (add_shield_output b address value memo)
    else if is_exchange_address library chain address
    then add_exchange_output library chain b address value
    else add_p2pkh_output library chain b address value is_change

pub record Payment : Type 0 where
  pub address : Text
  pub value : ℤ
  pub is_change : Bool
  pub memo : Text

unfoldable pub add_outputs :
    Library → Chain → TransactionBuilder → List Payment → Result TransactionBuilder
add_outputs library chain b [] = ok b
add_outputs library chain b (p ∷ outputs) = do
  b1 ← add_output library chain b p.address p.value p.is_change p.memo
  add_outputs library chain b1 outputs

unfoldable pub add_proposal_output :
    Library → Chain → TransactionBuilder → Text → ℤ → TransactionBuilder
add_proposal_output library chain b hash value =
    add_script chain b (proposal_script (library.from_hex hash)) value false

unfoldable pub add_cold_stake_output :
    Library → Chain → TransactionBuilder → Text → Text → ℤ → Bool → Result TransactionBuilder
add_cold_stake_output library chain b address address_cold_stake value is_change = do
  decoded ← decode_address library chain address
  staker ← decode_address library chain address_cold_stake
  ok (add_script chain b (cold_stake_script decoded staker) value is_change)

abbrev pub less : ℕ → TxOut → TxOut
less amount out = record out { value = out.value -ℤ pos amount }

-- `equallySubtractAmt`: the first output pays the remainder. The builder's `valueOut` stays as it was.
unfoldable pub subtract_from : ℕ → List TxOut → Result (List TxOut)
subtract_from value [] = err no_outputs
subtract_from value (out ∷ outputs) =
    let count = length (out ∷ outputs) in
    ok (less (value % count) (less (value / count) out) ∷ map (less (value / count)) outputs)

unfoldable pub equally_subtract_amt : ℕ → TransactionBuilder → Result TransactionBuilder
equally_subtract_amt value b = do
  vout ← subtract_from value b.transaction.vout
  ok (record b { transaction = record (b.transaction) { vout = vout } })

-- The transaction, and what the shield library is to add to it.
unfoldable pub build : TransactionBuilder → Transaction × List ShieldRequest
build b = elim b.transaction.vin [
  | [] ↦ (record (b.transaction) { version = sapling_tx_version }, b.shield_requests)
  | _ ↦ (b.transaction, b.shield_requests)
]
