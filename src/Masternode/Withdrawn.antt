-- ===== src/Masternode/Withdrawn.antt =====
-- What a signed withdrawal guarantees.
use mathlib.Core.Option.{some-injective}
use mathlib.Core.Path.{subst}
use organic_web_wallet.Prelude.{
  ℕ, ◌-◌, ◌≤◌, ◌<◌, ◌≡◌, refl, ap, ◌∙◌, sym, not, some, [], ◌∷◌, length, arith, ◌===◌, ===→eq,
  Result, ok, err, require, bind_inv, throw_inv, ok-injective, not-false, none, key_unavailable,
}
use organic_web_wallet.Prelude.Int.{ℤ, pos, negsuc}
use organic_web_wallet.Platform.{
  Bytes, Text, Noble, bytes, hex, source_bytes, whole, Numeric, number, bigint,
}
use organic_web_wallet.Address.{
  Network, pq_id_from_address, pq_id_from_public_key, pq_script_from_address,
}
use organic_web_wallet.Wire.Lists.{Each-one}
use organic_web_wallet.Wire.Payload.{given, has_size, field_bytes}
use organic_web_wallet.Wire.Serialize.{Output, script_bytes, address_script}
use organic_web_wallet.Wire.Parse.{
  SignedIn, TxOut, Transaction, includes, parse_transfer, pq_max_tx_bytes,
}
use organic_web_wallet.Signer.{Signed, scripted, held, pq_tx_domain, sign_transfer}
use organic_web_wallet.Signer.Keys.{MlDsa}
use organic_web_wallet.Signer.Message.{Context}
use organic_web_wallet.Signer.Asked.{InputAsked, OutputAsked, PrevoutAsked, Resolved}
use organic_web_wallet.Signer.Verified.{Verifies, sign_pq_transaction-ReadBack}
use organic_web_wallet.Masternode.{
  RoleKey, is_collateral_value, assert_key_owns_address, pq_masternode_collateral_sats,
}
use organic_web_wallet.Masternode.Registering.{is_testnet}
use organic_web_wallet.Masternode.Withdrawing.{
  Withdrawal, withdrawal_request, rename_failure, withdrawal_fee_of, sign_collateral_withdrawal,
}

-- The key has the id of the address.
pub record OwnsAddress (noble : Noble) (pair : RoleKey) (network : Network) : Type 0 where
  pub id : Bytes
  pub of_key : pq_id_from_public_key noble (field_bytes pair.public_key) network ≡ ok id
  pub of_address : pq_id_from_address pair.address network ≡ ok id

owns :
    (noble : Noble) (pair : RoleKey) (network : Network) {u : Unit {0}}
    → assert_key_owns_address noble pair network ≡ ok u
    → OwnsAddress noble pair network
unfolding assert_key_owns_address
owns noble pair network h = throw_inv (not (has_size 1312 pair.public_key)) _ _ h λ _ h1.
    bind_inv (require (held pair.secret_key) key_unavailable) h1 λ _ _ h2.
      bind_inv (pq_id_from_public_key noble (field_bytes pair.public_key) network) h2
        λ expected is_expected h3.
          bind_inv (pq_id_from_address pair.address network) h3 λ actual is_actual h4.
            throw_inv (not (expected === actual)) _ _ h4 λ same _. record {
              id = expected;
              of_key = is_expected;
              of_address = is_actual ∙ ap ok (sym (===→eq expected actual (not-false _ same)));
            }

renamed : (x : Result Signed) (s : Signed) → rename_failure x ≡ ok s → x ≡ ok s
unfolding rename_failure
renamed (ok t) s h = h
renamed (err e) s h = cc

fee_is :
    (z : ℤ) (n : ℕ)
    → withdrawal_fee_of z ≡ ok n
    → (z ≡ pos n) × (1 ≤ n) × (n < pq_masternode_collateral_sats)
unfolding withdrawal_fee_of
fee_is (pos m) n h = ground arith
fee_is (negsuc m) n h = cc

address_script_of :
    (noble : Noble) (address : Text) (network : Network) (b : Bytes)
    → address_script (some address) (some network) ≡ ok b
    → pq_script_from_address address network ≡ ok b
unfolding address_script
address_script_of noble [] network b h = absurd (cc)
address_script_of noble (c ∷ cs) network b h = h

number_is : (n m : ℕ) → whole (number (pos n)) ≡ some (pos m) → n ≡ m
unfolding whole
number_is n m h = ground arith

-- What the collateral's key signs: the spending of the collateral's outpoint, value and script, and one
-- output of the value and the script.
abbrev pub withdrawal_context : Withdrawal → ℕ → Bytes → Bytes → Context
withdrawal_context w value spent_script script = record {
  draft = record {
    inputs =
        record {
          txid = hex w.collateral.txid;
          vout = some (number (pos w.collateral.vout));
          sequence = some (number (pos 0xffffffff));
        }
        ∷ [];
    outputs = scripted (bigint (pos value)) script ∷ [];
    locktime = some w.locktime;
  };
  prevouts = scripted w.collateral.value_sats spent_script ∷ [];
  public_keys = w.collateral.key.public_key ∷ [];
  genesis_display = w.genesis_display;
  mode = 1;
  payload_data = [];
}

-- An output to an address with the address' script in its place
resolved_is :
    (noble : Noble) (network : Network) (value : Numeric) (address : Text) (q : Output)
    → Resolved noble network (record { value = value; script = none; address = some address }) q
    → (script : Bytes) × ((pq_script_from_address address network ≡ ok script)
        × (q ≡ scripted value script))
unfolding script_bytes
resolved_is noble network value address q h =
    (h.script, (address_script_of noble address network h.script h.is_script, sym h.is))

-- The transaction, as it is read from its bytes, spends the collateral's outpoint with the collateral's
-- key, and nothing else; it has one output, which pays the destination's script the collateral's value
-- less the fee.
pub record WithdrawalIsSafe (noble : Noble) (ml : MlDsa) (w : Withdrawal) (s : Signed)
    : Type 0 where
  pub fee : ℕ
  pub destination : Bytes
  pub is_fee : (w.fee ≡ pos fee) × (1 ≤ fee) × (fee < pq_masternode_collateral_sats)
  pub owned : OwnsAddress noble w.collateral.key w.network
  pub is_destination : pq_id_from_address w.destination_address w.network ≡ ok destination
  pub tx : Transaction
  pub parses : parse_transfer noble (bytes s.raw) ≡ ok tx
  pub input : SignedIn
  pub txid : Bytes
  pub output : TxOut
  pub one_input : tx.inputs ≡ input ∷ []
  pub is_txid : source_bytes noble (hex w.collateral.txid) ≡ ok txid
  pub spends_txid : input.tx_in.txid ≡ noble.bytes_to_hex txid
  pub spends_vout : input.tx_in.vout ≡ w.collateral.vout
  pub key : w.collateral.key.public_key ≡ given input.public_key
  pub domain : Text
  pub is_domain : pq_tx_domain w.network ≡ some domain
  pub spent_script : Bytes
  pub is_spent_script : pq_script_from_address w.collateral.key.address w.network ≡ ok spent_script
  pub verified :
      Verifies noble ml domain
        (withdrawal_context w (pq_masternode_collateral_sats - fee) spent_script output.script)
        0
        input.public_key
        input.signature
  pub one_output : tx.outputs ≡ output ∷ []
  pub pays_value : output.value ≡ pos (pq_masternode_collateral_sats - fee)
  pub pays_destination : pq_script_from_address w.destination_address w.network ≡ ok output.script
  pub locktime : whole w.locktime ≡ some (pos tx.locktime)
  pub no_data : tx.payload.payload_data ≡ []

-- A signed withdrawal of at most 24000 bytes is read back as a transfer of the one collateral, whose key
-- owns its address and has signed what it spends and pays, with a single output: it pays the script of
-- the destination, a valid address, 4000 OLC less a fee that is positive and below that value.
pub sign_collateral_withdrawal-WithdrawalIsSafe :
    (noble : Noble) (ml : MlDsa) (w : Withdrawal) (s : Signed)
    → sign_collateral_withdrawal noble ml w ≡ ok s
    → length s.raw ≤ pq_max_tx_bytes
    → WithdrawalIsSafe noble ml w s
unfolding sign_collateral_withdrawal sign_transfer withdrawal_request includes parse_transfer
    script_bytes whole
sign_collateral_withdrawal-WithdrawalIsSafe noble ml w s h fits =
    throw_inv (not (is_testnet w.network)) _ _ h λ _ h1.
      throw_inv (not (is_collateral_value w.collateral.value_sats)) _ _ h1 λ _ h2.
        bind_inv (assert_key_owns_address noble w.collateral.key w.network) h2 λ _ owned h3.
          bind_inv (pq_id_from_address w.destination_address w.network) h3 λ destination decodes h4.
            bind_inv (withdrawal_fee_of w.fee) h4 λ fee is_fee h5.
              let value = pq_masternode_collateral_sats - fee in
              let (tx, parses, back) =
                sign_pq_transaction-ReadBack noble ml (withdrawal_request w value) s (1 ∷ 6 ∷ [])
                  (renamed _ s h5) (omega arith) refl fits in
              let (input, (one_input, asked)) =
                Each-one (InputAsked noble) _ tx.inputs back.inputs_asked in
              let (output, (one_output, paid)) =
                Each-one (OutputAsked noble w.network) _ tx.outputs back.outputs_asked in
              let (spent, (one_spent, spent_asked)) =
                Each-one (PrevoutAsked noble w.network) _ back.prevouts back.prevouts_asked in
              let (spent_script, (is_spent_script, is_spent)) =
                resolved_is noble w.network w.collateral.value_sats w.collateral.key.address spent (
                  subst (λ o. Resolved noble w.network o spent)
                    (sym (some-injective _ _ spent_asked.is_given)) spent_asked.resolved) in
              let (sent, (one_sent, sent_resolved)) =
                Each-one (Resolved noble w.network) _ back.outputs back.outputs_resolved in
              let (script, (is_script, is_sent)) =
                resolved_is noble w.network (bigint (pos value)) w.destination_address sent
                  sent_resolved in
              let paid_script =
                address_script_of noble w.destination_address w.network output.script paid.script in
              let same_script : script ≡ output.script =
                ok-injective (sym is_script ∙ paid_script) in
              let prevouts : back.prevouts ≡ scripted w.collateral.value_sats spent_script ∷ [] =
                one_spent ∙ ap (λ q. q ∷ []) is_spent in
              let outputs : back.outputs ≡ scripted (bigint (pos value)) output.script ∷ [] =
                one_sent
                ∙ ap (λ q. q ∷ [])
                    (is_sent ∙ ap (λ t. scripted (bigint (pos value)) t) same_script) in
              let (first, _) = rw (one_input, prevouts, outputs) at back.verified in
              record {
                fee = fee;
                destination = destination;
                is_fee = fee_is w.fee fee is_fee;
                owned = owns noble w.collateral.key w.network owned;
                is_destination = decodes;
                tx = tx;
                parses = parses;
                input = input;
                txid = asked.txid_bytes;
                output = output;
                one_input = one_input;
                is_txid = asked.txid_source;
                spends_txid = asked.txid;
                spends_vout = sym (number_is w.collateral.vout input.tx_in.vout asked.vout);
                key = asked.key;
                domain = back.domain;
                is_domain = back.is_domain;
                spent_script = spent_script;
                is_spent_script = is_spent_script;
                verified = first;
                one_output = one_output;
                pays_value = some-injective _ _ (sym paid.value);
                pays_destination = paid_script;
                locktime = back.locktime;
                no_data = back.payload_data;
              }
