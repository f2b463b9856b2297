-- ===== src/Signer/Verified.antt =====
-- A transaction that was signed is read back with signatures that verify.
use mathlib.Core.Path.{subst}
use organic_web_wallet.Prelude.{
  ℕ, ◌+◌, ◌≤◌, ◌≡◌, refl, ap, sym, true, not, ◌||◌, some, List, [], ◌∷◌, length, map, ltb, ◌==◌,
  if◌then◌else◌, ok, require, map_result, bind_inv, throw_inv, ok-injective, require_ok, not-false,
  unsupported_network,
}
use organic_web_wallet.Prelude.Int.{pos}
use organic_web_wallet.Platform.{Bytes, Text, Noble, whole, bytes}
use organic_web_wallet.Wire.Lists.{Each}
use organic_web_wallet.Wire.Payload.{Input, given, pq_stake_mode}
use organic_web_wallet.Wire.Serialize.{Output, serialize_transfer, serialize_tx_out}
use organic_web_wallet.Wire.Parse.{
  SignedIn, Transaction, includes, parse_pq_transaction, pq_max_tx_bytes, txid_of,
}
use organic_web_wallet.Wire.RoundTrip.{parse_pq_transaction-serialize_transfer}
use organic_web_wallet.Wire.Written.{SignedIs}
use organic_web_wallet.Signer.Keys.{MlDsa, pq_sign, pq_verify}
use organic_web_wallet.Signer.Message.{Context, zip, signature_message}
use organic_web_wallet.Signer.{
  Ready, SignRequest, Signed, pq_tx_domain, check_input, resolve_script, resolve_output,
  assert_prevout_binds_public_key, spent_outputs, sign_input, sign_inputs, context_of, transfer_of,
  sign_pq_transaction,
}
use organic_web_wallet.Signer.Asked.{
  InputAsked, OutputAsked, Resolved, PrevoutAsked, asked_context, inputs_asked, outputs_asked,
  outputs_Resolved, prevouts_asked, context_asked,
}

-- The signature verifies, for the key, on the message of this index.
pub record Verifies (noble : Noble) (ml : MlDsa) (domain : Text) (c : Context) (index : ℕ)
    (key seal : Bytes) : Type 0 where
  pub message : Bytes
  pub is_message : signature_message noble c index ≡ ok message
  pub verifies : pq_verify ml seal message key domain ≡ true

module _ (noble : Noble) (ml : MlDsa) (domain : Text) (c : Context) where
  -- The parsed inputs, from an index on.
  abbrev pub VerifiedFrom : ℕ → List SignedIn → Type 0
  VerifiedFrom index [] = Unit {0}
  VerifiedFrom index (i ∷ inputs) =
      Verifies noble ml domain c index i.public_key i.signature × VerifiedFrom (index + 1) inputs

  -- The inputs that are serialized, from an index on.
  abbrev pub SealedFrom : ℕ → List Input → Type 0
  SealedFrom index [] = Unit {0}
  SealedFrom index (i ∷ inputs) =
      ((key : Bytes) × (seal : Bytes) × (i.public_key ≡ given key)
        × (i.signature ≡ given seal)
        × Verifies noble ml domain c index key seal)
      × SealedFrom (index + 1) inputs

  sealed :
      (index : ℕ) (r : Ready) (i : Input)
      → sign_input noble ml domain c index r ≡ ok i
      → (key : Bytes) × (seal : Bytes) × (i.public_key ≡ given key)
        × (i.signature ≡ given seal)
        × Verifies noble ml domain c index key seal
  unfolding sign_input
  sealed index r i h = bind_inv (signature_message noble c index) h λ message is_message h1.
      bind_inv (pq_sign ml message r.secret_key domain) h1 λ seal _ h2.
        throw_inv (not (pq_verify ml seal message r.public_key domain)) _ _ h2 λ verified h3.
          let same = ok-injective h3 in
          (
            r.public_key,
            seal,
            ap (λ (j : Input). j.public_key) (sym same),
            ap (λ (j : Input). j.signature) (sym same),
            record { message = message; is_message = is_message; verifies = not-false _ verified },
          )

  pub sign_inputs-SealedFrom :
      (index : ℕ) (inputs : List Ready) (signed : List Input)
      → sign_inputs noble ml domain c index inputs ≡ ok signed
      → SealedFrom index signed
  unfolding sign_inputs
  sign_inputs-SealedFrom index [] signed h = rw (← ok-injective h) tt
  sign_inputs-SealedFrom index (r ∷ inputs) signed h =
      bind_inv (sign_input noble ml domain c index r) h λ i signs h1.
        bind_inv (sign_inputs noble ml domain c (index + 1) inputs) h1 λ more signs_more h2.
          rw (← ok-injective h2)
            (sealed index r i signs, sign_inputs-SealedFrom (index + 1) inputs more signs_more)

  -- What is parsed has the keys and signatures of what was serialized.
  pub VerifiedFrom-Each :
      (index : ℕ) (signed : List Input) (parsed : List SignedIn)
      → SealedFrom index signed
      → Each (SignedIs noble) signed parsed
      → VerifiedFrom index parsed
  VerifiedFrom-Each index [] [] s e = tt
  VerifiedFrom-Each index [] (p ∷ parsed) s e = absurd e
  VerifiedFrom-Each index (i ∷ signed) [] s e = absurd e
  VerifiedFrom-Each index (i ∷ signed) (p ∷ parsed) ((key, seal, is_key, is_seal, v), s) (e, es) =
      let same_key : key ≡ p.public_key = cc (is_key, e.authorization.0) in
      let same_seal : seal ≡ p.signature = cc (is_seal, e.authorization.1) in
      (
        subst (λ k. Verifies noble ml domain c index k p.signature) same_key
            (subst (λ t. Verifies noble ml domain c index key t) same_seal v),
        VerifiedFrom-Each (index + 1) signed parsed s es,
      )

-- How a signed transaction came about.
pub record Signing (noble : Noble) (ml : MlDsa) (r : SignRequest) (s : Signed) : Type 0 where
  pub domain : Text
  pub inputs : List Ready
  pub scripts : List Bytes
  pub outputs : List Output
  pub signed : List Input
  pub is_domain : pq_tx_domain r.network ≡ some domain
  pub checked : map_result check_input r.inputs ≡ ok inputs
  pub resolved : map_result (λ i. resolve_script noble r.network i.prevout) inputs ≡ ok scripts
  pub bound :
      (found : List (Unit {0})) × (map_result
          (assert_prevout_binds_public_key noble r.network)
          (zip scripts (map (λ i. i.public_key) inputs))
        ≡ ok found)
  pub sealed_all :
      SealedFrom noble ml domain
        (context_of r inputs (spent_outputs inputs scripts) outputs)
        0
        signed
  pub outputs_resolved : map_result (resolve_output noble r.network) r.outputs ≡ ok outputs
  pub signs :
      sign_inputs noble ml domain
        (context_of r inputs (spent_outputs inputs scripts) outputs)
        0
        inputs
      ≡ ok signed
  pub serialized : serialize_transfer noble (transfer_of r signed outputs) ≡ ok s.raw
  pub txid : txid_of noble (bytes s.raw) ≡ ok s.txid

pub signing :
    (noble : Noble) (ml : MlDsa) (r : SignRequest) (s : Signed)
    → sign_pq_transaction noble ml r ≡ ok s
    → Signing noble ml r s
unfolding sign_pq_transaction
signing noble ml r s h =
    bind_inv (require (pq_tx_domain r.network) unsupported_network) h λ domain found h1.
      throw_inv (ltb (length r.inputs) 1 || ltb 2 (length r.inputs)) _ _ h1 λ _ h2.
        throw_inv
          (ltb (length r.outputs) 1
            || ltb (if r.mode == pq_stake_mode then 3 else 2) (length r.outputs))
          _ _ h2
          λ _ h3.
            bind_inv (map_result (serialize_tx_out noble (some r.network)) r.outputs) h3 λ _ _ h4.
              bind_inv (map_result (resolve_output noble r.network) r.outputs) h4
                λ outputs outputs_resolved h5.
                  bind_inv (map_result check_input r.inputs) h5 λ inputs checked h6.
                    bind_inv (map_result (λ i. resolve_script noble r.network i.prevout) inputs) h6
                      λ scripts resolved h7.
                        bind_inv
                          (map_result (assert_prevout_binds_public_key noble r.network)
                            (zip scripts (map (λ i. i.public_key) inputs)))
                          h7
                          λ units bound h8.
                            let c = context_of r inputs (spent_outputs inputs scripts) outputs in
                            bind_inv (sign_inputs noble ml domain c 0 inputs) h8 λ signed signs h9.
                              bind_inv (serialize_transfer noble (transfer_of r signed outputs)) h9
                                λ raw serialized h10.
                                  bind_inv (txid_of noble (bytes raw)) h10 λ txid is_txid h11.
                                    subst (Signing noble ml r) (ok-injective h11) (record {
                                      domain = domain;
                                      inputs = inputs;
                                      scripts = scripts;
                                      outputs = outputs;
                                      signed = signed;
                                      is_domain = require_ok _ _ found;
                                      checked = checked;
                                      resolved = resolved;
                                      bound = (units, bound);
                                      sealed_all =
                                          sign_inputs-SealedFrom noble ml domain c 0 inputs signed
                                            signs;
                                      outputs_resolved = outputs_resolved;
                                      signs = signs;
                                      serialized = serialized;
                                      txid = is_txid;
                                    })

-- What a signed transaction is read back as. Each input of the request is one of the parsed inputs, with
-- its outpoint, sequence number and key; each output of the request is one of the parsed outputs, with
-- its value and script; the lock time, the mode and the data are the request's. Every signature
-- verifies for its key on the message of its index, which is about the request's inputs, what they
-- spend, and the outputs.
pub record ReadBack (noble : Noble) (ml : MlDsa) (r : SignRequest) (raw : Bytes) (tx : Transaction)
    : Type 0 where
  pub domain : Text
  pub prevouts : List Output
  pub outputs : List Output
  pub is_domain : pq_tx_domain r.network ≡ some domain
  pub inputs_asked : Each (InputAsked noble) r.inputs tx.inputs
  pub outputs_asked : Each (OutputAsked noble r.network) r.outputs tx.outputs
  pub locktime : whole r.locktime ≡ some (pos tx.locktime)
  pub mode : tx.payload.mode ≡ r.mode
  pub payload_data : tx.payload.payload_data ≡ r.payload_data
  pub raw_bytes : tx.raw ≡ raw
  pub prevouts_asked : Each (PrevoutAsked noble r.network) r.inputs prevouts
  pub outputs_resolved : Each (Resolved noble r.network) r.outputs outputs
  pub verified : VerifiedFrom noble ml domain (asked_context r prevouts outputs) 0 tx.inputs

-- A signed transaction in an allowed mode, with at most 12000 bytes of data and not longer than 24000
-- bytes, is parsed to the transaction that was asked for: input by input and output by output it has
-- the request's outpoints, sequence numbers, keys, values and scripts, and it has the request's lock
-- time, mode and data. Each of its signatures verifies, for the key beside it, on the message of its
-- index about the request's inputs, the outputs they spend, and the outputs.
pub sign_pq_transaction-ReadBack :
    (noble : Noble) (ml : MlDsa) (r : SignRequest) (s : Signed) (allowed : List ℕ)
    → sign_pq_transaction noble ml r ≡ ok s
    → length r.payload_data ≤ 12000
    → includes allowed r.mode ≡ true
    → length s.raw ≤ pq_max_tx_bytes
    → (tx : Transaction) × (parse_pq_transaction noble (bytes s.raw) allowed ≡ ok tx)
      × ReadBack noble ml r s.raw tx
unfolding transfer_of
sign_pq_transaction-ReadBack noble ml r s allowed h short allows fits =
    let g : Signing noble ml r s = signing noble ml r s h in
    let prevouts = spent_outputs g.inputs g.scripts in
    let c = context_of r g.inputs prevouts g.outputs in
    let (tx, parses, same) =
      parse_pq_transaction-serialize_transfer noble (transfer_of r g.signed g.outputs) s.raw allowed
        refl short allows g.serialized fits in
    let verified =
      VerifiedFrom-Each noble ml g.domain c 0 g.signed tx.inputs g.sealed_all same.inputs in
    (
      tx,
      parses,
      record {
        domain = g.domain;
        prevouts = prevouts;
        outputs = g.outputs;
        is_domain = g.is_domain;
        inputs_asked =
            inputs_asked noble ml g.domain c r.inputs g.inputs g.signed tx.inputs g.checked g.signs
              same.inputs;
        outputs_asked =
            outputs_asked noble r.network r.outputs g.outputs tx.outputs g.outputs_resolved
              same.outputs;
        locktime = same.locktime;
        mode = same.mode;
        payload_data = same.payload_data;
        raw_bytes = same.raw_bytes;
        prevouts_asked =
            prevouts_asked noble r.network r.inputs g.inputs g.scripts g.checked g.resolved;
        outputs_resolved = outputs_Resolved noble r.network r.outputs g.outputs g.outputs_resolved;
        verified =
            subst (λ d. VerifiedFrom noble ml g.domain d 0 tx.inputs)
              (context_asked r g.inputs prevouts g.outputs g.checked) verified;
      },
    )
