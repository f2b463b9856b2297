-- ===== src/Signer/Asked.antt =====
-- What a request of scripts/pqwallet/pqsigner.js asks for, item by item, and what the signing makes of
-- each item.
use mathlib.Core.Path.{subst}
use organic_web_wallet.Prelude.{
  ℕ, ◌+◌, ◌≡◌, refl, ap, sym, ◌∙◌, not, none, some, List, [], ◌∷◌, map, ok, require, map_result,
  bind_inv, throw_inv, ok-injective, require_ok, not-false,
}
use organic_web_wallet.Prelude.Int.{pos}
use organic_web_wallet.Platform.{Bytes, Text, Noble, source_bytes, whole}
use organic_web_wallet.Address.{Network, pq_public_key_size}
use organic_web_wallet.Wire.Lists.{Each, Each-map_result, Each-trans}
use organic_web_wallet.Wire.Payload.{Input, given, has_size}
use organic_web_wallet.Wire.PayloadTrip.{sized}
use organic_web_wallet.Wire.Serialize.{Output, script_bytes, script_sig_bytes, or_default}
use organic_web_wallet.Wire.Parse.{SignedIn, TxOut}
use organic_web_wallet.Wire.ItemTrips.{OutputIs}
use organic_web_wallet.Wire.Written.{SignedIs}
use organic_web_wallet.Signer.Keys.{MlDsa, pq_sign, pq_verify}
use organic_web_wallet.Signer.Message.{Context, signature_message}
use organic_web_wallet.Signer.{
  Ready, SignInput, SignRequest, scripted, held, check_input, resolve_script, resolve_output,
  spent_outputs, sign_input, sign_inputs, context_of,
}

-- An input of a transaction that spends the outpoint of a request's input, with its sequence number
-- and its key, and without a script.
pub record InputAsked (noble : Noble) (i : SignInput) (p : SignedIn) : Type 0 where
  pub txid_bytes : Bytes
  pub txid_source : source_bytes noble i.outpoint.txid ≡ ok txid_bytes
  pub txid : p.tx_in.txid ≡ noble.bytes_to_hex txid_bytes
  pub vout : whole (or_default i.outpoint.vout 0) ≡ some (pos p.tx_in.vout)
  pub sequence : whole (or_default i.outpoint.sequence 0xffffffff) ≡ some (pos p.tx_in.sequence)
  pub script_sig : p.tx_in.script_sig ≡ []
  pub key : i.public_key ≡ given p.public_key

-- An output of a transaction that has the value and the script of a request's output.
pub record OutputAsked (noble : Noble) (network : Network) (o : Output) (p : TxOut) : Type 0 where
  pub value : whole o.value ≡ some p.value
  pub script : script_bytes noble o (some network) ≡ ok p.script

-- An output with its script in place of its address.
pub record Resolved (noble : Noble) (network : Network) (o q : Output) : Type 0 where
  pub script : Bytes
  pub is_script : script_bytes noble o (some network) ≡ ok script
  pub is : scripted o.value script ≡ q

-- What a request's input says that it spends, with the script in place of the address.
pub record PrevoutAsked (noble : Noble) (network : Network) (i : SignInput) (q : Output)
    : Type 0 where
  pub prevout : Output
  pub is_given : i.prevout ≡ some prevout
  pub resolved : Resolved noble network prevout q

-- What all the signed messages share, of the request's own inputs
abbrev pub asked_context : SignRequest → List Output → List Output → Context
asked_context r prevouts outputs = record {
  draft = record {
    inputs = map (λ i. i.outpoint) r.inputs;
    outputs = outputs;
    locktime = some r.locktime;
  };
  prevouts = prevouts;
  public_keys = map (λ i. i.public_key) r.inputs;
  genesis_display = r.genesis_display;
  mode = r.mode;
  payload_data = r.payload_data;
}

-- What the first checks make of an input
record Checked (i : SignInput) (r : Ready) : Type 0 where
  outpoint : r.outpoint ≡ i.outpoint
  prevout : i.prevout ≡ some r.prevout
  key : i.public_key ≡ given r.public_key

check_input-Checked : (i : SignInput) (r : Ready) → check_input i ≡ ok r → Checked i r
unfolding check_input
check_input-Checked i r h =
    throw_inv (not (has_size pq_public_key_size i.public_key)) _ _ h λ is_key h1.
      bind_inv (require (held i.secret_key) _) h1 λ secret _ h2.
        bind_inv (require i.prevout _) h2 λ prevout found h3.
          subst (Checked i) (ok-injective h3) (record {
            outpoint = refl;
            prevout = require_ok _ _ found;
            key = (sized pq_public_key_size i.public_key (not-false _ is_key)).0;
          })

-- What the signing makes of a checked input
record SignedOf (r : Ready) (i : Input) : Type 0 where
  txid : i.txid ≡ r.outpoint.txid
  vout : i.vout ≡ r.outpoint.vout
  sequence : i.sequence ≡ r.outpoint.sequence
  script_sig : i.script_sig ≡ none
  key : i.public_key ≡ given r.public_key

module _ (noble : Noble) (ml : MlDsa) (domain : Text) (c : Context) where
  sign_input-SignedOf :
      (index : ℕ) (r : Ready) (i : Input)
      → sign_input noble ml domain c index r ≡ ok i
      → SignedOf r i
  unfolding sign_input
  sign_input-SignedOf index r i h = bind_inv (signature_message noble c index) h λ message _ h1.
      bind_inv (pq_sign ml message r.secret_key domain) h1 λ seal _ h2.
        throw_inv (not (pq_verify ml seal message r.public_key domain)) _ _ h2 λ _ h3.
          subst (SignedOf r) (ok-injective h3)
            (record { txid = refl; vout = refl; sequence = refl; script_sig = refl; key = refl })

  sign_inputs-SignedOf :
      (index : ℕ) (inputs : List Ready) (signed : List Input)
      → sign_inputs noble ml domain c index inputs ≡ ok signed
      → Each SignedOf inputs signed
  unfolding sign_inputs
  sign_inputs-SignedOf index [] signed h = rw (← ok-injective h) tt
  sign_inputs-SignedOf index (r ∷ inputs) signed h =
      bind_inv (sign_input noble ml domain c index r) h λ i signs h1.
        bind_inv (sign_inputs noble ml domain c (index + 1) inputs) h1 λ more signs_more h2.
          rw (← ok-injective h2) (
            sign_input-SignedOf index r i signs,
            sign_inputs-SignedOf (index + 1) inputs more signs_more,
          )

module _ (noble : Noble) where
  input_asked :
      (i : SignInput) (r : Ready) (s : Input) (p : SignedIn)
      → Checked i r
      → SignedOf r s
      → SignedIs noble s p
      → InputAsked noble i p
  unfolding script_sig_bytes
  input_asked i r s p c o is = record {
    txid_bytes = is.wire.txid_bytes;
    txid_source = rw (← c.outpoint, ← o.txid) is.wire.txid_source;
    txid = is.wire.txid;
    vout = rw (← c.outpoint, ← o.vout) is.wire.vout;
    sequence = rw (← c.outpoint, ← o.sequence) is.wire.sequence;
    script_sig = ok-injective (sym is.wire.script_sig ∙ ap (script_sig_bytes noble) o.script_sig);
    key = cc (c.key, o.key, is.authorization.0);
  }

  -- The parsed inputs are those that the request asks for.
  pub inputs_asked :
      (ml : MlDsa) (domain : Text) (c : Context) (asked : List SignInput) (inputs : List Ready)
      (signed : List Input) (parsed : List SignedIn)
      → map_result check_input asked ≡ ok inputs
      → sign_inputs noble ml domain c 0 inputs ≡ ok signed
      → Each (SignedIs noble) signed parsed
      → Each (InputAsked noble) asked parsed
  inputs_asked ml domain c asked inputs signed parsed checks signs is =
      Each-trans (λ i r. check_input i ≡ ok r)
        (λ r p. (s : Input) × (SignedOf r s × SignedIs noble s p)) (InputAsked noble)
        (λ i r p checked (s, (o, p_is)).
          input_asked i r s p (check_input-Checked i r checked) o p_is)
        asked inputs parsed (Each-map_result check_input asked inputs checks)
        (Each-trans SignedOf (SignedIs noble)
          (λ r p. (s : Input) × (SignedOf r s × SignedIs noble s p))
          (λ r s p o p_is. (s, (o, p_is))) inputs signed parsed
          (sign_inputs-SignedOf noble ml domain c 0 inputs signed signs) is)

  module _ (network : Network) where
    resolve_output-Resolved :
        (o q : Output) → resolve_output noble network o ≡ ok q → Resolved noble network o q
    unfolding resolve_output resolve_script
    resolve_output-Resolved o q h =
        bind_inv (script_bytes noble o (some network)) h
          λ script is h1. record { script = script; is_script = is; is = ok-injective h1 }

    output_asked :
        (o q : Output) (p : TxOut)
        → resolve_output noble network o ≡ ok q
        → OutputIs noble (some network) q p
        → OutputAsked noble network o p
    unfolding script_bytes source_bytes
    output_asked o q p h is =
        let r : Resolved noble network o q = resolve_output-Resolved o q h in
        record {
          value = ap (λ (x : Output). whole x.value) r.is ∙ is.value;
          script =
              r.is_script
              ∙ ap (λ (x : Output). script_bytes noble x (some network)) r.is
              ∙ is.script;
        }

    -- The parsed outputs are those that the request asks for.
    pub outputs_asked :
        (asked outputs : List Output) (parsed : List TxOut)
        → map_result (resolve_output noble network) asked ≡ ok outputs
        → Each (OutputIs noble (some network)) outputs parsed
        → Each (OutputAsked noble network) asked parsed
    outputs_asked asked outputs parsed resolves is =
        Each-trans (λ o q. resolve_output noble network o ≡ ok q) (OutputIs noble (some network))
          (OutputAsked noble network) output_asked asked outputs parsed
          (Each-map_result (resolve_output noble network) asked outputs resolves) is

    pub outputs_Resolved :
        (asked outputs : List Output)
        → map_result (resolve_output noble network) asked ≡ ok outputs
        → Each (Resolved noble network) asked outputs
    unfolding map_result
    outputs_Resolved [] outputs h = rw (← ok-injective h) tt
    outputs_Resolved (o ∷ asked) outputs h =
        bind_inv (resolve_output noble network o) h λ q resolves h1.
          bind_inv (map_result (resolve_output noble network) asked) h1 λ more resolves_more h2.
            subst (Each (Resolved noble network) (o ∷ asked)) (ok-injective h2)
              (resolve_output-Resolved o q resolves, outputs_Resolved asked more resolves_more)

    prevouts-Each :
        (asked : List SignInput) (inputs : List Ready) (scripts : List Bytes)
        → Each (λ i r. check_input i ≡ ok r) asked inputs
        → Each (λ (r : Ready) s. resolve_script noble network r.prevout ≡ ok s) inputs scripts
        → Each (PrevoutAsked noble network) asked (spent_outputs inputs scripts)
    unfolding spent_outputs resolve_script
    prevouts-Each [] [] [] c s = tt
    prevouts-Each [] [] (x ∷ xs) c s = absurd s
    prevouts-Each [] (r ∷ rs) scripts c s = absurd c
    prevouts-Each (i ∷ is) [] scripts c s = absurd c
    prevouts-Each (i ∷ is) (r ∷ rs) [] c s = absurd s
    prevouts-Each (i ∷ is) (r ∷ rs) (x ∷ xs) c s = (
      record {
        prevout = r.prevout;
        is_given = (check_input-Checked i r c.0).prevout;
        resolved = record { script = x; is_script = s.0; is = refl };
      },
      prevouts-Each is rs xs c.1 s.1,
    )

    -- The outputs that are signed as spent are those that the request names.
    pub prevouts_asked :
        (asked : List SignInput) (inputs : List Ready) (scripts : List Bytes)
        → map_result check_input asked ≡ ok inputs
        → map_result (λ i. resolve_script noble network i.prevout) inputs ≡ ok scripts
        → Each (PrevoutAsked noble network) asked (spent_outputs inputs scripts)
    prevouts_asked asked inputs scripts checks resolves =
        prevouts-Each asked inputs scripts (Each-map_result check_input asked inputs checks) (
          Each-map_result (λ (i : Ready). resolve_script noble network i.prevout) inputs scripts
            resolves)

checked_fields :
    (asked : List SignInput) (inputs : List Ready)
    → Each (λ i r. check_input i ≡ ok r) asked inputs
    → (map (λ i. i.outpoint) inputs ≡ map (λ i. i.outpoint) asked)
      × (map (λ i. given i.public_key) inputs ≡ map (λ i. i.public_key) asked)
checked_fields [] [] c = (refl, refl)
checked_fields [] (r ∷ rs) c = absurd c
checked_fields (i ∷ is) [] c = absurd c
checked_fields (i ∷ is) (r ∷ rs) c =
    let h : Checked i r = check_input-Checked i r c.0 in
    let (outpoints, keys) = checked_fields is rs c.1 in
    (cc (h.outpoint, outpoints), cc (h.key, keys))

-- The messages that are signed are about the request's own inputs.
pub context_asked :
    (r : SignRequest) (inputs : List Ready) (prevouts outputs : List Output)
    → map_result check_input r.inputs ≡ ok inputs
    → context_of r inputs prevouts outputs ≡ asked_context r prevouts outputs
unfolding context_of
context_asked r inputs prevouts outputs checks =
    let (outpoints, keys) =
      checked_fields r.inputs inputs (Each-map_result check_input r.inputs inputs checks) in
    rw (outpoints, keys) refl
