-- ===== src/Wire/Items.antt =====
-- The inputs, the outputs and the payload of a parsed transaction, written as they were read.
use mathlib.Core.Path.{subst}
use mathlib.Core.List.{append_assoc, reverse-reverse}
use organic_web_wallet.Prelude.{
  ℕ, suc, ◌^◌, ◌≤◌, ◌<◌, ◌≡◌, refl, ap, ◌∙◌, none, some, List, [], ◌∷◌, ◌++◌, map, reverse, length,
  All, arith, ok, map_result, bind_inv, ok-injective, All-reverse, length-reverse, ===_refl,
}
use organic_web_wallet.Prelude.Int.{ℤ, pos}
use organic_web_wallet.Platform.{
  Bytes, IsByte, IsBytes, Noble, NobleLaws, bytes, hex, source_bytes, number, bigint,
  max_safe_integer,
}
use organic_web_wallet.Wire.Codec.{
  le_bytes, compact_size, read, read_le, read_i64, read_count, i64le,
}
use organic_web_wallet.Wire.CompactSize.{
  read_le_cuts, read_count_cuts, read_cuts_bytes, encode_compact_size_lem, u32le_lem,
}
use organic_web_wallet.Wire.Payload.{Input, given, Authorization, parse_payload}
use organic_web_wallet.Wire.Serialize.{
  Output, Request, serialize_tx_in, serialize_tx_out, script_bytes, script_sig_bytes,
  match_authorizations, resolve_payload, assert_payload_matches_inputs,
}
use organic_web_wallet.Wire.Parse.{
  TxIn, TxOut, SignedIn, Transaction, read_tx_in, read_tx_out, attach,
}
use organic_web_wallet.Wire.Tail.{read_i64_cuts}
use organic_web_wallet.Wire.Lists.{Each}

-- A parsed transaction as an argument of `serializeTransfer`.
abbrev pub input_of : SignedIn → Input
input_of i = record {
  txid = hex i.tx_in.txid;
  vout = some (number (pos i.tx_in.vout));
  sequence = some (number (pos i.tx_in.sequence));
  script_sig = some (bytes i.tx_in.script_sig);
  public_key = given i.public_key;
  signature = given i.signature;
}

abbrev pub output_of : TxOut → Output
output_of o = record { value = bigint o.value; script = some (bytes o.script); address = none }

abbrev pub request_of : Transaction → Request
request_of tx = record {
  inputs = map input_of tx.inputs;
  outputs = map output_of tx.outputs;
  locktime = number (pos tx.locktime);
  payload = some (bytes tx.payload.hex);
  mode = tx.payload.mode;
  payload_data = tx.payload.payload_data;
  network = none;
}

abbrev pub IsPositive : TxOut → Type 0
IsPositive o = (v : ℕ) × (o.value ≡ pos v)

module _ (noble : Noble) (laws : NobleLaws noble) where
  -- The bytes of an input, whatever authorization is attached to it.
  abbrev pub InputBytes : TxIn → Bytes → Type 0
  InputBytes i b =
      (public_key signature : Bytes)
      → serialize_tx_in noble
          (input_of (record { tx_in = i; public_key = public_key; signature = signature }))
        ≡ ok b

  abbrev pub OutputBytes : TxOut → Bytes → Type 0
  OutputBytes o b = IsPositive o → serialize_tx_out noble none (output_of o) ≡ ok b

  tx_in_bytes :
      (txid : Bytes) (vout sequence : ℕ) (script_sig : Bytes)
      → length txid ≡ 32
      → IsBytes txid
      → vout < 2 ^ 32
      → sequence < 2 ^ 32
      → length script_sig ≤ max_safe_integer
      → InputBytes
          (record {
            txid = noble.bytes_to_hex (reverse txid);
            vout = vout;
            sequence = sequence;
            script_sig = script_sig;
          })
          (txid
            ++ (le_bytes 4 vout
                ++ (compact_size (length script_sig) ++ (script_sig ++ le_bytes 4 sequence))))
  unfolding serialize_tx_in source_bytes script_sig_bytes
  tx_in_bytes txid vout sequence script_sig l b hv hs hl public_key signature =
      let sized : length (reverse txid) ≡ 32 = length-reverse txid ∙ l in
      rw (laws.hex_to_bytes-bytes_to_hex (reverse txid) (All-reverse IsByte txid b)) (
        rw sized (
          rw (u32le_lem vout hv) (
            rw (encode_compact_size_lem (length script_sig) hl)
              (rw (u32le_lem sequence hs) (rw reverse-reverse refl)))))

  pub read_tx_in_cuts :
      (s : Bytes) (out : TxIn × Bytes)
      → IsBytes s
      → read_tx_in noble s ≡ ok out
      → (b : Bytes) × InputBytes out.0 b × (s ≡ b ++ out.1) × IsBytes out.1
  unfolding read_tx_in
  read_tx_in_cuts s out h e = bind_inv (read 32 s) e λ (txid, s1) r1 e1.
      bind_inv (read_le 4 s1) e1 λ (vout, s2) r2 e2. bind_inv (read_count s2) e2 λ (size, s3) r3 e3.
        bind_inv (read size s3) e3 λ (script_sig, s4) r4 e4.
          bind_inv (read_le 4 s4) e4 λ (sequence, s5) r5 e5.
            let (c1, l1, b1, h1) = read_cuts_bytes 32 s txid s1 h r1 in
            let (c2, l2, h2) = read_le_cuts 4 vout s1 s2 h1 r2 in
            let (c3, l3, h3) = read_count_cuts size s2 s3 h2 r3 in
            let (c4, l4, b4, h4) = read_cuts_bytes size s3 script_sig s4 h3 r4 in
            let (c5, l5, h5) = read_le_cuts 4 sequence s4 s5 h4 r5 in
            subst (λ o. (b : Bytes) × InputBytes o.0 b × (s ≡ b ++ o.1) × IsBytes o.1)
              (ok-injective e5)
              (
                _,
                tx_in_bytes txid vout sequence script_sig l1 b1 (omega arith) (omega arith)
                    (omega arith),
                rw (c1, c2, c3, c4, c5, l4) (simp append_assoc),
                h5,
              )

  tx_out_bytes :
      (value : ℤ) (script b : Bytes)
      → i64le (bigint value) ≡ ok b
      → length script ≤ max_safe_integer
      → serialize_tx_out noble none
          (record { value = bigint value; script = some (bytes script); address = none })
        ≡ ok (b ++ (compact_size (length script) ++ script))
  unfolding serialize_tx_out script_bytes source_bytes
  tx_out_bytes value script b hv hl = rw hv (rw (encode_compact_size_lem (length script) hl) refl)

  pub read_tx_out_cuts :
      (s : Bytes) (out : TxOut × Bytes)
      → IsBytes s
      → read_tx_out noble s ≡ ok out
      → (b : Bytes) × OutputBytes out.0 b × (s ≡ b ++ out.1) × IsBytes out.1
  unfolding read_tx_out
  read_tx_out_cuts s out h e = bind_inv (read_i64 s) e λ (value, s1) r1 e1.
      bind_inv (read_count s1) e1 λ (size, s2) r2 e2.
        bind_inv (read size s2) e2 λ (script, s3) r3 e3.
          let (b, writes, c1, h1) = read_i64_cuts s (value, s1) h r1 in
          let (c2, l2, h2) = read_count_cuts size s1 s2 h1 r2 in
          let (c3, l3, b3, h3) = read_cuts_bytes size s2 script s3 h2 r3 in
          subst (λ o. (b : Bytes) × OutputBytes o.0 b × (s ≡ b ++ o.1) × IsBytes o.1)
            (ok-injective e3)
            (
              _,
              (λ positive.
                  tx_out_bytes value script b (writes positive.0 positive.1) (omega arith)),
              rw (c1, c2, c3, l3) (simp append_assoc),
              h3,
            )

  pub inputs_written :
      (inputs : List TxIn) (authorizations : List Authorization) (parts : List Bytes)
      → Each InputBytes inputs parts
      → length authorizations ≡ length inputs
      → map_result (serialize_tx_in noble) (map input_of (attach inputs authorizations)) ≡ ok parts
  unfolding map_result attach
  inputs_written [] authorizations [] each l = refl
  inputs_written [] authorizations (b ∷ parts) each l = absurd each
  inputs_written (i ∷ inputs) authorizations [] each l = absurd each
  inputs_written (i ∷ inputs) [] (b ∷ parts) each l = absurd (omega arith)
  inputs_written (i ∷ inputs) (a ∷ authorizations) (b ∷ parts) each l =
      rw (each.0 a.public_key a.signature)
        (rw (inputs_written inputs authorizations parts each.1 (omega arith)) refl)

  pub outputs_written :
      (outputs : List TxOut) (parts : List Bytes)
      → Each OutputBytes outputs parts
      → All IsPositive outputs
      → map_result (serialize_tx_out noble none) (map output_of outputs) ≡ ok parts
  unfolding map_result
  outputs_written [] [] each positive = refl
  outputs_written [] (b ∷ parts) each positive = absurd each
  outputs_written (o ∷ outputs) [] each positive = absurd each
  outputs_written (o ∷ outputs) (b ∷ parts) each positive =
      rw (each.0 positive.0) (rw (outputs_written outputs parts each.1 positive.1) refl)

  -- A parsed payload is that of its own authorizations.
  matches :
      (inputs : List TxIn) (authorizations : List Authorization)
      → match_authorizations noble (map input_of (attach inputs authorizations)) authorizations
        ≡ ok tt
  unfolding match_authorizations attach
  matches [] [] = refl
  matches [] (a ∷ authorizations) = refl
  matches (i ∷ inputs) [] = refl
  matches (i ∷ inputs) (a ∷ authorizations) =
      rw (===_refl (noble.bytes_to_hex a.public_key))
        (rw (===_refl (noble.bytes_to_hex a.signature)) (matches inputs authorizations))

  pub length-attach :
      (inputs : List TxIn) (authorizations : List Authorization)
      → length authorizations ≡ length inputs
      → length (map input_of (attach inputs authorizations)) ≡ length inputs
  unfolding attach
  length-attach [] authorizations l = refl
  length-attach (i ∷ inputs) [] l = absurd (omega arith)
  length-attach (i ∷ inputs) (a ∷ authorizations) l =
      ap suc (length-attach inputs authorizations (omega arith))

  pub resolves :
      (tx : Transaction) (inputs : List TxIn) (b : Bytes)
      → tx.payload.hex ≡ b
      → parse_payload b ≡ ok tx.payload
      → tx.inputs ≡ attach inputs tx.payload.authorizations
      → length tx.payload.authorizations ≡ length inputs
      → resolve_payload noble (request_of tx) ≡ ok b
  unfolding resolve_payload source_bytes assert_payload_matches_inputs
  resolves tx inputs b is_b parses attached l = rw is_b (
      rw attached (
        rw parses (
          rw (length-attach inputs tx.payload.authorizations l)
            (rw l (rw (matches inputs tx.payload.authorizations) (ground arith))))))
