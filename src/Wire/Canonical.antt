-- ===== src/Wire/Canonical.antt =====
-- Parsing a transaction and serializing what was parsed gives the same bytes.
use mathlib.Core.Path.{subst}
use mathlib.Core.List.{flatten}
use organic_web_wallet.Prelude.{
  ℕ, ◌≤◌, ◌≡◌, refl, ap, ◌∙◌, false, not, ◌&&◌, ◌||◌, List, [], ◌∷◌, ◌++◌, length, All, arith, ltb,
  ◌==◌, if◌then◌else◌, ok, map_result, bind_inv, throw_inv, ok-injective, length-map,
}
use organic_web_wallet.Platform.{
  Bytes, IsBytes, Noble, NobleLaws, bytes, source_bytes, whole, max_safe_integer,
}
use organic_web_wallet.Wire.Codec.{
  le_bytes, compact_size, read_i16, read_count, i16le, to_big_int, u32le,
}
use organic_web_wallet.Wire.CompactSize.{read_count_cuts, encode_compact_size_lem, u32le_lem}
use organic_web_wallet.Wire.Tail.{read_i16_cuts, TailCut, read_tail_cuts}
use organic_web_wallet.Wire.Payload.{Payload, parse_payload, pq_stake_mode}
use organic_web_wallet.Wire.Serialize.{
  Request, serialize_tx_in, serialize_tx_out, serialize_transfer, resolve_payload,
}
use organic_web_wallet.Wire.Parse.{
  TxIn, Transaction, read_tx_in, read_tx_out, read_many, read_tail, attach, includes, is_int,
  parse_bytes, parse_pq_transaction, pq_max_tx_bytes,
}
use organic_web_wallet.Wire.Lists.{ReadAs, read_many_cuts}
use organic_web_wallet.Wire.Items.{
  output_of, request_of, IsPositive, InputBytes, OutputBytes, read_tx_in_cuts, read_tx_out_cuts,
  inputs_written, outputs_written, length-attach, resolves,
}

parse_payload-hex : (b : Bytes) (p : Payload) → parse_payload b ≡ ok p → p.hex ≡ b
unfolding parse_payload
parse_payload-hex b p h = ground arith

-- Between the headers stand what the counts announce.
assembled :
    (noble : Noble) (r : Request) (n m lock : ℕ) (inputs outputs : List Bytes) (payload : Bytes)
    → length r.inputs ≡ n
    → length r.outputs ≡ m
    → 1 ≤ n
    → n ≤ 2
    → 1 ≤ m
    → m ≤ (if r.mode == pq_stake_mode then 3 else 2)
    → u32le r.locktime ≡ ok (le_bytes 4 lock)
    → length payload ≤ max_safe_integer
    → resolve_payload noble r ≡ ok payload
    → map_result (serialize_tx_in noble) r.inputs ≡ ok inputs
    → map_result (serialize_tx_out noble r.network) r.outputs ≡ ok outputs
    → serialize_transfer noble r
      ≡ ok (
          le_bytes 2 3
          ++ (le_bytes 2 8
              ++ (compact_size n
                  ++ (flatten inputs
                      ++ (compact_size m
                          ++ (flatten outputs
                              ++ (le_bytes 4 lock
                                  ++ ((0x00 ∷ 0x01 ∷ [])
                                      ++ (compact_size (length payload) ++ payload)))))))))
unfolding serialize_transfer i16le to_big_int whole le_bytes
assembled noble r n m lock inputs outputs payload ln lm n1 n2 m1 m2 locks hp resolved ins outs =
    let few_inputs : (ltb n 1 || ltb 2 n) ≡ false = ground arith in
    let few_outputs : (ltb m 1 || ltb (if r.mode == pq_stake_mode then 3 else 2) m) ≡ false =
      ground arith in
    rw (ln, few_inputs)
      (rw (lm, few_outputs)
        (rw resolved (
          rw (encode_compact_size_lem n (omega arith)) (
            rw ins (
              rw (encode_compact_size_lem m (ground arith))
                (rw outs (rw locks (rw (encode_compact_size_lem (length payload) hp) refl))))))))

joined :
    (a b c d e f g : Bytes) {raw s1 s2 s3 s4 s5 s6 : Bytes}
    → raw ≡ a ++ s1
    → s1 ≡ b ++ s2
    → s2 ≡ c ++ s3
    → s3 ≡ d ++ s4
    → s4 ≡ e ++ s5
    → s5 ≡ f ++ s6
    → s6 ≡ g
    → a ++ (b ++ (c ++ (d ++ (e ++ (f ++ g))))) ≡ raw
joined a b c d e f g p q r s t u v = cc

-- How a transaction that `parsePQTransaction` accepts lies in its bytes.
record Layout (noble : Noble) (laws : NobleLaws noble) (raw : Bytes) (tx : Transaction)
    : Type 0 where
  found_inputs : List TxIn
  n : ℕ
  m : ℕ
  payload_bytes : Bytes
  s1 : Bytes
  s2 : Bytes
  s3 : Bytes
  s4 : Bytes
  s5 : Bytes
  s6 : Bytes
  version_cut : raw ≡ le_bytes 2 3 ++ s1
  kind_cut : s1 ≡ le_bytes 2 8 ++ s2
  inputs_count : s2 ≡ compact_size n ++ s3
  inputs_read : ReadAs (InputBytes noble laws) n s3 (found_inputs, s4)
  outputs_count : s4 ≡ compact_size m ++ s5
  outputs_read : ReadAs (OutputBytes noble laws) m s5 (tx.outputs, s6)
  tail : TailCut s6 (tx.locktime, payload_bytes)
  inputs_bounds : (1 ≤ n) × (n ≤ 2)
  outputs_bounds : (1 ≤ m) × (m ≤ (if tx.payload.mode == pq_stake_mode then 3 else 2))
  parses : parse_payload payload_bytes ≡ ok tx.payload
  authorized : length tx.payload.authorizations ≡ length found_inputs
  attached : tx.inputs ≡ attach found_inputs tx.payload.authorizations

layout :
    (noble : Noble) (laws : NobleLaws noble) (raw : Bytes) (allowed : List ℕ) (tx : Transaction)
    → IsBytes raw
    → parse_bytes noble raw allowed ≡ ok tx
    → Layout noble laws raw tx
unfolding parse_bytes
layout noble laws raw allowed tx h e = throw_inv (ltb pq_max_tx_bytes (length raw)) _ _ e λ _ e1.
    bind_inv (read_i16 raw) e1 λ (version, s1) r1 e2. bind_inv (read_i16 s1) e2 λ (kind, s2) r2 e3.
      throw_inv (not (is_int version 3) || not (is_int kind 8)) _ _ e3 λ header e4.
        bind_inv (read_count s2) e4 λ (n, s3) r3 e5.
          throw_inv (ltb n 1 || ltb 2 n) _ _ e5 λ few_inputs e6.
            bind_inv (read_many (read_tx_in noble) n s3) e6 λ (inputs, s4) r4 e7.
              bind_inv (read_count s4) e7 λ (m, s5) r5 e8.
                throw_inv (ltb m 1 || ltb 3 m) _ _ e8 λ few_outputs e9.
                  bind_inv (read_many (read_tx_out noble) m s5) e9 λ (outputs, s6) r6 e10.
                    bind_inv (read_tail s6) e10 λ (lock, payload_bytes) r7 e11.
                      bind_inv (parse_payload payload_bytes) e11 λ payload parses e12.
                        throw_inv (not (includes allowed payload.mode)) _ _ e12 λ _ e13.
                          throw_inv (not (payload.mode == 2) && ltb 2 m) _ _ e13 λ mode_outputs e14.
                            throw_inv (not (length payload.authorizations == length inputs)) _ _ e14
                              λ authorized e15.
                                let (c1, h1) =
                                  read_i16_cuts 3 raw (version, s1) (omega arith) h r1
                                    (ground arith) in
                                let (c2, h2) =
                                  read_i16_cuts 8 s1 (kind, s2) (omega arith) h1 r2
                                    (ground arith) in
                                let (c3, l3, h3) = read_count_cuts n s2 s3 h2 r3 in
                                let ins : ReadAs (InputBytes noble laws) n s3 (inputs, s4) =
                                  read_many_cuts (read_tx_in noble) (InputBytes noble laws)
                                    (read_tx_in_cuts noble laws) n s3 _ h3 r4 in
                                let (c5, l5, h5) = read_count_cuts m s4 s5 ins.rest_bytes r5 in
                                let outs : ReadAs (OutputBytes noble laws) m s5 (outputs, s6) =
                                  read_many_cuts (read_tx_out noble) (OutputBytes noble laws)
                                    (read_tx_out_cuts noble laws) m s5 _ h5 r6 in
                                let tail : TailCut s6 (lock, payload_bytes) =
                                  read_tail_cuts s6 _ outs.rest_bytes r7 in
                                subst (Layout noble laws raw) (ok-injective e15) (record {
                                  found_inputs = inputs;
                                  n = n;
                                  m = m;
                                  payload_bytes = payload_bytes;
                                  s1 = s1;
                                  s2 = s2;
                                  s3 = s3;
                                  s4 = s4;
                                  s5 = s5;
                                  s6 = s6;
                                  version_cut = c1;
                                  kind_cut = c2;
                                  inputs_count = c3;
                                  inputs_read = ins;
                                  outputs_count = c5;
                                  outputs_read = outs;
                                  tail = tail;
                                  inputs_bounds = ground arith;
                                  outputs_bounds = ground arith;
                                  parses = parses;
                                  authorized = ground arith;
                                  attached = refl;
                                })

-- A transaction that `parsePQTransaction` accepts is the serialization of its parsed parts: the
-- inputs, outputs, lock time and payload that it gives, none of whose output values is negative, are
-- serialized to the very bytes that were parsed. So no two byte strings stand for the same parts.
pub parse_pq_transaction-canonical :
    (noble : Noble) (laws : NobleLaws noble) (raw : Bytes) (allowed : List ℕ) (tx : Transaction)
    → IsBytes raw
    → parse_pq_transaction noble (bytes raw) allowed ≡ ok tx
    → All IsPositive tx.outputs
    → serialize_transfer noble (request_of tx) ≡ ok raw
unfolding parse_pq_transaction source_bytes
parse_pq_transaction-canonical noble laws raw allowed tx h e positive =
    let l : Layout noble laws raw tx = layout noble laws raw allowed tx h e in
    let ins = l.inputs_read in
    let outs = l.outputs_read in
    let attached = l.attached in
    assembled noble (request_of tx) l.n l.m tx.locktime ins.parts outs.parts l.payload_bytes
      (rw attached
        (length-attach noble laws l.found_inputs tx.payload.authorizations l.authorized ∙ ins.size))
      (length-map tx.outputs output_of ∙ outs.size) l.inputs_bounds.0 l.inputs_bounds.1
      l.outputs_bounds.0 l.outputs_bounds.1 (u32le_lem tx.locktime l.tail.locktime_fits)
      l.tail.payload_fits
      (resolves noble laws tx l.found_inputs l.payload_bytes
        (parse_payload-hex l.payload_bytes tx.payload l.parses) l.parses attached l.authorized)
      (rw attached (
        inputs_written noble laws l.found_inputs tx.payload.authorizations ins.parts ins.each
          l.authorized))
      (outputs_written noble laws tx.outputs outs.parts outs.each positive)
    ∙ ap ok (
        joined _ _ _ _ _ _ _ l.version_cut l.kind_cut l.inputs_count ins.cut l.outputs_count
          outs.cut l.tail.cut)
