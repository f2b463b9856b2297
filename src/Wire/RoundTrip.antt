-- ===== src/Wire/RoundTrip.antt =====
-- Serializing a transfer and parsing the bytes gives the transfer back.
use mathlib.Core.List.{flatten}
use organic_web_wallet.Prelude.{
  ℕ, ◌^◌, ◌≤◌, ◌<◌, ◌≡◌, refl, ◌∙◌, true, false, not, ◌&&◌, ◌||◌, none, List, [], ◌∷◌, ◌++◌, length,
  arith, ltb, ◌==◌, if◌then◌else◌, ok,
}
use organic_web_wallet.Prelude.Int.{pos}
use organic_web_wallet.Platform.{Bytes, Noble, bytes, source_bytes, max_safe_integer}
use organic_web_wallet.Wire.Codec.{le_bytes, compact_size}
use organic_web_wallet.Wire.CompactSize.{read_count-append}
use organic_web_wallet.Wire.Tail.{read_tail-append}
use organic_web_wallet.Wire.Payload.{Payload, build_payload, parse_payload, pq_stake_mode}
use organic_web_wallet.Wire.Serialize.{
  Request, serialize_tx_in, serialize_tx_out, resolve_payload, serialize_transfer,
}
use organic_web_wallet.Wire.Parse.{
  TxIn, TxOut, Transaction, read_tx_in, read_tx_out, read_many, attach, includes, parse_bytes,
  parse_pq_transaction, pq_max_tx_bytes,
}
use organic_web_wallet.Wire.Lists.{read_many-map_result}
use organic_web_wallet.Wire.PayloadTrip.{parse_payload-build_payload}
use organic_web_wallet.Wire.ItemTrips.{
  InputIs, OutputIs, read_tx_in-serialize_tx_in, read_tx_out-serialize_tx_out,
}
use organic_web_wallet.Wire.Written.{
  TransactionIs, read_i16-append, Written, written, length-Each, Each-attach,
}

-- The parse of bytes that are laid out so.
parses :
    (noble : Noble) (allowed : List ℕ) (n m lock : ℕ) (ins outs : Bytes) (payload raw : Bytes)
    (p : Payload) (inputs : List TxIn) (outputs : List TxOut)
    → (1 ≤ n) × (n ≤ 2)
    → (1 ≤ m) × (m ≤ (if p.mode == pq_stake_mode then 3 else 2))
    → lock < 2 ^ 32
    → length payload ≤ max_safe_integer
    → ((rest : Bytes) → read_many (read_tx_in noble) n (ins ++ rest) ≡ ok (inputs, rest))
    → ((rest : Bytes) → read_many (read_tx_out noble) m (outs ++ rest) ≡ ok (outputs, rest))
    → parse_payload payload ≡ ok p
    → includes allowed p.mode ≡ true
    → length p.authorizations ≡ length inputs
    → length raw ≤ pq_max_tx_bytes
    → le_bytes 2 3
        ++ (le_bytes 2 8
            ++ (compact_size n
                ++ (ins
                    ++ (compact_size m
                        ++ (outs
                            ++ (le_bytes 4 lock
                                ++ ((0x00 ∷ 0x01 ∷ [])
                                    ++ (compact_size (length payload) ++ payload))))))))
      ≡ raw
    → parse_bytes noble raw allowed
      ≡ ok (record {
        version = pos 3;
        kind = pos 8;
        inputs = attach inputs p.authorizations;
        outputs = outputs;
        locktime = lock;
        payload = p;
        raw = raw;
      })
unfolding parse_bytes
parses noble allowed n m lock ins outs payload raw p inputs outputs hn hm hl hp rin rout rp allows
      same fits shape =
    let small : ltb pq_max_tx_bytes (length raw) ≡ false = ground arith in
    let few_in : (ltb n 1 || ltb 2 n) ≡ false = ground arith in
    let few_out : (ltb m 1 || ltb 3 m) ≡ false = ground arith in
    let mode_out : (not (p.mode == pq_stake_mode) && ltb 2 m) ≡ false = ground arith in
    let authorized : (length inputs == length inputs) ≡ true = ground arith in
    rw small (
      rw (← shape) (
        rw (read_i16-append 3 _ (omega arith)) (
          rw (read_i16-append 8 _ (omega arith)) (
            rw (read_count-append n _ (omega arith)) (
              rw few_in (
                rw rin (
                  rw (read_count-append m _ (ground arith)) (
                    rw few_out (
                      rw rout (
                        rw (read_tail-append lock payload hl hp)
                          (rw rp (rw allows (rw mode_out (rw same (rw authorized refl)))))))))))))))

-- A transfer serialized with the payload of its own inputs, in a mode that is allowed and with at most
-- 12000 bytes of data, and not longer than 24000 bytes, is parsed to its inputs, each with its key and
-- signature, its outputs, its lock time, its mode and its data.
pub parse_pq_transaction-serialize_transfer :
    (noble : Noble) (r : Request) (raw : Bytes) (allowed : List ℕ)
    → r.payload ≡ none
    → length r.payload_data ≤ 12000
    → includes allowed r.mode ≡ true
    → serialize_transfer noble r ≡ ok raw
    → length raw ≤ pq_max_tx_bytes
    → (tx : Transaction) × (parse_pq_transaction noble (bytes raw) allowed ≡ ok tx)
      × TransactionIs noble r raw tx
unfolding parse_pq_transaction source_bytes resolve_payload
parse_pq_transaction-serialize_transfer noble r raw allowed own short allows e fits =
    let w : Written noble r raw = written noble r raw e in
    let (inputs, each_in, reads_in) =
      read_many-map_result (serialize_tx_in noble) (read_tx_in noble) (InputIs noble)
        (read_tx_in-serialize_tx_in noble) r.inputs w.inputs w.writes_inputs in
    let (outputs, each_out, reads_out) =
      read_many-map_result (serialize_tx_out noble r.network) (read_tx_out noble)
        (OutputIs noble r.network) (read_tx_out-serialize_tx_out noble r.network) r.outputs
        w.outputs w.writes_outputs in
    let builds : build_payload r.inputs r.mode r.payload_data ≡ ok w.payload =
      rw (own, resolve_payload) at w.resolves in
    let (p, reads_payload, is_p) =
      parse_payload-build_payload r.inputs r.mode r.payload_data w.payload
        (omega (arith, w.inputs_bounds.1)) short builds in
    let bounds = w.outputs_bounds in
    let same : length p.authorizations ≡ length inputs =
      is_p.count ∙ length-Each (InputIs noble) r.inputs inputs each_in in
    (
      _,
      parses noble allowed (length r.inputs) (length r.outputs) w.lock (flatten w.inputs)
          (flatten w.outputs) w.payload raw p inputs outputs w.inputs_bounds
          (rw is_p.same_mode bounds) w.lock_fits w.payload_fits reads_in reads_out reads_payload
          (rw is_p.same_mode allows) same fits w.shape,
      record {
        inputs = Each-attach noble r.inputs inputs p.authorizations each_in is_p.authorized;
        outputs = each_out;
        locktime = w.is_lock;
        mode = is_p.same_mode;
        payload_data = is_p.same_data;
        raw_bytes = refl;
      },
    )
