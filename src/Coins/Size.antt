-- ===== src/Coins/Size.antt =====
-- The size that `estimateTransferSize` predicts is the size that `serializeTransfer` writes.
use mathlib.Core.List.{flatten}
use organic_web_wallet.Prelude.{
  ℕ, ◌+◌, ◌*◌, ◌≡◌, refl, sym, ap, false, not, Option, none, some, List, [], ◌∷◌, length, All,
  arith, ◌==◌, Result, ok, map_result, bind_inv, throw_inv, ok-injective, length-append,
  length-reverse,
}
use organic_web_wallet.Prelude.Int.{pos}
use organic_web_wallet.Platform.{Bytes, Text, Noble, ByteSource, source_bytes, number}
use organic_web_wallet.Platform.Hex.{plain_noble}
use organic_web_wallet.Address.{Network}
use organic_web_wallet.Address.Canonical.{pq_address_from_script-pq_script_from_address}
use organic_web_wallet.Wire.Codec.{compact_size, encode_compact_size, u32le, i64le}
use organic_web_wallet.Wire.LittleEndian.{length-le_bytes}
use organic_web_wallet.Wire.CompactSize.{u32le_ok, i64le_ok}
use organic_web_wallet.Wire.Payload.{Input, build_authorizations, build_payload, mode_has_data}
use organic_web_wallet.Wire.Serialize.{
  Output, Request, serialize_tx_in, serialize_tx_out, serialize_transfer, script_bytes,
  script_sig_bytes, resolve_payload, address_script, or_default,
}
use organic_web_wallet.Wire.PayloadTrip.{split-build}
use organic_web_wallet.Wire.ItemTrips.{size_of}
use organic_web_wallet.Wire.Written.{Written, written}
use organic_web_wallet.Coins.{compact_size_length, transfer_size}

pub length-compact_size : (n : ℕ) → length (compact_size n) ≡ compact_size_length n
unfolding compact_size compact_size_length
length-compact_size n =
    ground (arith, length-le_bytes 2 n, length-le_bytes 4 n, length-le_bytes 8 n)

-- An input without a script signature, and an output to an address.
abbrev pub IsPlainInput : Input → Type 0
IsPlainInput i = i.script_sig ≡ none

abbrev pub IsAddressOutput : Output → Type 0
IsAddressOutput o = o.script ≡ none

compact_size_length_zero : compact_size_length 0 ≡ 1
unfolding compact_size_length
compact_size_length_zero = refl

compact_size_length_35 : compact_size_length 35 ≡ 1
unfolding compact_size_length
compact_size_length_35 = refl

length_32 : (b : Bytes) → not (length b == 32) ≡ false → length b ≡ 32
length_32 b h = ground arith

no_script_sig :
    (noble : Noble) (o : Option ByteSource) (b : Bytes)
    → o ≡ none
    → script_sig_bytes noble o ≡ ok b
    → b ≡ []
unfolding script_sig_bytes
no_script_sig noble none b h e = sym (ok-injective e)
no_script_sig noble (some s) b h e = absurd (cc)

input_size :
    (noble : Noble) (i : Input) (b : Bytes)
    → IsPlainInput i
    → serialize_tx_in noble i ≡ ok b
    → length b ≡ 41
unfolding serialize_tx_in
input_size noble i b plain e = bind_inv (source_bytes noble i.txid) e λ txid _ e1.
    throw_inv (not (length txid == 32)) _ _ e1 λ sized e2.
      bind_inv (script_sig_bytes noble i.script_sig) e2 λ script_sig scripts e3.
        bind_inv (u32le (or_default i.vout 0)) e3 λ vout vouts e4.
          bind_inv (encode_compact_size (number (pos (length script_sig)))) e4 λ size sizes e5.
            bind_inv (u32le (or_default i.sequence 0xffffffff)) e5 λ sequence sequences e6.
              let (n, _, _, vout_is) = u32le_ok _ vout vouts in
              let (m, _, _, sequence_is) = u32le_ok _ sequence sequences in
              let (size_is, _) = size_of (length script_sig) size sizes in
              let no_script : script_sig ≡ [] =
                no_script_sig noble i.script_sig script_sig plain scripts in
              omega (
                arith,
                ap length (ok-injective e6),
                length-append {0},
                length-reverse txid,
                ap length vout_is,
                length-le_bytes 4 n,
                ap length sequence_is,
                length-le_bytes 4 m,
                ap length size_is,
                length-compact_size (length script_sig),
                ap compact_size_length (ap length no_script),
                compact_size_length_zero,
                ap length no_script,
                length_32 txid sized,
              )

address_script_size :
    (address : Option Text) (network : Option Network) (b : Bytes)
    → address_script address network ≡ ok b
    → length b ≡ 35
unfolding address_script
address_script_size none network b e = absurd (cc)
address_script_size (some []) network b e = absurd (cc)
address_script_size (some (c ∷ cs)) none b e = absurd (cc)
address_script_size (some (c ∷ cs)) (some network) b e =
    (pq_address_from_script-pq_script_from_address plain_noble (c ∷ cs) network b e).0

address_bytes :
    (noble : Noble) (o : Output) (network : Option Network) (b : Bytes)
    → o.script ≡ none
    → script_bytes noble o network ≡ ok b
    → length b ≡ 35
unfolding script_bytes
address_bytes noble o network b h e =
    address_script_size o.address network b (rw (h, script_bytes) at e)

output_size :
    (noble : Noble) (network : Option Network) (o : Output) (b : Bytes)
    → IsAddressOutput o
    → serialize_tx_out noble network o ≡ ok b
    → length b ≡ 44
unfolding serialize_tx_out
output_size noble network o b plain e =
    bind_inv (script_bytes noble o network) e λ script scripts e1.
      bind_inv (i64le o.value) e1 λ value values e2.
        bind_inv (encode_compact_size (number (pos (length script)))) e2 λ size sizes e3.
          let (n, _, _, value_is) = i64le_ok _ value values in
          let (size_is, _) = size_of (length script) size sizes in
          let script_size = address_bytes noble o network script plain scripts in
          omega (
            arith,
            ap length (ok-injective e3),
            length-append {0},
            ap length value_is,
            length-le_bytes 8 n,
            ap length size_is,
            length-compact_size (length script),
            ap compact_size_length script_size,
            compact_size_length_35,
            script_size,
          )

-- Parts of one size make a whole of their number times that size.
module _ {X : Type 0} (write : X → Result Bytes) (P : X → Type 0) (size : ℕ) where
  length-parts :
      ((x : X) (b : Bytes) → P x → write x ≡ ok b → length b ≡ size)
      → (xs : List X) (bs : List Bytes) → All P xs
      → map_result write xs ≡ ok bs
      → length (flatten bs) ≡ length xs * size
  unfolding map_result flatten
  length-parts step [] bs h e = rw (← ok-injective e) (omega arith)
  length-parts step (x ∷ xs) bs h e = bind_inv (write x) e λ b writes e1.
      bind_inv (map_result write xs) e1 λ more writes_more e2. rw (← ok-injective e2) (
        omega (
          arith,
          length-append b (flatten more),
          step x b h.0 writes,
          length-parts step xs more h.1 writes_more,
        ))

payload_size :
    (inputs : List Input) (given_data b : Bytes)
    → build_payload inputs 1 given_data ≡ ok b
    → length b ≡ 3 + length inputs * 3732
unfolding build_payload mode_has_data
payload_size inputs given_data b e = throw_inv (not (length given_data == 0)) _ _ e λ _ e1.
    bind_inv (build_authorizations inputs) e1 λ authorizations builds e2.
      bind_inv (encode_compact_size (number (pos (length given_data)))) e2 λ size _ e3.
        let (_, _, _, total, _) = split-build inputs authorizations builds in
        omega (arith, ap length (ok-injective e3), length-append authorizations [], total)

-- A serialized transaction of plain inputs and outputs, by the length of its payload.
pub length-Written :
    (noble : Noble) (r : Request) (raw : Bytes) (w : Written noble r raw)
    → All IsPlainInput r.inputs
    → All IsAddressOutput r.outputs
    → length raw
      ≡ 10
        + compact_size_length (length r.inputs)
        + length r.inputs * 41
        + compact_size_length (length r.outputs)
        + length r.outputs * 44
        + compact_size_length (length w.payload)
        + length w.payload
length-Written noble r raw w plain_inputs plain_outputs = omega (
  arith,
  sym (ap length w.shape),
  length-append {0},
  length-le_bytes 2 3,
  length-le_bytes 2 8,
  length-le_bytes 4 w.lock,
  length-compact_size (length r.inputs),
  length-compact_size (length r.outputs),
  length-compact_size (length w.payload),
  length-parts (serialize_tx_in noble) IsPlainInput 41 (input_size noble) r.inputs w.inputs
      plain_inputs w.writes_inputs,
  length-parts (serialize_tx_out noble r.network) IsAddressOutput 44 (output_size noble r.network)
      r.outputs w.outputs plain_outputs w.writes_outputs,
)

-- A transfer without data, whose inputs have no script signature and whose outputs are given by
-- address, is serialized to exactly as many bytes as the estimate on which its fee is based.
pub length-serialize_transfer :
    (noble : Noble) (r : Request) (raw : Bytes)
    → r.payload ≡ none
    → r.mode ≡ 1
    → All IsPlainInput r.inputs
    → All IsAddressOutput r.outputs
    → serialize_transfer noble r ≡ ok raw
    → length raw ≡ transfer_size (length r.inputs) (length r.outputs)
unfolding transfer_size resolve_payload
length-serialize_transfer noble r raw own transfer plain_inputs plain_outputs e =
    let w : Written noble r raw = written noble r raw e in
    let builds : build_payload r.inputs 1 r.payload_data ≡ ok w.payload =
      rw (own, transfer, resolve_payload) at w.resolves in
    let payload = payload_size r.inputs r.payload_data w.payload builds in
    omega (
      arith,
      length-Written noble r raw w plain_inputs plain_outputs,
      ap compact_size_length payload,
      payload,
    )
