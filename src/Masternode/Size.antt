-- ===== src/Masternode/Size.antt =====
-- The size that `estimateMasternodeRegistrationSize` predicts.
use organic_web_wallet.Prelude.{
  ◌+◌, ◌*◌, ◌≡◌, ap, none, List, ◌++◌, length, All, arith, ltb, ◌==◌, ok, bind_inv, throw_inv,
  ok-injective, length-append,
}
use organic_web_wallet.Prelude.Int.{pos}
use organic_web_wallet.Platform.{Bytes, Noble, number}
use organic_web_wallet.Wire.Codec.{encode_compact_size}
use organic_web_wallet.Wire.Payload.{Input, build_authorizations, build_payload, mode_has_data}
use organic_web_wallet.Wire.PayloadTrip.{split-build}
use organic_web_wallet.Wire.ItemTrips.{size_of}
use organic_web_wallet.Wire.Serialize.{Request, serialize_transfer, resolve_payload}
use organic_web_wallet.Wire.Written.{Written, written}
use organic_web_wallet.Coins.{compact_size_length}
use organic_web_wallet.Coins.Size.{
  IsPlainInput, IsAddressOutput, length-Written, length-compact_size,
}
use organic_web_wallet.Masternode.FeeCoins.{registration_size}

length-build_payload :
    (inputs : List Input) (found b : Bytes)
    → build_payload inputs 6 found ≡ ok b
    → length b ≡ 3 + length inputs * 3732 + compact_size_length (length found) + length found
unfolding build_payload mode_has_data
length-build_payload inputs found b e = throw_inv (length found == 0) _ _ e λ _ e1.
    throw_inv (ltb 12000 (length found)) _ _ e1 λ _ e2.
      bind_inv (build_authorizations inputs) e2 λ authorizations builds e3.
        bind_inv (encode_compact_size (number (pos (length found)))) e3 λ size sizes e4.
          let (_, _, _, total, _) = split-build inputs authorizations builds in
          let (is_size, _) = size_of (length found) size sizes in
          omega (
            arith,
            ap length (ok-injective e4),
            length-append authorizations (size ++ found),
            length-append size found,
            ap length is_size,
            length-compact_size (length found),
            total,
          )

-- A registration with its 11318 bytes of data, whose inputs have no script signature and whose outputs
-- are given by address, is serialized to exactly as many bytes as the estimate for its fee.
pub length-registration_size :
    (noble : Noble) (r : Request) (raw : Bytes)
    → r.payload ≡ none
    → r.mode ≡ 6
    → length r.payload_data ≡ 11318
    → All IsPlainInput r.inputs
    → All IsAddressOutput r.outputs
    → serialize_transfer noble r ≡ ok raw
    → length raw ≡ registration_size (length r.inputs) (length r.outputs)
unfolding registration_size resolve_payload
length-registration_size noble r raw own masternode sized plain_inputs plain_outputs e =
    let w : Written noble r raw = written noble r raw e in
    let builds : build_payload r.inputs 6 r.payload_data ≡ ok w.payload =
      rw (own, masternode, resolve_payload) at w.resolves in
    let payload = length-build_payload r.inputs r.payload_data w.payload builds in
    let payload' : length w.payload
        ≡ 3 + length r.inputs * 3732 + compact_size_length 11318 + 11318 =
      rw sized at payload in
    omega (
      arith,
      length-Written noble r raw w plain_inputs plain_outputs,
      ap compact_size_length payload',
      payload',
    )
