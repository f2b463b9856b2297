-- ===== src/Wire/ItemTrips.antt =====
-- Inputs and outputs that were serialized are read back.
use mathlib.Core.List.{append_assoc, reverse-reverse}
use organic_web_wallet.Prelude.{
  ℕ, ◌≤◌, ◌≡◌, refl, ◌∙◌, not, Option, some, ◌++◌, reverse, length, arith, ◌==◌, ok, bind_inv,
  throw_inv, ok-injective, length-reverse,
}
use organic_web_wallet.Prelude.Int.{pos}
use organic_web_wallet.Platform.{Bytes, Noble, number, source_bytes, whole, max_safe_integer}
use organic_web_wallet.Address.{Network}
use organic_web_wallet.Wire.Codec.{
  compact_size, read_i64, signed, i64le, u32le, encode_compact_size,
}
use organic_web_wallet.Wire.LittleEndian.{read-append}
use organic_web_wallet.Wire.CompactSize.{
  read_le-append, read_count-append, encode_compact_size_ok, u32le_ok, i64le_ok,
}
use organic_web_wallet.Wire.Payload.{Input}
use organic_web_wallet.Wire.Serialize.{
  Output, serialize_tx_in, serialize_tx_out, script_bytes, script_sig_bytes, or_default,
}
use organic_web_wallet.Wire.Parse.{TxIn, TxOut, read_tx_in, read_tx_out}

-- The wire input says what the caller's input says, its defaults filled in.
pub record InputIs (noble : Noble) (i : Input) (w : TxIn) : Type 0 where
  pub txid_bytes : Bytes
  pub txid_source : source_bytes noble i.txid ≡ ok txid_bytes
  pub txid : w.txid ≡ noble.bytes_to_hex txid_bytes
  pub vout : whole (or_default i.vout 0) ≡ some (pos w.vout)
  pub sequence : whole (or_default i.sequence 0xffffffff) ≡ some (pos w.sequence)
  pub script_sig : script_sig_bytes noble i.script_sig ≡ ok w.script_sig

pub record OutputIs (noble : Noble) (network : Option Network) (o : Output) (w : TxOut)
    : Type 0 where
  pub value : whole o.value ≡ some w.value
  pub script : script_bytes noble o network ≡ ok w.script
  pub script_hex : w.script_hex ≡ noble.bytes_to_hex w.script

pub size_of :
    (n : ℕ) (b : Bytes)
    → encode_compact_size (number (pos n)) ≡ ok b
    → (b ≡ compact_size n) × (n ≤ max_safe_integer)
unfolding whole
size_of n b h =
    let (m, is_m, _, written) = encode_compact_size_ok (number (pos n)) b h in
    (ground arith, ground arith)

pub read_tx_in-serialize_tx_in :
    (noble : Noble) (i : Input) (b : Bytes)
    → serialize_tx_in noble i ≡ ok b
    → (w : TxIn) × InputIs noble i w
      × ((rest : Bytes) → read_tx_in noble (b ++ rest) ≡ ok (w, rest))
unfolding serialize_tx_in read_tx_in
read_tx_in-serialize_tx_in noble i b e = bind_inv (source_bytes noble i.txid) e λ txid source e1.
    throw_inv (not (length txid == 32)) _ _ e1 λ sized e2.
      bind_inv (script_sig_bytes noble i.script_sig) e2 λ script_sig scripts e3.
        bind_inv (u32le (or_default i.vout 0)) e3 λ vout_bytes vouts e4.
          bind_inv (encode_compact_size (number (pos (length script_sig)))) e4 λ size sizes e5.
            bind_inv (u32le (or_default i.sequence 0xffffffff)) e5 λ sequence_bytes sequences e6.
              let (vout, is_vout, vout_fits, vout_written) = u32le_ok _ vout_bytes vouts in
              let (sequence, is_sequence, sequence_fits, sequence_written) =
                u32le_ok _ sequence_bytes sequences in
              let (size_written, size_fits) = size_of (length script_sig) size sizes in
              let long : length (reverse txid) ≡ 32 = length-reverse txid ∙ ground arith in
              let w : TxIn = record {
                txid = noble.bytes_to_hex txid;
                vout = vout;
                sequence = sequence;
                script_sig = script_sig;
              } in
              (
                w,
                record {
                  txid_bytes = txid;
                  txid_source = source;
                  txid = refl;
                  vout = is_vout;
                  sequence = is_sequence;
                  script_sig = scripts;
                },
                λ rest. rw (← ok-injective e6) (
                    rw (vout_written, size_written, sequence_written)
                      (simp append_assoc (
                        rw (read-append 32 (reverse txid) _ long) (
                          rw (read_le-append 4 vout _ (omega arith)) (
                            rw (read_count-append (length script_sig) _ size_fits) (
                              rw (read-append (length script_sig) script_sig _ refl) (
                                rw (read_le-append 4 sequence rest (omega arith))
                                  (rw reverse-reverse refl)))))))),
              )

positive : (n : ℕ) → n ≤ 0x7fffffffffffffff → signed 64 n ≡ pos n
unfolding signed
positive n h = ground arith

pub read_tx_out-serialize_tx_out :
    (noble : Noble) (network : Option Network) (o : Output) (b : Bytes)
    → serialize_tx_out noble network o ≡ ok b
    → (w : TxOut) × OutputIs noble network o w
      × ((rest : Bytes) → read_tx_out noble (b ++ rest) ≡ ok (w, rest))
unfolding serialize_tx_out read_tx_out read_i64
read_tx_out-serialize_tx_out noble network o b e =
    bind_inv (script_bytes noble o network) e λ script scripts e1.
      bind_inv (i64le o.value) e1 λ value_bytes values e2.
        bind_inv (encode_compact_size (number (pos (length script)))) e2 λ size sizes e3.
          let (value, is_value, value_fits, value_written) = i64le_ok _ value_bytes values in
          let (size_written, size_fits) = size_of (length script) size sizes in
          (
            record { value = pos value; script = script; script_hex = noble.bytes_to_hex script },
            record { value = is_value; script = scripts; script_hex = refl },
            λ rest. rw (← ok-injective e3) (
                rw (value_written, size_written)
                  (simp append_assoc (
                    rw (read_le-append 8 value _ (omega arith)) (
                      rw (positive value value_fits) (
                        rw (read_count-append (length script) _ size_fits)
                          (rw (read-append (length script) script rest refl) refl)))))),
          )
