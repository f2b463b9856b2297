-- ===== src/Wire/Written.antt =====
-- How a serialized transfer of scripts/pqwallet/pqtxtx.js lies in its bytes.
use mathlib.Core.List.{flatten}
use organic_web_wallet.Prelude.{
  ℕ, suc, ◌^◌, ◌≤◌, ◌<◌, ◌≡◌, refl, ap, ◌||◌, some, List, [], ◌∷◌, ◌++◌, length, arith, ltb, ◌==◌,
  if◌then◌else◌, ok, map_result, bind_inv, throw_inv, ok-injective,
}
use organic_web_wallet.Prelude.Int.{pos}
use organic_web_wallet.Platform.{Bytes, Noble, number, whole, max_safe_integer}
use organic_web_wallet.Wire.Codec.{
  le_bytes, compact_size, read_i16, signed, i16le, u32le, to_big_int, encode_compact_size,
}
use organic_web_wallet.Wire.CompactSize.{read_le-append, u32le_ok}
use organic_web_wallet.Wire.Payload.{Input, Authorization, pq_stake_mode}
use organic_web_wallet.Wire.Serialize.{
  Request, serialize_tx_in, serialize_tx_out, resolve_payload, serialize_transfer,
}
use organic_web_wallet.Wire.Parse.{TxIn, SignedIn, Transaction, attach}
use organic_web_wallet.Wire.Lists.{Each}
use organic_web_wallet.Wire.PayloadTrip.{AuthorizationIs}
use organic_web_wallet.Wire.ItemTrips.{InputIs, OutputIs, size_of}

pub read_i16-append :
    (m : ℕ) (rest : Bytes) → m < 2 ^ 15 → read_i16 (le_bytes 2 m ++ rest) ≡ ok (pos m, rest)
unfolding read_i16 signed
read_i16-append m rest h = rw (read_le-append 2 m rest (omega arith)) (ground arith)

-- A parsed input is the caller's, with the caller's key and signature.
pub record SignedIs (noble : Noble) (i : Input) (s : SignedIn) : Type 0 where
  pub wire : InputIs noble i s.tx_in
  pub authorization :
      AuthorizationIs i (record { public_key = s.public_key; signature = s.signature })

pub record TransactionIs (noble : Noble) (r : Request) (raw : Bytes) (tx : Transaction)
    : Type 0 where
  pub inputs : Each (SignedIs noble) r.inputs tx.inputs
  pub outputs : Each (OutputIs noble r.network) r.outputs tx.outputs
  pub locktime : whole r.locktime ≡ some (pos tx.locktime)
  pub mode : tx.payload.mode ≡ r.mode
  pub payload_data : tx.payload.payload_data ≡ r.payload_data
  pub raw_bytes : tx.raw ≡ raw

pub Each-attach :
    (noble : Noble) (inputs : List Input) (wires : List TxIn) (authorizations : List Authorization)
    → Each (InputIs noble) inputs wires
    → Each AuthorizationIs inputs authorizations
    → Each (SignedIs noble) inputs (attach wires authorizations)
unfolding attach
Each-attach noble [] [] [] w a = tt
Each-attach noble [] [] (x ∷ xs) w a = absurd a
Each-attach noble [] (x ∷ xs) as' w a = absurd w
Each-attach noble (i ∷ inputs) [] as' w a = absurd w
Each-attach noble (i ∷ inputs) (x ∷ xs) [] w a = absurd a
Each-attach noble (i ∷ inputs) (x ∷ xs) (y ∷ ys) w a =
    (record { wire = w.0; authorization = a.0 }, Each-attach noble inputs xs ys w.1 a.1)

pub length-Each :
    {A B : Type 0} (E : A → B → Type 0) (xs : List A) (ys : List B)
    → Each E xs ys
    → length xs ≡ length ys
length-Each E [] [] h = refl
length-Each E [] (y ∷ ys) h = absurd h
length-Each E (x ∷ xs) [] h = absurd h
length-Each E (x ∷ xs) (y ∷ ys) h = ap suc (length-Each E xs ys h.1)

-- How a serialized transfer lies in its bytes.
pub record Written (noble : Noble) (r : Request) (raw : Bytes) : Type 0 where
  pub payload : Bytes
  pub inputs : List Bytes
  pub outputs : List Bytes
  pub lock : ℕ
  pub resolves : resolve_payload noble r ≡ ok payload
  pub writes_inputs : map_result (serialize_tx_in noble) r.inputs ≡ ok inputs
  pub writes_outputs : map_result (serialize_tx_out noble r.network) r.outputs ≡ ok outputs
  pub is_lock : whole r.locktime ≡ some (pos lock)
  pub lock_fits : lock < 2 ^ 32
  pub payload_fits : length payload ≤ max_safe_integer
  pub inputs_bounds : (1 ≤ length r.inputs) × (length r.inputs ≤ 2)
  pub outputs_bounds :
      (1 ≤ length r.outputs) × (length r.outputs ≤ (if r.mode == pq_stake_mode then 3 else 2))
  pub shape :
      le_bytes 2 3
        ++ (le_bytes 2 8
            ++ (compact_size (length r.inputs)
                ++ (flatten inputs
                    ++ (compact_size (length r.outputs)
                        ++ (flatten outputs
                            ++ (le_bytes 4 lock
                                ++ ((0x00 ∷ 0x01 ∷ [])
                                    ++ (compact_size (length payload) ++ payload))))))))
      ≡ raw

pub written :
    (noble : Noble) (r : Request) (raw : Bytes)
    → serialize_transfer noble r ≡ ok raw
    → Written noble r raw
unfolding serialize_transfer i16le to_big_int whole le_bytes
written noble r raw e =
    throw_inv (ltb (length r.inputs) 1 || ltb 2 (length r.inputs)) _ _ e λ few_inputs e1.
      throw_inv
        (ltb (length r.outputs) 1
          || ltb (if r.mode == pq_stake_mode then 3 else 2) (length r.outputs))
        _ _ e1
        λ few_outputs e2. bind_inv (resolve_payload noble r) e2 λ payload resolves e3.
          bind_inv (encode_compact_size (number (pos (length r.inputs)))) e3 λ n n_written e6.
            bind_inv (map_result (serialize_tx_in noble) r.inputs) e6 λ inputs writes_inputs e7.
              bind_inv (encode_compact_size (number (pos (length r.outputs)))) e7 λ m m_written e8.
                bind_inv (map_result (serialize_tx_out noble r.network) r.outputs) e8
                  λ outputs writes_outputs e9.
                    bind_inv (u32le r.locktime) e9 λ lock_bytes locks e10.
                      bind_inv (encode_compact_size (number (pos (length payload)))) e10
                        λ size sizes e11.
                          let (n_size, _) = size_of (length r.inputs) n n_written in
                          let (m_size, _) = size_of (length r.outputs) m m_written in
                          let (payload_size, payload_fits) = size_of (length payload) size sizes in
                          let (lock, is_lock, lock_fits, lock_size) =
                            u32le_ok r.locktime lock_bytes locks in
                          record {
                            payload = payload;
                            inputs = inputs;
                            outputs = outputs;
                            lock = lock;
                            resolves = resolves;
                            writes_inputs = writes_inputs;
                            writes_outputs = writes_outputs;
                            is_lock = is_lock;
                            lock_fits = omega arith;
                            payload_fits = payload_fits;
                            inputs_bounds = ground arith;
                            outputs_bounds = ground arith;
                            shape =
                                rw (n_size, m_size, payload_size, lock_size) at (ok-injective e11);
                          }
