-- ===== src/Wire/PayloadTrip.antt =====
-- A payload that `buildPayload` makes is parsed back.
use mathlib.Core.Path.{subst}
use mathlib.Core.List.{append_assoc, append-nil}
use organic_web_wallet.Prelude.{
  ℕ, suc, ◌+◌, ◌-◌, ◌*◌, ◌%◌, ◌≤◌, ◌<◌, ◌≡◌, refl, ap, ◌∙◌, sym, true, false, not, ◌&&◌, ◌||◌, List,
  [], ◌∷◌, ◌++◌, length, drop, arith, ltb, ◌==◌, if◌then◌else◌, ok, bind_inv, throw_inv,
  ok-injective, not-false, take-append_eq, drop-append_eq, length-append, Bool-cases, inl, inr,
}
use organic_web_wallet.Prelude.Int.{pos}
use organic_web_wallet.Platform.{Bytes, number}
use organic_web_wallet.Wire.Codec.{compact_size, encode_compact_size, read_compact_size_at}
use organic_web_wallet.Wire.CompactSize.{read_compact_size-append, encode_compact_size_lem}
use organic_web_wallet.Wire.Payload.{
  Field, absent, foreign, given, Input, Authorization, Payload, mode_has_data, has_size,
  field_bytes, build_authorizations, build_payload, split_authorizations, parse_payload_data,
  parse_payload, pq_masternode_mode, pq_max_masternode_data_bytes,
}
use organic_web_wallet.Wire.Lists.{Each}

-- The authorization of an input is the key and the signature that it carries.
abbrev pub AuthorizationIs : Input → Authorization → Type 0
AuthorizationIs i a = (i.public_key ≡ given a.public_key) × (i.signature ≡ given a.signature)

pub sized :
    (size : ℕ) (f : Field)
    → has_size size f ≡ true
    → (f ≡ given (field_bytes f)) × (length (field_bytes f) ≡ size)
unfolding has_size field_bytes
sized size (given b) h = (refl, ground arith)
sized size absent h = cc
sized size foreign h = cc

pub split-build :
    (inputs : List Input) (b : Bytes)
    → build_authorizations inputs ≡ ok b
    → (found : List Authorization) × Each AuthorizationIs inputs found
      × ((rest : Bytes) → split_authorizations (length inputs) (b ++ rest) ≡ found)
      × (length b ≡ length inputs * 3732)
      × (length found ≡ length inputs)
unfolding build_authorizations split_authorizations
split-build [] b e = ([], tt, (λ rest. refl), rw (← ok-injective e) refl, refl)
split-build (i ∷ inputs) b e = throw_inv (not (has_size 1312 i.public_key)) _ _ e λ key_fits e1.
    throw_inv (not (has_size 2420 i.signature)) _ _ e1 λ signature_fits e2.
      bind_inv (build_authorizations inputs) e2 λ more builds e3.
        let (is_key, key_size) = sized 1312 i.public_key (not-false _ key_fits) in
        let (is_signature, signature_size) = sized 2420 i.signature (not-false _ signature_fits) in
        let (found, each, splits, size, count) = split-build inputs more builds in
        let key = field_bytes i.public_key in
        let signature = field_bytes i.signature in
        let is_b : key ++ (signature ++ more) ≡ b = ok-injective e3 in
        (
          record { public_key = key; signature = signature } ∷ found,
          ((is_key, is_signature), each),
          (λ rest. rw (← is_b) (
              rw append_assoc (
                rw append_assoc (
                  rw (take-append_eq 1312 key (signature ++ (more ++ rest)) key_size) (
                    rw (drop-append_eq 1312 key (signature ++ (more ++ rest)) key_size) (
                      rw (take-append_eq 2420 signature (more ++ rest) signature_size) (
                        rw (drop-append_eq 2420 signature (more ++ rest) signature_size)
                          (rw (splits rest) refl)))))))),
          rw (← is_b)
              (omega (arith, length-append key (signature ++ more), length-append signature more)),
          ap suc count,
        )

data_reads :
    (front found : Bytes) (mode end : ℕ)
    → mode_has_data mode ≡ true
    → length front ≡ end
    → 1 ≤ length found
    → length found ≤ pq_max_masternode_data_bytes
    → parse_payload_data (front ++ (compact_size (length found) ++ found)) mode end ≡ ok found
unfolding parse_payload_data read_compact_size_at
data_reads front found mode end has size l1 l2 =
    let prefix = compact_size (length found) in
    let all = front ++ (prefix ++ found) in
    let total : length all ≡ end + (length prefix + length found) =
      omega (arith, length-append front (prefix ++ found), length-append prefix found) in
    let enough : ltb (length all) end ≡ false = ground arith in
    let bounded : (length found == 0 || ltb pq_max_masternode_data_bytes (length found)) ≡ false =
      ground arith in
    let adds : (length all - length found + length found == length all) ≡ true = ground arith in
    let cut : drop (length all - length found) all ≡ found =
      rw (← append_assoc front prefix found) (
        drop-append_eq _ (front ++ prefix) found
          (omega (arith, length-append front prefix, length-append (front ++ prefix) found))) in
    rw has (
      rw enough (
        rw (drop-append_eq end front (prefix ++ found) size) (
          rw (read_compact_size-append (length found) found (omega arith))
            (rw bounded (rw adds (rw cut refl))))))

no_data_reads :
    (front : Bytes) (mode end : ℕ)
    → mode_has_data mode ≡ false
    → length front ≡ end
    → parse_payload_data (front ++ []) mode end ≡ ok []
unfolding parse_payload_data
no_data_reads front mode end has size = rw (append-nil, has) (rw size (ground arith))

is_empty : (s : Bytes) → length s ≡ 0 → s ≡ []
is_empty [] h = refl
is_empty (b ∷ s) h = absurd (omega arith)

tail_reads :
    (front found : Bytes) (mode end : ℕ)
    → (mode_has_data mode && length found == 0) ≡ false
    → (not (mode_has_data mode) && not (length found == 0)) ≡ false
    → length front ≡ end
    → length found ≤ pq_max_masternode_data_bytes
    → parse_payload_data
        (front ++ (if mode_has_data mode then compact_size (length found) ++ found else []))
        mode
        end
      ≡ ok found
tail_reads front found mode end required refused size short =
    elim (Bool-cases (mode_has_data mode)) [
      | inl has ↦ rw has (data_reads front found mode end has size (ground arith) short)
      | inr has ↦ rw (has, is_empty found (ground arith)) (no_data_reads front mode end has size)
    ]

-- What `parsePayload` finds in the bytes that `buildPayload` made.
pub record PayloadIs (inputs : List Input) (mode : ℕ) (given_data b : Bytes) (p : Payload)
    : Type 0 where
  pub same_mode : p.mode ≡ mode
  pub same_data : p.payload_data ≡ given_data
  pub same_bytes : p.hex ≡ b
  pub authorized : Each AuthorizationIs inputs p.authorizations
  pub count : length p.authorizations ≡ length inputs

parses :
    (inputs : List Input) (found : List Authorization) (mode : ℕ)
    (given_data authorizations tail : Bytes)
    → length inputs < 256
    → ((rest : Bytes) → split_authorizations (length inputs) (authorizations ++ rest) ≡ found)
    → length authorizations ≡ length inputs * 3732
    → parse_payload_data
        (((1 ∷ mode ∷ (length inputs % 256) ∷ []) ++ authorizations) ++ tail)
        mode
        (3 + length inputs * 3732)
      ≡ ok given_data
    → let b : Bytes = (1 ∷ mode ∷ (length inputs % 256) ∷ []) ++ (authorizations ++ tail) in
      parse_payload b
      ≡ ok (record {
        version = 1;
        mode = mode;
        authorizations = found;
        payload_data = given_data;
        hex = b;
      })
unfolding parse_payload
parses inputs found mode given_data authorizations tail few splits size reads =
    let small : length inputs % 256 ≡ length inputs = omega arith in
    let b : Bytes = 1 ∷ mode ∷ length inputs ∷ (authorizations ++ tail) in
    let long : ltb (length b) 3 ≡ false = ground arith in
    let enough : ltb (length b) (3 + length inputs * 3732) ≡ false =
      ground (arith, length-append authorizations tail) in
    let reads' : parse_payload_data b mode (3 + length inputs * 3732) ≡ ok given_data =
      rw small at reads in
    rw small (rw long (rw enough (rw reads' (rw (splits tail) refl))))

-- A payload that `buildPayload` makes of at most 255 inputs, with data of no more than 12000 bytes,
-- is parsed to the same mode and data and to the authorizations of those inputs, in order.
pub parse_payload-build_payload :
    (inputs : List Input) (mode : ℕ) (given_data b : Bytes)
    → length inputs < 256
    → length given_data ≤ pq_max_masternode_data_bytes
    → build_payload inputs mode given_data ≡ ok b
    → (p : Payload) × (parse_payload b ≡ ok p) × PayloadIs inputs mode given_data b p
unfolding build_payload
parse_payload-build_payload inputs mode given_data b few short e =
    throw_inv (ltb 255 mode) _ _ e λ _ e1.
      throw_inv (mode_has_data mode && length given_data == 0) _ _ e1 λ required e2.
        throw_inv (not (mode_has_data mode) && not (length given_data == 0)) _ _ e2 λ refused e3.
          throw_inv (mode == pq_masternode_mode && ltb 12000 (length given_data)) _ _ e3 λ _ e4.
            bind_inv (build_authorizations inputs) e4 λ authorizations builds e5.
              bind_inv (encode_compact_size (number (pos (length given_data)))) e5 λ size sizes e6.
                let (found, each, splits, total, count) =
                  split-build inputs authorizations builds in
                let is_size : size ≡ compact_size (length given_data) =
                  ok-injective
                    (sym sizes ∙ encode_compact_size_lem (length given_data) (omega arith)) in
                let front = (1 ∷ mode ∷ (length inputs % 256) ∷ []) ++ authorizations in
                let reads =
                  tail_reads front given_data mode (3 + length inputs * 3732) required refused
                    (omega arith) short in
                let built : Payload = record {
                  version = 1;
                  mode = mode;
                  authorizations = found;
                  payload_data = given_data;
                  hex = b;
                } in
                let is_b = rw is_size at (ok-injective e6) in
                (
                  built,
                  subst (λ t. parse_payload t ≡ ok (record built { hex = t })) is_b
                      (parses inputs found mode given_data authorizations _ few splits total reads),
                  record {
                    same_mode = refl;
                    same_data = refl;
                    same_bytes = refl;
                    authorized = each;
                    count = count;
                  },
                )
