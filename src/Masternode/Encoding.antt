-- ===== src/Masternode/Encoding.antt =====
-- `encodeMasternodeRegistration` of scripts/pqwallet/pqmasternode.js.
use organic_web_wallet.Prelude.{
  ℕ, ◌≡◌, refl, ap, Bool, true, false, not, ◌&&◌, ◌||◌, Option, none, some, [], ◌∷◌, ◌++◌, length,
  replicate, reverse, length-append, length-reverse, arith, ltb, leb, ◌==◌, if◌then◌else◌, Result,
  ok, err, ◌>>=◌, ◌>>◌, throw_if, require, bind_inv, require_ok, throw_inv, ok-injective, bad_hex,
  bad_collateral, public_key_size, signature_size, reward_range, payout_required,
}
use organic_web_wallet.Prelude.Int.{pos}
use organic_web_wallet.Platform.{Bytes, Text, Noble, NobleLaws, Numeric, number}
use organic_web_wallet.Address.{Network, pq_id_from_address, pq_public_key_size}
use organic_web_wallet.Address.Canonical.{pq_id_from_address-canonical}
use organic_web_wallet.Wire.Codec.{le_bytes, u32le}
use organic_web_wallet.Wire.Payload.{
  Field, absent, foreign, given, has_size, field_bytes, pq_signature_size,
}
use organic_web_wallet.Wire.CompactSize.{u32le_ok}
use organic_web_wallet.Wire.LittleEndian.{length-le_bytes}
use organic_web_wallet.Staking.{is_hash}
use organic_web_wallet.Masternode.Service.{encode_service, length-encode_service}

-- The collateral's outpoint, as the caller gives it.
pub record Collateral : Type 0 where
  pub txid : Text
  pub vout : Numeric

pub record Registration : Type 0 where
  pub collateral : Collateral
  pub owner_public_key : Field
  pub operator_public_key : Field
  pub collateral_public_key : Field
  pub payout_address : Text
  pub operator_payout_address : Option Text
  pub operator_reward : Option Numeric
  pub service : Option Text
  pub owner_signature : Field
  pub operator_signature : Field
  pub collateral_signature : Field

-- `/^0+$/`, of a text that is not empty
unfoldable pub all_zeros : Text → Bool
all_zeros [] = true
all_zeros (c ∷ cs) = c == b'0' && all_zeros cs

unfoldable pub encode_outpoint : Noble → Collateral → Result Bytes
encode_outpoint noble c = do
  throw_if (not (is_hash c.txid) || all_zeros c.txid) bad_collateral
  hash ← require (noble.hex_to_bytes c.txid) bad_hex
  vout ← u32le c.vout
  ok (reverse hash ++ vout)

unfoldable pub checked_public_key : Field → Result Bytes
checked_public_key key = do
  throw_if (not (has_size pq_public_key_size key)) public_key_size
  ok (field_bytes key)

-- `x ?? ZERO_SIGNATURE`
unfoldable pub or_zero_signature : Field → Field
or_zero_signature absent = given (replicate pq_signature_size 0)
or_zero_signature f = f

unfoldable pub checked_signature : Field → Result Bytes
checked_signature f = do
  throw_if (not (has_size pq_signature_size (or_zero_signature f))) signature_size
  ok (field_bytes (or_zero_signature f))

-- A whole Number from 0 to 10000; none is 0.
unfoldable pub reward_of : Option Numeric → Result ℕ
reward_of none = ok 0
reward_of (some (number (pos n))) = if leb n 10000 then ok n else err reward_range
reward_of (some _) = err reward_range

-- An empty address counts as none; without one the id is 32 zeros.
unfoldable pub operator_payout : Option Text → Network → Result Bytes
operator_payout (some (c ∷ cs)) network = pq_id_from_address (c ∷ cs) network
operator_payout _ network = ok (replicate 32 0)

unfoldable pub has_address : Option Text → Bool
has_address (some (c ∷ cs)) = true
has_address _ = false

unfoldable pub encode_masternode_registration : Noble → Registration → Network → Result Bytes
encode_masternode_registration noble r network = do
  reward ← reward_of r.operator_reward
  operator_id ← operator_payout r.operator_payout_address network
  throw_if (ltb 0 reward && not (has_address r.operator_payout_address)) payout_required
  point ← encode_outpoint noble r.collateral
  owner ← checked_public_key r.owner_public_key
  operator ← checked_public_key r.operator_public_key
  collateral ← checked_public_key r.collateral_public_key
  payout ← pq_id_from_address r.payout_address network
  service ← encode_service r.service
  owner_signature ← checked_signature r.owner_signature
  operator_signature ← checked_signature r.operator_signature
  collateral_signature ← checked_signature r.collateral_signature
  ok (
      (1 ∷ 1 ∷ [])
      ++ (point
          ++ (owner
              ++ (operator
                  ++ (collateral
                      ++ (payout
                          ++ (le_bytes 2 reward
                              ++ (operator_id
                                  ++ (service
                                      ++ (owner_signature
                                          ++ (operator_signature ++ collateral_signature)))))))))))

length-sized :
    (size : ℕ) (f : Field) → not (has_size size f) ≡ false → length (field_bytes f) ≡ size
unfolding has_size field_bytes
length-sized size (given b) h = ground arith
length-sized size absent h = cc
length-sized size foreign h = cc

length-checked_public_key : (f : Field) (b : Bytes) → checked_public_key f ≡ ok b → length b ≡ 1312
unfolding checked_public_key
length-checked_public_key f b h =
    throw_inv (not (has_size 1312 f)) _ _ h
      λ sized h1. rw (← ok-injective h1) (length-sized 1312 f sized)

length-checked_signature : (f : Field) (b : Bytes) → checked_signature f ≡ ok b → length b ≡ 2420
unfolding checked_signature
length-checked_signature f b h =
    throw_inv (not (has_size 2420 (or_zero_signature f))) _ _ h
      λ sized h1. rw (← ok-injective h1) (length-sized 2420 (or_zero_signature f) sized)

length-operator_payout :
    (a : Option Text) (network : Network) (b : Bytes)
    → operator_payout a network ≡ ok b
    → length b ≡ 32
unfolding operator_payout
length-operator_payout none network b h = rw (← ok-injective h) refl
length-operator_payout (some []) network b h = rw (← ok-injective h) refl
length-operator_payout (some (c ∷ cs)) network b h =
    (pq_id_from_address-canonical (c ∷ cs) network b h).0

-- The bytes of a transaction id are as many as its text has pairs of digits.
length-encode_outpoint :
    (noble : Noble) (laws : NobleLaws noble) (c : Collateral) (b : Bytes)
    → encode_outpoint noble c ≡ ok b
    → length b ≡ 36
unfolding encode_outpoint is_hash
length-encode_outpoint noble laws c b h =
    throw_inv (not (is_hash c.txid) || all_zeros c.txid) _ _ h λ shaped h1.
      bind_inv (require (noble.hex_to_bytes c.txid) bad_hex) h1 λ hash reads h2.
        bind_inv (u32le c.vout) h2 λ vout writes h3.
          let (n, _, _, vout_is) = u32le_ok c.vout vout writes in
          let size : length c.txid ≡ 64 = ground arith in
          omega (
            arith,
            ap length (ok-injective h3),
            length-append (reverse hash) vout,
            length-reverse hash,
            laws.length-hex_to_bytes c.txid hash (require_ok _ _ reads),
            size,
            ap length vout_is,
            length-le_bytes 4 n,
          )

-- The data of a registration has 11318 bytes, the number on which the estimate of its size is based.
pub length-encode_masternode_registration :
    (noble : Noble) (laws : NobleLaws noble) (r : Registration) (network : Network) (b : Bytes)
    → encode_masternode_registration noble r network ≡ ok b
    → length b ≡ 11318
unfolding encode_masternode_registration
length-encode_masternode_registration noble laws r network b h =
    bind_inv (reward_of r.operator_reward) h λ reward _ h1.
      bind_inv (operator_payout r.operator_payout_address network) h1 λ operator_id payouts h2.
        throw_inv (ltb 0 reward && not (has_address r.operator_payout_address)) _ _ h2 λ _ h3.
          bind_inv (encode_outpoint noble r.collateral) h3 λ point points h4.
            bind_inv (checked_public_key r.owner_public_key) h4 λ owner owners h5.
              bind_inv (checked_public_key r.operator_public_key) h5 λ operator operators h6.
                bind_inv (checked_public_key r.collateral_public_key) h6
                  λ collateral collaterals h7.
                    bind_inv (pq_id_from_address r.payout_address network) h7 λ payout pays h8.
                      bind_inv (encode_service r.service) h8 λ service serves h9.
                        bind_inv (checked_signature r.owner_signature) h9 λ s1 signs1 h10.
                          bind_inv (checked_signature r.operator_signature) h10 λ s2 signs2 h11.
                            bind_inv (checked_signature r.collateral_signature) h11 λ s3 signs3 h12.
                              omega (
                                arith,
                                ap length (ok-injective h12),
                                length-append {0},
                                length-encode_outpoint noble laws r.collateral point points,
                                length-checked_public_key _ owner owners,
                                length-checked_public_key _ operator operators,
                                length-checked_public_key _ collateral collaterals,
                                (pq_id_from_address-canonical r.payout_address network payout
                                    pays).0,
                                length-le_bytes 2 reward,
                                length-operator_payout _ network operator_id payouts,
                                (length-encode_service r.service service serves).0,
                                length-checked_signature _ s1 signs1,
                                length-checked_signature _ s2 signs2,
                                length-checked_signature _ s3 signs3,
                              )
