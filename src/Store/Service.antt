-- ===== src/Store/Service.antt =====
-- The services that a backup may hold are those that a registration can encode.
use organic_web_wallet.Prelude.{
  ◌≡◌, refl, Bool, true, false, [], ◌∷◌, some, Result, ok, err, require, Result-cases, inl, inr,
  arith, service_form,
}
use organic_web_wallet.Platform.{Text, Bytes}
use organic_web_wallet.Masternode.Service.{encode_service, encode_endpoint, read_part, read_number}
use organic_web_wallet.Store.Checks.{read_service, good_endpoint, valid_service}

abbrev pub succeeds : Result Bytes → Bool
succeeds (ok b) = true
succeeds (err e) = false

good_endpoint-encode_endpoint :
    (t : Text) → good_endpoint (read_service t) ≡ succeeds (encode_endpoint t)
unfolding read_service encode_endpoint good_endpoint
good_endpoint-encode_endpoint t = elim (Result-cases (read_part b'.' t)) [
  | inr (e, fails) ↦ rw fails refl
  | inl ((a, t1), first) ↦ rw first (elim (Result-cases (read_part b'.' t1)) [
    | inr (e, fails) ↦ rw fails refl
    | inl ((b, t2), second) ↦ rw second (elim (Result-cases (read_part b'.' t2)) [
      | inr (e, fails) ↦ rw fails refl
      | inl ((c, t3), third) ↦ rw third (elim (Result-cases (read_part b':' t3)) [
        | inr (e, fails) ↦ rw fails refl
        | inl ((d, t4), fourth) ↦
            rw fourth (elim (Result-cases (require (read_number 5 t4) service_form)) [
              | inr (e, fails) ↦ rw fails refl
              | inl ((port, rest), fifth) ↦ rw fifth (ground arith)
            ])
      ])
    ])
  ])
]

-- A service may stand in a backup exactly where the registration of a masternode can encode it.
pub valid_service-encode_service : (t : Text) → valid_service t ≡ succeeds (encode_service (some t))
unfolding valid_service encode_service
valid_service-encode_service [] = refl
valid_service-encode_service (c ∷ cs) = good_endpoint-encode_endpoint (c ∷ cs)
