-- ===== src/Legacy/Recognised.antt =====
-- The scripts that scripts/transaction_builder.js writes and the recognisers of scripts/script.js.
use organic_web_wallet.Prelude.{
  ℕ, zero, suc, ◌≡◌, refl, ap, Bool, true, false, [], ◌∷◌, length, arith,
}
use organic_web_wallet.Platform.{Bytes}
use organic_web_wallet.Legacy.Script.{is_at, is_p2pkh, is_p2cs, is_p2exc, is_proposal_fee}
use organic_web_wallet.Legacy.Builder.{
  p2pkh_script, exchange_script, proposal_script, cold_stake_script,
}

-- The bytes of a list whose length is known, one by one
Sized : ℕ → Type 0
Sized zero = Unit {0}
Sized (suc n) = ℕ × Sized n

sized_bytes : (n : ℕ) → Sized n → Bytes
unfolding Sized
sized_bytes zero v = []
sized_bytes (suc n) v = v.0 ∷ sized_bytes n v.1

sized : (n : ℕ) (b : Bytes) → length b ≡ n → (v : Sized n) × (sized_bytes n v ≡ b)
unfolding Sized sized_bytes
sized zero [] h = (tt, refl)
sized zero (x ∷ b) h = absurd (omega (arith, h))
sized (suc n) [] h = absurd (omega (arith, h))
sized (suc n) (x ∷ b) h = let (v, is) = sized n b (omega (arith, h)) in ((x, v), ap (λ t. x ∷ t) is)

-- Which of the four recognisers takes a script
pub record Taken (script : Bytes) (p2pkh p2cs p2exc proposal : Bool) : Type 0 where
  pub as_p2pkh : is_p2pkh script ≡ p2pkh
  pub as_p2cs : is_p2cs script ≡ p2cs
  pub as_p2exc : is_p2exc script ≡ p2exc
  pub as_proposal : is_proposal_fee script ≡ proposal

p2pkh_script-Taken : (h : Bytes) → length h ≡ 20 → Taken (p2pkh_script h) true false false false
unfolding p2pkh_script is_at is_p2pkh is_p2cs is_p2exc is_proposal_fee sized_bytes Sized
p2pkh_script-Taken h long =
    let (v, is) = sized 20 h long in
    rw (← is) (record { as_p2pkh = refl; as_p2cs = refl; as_p2exc = refl; as_proposal = refl })

exchange_script-Taken :
    (h : Bytes) → length h ≡ 20 → Taken (exchange_script h) false false true false
unfolding p2pkh_script exchange_script is_at is_p2pkh is_p2cs is_p2exc is_proposal_fee sized_bytes
    Sized
exchange_script-Taken h long =
    let (v, is) = sized 20 h long in
    rw (← is) (record { as_p2pkh = refl; as_p2cs = refl; as_p2exc = refl; as_proposal = refl })

cold_stake_script-Taken :
    (owner staker : Bytes)
    → length owner ≡ 20
    → length staker ≡ 20
    → Taken (cold_stake_script owner staker) false true false false
unfolding cold_stake_script is_at is_p2pkh is_p2cs is_p2exc is_proposal_fee sized_bytes Sized
cold_stake_script-Taken owner staker long staker_long =
    let (v, is) = sized 20 owner long in
    let (u, is_staker) = sized 20 staker staker_long in
    rw (← is) (
      rw (← is_staker)
        (record { as_p2pkh = refl; as_p2cs = refl; as_p2exc = refl; as_proposal = refl }))

proposal_script-Taken :
    (h : Bytes) → length h ≡ 32 → Taken (proposal_script h) false false false true
unfolding proposal_script is_at is_p2pkh is_p2cs is_p2exc is_proposal_fee sized_bytes Sized
proposal_script-Taken h long =
    let (v, is) = sized 32 h long in
    rw (← is) (record { as_p2pkh = refl; as_p2cs = refl; as_p2exc = refl; as_proposal = refl })

-- For hashes of 20 bytes, and a proposal's hash of 32, each script that the builder writes is taken by
-- the recogniser of its kind, and by none of the other three.
pub scripts-Taken :
    (h staker hash : Bytes)
    → length h ≡ 20
    → length staker ≡ 20
    → length hash ≡ 32
    → Taken (p2pkh_script h) true false false false
      × (Taken (cold_stake_script h staker) false true false false
          × (Taken (exchange_script h) false false true false
              × Taken (proposal_script hash) false false false true))
scripts-Taken h staker hash long staker_long hash_long = (
  p2pkh_script-Taken h long,
  (
    cold_stake_script-Taken h staker long staker_long,
    (exchange_script-Taken h long, proposal_script-Taken hash hash_long),
  ),
)
