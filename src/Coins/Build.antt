-- ===== src/Coins/Build.antt =====
-- What a single attempt at a selection gives.
use mathlib.Core.Path.{subst}
use organic_web_wallet.Prelude.{
  require_ok, ok_some-injective, ok_none-ne-ok_some, leb→le, ltb→le, ℕ, ◌+◌, ◌-◌, ◌≤◌, ◌<◌, ◌≡◌,
  ◌⊎◌, inl, inr, refl, not, none, some, List, [], ◌∷◌, length, arith, ltb, leb, if◌then◌else◌, ok,
  ◌>>=◌, require, bind_inv, Bool-cases, missing_change_address,
}
use organic_web_wallet.Platform.{Text}
use organic_web_wallet.Coins.{
  Coin, Paid, Selection, Ask, total_of, fee_for, transfer_size, compact_size_length, given_address,
  build_selection, without_change, with_change, pq_dust_sats,
}

abbrev pub paid : List Paid → ℕ
paid [] = 0
paid (p ∷ outputs) = p.value + paid outputs

-- The coins can pay the amount and the fee of a transfer with one output.
abbrev pub Affordable : Ask → List Coin → Type 0
Affordable ask inputs = ask.amount + fee_for (length inputs) 1 ask.fee_rate ≤ total_of inputs

abbrev pub recipient_output : Ask → Paid
recipient_output ask = record { value = ask.amount; address = ask.recipient }

-- All that is left over is the fee: no more than what a change output and dust would cost.
pub record NoChange (ask : Ask) (s : Selection) : Type 0 where
  pub outputs : s.outputs ≡ recipient_output ask ∷ []
  pub change : s.change ≡ 0
  pub bounded : s.fee < fee_for (length s.inputs) 2 ask.fee_rate + pq_dust_sats

-- The change goes to the change address and is no dust; the fee is exact.
pub record Change (ask : Ask) (s : Selection) : Type 0 where
  pub address : Text
  pub given : given_address ask.change_address ≡ some address
  pub outputs :
      s.outputs ≡ recipient_output ask ∷ record { value = s.change; address = address } ∷ []
  pub fee : s.fee ≡ fee_for (length s.inputs) 2 ask.fee_rate
  pub no_dust : pq_dust_sats ≤ s.change

pub record IsSelection (ask : Ask) (s : Selection) : Type 0 where
  pub conserved : total_of s.inputs ≡ paid s.outputs + s.fee
  pub enough : fee_for (length s.inputs) (length s.outputs) ask.fee_rate ≤ s.fee
  pub shape : NoChange ask s ⊎ Change ask s

size_step : (n : ℕ) → transfer_size n 2 ≡ transfer_size n 1 + 44
unfolding transfer_size compact_size_length
size_step n = ground arith

pub fee_mono : (n rate : ℕ) → fee_for n 1 rate ≤ fee_for n 2 rate
unfolding fee_for
fee_mono n rate = rw size_step (grind arith)

pub build_none :
    (ask : Ask) (inputs : List Coin)
    → build_selection ask inputs ≡ ok none
    → ¬ Affordable ask inputs
unfolding build_selection
build_none ask inputs h = ground arith

pub record Built (ask : Ask) (inputs : List Coin) (s : Selection) : Type 0 where
  pub affordable : Affordable ask inputs
  pub same_inputs : s.inputs ≡ inputs
  pub is_selection : IsSelection ask s

without_change-Built :
    (ask : Ask) (inputs : List Coin)
    → Affordable ask inputs
    → total_of inputs < ask.amount + fee_for (length inputs) 2 ask.fee_rate + pq_dust_sats
    → Built ask inputs (without_change ask inputs)
unfolding without_change
without_change-Built ask inputs h small = record {
  affordable = h;
  same_inputs = refl;
  is_selection = record {
    conserved = omega arith;
    enough = omega arith;
    shape = inl (record { outputs = refl; change = refl; bounded = omega arith });
  };
}

with_change-Built :
    (ask : Ask) (inputs : List Coin) (address : Text)
    → Affordable ask inputs
    → given_address ask.change_address ≡ some address
    → pq_dust_sats ≤ total_of inputs - ask.amount - fee_for (length inputs) 2 ask.fee_rate
    → Built ask inputs (with_change ask inputs address)
unfolding with_change
with_change-Built ask inputs address h given enough = record {
  affordable = h;
  same_inputs = refl;
  is_selection = record {
    conserved = omega arith;
    enough = omega arith;
    shape =
        inr (record {
          address = address;
          given = given;
          outputs = refl;
          fee = refl;
          no_dust = enough;
        });
  };
}

-- The branch where the change of a transfer with one output is no dust.
build_large :
    (ask : Ask) (inputs : List Coin) (s : Selection)
    → Affordable ask inputs
    → (require (given_address ask.change_address) missing_change_address >>= λ address. ok (
        some (
          if leb pq_dust_sats
            (total_of inputs - ask.amount - fee_for (length inputs) 2 ask.fee_rate)
          then with_change ask inputs address
          else without_change ask inputs)))
      ≡ ok (some s)
    → Built ask inputs s
build_large ask inputs s h e =
    bind_inv (require (given_address ask.change_address) missing_change_address) e
      λ address found e1.
        let given : given_address ask.change_address ≡ some address = require_ok _ _ found in
        elim (Bool-cases (
          leb pq_dust_sats
            (total_of inputs - ask.amount - fee_for (length inputs) 2 ask.fee_rate))) [
              | inl large ↦
                  subst (Built ask inputs) (ok_some-injective (rw large at e1))
                    (with_change-Built ask inputs address h given (leb→le _ _ large))
              | inr small ↦
                  subst (Built ask inputs) (ok_some-injective (rw small at e1))
                    (without_change-Built ask inputs h (ground arith))
            ]

-- Every selection that an attempt gives is one of its coins, which can pay for it.
pub build_some :
    (ask : Ask) (inputs : List Coin) (s : Selection)
    → build_selection ask inputs ≡ ok (some s)
    → Built ask inputs s
unfolding build_selection
build_some ask inputs s h =
    let total = total_of inputs in
    let one = fee_for (length inputs) 1 ask.fee_rate in
    elim (Bool-cases (ltb total (ask.amount + one))) [
      | inl poor ↦ absurd (ok_none-ne-ok_some (rw poor at h))
      | inr rich ↦ elim (Bool-cases (not (leb pq_dust_sats (total - ask.amount - one)))) [
        | inl dust ↦ subst (Built ask inputs) (ok_some-injective (rw (rich, dust) at h)) (
            without_change-Built ask inputs (ltb→le _ _ rich)
              (ground (arith, fee_mono (length inputs) ask.fee_rate)))
        | inr large ↦ build_large ask inputs s (ltb→le _ _ rich) (rw (rich, large) at h)
      ]
    ]
