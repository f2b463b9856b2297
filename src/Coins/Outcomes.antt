-- ===== src/Coins/Outcomes.antt =====
-- The properties of `selectCoins`: what a selection is worth, and what a failure means.
use organic_web_wallet.Prelude.{
  ◌+◌, ◌≤◌, ◌≡◌, ◌⊎◌, inl, inr, ap, not, none, some, List, [], ◌∷◌, length, All, arith, ltb, leb,
  ◌==◌, if◌then◌else◌, Error, ok, err, bind_inv, throw_inv, ok-injective, Result-cases, Bool-cases,
  too_many_inputs, insufficient_funds, map_result, ltb→le, ok-ne-err,
}
use organic_web_wallet.Platform.{Text}
use organic_web_wallet.Coins.{
  Coin, Selection, Ask, to_big_int, total_of, fee_for, build_selection, given_address, pq_dust_sats,
}
use organic_web_wallet.Coins.Search.{
  Best, SelectRequest, first_single, try_pair, pairs_with, all_pairs, is_no_better, sort_by_value,
  search_coins, select_coins, check_request, give_up, candidate, chosen_rate, positive, magnitude,
}
use organic_web_wallet.Coins.Sort.{AllPairs, of_All-sort, of_AllPairs-sort}
use organic_web_wallet.Coins.Build.{Affordable, IsSelection, NoChange, Change}
use organic_web_wallet.Coins.Loops.{TwoOf, single_none, Covers, all_pairs_lem, every_two}
use organic_web_wallet.Coins.Select.{TakenFrom, Cheapest, Found, found, total_two}

-- The amount that passes the checks.
check_bounds :
    (r : SelectRequest) (ask : Ask) (candidates : List Coin)
    → check_request r ≡ ok (ask, candidates)
    → pq_dust_sats ≤ ask.amount
unfolding check_request
check_bounds r ask candidates h = bind_inv (to_big_int r.amount_sats) h λ amount _ h1.
    throw_inv (not (positive amount)) _ _ h1 λ _ h2.
      throw_inv (ltb (magnitude amount) pq_dust_sats) _ _ h2 λ large h3.
        bind_inv (to_big_int (chosen_rate r.fee_rate r.configured)) h3 λ rate _ h4.
          throw_inv (not (positive rate)) _ _ h4 λ _ h5.
            throw_inv (length r.recipient_address == 0) _ _ h5 λ _ h6.
              throw_inv (length r.utxos == 0) _ _ h6 λ _ h7.
                bind_inv (map_result candidate r.utxos) h7 λ coins _ h8.
                  rw (← ap (λ (p : Ask × List Coin). p.0.amount) (ok-injective h8))
                    (ltb→le _ _ large)

outputs_no_dust :
    (ask : Ask) (s : Selection)
    → pq_dust_sats ≤ ask.amount
    → NoChange ask s ⊎ Change ask s
    → All (λ p. pq_dust_sats ≤ p.value) s.outputs
outputs_no_dust ask s h (inl c) = rw c.outputs (h, tt)
outputs_no_dust ask s h (inr c) = rw c.outputs (h, (c.no_dust, tt))

-- A selection takes one or two different candidates and pays the amount to the recipient: what its
-- coins are worth is what its outputs and its fee are worth; the fee is at least that of its size
-- at the fee rate; either the one output leaves a surplus fee below the cost of a change output and
-- dust, or the second output is change to the change address at the exact fee; no output is dust.
pub select_coins-IsSelection :
    (r : SelectRequest) (ask : Ask) (candidates : List Coin) (s : Selection)
    → check_request r ≡ ok (ask, candidates)
    → select_coins r ≡ ok s
    → IsSelection ask s × TakenFrom candidates s × All (λ p. pq_dust_sats ≤ p.value) s.outputs
unfolding select_coins
select_coins-IsSelection r ask candidates s checks h =
    let f : Found ask candidates s = found ask candidates s (rw checks at h) in
    (
      f.is_selection,
      f.taken,
      outputs_no_dust ask s (check_bounds r ask candidates checks) f.is_selection.shape,
    )

-- A selection is the cheapest: a single coin is the least of those that can pay the amount and the
-- fee by themselves; two coins are only taken where no single one can pay, and no other pair that
-- can pay is worth less.
pub select_coins-Cheapest :
    (r : SelectRequest) (ask : Ask) (candidates : List Coin) (s : Selection)
    → check_request r ≡ ok (ask, candidates)
    → select_coins r ≡ ok s
    → Cheapest ask candidates s
unfolding select_coins
select_coins-Cheapest r ask candidates s checks h =
    let f : Found ask candidates s = found ask candidates s (rw checks at h) in f.cheapest

module _ (ask : Ask) (address : Text)
    (given : given_address ask.change_address ≡ some address) where
  build_total : (inputs : List Coin) (e : Error) → build_selection ask inputs ≡ err e → ⊥
  unfolding build_selection
  build_total inputs e h = ground (arith, given)

  single_total : (coins : List Coin) (e : Error) → first_single ask coins ≡ err e → ⊥
  unfolding first_single
  single_total [] e h = cc
  single_total (c ∷ coins) e h = elim (Result-cases (build_selection ask (c ∷ []))) [
    | inl (none, b) ↦ single_total coins e (rw b at h)
    | inl (some s, b) ↦ ground (arith, b)
    | inr (e', b) ↦ absurd (build_total (c ∷ []) e' b)
  ]

  pair_total : (c d : Coin) (best : Best) (e : Error) → try_pair ask c d best ≡ err e → ⊥
  unfolding try_pair
  pair_total c d best e h = elim (Bool-cases (is_no_better best (total_of (c ∷ d ∷ [])))) [
    | inl worse ↦ ok-ne-err (rw worse at h)
    | inr better ↦ elim (Result-cases (build_selection ask (c ∷ d ∷ []))) [
      | inl (found, b) ↦ ok-ne-err (rw (better, b) at h)
      | inr (e', b) ↦ build_total (c ∷ d ∷ []) e' b
    ]
  ]

  pairs_total :
      (c : Coin) (coins : List Coin) (best : Best) (e : Error)
      → pairs_with ask c coins best ≡ err e
      → ⊥
  unfolding pairs_with
  pairs_total c [] best e h = cc
  pairs_total c (d ∷ coins) best e h = elim (Result-cases (try_pair ask c d best)) [
    | inl (best', t) ↦ pairs_total c coins best' e (rw t at h)
    | inr (e', t) ↦ absurd (pair_total c d best e' t)
  ]

  all_total : (coins : List Coin) (best : Best) (e : Error) → all_pairs ask coins best ≡ err e → ⊥
  unfolding all_pairs
  all_total [] best e h = cc
  all_total (c ∷ coins) best e h = elim (Result-cases (pairs_with ask c coins best)) [
    | inl (best', t) ↦ all_total coins best' e (rw t at h)
    | inr (e', t) ↦ absurd (pairs_total c coins best e' t)
  ]

  -- No coin and no pair can pay.
  abbrev Hopeless : List Coin → Type 0
  Hopeless candidates =
      All (λ c. ¬ Affordable ask (c ∷ [])) candidates
      × AllPairs (λ c d. ¬ Affordable ask (c ∷ d ∷ [])) candidates

  nothing_better :
      (coins : List Coin)
      → AllPairs (Covers ask none) coins
      → AllPairs (λ c d. ¬ Affordable ask (c ∷ d ∷ [])) coins
  nothing_better coins h = h

  swapped : (c d : Coin) → ¬ Affordable ask (c ∷ d ∷ []) → ¬ Affordable ask (d ∷ c ∷ [])
  swapped c d h a = h (omega (arith, total_two c d, total_two d c))

  give_up_error :
      (candidates : List Coin) (e : Error)
      → give_up ask candidates ≡ err e
      → e ≡ (
          if leb (ask.amount + fee_for 3 1 ask.fee_rate) (total_of candidates)
          then too_many_inputs
          else insufficient_funds)
  unfolding give_up
  give_up_error candidates e h = ground arith

  hopeless :
      (candidates : List Coin) (e : Error)
      → search_coins ask candidates ≡ err e
      → Hopeless candidates
        × (e ≡ (
            if leb (ask.amount + fee_for 3 1 ask.fee_rate) (total_of candidates)
            then too_many_inputs
            else insufficient_funds))
  unfolding search_coins
  hopeless candidates e h =
      let sorted = sort_by_value candidates in
      elim (Result-cases (first_single ask sorted)) [
        | inr (e', f) ↦ absurd (single_total sorted e' f)
        | inl (some s, f) ↦ absurd (ok-ne-err (rw f at h))
        | inl (none, f) ↦ elim (Result-cases (all_pairs ask sorted none)) [
          | inr (e', g) ↦ absurd (all_total sorted none e' g)
          | inl (some (s, b), g) ↦ absurd (ok-ne-err (rw (f, g) at h))
          | inl (none, g) ↦
              let round =
                all_pairs_lem ask (TwoOf sorted) sorted none none (every_two sorted) tt g in
              (
                (
                  of_All-sort (λ c. ¬ Affordable ask (c ∷ [])) candidates
                      (single_none ask sorted f),
                  of_AllPairs-sort (λ c d. ¬ Affordable ask (c ∷ d ∷ [])) swapped candidates
                      (nothing_better sorted round.seen),
                ),
                give_up_error candidates e (rw (f, g) at h),
              )
        ]
      ]

-- Where a change address is given and the arguments pass the checks, a failure means that no candidate and no two
-- candidates can pay the amount and the fee, so the selection is complete; the error says whether
-- all candidates together could pay as three inputs.
pub select_coins-fails :
    (r : SelectRequest) (ask : Ask) (candidates : List Coin) (address : Text) (e : Error)
    → check_request r ≡ ok (ask, candidates)
    → given_address ask.change_address ≡ some address
    → select_coins r ≡ err e
    → All (λ c. ¬ Affordable ask (c ∷ [])) candidates
      × AllPairs (λ c d. ¬ Affordable ask (c ∷ d ∷ [])) candidates
      × (e ≡ (
          if leb (ask.amount + fee_for 3 1 ask.fee_rate) (total_of candidates)
          then too_many_inputs
          else insufficient_funds))
unfolding select_coins
select_coins-fails r ask candidates address e checks given h =
    let ((singles, pairs), error) = hopeless ask address given candidates e (rw checks at h) in
    (singles, pairs, error)
