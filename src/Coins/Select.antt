-- ===== src/Coins/Select.antt =====
-- What `selectCoins` chooses, and when it fails.
use mathlib.Core.Path.{subst}
use organic_web_wallet.Prelude.{
  ℕ, ◌+◌, ◌≤◌, ◌≡◌, ◌⊎◌, inl, inr, sym, ap, ◌∙◌, none, some, List, [], ◌∷◌, length, All, All-imp,
  arith, ok, bind_inv, ok-injective, Option-cases,
}
use organic_web_wallet.Coins.{Coin, Selection, Ask, total_of}
use organic_web_wallet.Coins.Search.{
  Best, first_single, all_pairs, sort_by_value, search_coins, give_up,
}
use organic_web_wallet.Coins.Sort.{
  AllPairs, Below, of_All-sort, of_AllPairs-sort, sort-IsSorted, sort-perm,
}
use organic_web_wallet.Coins.Build.{Affordable, IsSelection}
use organic_web_wallet.Coins.Loops.{
  OneOf, TwoOf, Single, single_none, first_single-found, GoodBest, Covers, all_pairs_lem, every_two,
}
use mathlib.Core.List.Perm

-- The coins of `s` are one or two different ones of the candidates.
abbrev pub TakenFrom : List Coin → Selection → Type 0
TakenFrom candidates s =
    ((c : Coin) × (s.inputs ≡ c ∷ []) × OneOf candidates c)
    ⊎ ((c : Coin) × (d : Coin) × (s.inputs ≡ c ∷ d ∷ []) × TwoOf candidates c d)

-- A single coin is the least that can pay; a pair is the cheapest, and no single coin can pay.
abbrev pub Cheapest : Ask → List Coin → Selection → Type 0
Cheapest ask candidates s =
    ((length s.inputs ≡ 1)
      × All (λ d. Affordable ask (d ∷ []) → total_of s.inputs ≤ d.value_sats) candidates)
    ⊎ ((length s.inputs ≡ 2)
        × All (λ d. ¬ Affordable ask (d ∷ [])) candidates
        × AllPairs (λ c d. Affordable ask (c ∷ d ∷ []) → total_of s.inputs ≤ total_of (c ∷ d ∷ []))
            candidates)

pub record Found (ask : Ask) (candidates : List Coin) (s : Selection) : Type 0 where
  pub is_selection : IsSelection ask s
  pub taken : TakenFrom candidates s
  pub cheapest : Cheapest ask candidates s

total_one : (c : Coin) → total_of (c ∷ []) ≡ c.value_sats
unfolding total_of
total_one c = omega arith

pub total_two : (c d : Coin) → total_of (c ∷ d ∷ []) ≡ c.value_sats + d.value_sats
unfolding total_of
total_two c d = omega arith

-- Both orders of a pair have one total.
pub symmetric :
    (ask : Ask) (t : ℕ) (c d : Coin)
    → (Affordable ask (c ∷ d ∷ []) → t ≤ total_of (c ∷ d ∷ []))
    → Affordable ask (d ∷ c ∷ [])
    → t ≤ total_of (d ∷ c ∷ [])
symmetric ask t c d f a =
    omega (arith, f (omega (arith, total_two c d, total_two d c)), total_two c d, total_two d c)

found_single :
    (ask : Ask) (candidates : List Coin) (s : Selection)
    → Single ask (sort_by_value candidates) s
    → Found ask candidates s
found_single ask candidates s h =
    let (rest, p) = h.from_coins in
    let same = h.built.same_inputs in
    record {
      is_selection = h.built.is_selection;
      taken = inl (h.coin, same, (rest, Perm.trans p (sort-perm candidates)));
      cheapest = inl (
        ap length same,
        All-imp (λ d least a. rw same (omega (arith, total_one h.coin, least a))) candidates
            (of_All-sort (λ d. Affordable ask (d ∷ []) → Below h.coin d) candidates h.least),
      );
    }

found_pair :
    (ask : Ask) (candidates : List Coin) (s : Selection) (b : ℕ)
    → All (λ c. ¬ Affordable ask (c ∷ [])) (sort_by_value candidates)
    → GoodBest ask (TwoOf (sort_by_value candidates)) (some (s, b))
    → AllPairs (Covers ask (some (s, b))) (sort_by_value candidates)
    → Found ask candidates s
found_pair ask candidates s b poor (c, d, (rest, p), built, is_b) covers =
    let same = built.same_inputs in
    let total : total_of s.inputs ≡ b = ap total_of same ∙ sym is_b in
    record {
      is_selection = built.is_selection;
      taken = inr (c, d, same, (rest, Perm.trans p (sort-perm candidates)));
      cheapest = inr (
        ap length same,
        of_All-sort (λ x. ¬ Affordable ask (x ∷ [])) candidates poor,
        rw total (
            of_AllPairs-sort (λ x y. Affordable ask (x ∷ y ∷ []) → b ≤ total_of (x ∷ y ∷ []))
              (symmetric ask b) candidates covers),
      );
    }

give_up-ne-ok :
    (ask : Ask) (candidates : List Coin) (s : Selection) → give_up ask candidates ≡ ok s → ⊥
unfolding give_up
give_up-ne-ok ask candidates s h = ground arith

found_best :
    (ask : Ask) (candidates : List Coin) (s : Selection) (best : Best)
    → All (λ c. ¬ Affordable ask (c ∷ [])) (sort_by_value candidates)
    → GoodBest ask (TwoOf (sort_by_value candidates)) best
    → AllPairs (Covers ask best) (sort_by_value candidates)
    → (elim best [ some (t, _) ↦ ok t | none ↦ give_up ask candidates ]) ≡ ok s
    → Found ask candidates s
found_best ask candidates s none poor good covers h = absurd (give_up-ne-ok ask candidates s h)
found_best ask candidates s (some (t, b)) poor good covers h =
    subst (Found ask candidates) (ok-injective h) (found_pair ask candidates t b poor good covers)

-- The choice among the candidates.
pub found :
    (ask : Ask) (candidates : List Coin) (s : Selection)
    → search_coins ask candidates ≡ ok s
    → Found ask candidates s
unfolding search_coins
found ask candidates s h =
    let sorted = sort_by_value candidates in
    bind_inv (first_single ask sorted) h λ single singles h1. elim (Option-cases single) [
      | inr (t, e) ↦
          let same : t ≡ s = ok-injective (rw e at h1) in
          found_single ask candidates s
            (first_single-found ask sorted s (sort-IsSorted candidates) (rw (e, same) at singles))
      | inl e ↦ bind_inv (all_pairs ask sorted none) (rw e at h1) λ best pairs h2.
          let poor = single_none ask sorted (rw e at singles) in
          let round =
            all_pairs_lem ask (TwoOf sorted) sorted none best (every_two sorted) tt pairs in
          found_best ask candidates s best poor round.good round.seen h2
    ]
