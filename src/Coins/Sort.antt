-- ===== src/Coins/Sort.antt =====
-- The sorted list of candidates has the same coins, in ascending order of value.
use mathlib.Core.List.{Perm}
use mathlib.Core.List.Perm
use organic_web_wallet.Prelude.{◌≤◌, inl, inr, List, [], ◌∷◌, All, arith, leb, Bool-cases}
use organic_web_wallet.Coins.{Coin}
use organic_web_wallet.Coins.Search.{insert_by_value, sort_by_value}

-- `R` holds between each coin and each later one.
abbrev pub AllPairs : (Coin → Coin → Type 0) → List Coin → Type 0
AllPairs R [] = Unit {0}
AllPairs R (c ∷ coins) = All (R c) coins × AllPairs R coins

abbrev pub Below : Coin → Coin → Type 0
Below c d = c.value_sats ≤ d.value_sats

module _ (P : Coin → Type 0) where
  All-insert : (c : Coin) (coins : List Coin) → P c → All P coins → All P (insert_by_value c coins)
  unfolding insert_by_value
  All-insert c [] p ps = (p, tt)
  All-insert c (d ∷ coins) p ps = elim (Bool-cases (leb c.value_sats d.value_sats)) [
    | inl e ↦ rw e (p, ps)
    | inr e ↦ rw e (ps.0, All-insert c coins p ps.1)
  ]

  of_All-insert :
      (c : Coin) (coins : List Coin) → All P (insert_by_value c coins) → P c × All P coins
  unfolding insert_by_value
  of_All-insert c [] ps = ps
  of_All-insert c (d ∷ coins) ps = elim (Bool-cases (leb c.value_sats d.value_sats)) [
    | inl e ↦ rw e at ps
    | inr e ↦
        let (p, rest) = rw e at ps in let (q, more) = of_All-insert c coins rest in (q, (p, more))
  ]

  pub All-sort : (coins : List Coin) → All P coins → All P (sort_by_value coins)
  unfolding sort_by_value
  All-sort [] ps = tt
  All-sort (c ∷ coins) ps = All-insert c (sort_by_value coins) ps.0 (All-sort coins ps.1)

  pub of_All-sort : (coins : List Coin) → All P (sort_by_value coins) → All P coins
  unfolding sort_by_value
  of_All-sort [] ps = tt
  of_All-sort (c ∷ coins) ps =
      let (p, rest) = of_All-insert c (sort_by_value coins) ps in (p, of_All-sort coins rest)

module _ (R : Coin → Coin → Type 0) (symmetric : (c d : Coin) → R c d → R d c) where
  of_AllPairs-insert :
      (c : Coin) (coins : List Coin) → AllPairs R (insert_by_value c coins) → AllPairs R (c ∷ coins)
  unfolding insert_by_value
  of_AllPairs-insert c [] ps = (tt, tt)
  of_AllPairs-insert c (d ∷ coins) ps = elim (Bool-cases (leb c.value_sats d.value_sats)) [
    | inl e ↦ rw e at ps
    | inr e ↦
        let (first, rest) = rw e at ps in
        let (r, firsts) = of_All-insert (R d) c coins first in
        let (seconds, more) = of_AllPairs-insert c coins rest in
        ((symmetric d c r, seconds), (firsts, more))
  ]

  pub of_AllPairs-sort : (coins : List Coin) → AllPairs R (sort_by_value coins) → AllPairs R coins
  unfolding sort_by_value
  of_AllPairs-sort [] ps = tt
  of_AllPairs-sort (c ∷ coins) ps =
      let (first, rest) = of_AllPairs-insert c (sort_by_value coins) ps in
      (of_All-sort (R c) coins first, of_AllPairs-sort coins rest)

Below-trans :
    (c d : Coin) (coins : List Coin) → Below c d → All (Below d) coins → All (Below c) coins
Below-trans c d [] h ps = tt
Below-trans c d (e ∷ coins) h ps = (omega arith, Below-trans c d coins h ps.1)

insert-IsSorted :
    (c : Coin) (coins : List Coin) → AllPairs Below coins → AllPairs Below (insert_by_value c coins)
unfolding insert_by_value
insert-IsSorted c [] ps = (tt, tt)
insert-IsSorted c (d ∷ coins) ps = elim (Bool-cases (leb c.value_sats d.value_sats)) [
  | inl e ↦ let le : Below c d = ground arith in rw e ((le, Below-trans c d coins le ps.0), ps)
  | inr e ↦ rw e (All-insert (Below d) c coins (ground arith) ps.0, insert-IsSorted c coins ps.1)
]

pub sort-IsSorted : (coins : List Coin) → AllPairs Below (sort_by_value coins)
unfolding sort_by_value
sort-IsSorted [] = tt
sort-IsSorted (c ∷ coins) = insert-IsSorted c (sort_by_value coins) (sort-IsSorted coins)

insert-perm : (c : Coin) (coins : List Coin) → Perm (insert_by_value c coins) (c ∷ coins)
unfolding insert_by_value
insert-perm c [] = Perm.refl (c ∷ [])
insert-perm c (d ∷ coins) = elim (Bool-cases (leb c.value_sats d.value_sats)) [
  | inl e ↦ rw e (Perm.refl (c ∷ d ∷ coins))
  | inr e ↦ rw e (Perm.trans (Perm.cons d (insert-perm c coins)) (Perm.swap c d coins))
]

pub sort-perm : (coins : List Coin) → Perm (sort_by_value coins) coins
unfolding sort_by_value
sort-perm [] = Perm.refl []
sort-perm (c ∷ coins) =
    Perm.trans (insert-perm c (sort_by_value coins)) (Perm.cons c (sort-perm coins))
