-- ===== src/Staking/Merkle.antt =====
-- `merkleRoot` of scripts/pqwallet/pqstaking.js.
use organic_web_wallet.Prelude.{
  ℕ, zero, suc, ◌+◌, ◌*◌, ◌≤◌, ◌≡◌, refl, Option, none, some, List, [], ◌∷◌, ◌++◌, map, length,
  arith, length-map, leb, if◌then◌else◌, inl, inr, Bool-cases,
}
use organic_web_wallet.Platform.{Bytes, Noble}

-- One round: neighbours are hashed together, and a last one without a neighbour with itself.
unfoldable pub next_level : Noble → List Bytes → List Bytes
next_level noble [] = []
next_level noble (a ∷ []) = noble.sha256 (noble.sha256 (a ++ a)) ∷ []
next_level noble (a ∷ b ∷ level) = noble.sha256 (noble.sha256 (a ++ b)) ∷ next_level noble level

-- `while (level.length > 1)`, on fuel: `none` where the fuel runs out before the loop ends.
unfoldable pub levels : Noble → ℕ → List Bytes → Option (List Bytes)
levels noble zero level = if leb (length level) 1 then some level else none
levels noble (suc fuel) level =
    let rest = levels noble fuel (next_level noble level) in
    if leb (length level) 1 then some level else rest

abbrev first_hash : Option (List Bytes) → Option Bytes
first_hash none = none
first_hash (some []) = none
first_hash (some (a ∷ level)) = some a

abbrev pub leaves : Noble → List Bytes → List Bytes
leaves noble transactions = map (λ raw. noble.sha256 (noble.sha256 raw)) transactions

-- A level is at most half of the one below, rounded up, so that its length is enough fuel. `none`
-- stands for the undefined `level[0]` of no transactions.
unfoldable pub merkle_root : Noble → List Bytes → Option Bytes
unfolding levels next_level
merkle_root noble transactions =
    first_hash (levels noble (length transactions) (leaves noble transactions))

next_level_shrinks :
    (noble : Noble) (level : List Bytes)
    → (length level ≤ 2 * length (next_level noble level))
      × (2 * length (next_level noble level) ≤ length level + 1)
unfolding next_level
next_level_shrinks noble [] = omega arith
next_level_shrinks noble (a ∷ []) = omega arith
next_level_shrinks noble (a ∷ b ∷ level) = omega (arith, next_level_shrinks noble level)

one_hash : (level : List Bytes) → length level ≡ 1 → (root : Bytes) × (level ≡ root ∷ [])
one_hash [] h = absurd (omega arith)
one_hash (a ∷ []) h = (a, refl)
one_hash (a ∷ b ∷ level) h = absurd (omega arith)

levels_end :
    (noble : Noble) (fuel : ℕ) (level : List Bytes)
    → 1 ≤ length level
    → length level ≤ fuel + 1
    → (root : Bytes) × (levels noble fuel level ≡ some (root ∷ []))
unfolding levels
levels_end noble zero level some_left fits =
    let (root, only) = one_hash level (omega (arith, some_left, fits)) in (root, rw only refl)
levels_end noble (suc fuel) level some_left fits = elim (Bool-cases (leb (length level) 1)) [
  | inl e ↦ let (root, only) = one_hash level (ground (arith, e)) in (root, rw only refl)
  | inr e ↦
      let (root, is) =
        levels_end noble fuel (next_level noble level)
          (ground (arith, e, next_level_shrinks noble level))
          (ground (arith, e, next_level_shrinks noble level)) in
      (root, rw (e, is) refl)
]

-- Of one transaction or more there is a root: on as much fuel as there are transactions the loop has
-- ended, with exactly one hash left, which is the root.
pub merkle_root_total :
    (noble : Noble) (transactions : List Bytes)
    → 1 ≤ length transactions
    → (root : Bytes) × ((levels noble (length transactions) (leaves noble transactions)
          ≡ some (root ∷ []))
        × (merkle_root noble transactions ≡ some root))
unfolding merkle_root
merkle_root_total noble transactions h =
    let same = length-map transactions (λ raw. noble.sha256 (noble.sha256 raw)) in
    let (root, is) =
      levels_end noble (length transactions) (leaves noble transactions) (omega (arith, same))
        (omega (arith, same)) in
    (root, (is, rw is refl))
