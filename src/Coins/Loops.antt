-- ===== src/Coins/Loops.antt =====
-- The two searches of `selectCoins`, for one coin and for two.
use mathlib.Core.Path.{subst}
use mathlib.Core.List.{Perm}
use mathlib.Core.List.Perm
use native.Mathlib.Nat.{le_refl}
use organic_web_wallet.Prelude.{
  ℕ, ◌≤◌, ◌≡◌, inl, inr, refl, sym, none, some, List, [], ◌∷◌, All, All-imp, arith, leb, ok,
  bind_inv, ok-injective, ok_some-injective, ok_none-ne-ok_some, Bool-cases, Option-cases, leb→le,
}
use organic_web_wallet.Coins.{Coin, Selection, Ask, total_of, build_selection}
use organic_web_wallet.Coins.Search.{
  Best, first_single, is_no_better, keep_better, try_pair, pairs_with, all_pairs,
}
use organic_web_wallet.Coins.Sort.{AllPairs, Below}
use organic_web_wallet.Coins.Build.{Affordable, Built, build_none, build_some}

-- The coins can be taken out of `coins`, the rest of which is left.
abbrev pub OneOf : List Coin → Coin → Type 0
OneOf coins c = (rest : List Coin) × Perm (c ∷ rest) coins

abbrev pub TwoOf : List Coin → Coin → Coin → Type 0
TwoOf coins c d = (rest : List Coin) × Perm (c ∷ d ∷ rest) coins

one_later : (x : Coin) (coins : List Coin) (c : Coin) → OneOf coins c → OneOf (x ∷ coins) c
one_later x coins c (rest, p) = (x ∷ rest, Perm.trans (Perm.swap x c rest) (Perm.cons x p))

two_later : (x : Coin) (coins : List Coin) (c d : Coin) → TwoOf coins c d → TwoOf (x ∷ coins) c d
two_later x coins c d (rest, p) = (
  x ∷ rest,
  Perm.trans (Perm.cons c (Perm.swap x d rest))
      (Perm.trans (Perm.swap x c (d ∷ rest)) (Perm.cons x p)),
)

pub every_one : (coins : List Coin) → All (OneOf coins) coins
every_one [] = tt
every_one (x ∷ coins) =
    ((coins, Perm.refl (x ∷ coins)), All-imp (one_later x coins) coins (every_one coins))

pub AllPairs-imp :
    (P Q : Coin → Coin → Type 0)
    → ((c d : Coin) → P c d → Q c d)
    → (coins : List Coin) → AllPairs P coins
    → AllPairs Q coins
AllPairs-imp P Q f [] h = tt
AllPairs-imp P Q f (c ∷ coins) h = (All-imp (f c) coins h.0, AllPairs-imp P Q f coins h.1)

pub every_two : (coins : List Coin) → AllPairs (TwoOf coins) coins
every_two [] = tt
every_two (x ∷ coins) = (
  All-imp (λ d (rest, p). (rest, Perm.cons x p)) coins (every_one coins),
  AllPairs-imp (TwoOf coins) (TwoOf (x ∷ coins)) (two_later x coins) coins (every_two coins),
)

-- The single coin that is found is enough, and no smaller one is.
pub record Single (ask : Ask) (coins : List Coin) (s : Selection) : Type 0 where
  pub coin : Coin
  pub built : Built ask (coin ∷ []) s
  pub from_coins : OneOf coins coin
  pub least : All (λ d. Affordable ask (d ∷ []) → Below coin d) coins

pub single_none :
    (ask : Ask) (coins : List Coin)
    → first_single ask coins ≡ ok none
    → All (λ c. ¬ Affordable ask (c ∷ [])) coins
unfolding first_single
single_none ask [] h = tt
single_none ask (c ∷ coins) h = bind_inv (build_selection ask (c ∷ [])) h λ found builds h1.
    elim (Option-cases found) [
      | inl e ↦ (build_none ask (c ∷ []) (rw e at builds), single_none ask coins (rw e at h1))
      | inr (s, e) ↦ absurd (ok_none-ne-ok_some (sym (rw e at h1)))
    ]

pub first_single-found :
    (ask : Ask) (coins : List Coin) (s : Selection)
    → AllPairs Below coins
    → first_single ask coins ≡ ok (some s)
    → Single ask coins s
unfolding first_single
first_single-found ask [] s sorted h = absurd (ok_none-ne-ok_some h)
first_single-found ask (c ∷ coins) s sorted h =
    bind_inv (build_selection ask (c ∷ [])) h λ found builds h1. elim (Option-cases found) [
      | inl e ↦
          let later : Single ask coins s = first_single-found ask coins s sorted.1 (rw e at h1) in
          let poor = build_none ask (c ∷ []) (rw e at builds) in
          record {
            coin = later.coin;
            built = later.built;
            from_coins = one_later c coins later.coin later.from_coins;
            least = ((λ a. absurd (poor a)), later.least);
          }
      | inr (t, e) ↦
          let same : t ≡ s = ok_some-injective (rw e at h1) in
          record {
            coin = c;
            built = build_some ask (c ∷ []) s (rw (e, same) at builds);
            from_coins = (coins, Perm.refl (c ∷ coins));
            least = ((λ _. le_refl c.value_sats), All-imp (λ d le _. le) coins sorted.0);
          }
    ]

-- The best pair so far costs no more than `t`.
abbrev pub LeBest : Best → ℕ → Type 0
LeBest none t = ⊥
LeBest (some (s, b)) t = b ≤ t

-- The best pair so far is a selection of a pair of `P`, and its total is noted.
abbrev pub GoodBest : Ask → (Coin → Coin → Type 0) → Best → Type 0
GoodBest ask P none = Unit {0}
GoodBest ask P (some (s, b)) =
    (c : Coin) × (d : Coin) × P c d × Built ask (c ∷ d ∷ []) s × (b ≡ total_of (c ∷ d ∷ []))

abbrev pub Covers : Ask → Best → Coin → Coin → Type 0
Covers ask best c d = Affordable ask (c ∷ d ∷ []) → LeBest best (total_of (c ∷ d ∷ []))

module _ (ask : Ask) (P : Coin → Coin → Type 0) where
  -- A round from `best` to `best'` that has looked at the pairs of `Seen`.
  pub record Round (Seen : Best → Type 0) (best best' : Best) : Type 0 where
    pub good : GoodBest ask P best'
    pub seen : Seen best'
    pub keeps : (t : ℕ) → LeBest best t → LeBest best' t

  try_pair_lem :
      (c d : Coin) (best best' : Best)
      → P c d
      → GoodBest ask P best
      → try_pair ask c d best ≡ ok best'
      → Round (λ b. Covers ask b c d) best best'
  unfolding try_pair is_no_better keep_better
  try_pair_lem c d none best' p good h =
      bind_inv (build_selection ask (c ∷ d ∷ [])) h λ found builds h1. elim (Option-cases found) [
        | inl e ↦ subst (Round (λ b. Covers ask b c d) none) (ok-injective (rw e at h1)) (record {
          good = tt;
          seen = λ a. absurd (build_none ask (c ∷ d ∷ []) (rw e at builds) a);
          keeps = λ t l. l;
        })
        | inr (s, e) ↦
            subst (Round (λ b. Covers ask b c d) none) (ok-injective (rw e at h1)) (record {
              good = (c, d, p, build_some ask (c ∷ d ∷ []) s (rw e at builds), refl);
              seen = λ a. le_refl (total_of (c ∷ d ∷ []));
              keeps = λ t l. absurd l;
            })
      ]
  try_pair_lem c d (some (s, b)) best' p good h =
      elim (Bool-cases (leb b (total_of (c ∷ d ∷ [])))) [
        | inl worse ↦
            subst (Round (λ b. Covers ask b c d) (some (s, b))) (ok-injective (rw worse at h))
              (record { good = good; seen = λ a. leb→le b _ worse; keeps = λ t l. l })
        | inr better ↦
            bind_inv (build_selection ask (c ∷ d ∷ [])) (rw better at h) λ found builds h1.
              elim (Option-cases found) [
                | inl e ↦
                    subst (Round (λ b. Covers ask b c d) (some (s, b))) (ok-injective (rw e at h1))
                      (record {
                        good = good;
                        seen = λ a. absurd (build_none ask (c ∷ d ∷ []) (rw e at builds) a);
                        keeps = λ t l. l;
                      })
                | inr (s', e) ↦
                    subst (Round (λ b. Covers ask b c d) (some (s, b))) (ok-injective (rw e at h1))
                      (record {
                        good = (c, d, p, build_some ask (c ∷ d ∷ []) s' (rw e at builds), refl);
                        seen = λ a. le_refl (total_of (c ∷ d ∷ []));
                        keeps = λ t l. ground arith;
                      })
              ]
      ]

  pairs_with_lem :
      (c : Coin) (coins : List Coin) (best best' : Best)
      → All (P c) coins
      → GoodBest ask P best
      → pairs_with ask c coins best ≡ ok best'
      → Round (λ b. All (Covers ask b c) coins) best best'
  unfolding pairs_with
  pairs_with_lem c [] best best' p good h =
      subst (Round (λ b. Unit {0}) best) (ok-injective h)
        (record { good = good; seen = tt; keeps = λ t l. l })
  pairs_with_lem c (d ∷ coins) best best' p good h =
      bind_inv (try_pair ask c d best) h λ mid tries h1.
        let one : Round (λ b. Covers ask b c d) best mid =
          try_pair_lem c d best mid p.0 good tries in
        let more : Round (λ b. All (Covers ask b c) coins) mid best' =
          pairs_with_lem c coins mid best' p.1 one.good h1 in
        record {
          good = more.good;
          seen = ((λ a. more.keeps _ (one.seen a)), more.seen);
          keeps = λ t l. more.keeps t (one.keeps t l);
        }

  -- All pairs are looked at: no pair that can pay costs less than the one that is found.
  pub all_pairs_lem :
      (coins : List Coin) (best best' : Best)
      → AllPairs P coins
      → GoodBest ask P best
      → all_pairs ask coins best ≡ ok best'
      → Round (λ b. AllPairs (Covers ask b) coins) best best'
  unfolding all_pairs
  all_pairs_lem [] best best' p good h =
      subst (Round (λ b. Unit {0}) best) (ok-injective h)
        (record { good = good; seen = tt; keeps = λ t l. l })
  all_pairs_lem (c ∷ coins) best best' p good h =
      bind_inv (pairs_with ask c coins best) h λ mid tries h1.
        let one : Round (λ b. All (Covers ask b c) coins) best mid =
          pairs_with_lem c coins best mid p.0 good tries in
        let more : Round (λ b. AllPairs (Covers ask b) coins) mid best' =
          all_pairs_lem coins mid best' p.1 one.good h1 in
        record {
          good = more.good;
          seen = (All-imp (λ d covers a. more.keeps _ (covers a)) coins one.seen, more.seen);
          keeps = λ t l. more.keeps t (one.keeps t l);
        }
