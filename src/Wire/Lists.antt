-- ===== src/Wire/Lists.antt =====
-- Sequences of items on the wire, for any kind of item.
use mathlib.Core.Path.{subst}
use mathlib.Core.List.{flatten, append_assoc}
use organic_web_wallet.Prelude.{
  ℕ, zero, suc, ◌≡◌, refl, ap, ◌∙◌, sym, List, [], ◌∷◌, ◌++◌, length, map, Result, ok, map_result,
  bind_inv, ok-injective,
}
use organic_web_wallet.Platform.{Bytes, IsBytes}
use organic_web_wallet.Wire.Parse.{read_many}

-- `E a b` for each item and its bytes, in order; the lists are as long.
abbrev pub Each {ℓ κ} : {A : Type ℓ} {B : Type κ} → (A → B → Type 0) → List A → List B → Type 0
Each E [] [] = Unit {0}
Each E (a ∷ as') (b ∷ bs) = E a b × Each E as' bs
Each E _ _ = ⊥

-- `out` is `count` items, whose bytes stand at the front of `s`, with the bytes behind them.
pub record ReadAs {ℓ} {A : Type ℓ} (E : A → Bytes → Type 0) (count : ℕ) (s : Bytes)
    (out : List A × Bytes) : Type ℓ where
  pub parts : List Bytes
  pub each : Each E out.0 parts
  pub cut : s ≡ flatten parts ++ out.1
  pub size : length out.0 ≡ count
  pub rest_bytes : IsBytes out.1

module _ {ℓ} {A : Type ℓ} (item : Bytes → Result (A × Bytes)) (E : A → Bytes → Type 0) where
  -- If each item is the bytes `E` of it, so are `count` items.
  pub read_many_cuts :
      ((s : Bytes) (out : A × Bytes)
        → IsBytes s
        → item s ≡ ok out
        → (b : Bytes) × E out.0 b × (s ≡ b ++ out.1) × IsBytes out.1)
      → (count : ℕ) (s : Bytes) (out : List A × Bytes) → IsBytes s
      → read_many item count s ≡ ok out
      → ReadAs E count s out
  unfolding read_many flatten
  read_many_cuts step zero s out h e =
      subst (ReadAs E zero s) (ok-injective e)
        (record { parts = []; each = tt; cut = refl; size = refl; rest_bytes = h })
  read_many_cuts step (suc count) s out h e = bind_inv (item s) e λ one reads e1.
      bind_inv (read_many item count one.1) e1 λ more reads_more e2.
        let (b, is_b, cut, h1) = step s one h reads in
        let tail : ReadAs E count one.1 more = read_many_cuts step count one.1 more h1 reads_more in
        subst (ReadAs E (suc count) s) (ok-injective e2) (record {
          parts = b ∷ tail.parts;
          each = (is_b, tail.each);
          cut = cut ∙ ap (λ t. b ++ t) tail.cut ∙ sym (append_assoc b (flatten tail.parts) more.1);
          size = ap suc tail.size;
          rest_bytes = tail.rest_bytes;
        })

-- The other way: what `write` gives for each item is read back, item by item.
module _ {ℓ κ} {X : Type ℓ} {A : Type κ} (write : X → Result Bytes)
    (item : Bytes → Result (A × Bytes)) (M : X → A → Type 0) where
  pub read_many-map_result :
      ((x : X) (b : Bytes)
        → write x ≡ ok b
        → (a : A) × M x a × ((rest : Bytes) → item (b ++ rest) ≡ ok (a, rest)))
      → (xs : List X) (bs : List Bytes) → map_result write xs ≡ ok bs
      → (found : List A) × Each M xs found
        × ((rest : Bytes) → read_many item (length xs) (flatten bs ++ rest) ≡ ok (found, rest))
  unfolding read_many flatten map_result
  read_many-map_result step [] bs e = ([], tt, λ rest. rw (← ok-injective e) refl)
  read_many-map_result step (x ∷ xs) bs e = bind_inv (write x) e λ b writes e1.
      bind_inv (map_result write xs) e1 λ more writes_more e2.
        let (a, is_a, reads) = step x b writes in
        let (found, each, reads_more) = read_many-map_result step xs more writes_more in
        (
          a ∷ found,
          (is_a, each),
          λ rest. rw (← ok-injective e2) (rw append_assoc (rw (reads, reads_more) refl)),
        )

-- What `map_result` gives, item by item
pub Each-map_result :
    {A B : Type 0} (f : A → Result B) (xs : List A) (ys : List B)
    → map_result f xs ≡ ok ys
    → Each (λ x y. f x ≡ ok y) xs ys
unfolding map_result
Each-map_result f [] ys h = rw (← ok-injective h) tt
Each-map_result f (x ∷ xs) ys h = bind_inv (f x) h λ y is h1.
    bind_inv (map_result f xs) h1 λ more is_more h2.
      subst (Each (λ x y. f x ≡ ok y) (x ∷ xs)) (ok-injective h2)
        (is, Each-map_result f xs more is_more)

-- From items to items by way of a third list
pub Each-trans :
    {A B C : Type 0} (E : A → B → Type 0) (F : B → C → Type 0) (G : A → C → Type 0)
    → ((a : A) (b : B) (c : C) → E a b → F b c → G a c)
    → (as' : List A) (bs : List B) (cs : List C) → Each E as' bs
    → Each F bs cs
    → Each G as' cs
Each-trans E F G step [] [] [] e f = tt
Each-trans E F G step [] [] (c ∷ cs) e f = absurd f
Each-trans E F G step [] (b ∷ bs) cs e f = absurd e
Each-trans E F G step (a ∷ as') [] cs e f = absurd e
Each-trans E F G step (a ∷ as') (b ∷ bs) [] e f = absurd f
Each-trans E F G step (a ∷ as') (b ∷ bs) (c ∷ cs) e f =
    (step a b c e.0 f.0, Each-trans E F G step as' bs cs e.1 f.1)

pub Each-one :
    {A B : Type 0} (E : A → B → Type 0) (a : A) (bs : List B)
    → Each E (a ∷ []) bs
    → (b : B) × ((bs ≡ b ∷ []) × E a b)
Each-one E a [] h = absurd h
Each-one E a (b ∷ []) h = (b, (refl, h.0))
Each-one E a (b ∷ c ∷ bs) h = absurd h.1

pub Each-map :
    {A B C : Type 0} (f : A → B) (E : B → C → Type 0) (as' : List A) (cs : List C)
    → Each E (map f as') cs
    → Each (λ a c. E (f a) c) as' cs
Each-map f E [] [] h = tt
Each-map f E [] (c ∷ cs) h = absurd h
Each-map f E (a ∷ as') [] h = absurd h
Each-map f E (a ∷ as') (c ∷ cs) h = (h.0, Each-map f E as' cs h.1)
