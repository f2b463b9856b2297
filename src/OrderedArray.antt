-- ===== src/OrderedArray.antt =====
-- scripts/ordered_array.js: an array that is kept in the order of a comparison, and the comparison of
-- the historical transactions of scripts/wallet.js.
mod Examples
use mathlib.Core.List.{Perm}
use mathlib.Core.List.Perm
use organic_web_wallet.Prelude.{
  ◌≡◌, refl, ap, ◌⊎◌, inl, inr, zero, Bool, true, false, List, [], ◌∷◌, ◌++◌, All, Bool-cases,
  if◌then◌else◌,
}
use organic_web_wallet.Prelude.Int.{ℤ, negsuc, leb_ℤ}

module _ {ℓ} {A : Type ℓ} where
  -- Before the first element that the comparison puts behind it.
  unfoldable pub insert : (A → A → Bool) → A → List A → List A
  insert fun x [] = x ∷ []
  insert fun x (el ∷ els) =
      let later = insert fun x els in if fun x el then x ∷ el ∷ els else el ∷ later

  -- Without the first element that satisfies the condition.
  unfoldable pub remove : (A → Bool) → List A → List A
  remove cond [] = []
  remove cond (el ∷ els) = let later = remove cond els in if cond el then els else el ∷ later

  -- Each element comes before, or is as good as, those behind it.
  abbrev pub IsOrdered : (A → A → Bool) → List A → Type ℓ
  IsOrdered fun [] = Unit {ℓ}
  IsOrdered fun (x ∷ xs) = All (λ y. fun x y ≡ true) xs × IsOrdered fun xs

  -- What the comparison has to be, like `>=`, on the elements of a kind: total and transitive.
  pub record IsComparison (P : A → Type 0) (fun : A → A → Bool) : Type ℓ where
    pub total : (x y : A) → P x → P y → fun x y ≡ false → fun y x ≡ true
    pub transitive :
        (x y z : A) → P x → P y → P z → fun x y ≡ true → fun y z ≡ true → fun x z ≡ true

  insert-perm : (fun : A → A → Bool) (x : A) (xs : List A) → Perm (insert fun x xs) (x ∷ xs)
  unfolding insert
  insert-perm fun x [] = Perm.refl (x ∷ [])
  insert-perm fun x (el ∷ els) = elim (Bool-cases (fun x el)) [
    | inl e ↦ rw e (Perm.refl (x ∷ el ∷ els))
    | inr e ↦ rw e (Perm.trans (Perm.cons el (insert-perm fun x els)) (Perm.swap x el els))
  ]

  All-insert :
      (P : A → Type 0) (fun : A → A → Bool) (x : A) (xs : List A)
      → P x
      → All P xs
      → All P (insert fun x xs)
  unfolding insert
  All-insert P fun x [] p ps = (p, tt)
  All-insert P fun x (el ∷ els) p ps = elim (Bool-cases (fun x el)) [
    | inl e ↦ rw e (p, ps)
    | inr e ↦ rw e (ps.0, All-insert P fun x els p ps.1)
  ]

  -- What stands behind an element also stands behind one that comes before it.
  behind :
      (P : A → Type 0) (fun : A → A → Bool)
      → IsComparison P fun
      → (x el : A) → P x
      → P el
      → fun x el ≡ true
      → (els : List A) → All P els
      → All (λ y. fun el y ≡ true) els
      → All (λ y. fun x y ≡ true) els
  behind P fun c x el p q first [] ps after = tt
  behind P fun c x el p q first (y ∷ els) ps after =
      (c.transitive x el y p q ps.0 first after.0, behind P fun c x el p q first els ps.1 after.1)

  ordered :
      (P : A → Type 0) (fun : A → A → Bool)
      → IsComparison P fun
      → (x : A) (xs : List A) → P x
      → All P xs
      → IsOrdered fun xs
      → IsOrdered fun (insert fun x xs)
  unfolding insert
  ordered P fun c x [] p ps o = (tt, tt)
  ordered P fun c x (el ∷ els) p ps o = elim (Bool-cases (fun x el)) [
    | inl e ↦ rw e ((e, behind P fun c x el p ps.0 e els ps.1 o.0), o)
    | inr e ↦ rw e (
      All-insert (λ y. fun el y ≡ true) fun x els (c.total x el p ps.0 e) o.0,
      ordered P fun c x els p ps.1 o.1,
    )
  ]

  -- Where the comparison is total and transitive on the elements of a kind, an insertion of one of
  -- them among others of them keeps the order and adds just the element.
  pub insert-IsOrdered :
      (P : A → Type 0) (fun : A → A → Bool)
      → IsComparison P fun
      → (x : A) (xs : List A) → P x
      → All P xs
      → IsOrdered fun xs
      → IsOrdered fun (insert fun x xs) × Perm (insert fun x xs) (x ∷ xs)
  insert-IsOrdered P fun c x xs p ps o = (ordered P fun c x xs p ps o, insert-perm fun x xs)

  -- The list around the first element that satisfies a condition
  pub record Split (cond : A → Bool) (xs : List A) : Type ℓ where
    pub before : List A
    pub found : A
    pub after : List A
    pub is : xs ≡ before ++ (found ∷ after)
    pub none_before : All (λ y. cond y ≡ false) before
    pub satisfies : cond found ≡ true

  -- Either no element satisfies the condition and a removal changes nothing, or the list without
  -- the first element that satisfies it is left, all others in their places.
  pub remove_first :
      (cond : A → Bool) (xs : List A)
      → (All (λ y. cond y ≡ false) xs × (remove cond xs ≡ xs))
        ⊎ ((s : Split cond xs) × (remove cond xs ≡ s.before ++ s.after))
  unfolding remove
  remove_first cond [] = inl (tt, refl)
  remove_first cond (el ∷ els) = elim (Bool-cases (cond el)) [
    | inl e ↦ inr (
      record { before = []; found = el; after = els; is = refl; none_before = tt; satisfies = e },
      rw e refl,
    )
    | inr e ↦ elim (remove_first cond els) [
      | inl (nothing, same) ↦ inl ((e, nothing), rw (e, same) refl)
      | inr (s, same) ↦ inr (
        record {
          before = el ∷ s.before;
          found = s.found;
          after = s.after;
          is = ap (λ r. el ∷ r) s.is;
          none_before = (e, s.none_before);
          satisfies = s.satisfies;
        },
        rw (e, same) refl,
      )
    ]
  ]

-- The comparison of the historical transactions of scripts/wallet.js, over their block heights: the
-- newest first, and the transaction itself, which counts as true, where a height is -1.
unfoldable pub is_newer : ℤ → ℤ → Bool
is_newer (negsuc zero) other = true
is_newer height (negsuc zero) = true
is_newer height other = leb_ℤ other height
