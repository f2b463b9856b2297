-- ===== src/OrderedArray/Examples.antt =====
-- The wallet's order of historical transactions, over block heights.
use mathlib.Core.List.{Perm}
use organic_web_wallet.Prelude.{
  ◌≡◌, refl, ◌⊎◌, Bool, true, false, ◌&&◌, List, [], ◌∷◌, ◌++◌, All, arith,
}
use organic_web_wallet.Prelude.Int.{ℤ, pos, negsuc, leb_ℤ}
use organic_web_wallet.OrderedArray.{
  insert, remove, is_newer, IsOrdered, Split, insert-IsOrdered, remove_first,
}

-- A height of 0 or more: the transaction is in a block.
abbrev is_confirmed : ℤ → Bool
is_confirmed (pos n) = true
is_confirmed (negsuc n) = false

abbrev Confirmed : ℤ → Type 0
Confirmed h = is_confirmed h ≡ true

is_newer-total : (x y : ℤ) → Confirmed x → Confirmed y → is_newer x y ≡ false → is_newer y x ≡ true
unfolding is_newer
is_newer-total (pos x) (pos y) p q h = ground arith
is_newer-total (pos x) (negsuc y) p q h = absurd (cc)
is_newer-total (negsuc x) y p q h = absurd (cc)

is_newer-transitive :
    (x y z : ℤ)
    → Confirmed x
    → Confirmed y
    → Confirmed z
    → is_newer x y ≡ true
    → is_newer y z ≡ true
    → is_newer x z ≡ true
unfolding is_newer
is_newer-transitive (pos x) (pos y) (pos z) p q r h k = ground arith
is_newer-transitive (pos x) (pos y) (negsuc z) p q r h k = absurd (cc)
is_newer-transitive (pos x) (negsuc y) z p q r h k = absurd (cc)
is_newer-transitive (negsuc x) y z p q r h k = absurd (cc)

abbrev heights : List ℤ
heights = pos 9 ∷ pos 7 ∷ pos 7 ∷ pos 2 ∷ []

heights-IsOrdered : IsOrdered is_newer heights
unfolding is_newer
heights-IsOrdered = ((refl, (refl, (refl, tt))), ((refl, (refl, tt)), ((refl, tt), (tt, tt))))

-- On transactions in blocks, the wallet's comparison is total and transitive.
insert-IsOrdered_example :
    IsOrdered is_newer (insert is_newer (pos 7) heights)
    × Perm (insert is_newer (pos 7) heights) (pos 7 ∷ heights)
insert-IsOrdered_example =
    insert-IsOrdered Confirmed is_newer
      (record { total = is_newer-total; transitive = is_newer-transitive }) (pos 7) heights refl
      (refl, (refl, (refl, (refl, tt)))) heights-IsOrdered

-- A pending transaction between two others breaks their order.
pending_unordered :
    insert is_newer (pos 5) (insert is_newer (negsuc 0) (insert is_newer (pos 7) []))
    ≡ pos 5 ∷ negsuc 0 ∷ pos 7 ∷ []
unfolding insert is_newer
pending_unordered = refl

abbrev is_seven : ℤ → Bool
is_seven h = leb_ℤ h (pos 7) && leb_ℤ (pos 7) h

remove_first_example :
    (All (λ y. is_seven y ≡ false) heights × (remove is_seven heights ≡ heights))
    ⊎ ((s : Split is_seven heights) × (remove is_seven heights ≡ s.before ++ s.after))
remove_first_example = remove_first is_seven heights
