-- ===== src/Common/Sorting.antt =====
-- `sort.Strings` and `sort.Ints` leave the same list as an insertion sort.
use native.Mathlib.Omega.{arith}
use mathlib.Core.Path.{◌≡◌, refl}
use mathlib.Core.Bool.{Bool, true, false}
use mathlib.Core.List.{List, [], ◌∷◌}
use ljfxznode.Common.Tests.{if◌then◌else◌}

unfoldable pub insert_by {ℓ} : {A : Type ℓ} → (A → A → Bool) → A → List A → List A
insert_by le a [] = a ∷ []
insert_by le a (b ∷ bs) = let rest = insert_by le a bs in if le a b then a ∷ b ∷ bs else b ∷ rest

unfoldable pub sort_by {ℓ} : {A : Type ℓ} → (A → A → Bool) → List A → List A
unfolding insert_by
sort_by le [] = []
sort_by le (a ∷ rest) = insert_by le a (sort_by le rest)

module _ {ℓ} {A : Type ℓ} (le : A → A → Bool) where
  -- Each element is below the next.
  abbrev pub Sorted : List A → Type 0
  Sorted [] = Unit
  Sorted (a ∷ []) = Unit
  Sorted (a ∷ b ∷ rest) = (le a b ≡ true) × Sorted (b ∷ rest)

  insert_by-least : (a : A) (rest : List A) → Sorted (a ∷ rest) → insert_by le a rest ≡ a ∷ rest
  unfolding insert_by
  insert_by-least a [] h = refl
  insert_by-least a (b ∷ rest) h = rw h.0 refl

  tail-Sorted : (a : A) (rest : List A) → Sorted (a ∷ rest) → Sorted rest
  tail-Sorted a [] h = tt
  tail-Sorted a (b ∷ rest) h = h.1

  pub sort_by-Sorted : (xs : List A) → Sorted xs → sort_by le xs ≡ xs
  unfolding sort_by
  sort_by-Sorted [] h = refl
  sort_by-Sorted (a ∷ rest) h =
      rw (sort_by-Sorted rest (tail-Sorted a rest h)) (insert_by-least a rest h)

module _ {ℓ} {A : Type ℓ} (le : A → A → Bool) (total : (a b : A) → le a b ≡ false → le b a ≡ true)
    (antisymm : (a b : A) → le a b ≡ true → le b a ≡ true → a ≡ b)
    (transitive : (a b c : A) → le a b ≡ true → le b c ≡ true → le a c ≡ true) where
  -- Two elements may be inserted in either order.
  pub insert_by_comm :
      (a b : A) (xs : List A)
      → insert_by le a (insert_by le b xs) ≡ insert_by le b (insert_by le a xs)
  unfolding insert_by
  insert_by_comm a b [] = ground (arith, total a b, total b a, antisymm a b)
  insert_by_comm a b (x ∷ xs) = ground (
    arith,
    total a b,
    total b a,
    antisymm a b,
    total a x,
    total x a,
    total b x,
    total x b,
    transitive a b x,
    transitive b a x,
    transitive a x b,
    transitive b x a,
    insert_by_comm a b xs,
  )
