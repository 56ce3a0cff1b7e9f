-- ===== src/Common/Maps.antt =====
-- Go maps as association lists. A Go map has no order; where the code's result depends on the order
-- of a `range`, the model takes the choice as an argument.
use Prim.Native.Nat.{◌+◌}
use mathlib.Core.Path.{◌≡◌, refl, subst}
use mathlib.Core.Logic.{inl, inr}
use mathlib.Core.Bool.{true, false}
use mathlib.Core.List.{List, [], ◌∷◌}
use mathlib.Core.Option.{Option, none, some}
use native.Mathlib.Omega.{arith}
use ljfxznode.Common.Tests.{Key, ◌==◌, Bool-cases, if◌then◌else◌}
use ljfxznode.Common.Lists.{length, contains}

abbrev pub Map {ℓ κ} : Type ℓ → Type κ → Type (ℓ ⊔ κ)
Map K V = List (K × V)

abbrev pub keys {ℓ κ} : {K : Type ℓ} {V : Type κ} → Map K V → List K
keys [] = []
keys ((k, v) ∷ m) = k ∷ keys m

-- `m[k]`, whose zero value is `d`.
abbrev pub or_zero {ℓ} : {V : Type ℓ} → Option V → V → V
or_zero none d = d
or_zero (some v) d = v

module _ {ℓ κ} {K : Type ℓ} {V : Type κ} ⦃e : Key K⦄ where
  unfoldable pub lookup : K → Map K V → Option V
  lookup key [] = none
  lookup key ((k, v) ∷ rest) = if k == key then some v else lookup key rest

  unfoldable pub delete : K → Map K V → Map K V
  delete key [] = []
  delete key ((k, v) ∷ rest) = if k == key then delete key rest else (k, v) ∷ delete key rest

  unfoldable pub insert : K → V → Map K V → Map K V
  insert key new [] = (key, new) ∷ []
  insert key new ((k, v) ∷ rest) =
      if k == key then (key, new) ∷ rest else (k, v) ∷ insert key new rest

  abbrev pub get : K → V → Map K V → V
  get k d m = or_zero (lookup k m) d

  -- Each key stands once.
  abbrev pub IsMap : Map K V → Type (ℓ ⊔ κ)
  IsMap [] = Unit
  IsMap ((k, v) ∷ m) = (lookup k m ≡ none) × IsMap m

  pub lookup-delete :
      (k j : K) (m : Map K V) → lookup j (delete k m) ≡ (if k == j then none else lookup j m)
  unfolding lookup delete
  lookup-delete k j [] = ground arith
  lookup-delete k j ((i, w) ∷ m) =
      ground (arith, e.same_iff k j, e.same_iff i k, e.same_iff i j, lookup-delete k j m)

  -- A write is read at its key, and at no other.
  pub lookup-insert :
      (key at : K) (new : V) (m : Map K V)
      → lookup at (insert key new m) ≡ (if key == at then some new else lookup at m)
  unfolding lookup insert
  lookup-insert key at new [] = refl
  lookup-insert key at new ((k, v) ∷ rest) =
      ground
        (arith, lookup-insert key at new rest, e.same_iff k key, e.same_iff k at, e.same_iff key at)

  pub insert-IsMap : (k : K) (v : V) (m : Map K V) → IsMap m → IsMap (insert k v m)
  unfolding lookup insert
  insert-IsMap k v [] h = (refl, tt)
  insert-IsMap k v ((i, w) ∷ m) h =
      ground (arith, e.same_iff i k, e.same_iff k i, insert-IsMap k v m h.1, lookup-insert k i v m)

  pub delete-IsMap : (k : K) (m : Map K V) → IsMap m → IsMap (delete k m)
  unfolding lookup delete
  delete-IsMap k [] h = tt
  delete-IsMap k ((i, w) ∷ m) h =
      ground (arith, e.same_iff k i, delete-IsMap k m h.1, lookup-delete k i m)

  pub delete_absent : (k : K) (m : Map K V) → lookup k m ≡ none → delete k m ≡ m
  unfolding lookup delete
  delete_absent k [] h = refl
  delete_absent k ((i, w) ∷ m) h = ground (arith, delete_absent k m)

  pub length-insert :
      (k : K) (v : V) (m : Map K V)
      → length (insert k v m) ≡ (if contains k (keys m) then length m else length m + 1)
  unfolding insert
  length-insert k v [] = omega arith
  length-insert k v ((i, w) ∷ m) = ground (arith, length-insert k v m)

  pub length-delete :
      (k : K) (m : Map K V) {v : V}
      → IsMap m
      → lookup k m ≡ some v
      → length (delete k m) + 1 ≡ length m
  unfolding lookup delete
  length-delete k [] {v} h p = cc
  length-delete k ((i, w) ∷ m) {v} h p =
      ground (arith, e.same_iff i k, delete_absent k m, length-delete k m {v = v} h.1)

  -- A key is listed exactly when a lookup finds it.
  pub contains-keys :
      (k : K) (m : Map K V)
      → contains k (keys m) ≡ elim (lookup k m) [ none ↦ false | some v ↦ true ]
  unfolding lookup
  contains-keys k [] = refl
  contains-keys k ((i, w) ∷ m) = ground (arith, contains-keys k m)

  -- What holds of every entry.
  abbrev pub AllEntries {μ} : (K → V → Type μ) → Map K V → Type μ
  AllEntries P [] = Unit
  AllEntries P ((k, v) ∷ m) = P k v × AllEntries P m

module _ {ℓ κ μ} {K : Type ℓ} {V : Type κ} ⦃e : Key K⦄ (P : K → V → Type μ) where
  pub AllEntries-lookup :
      (k : K) (m : Map K V) {v : V} → AllEntries P m → lookup k m ≡ some v → P k v
  unfolding lookup
  AllEntries-lookup k [] h p = cc
  AllEntries-lookup k ((i, w) ∷ m) {v} h p = elim (Bool-cases (e.same i k)) [
    | inl same ↦
        let q : w ≡ v = ground arith in
        let r : i ≡ k = (e.same_iff i k).0 same in subst (λ z. P z v) r (subst (P i) q h.0)
    | inr other ↦ AllEntries-lookup k m h.1 (rw other at p)
  ]

  pub AllEntries-insert :
      (k : K) (v : V) (m : Map K V) → P k v → AllEntries P m → AllEntries P (insert k v m)
  unfolding insert
  AllEntries-insert k v [] p h = (p, tt)
  AllEntries-insert k v ((i, w) ∷ m) p h = elim (Bool-cases (e.same i k)) [
    | inl same ↦ rw same (p, h.1)
    | inr other ↦ rw other (h.0, AllEntries-insert k v m p h.1)
  ]

  pub AllEntries-delete : (k : K) (m : Map K V) → AllEntries P m → AllEntries P (delete k m)
  unfolding delete
  AllEntries-delete k [] h = tt
  AllEntries-delete k ((i, w) ∷ m) h = elim (Bool-cases (e.same i k)) [
    | inl same ↦ rw same (AllEntries-delete k m h.1)
    | inr other ↦ rw other (h.0, AllEntries-delete k m h.1)
  ]
