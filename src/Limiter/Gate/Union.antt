-- ===== src/Limiter/Gate/Union.antt =====
-- The size of the union of local and global devices, counted as the gate counts it.
use ljfxznode.Common.{
  ℕ, suc, ◌+◌, ◌≤◌, ◌≡◌, refl, Bool, none, some, List, [], ◌∷◌, ◌++◌, String, arith, if◌then◌else◌,
  text_key, Map, keys, lookup, IsMap, length, contains, contains-append, contains-keys, insert,
  lookup-insert, insert-IsMap, length-insert, Option-cases, inl, inr,
}
use ljfxznode.Limiter.State.{Ips}
use ljfxznode.Limiter.Gate.{count_union}

-- The number of different elements of a list.
unfoldable pub card : List String → ℕ
card [] = 0
card (a ∷ as') = if contains a as' then card as' else suc (card as')

-- The devices of a user: the addresses that are online here or anywhere.
abbrev pub devices : Ips → Map String Bool → List String
devices local global = keys local ++ keys global

-- The addresses of `global` that `local` has not.
abbrev new_count : Ips → Map String Bool → ℕ
new_count local [] = 0
new_count local ((gip, _) ∷ global) =
    (elim (lookup gip local) [ none ↦ 1 | some _ ↦ 0 ]) + new_count local global

count_union-new_count :
    (local : Ips) (n : ℕ) (global : Map String Bool)
    → count_union local n global ≡ n + new_count local global
unfolding count_union
count_union-new_count local n [] = omega arith
count_union-new_count local n ((gip, b) ∷ global) =
    ground (arith, count_union-new_count local (n + 1) global, count_union-new_count local n global)

has : String → Map String Bool → ℕ
has ip global = elim (lookup ip global) [ none ↦ 0 | some _ ↦ 1 ]

-- One more local address takes itself from the new ones, if it is among them.
new_count-cons :
    (ip : String) (n : ℕ) (local : Ips) (global : Map String Bool)
    → lookup ip local ≡ none
    → IsMap global
    → new_count ((ip, n) ∷ local) global + has ip global ≡ new_count local global
unfolding has lookup
new_count-cons ip n local [] h d = refl
new_count-cons ip n local ((gip, b) ∷ global) h d = ground (
  arith,
  new_count-cons ip n local global h d.1,
  text_key.same_iff ip gip,
  text_key.same_iff gip ip,
)

new_count-nil : (global : Map String Bool) → new_count [] global ≡ length global
unfolding lookup
new_count-nil [] = refl
new_count-nil (g ∷ global) = omega (arith, new_count-nil global)

card-keys : (global : Map String Bool) → IsMap global → card (keys global) ≡ length global
unfolding card
card-keys [] d = refl
card-keys ((gip, b) ∷ global) d = ground (arith, card-keys global d.1, contains-keys gip global)

card-devices :
    (local : Ips) (global : Map String Bool)
    → IsMap local
    → IsMap global
    → card (devices local global) ≡ length local + new_count local global
unfolding card has
card-devices [] global d g = omega (arith, card-keys global g, new_count-nil global)
card-devices ((ip, n) ∷ local) global d g = ground (
  arith,
  card-devices local global d.1 g,
  new_count-cons ip n local global d.0 g,
  contains-append ip (keys local) (keys global),
  contains-keys ip local,
  contains-keys ip global,
)

-- The loop counts the union.
pub count_union-card :
    (local : Ips) (global : Map String Bool)
    → IsMap local
    → IsMap global
    → count_union local (length local) global ≡ card (devices local global)
count_union-card local global d g =
    omega (arith, count_union-new_count local (length local) global, card-devices local global d g)

new_count-le : (local : Ips) (global : Map String Bool) → new_count local global ≤ length global
new_count-le local [] = omega arith
new_count-le local ((gip, b) ∷ global) = ground (arith, new_count-le local global)

global-le :
    (local : Ips) (global : Map String Bool)
    → IsMap local
    → IsMap global
    → length global ≤ length local + new_count local global
unfolding has
global-le [] global d g = omega (arith, new_count-nil global)
global-le ((ip, n) ∷ local) global d g =
    ground (arith, global-le local global d.1 g, new_count-cons ip n local global d.0 g)

pub record UnionBounds (local : Ips) (global : Map String Bool) : Type 0 where
  pub local_le : length local ≤ card (devices local global)
  pub global_le : length global ≤ card (devices local global)
  pub le_sum : card (devices local global) ≤ length local + length global

pub union_bounds :
    (local : Ips) (global : Map String Bool) → IsMap local → IsMap global → UnionBounds local global
union_bounds local global d g =
    omega
      (arith, card-devices local global d g, new_count-le local global, global-le local global d g)

new_count-insert-le :
    (ip : String) (n : ℕ) (local : Ips) (global : Map String Bool)
    → new_count (insert ip n local) global ≤ new_count local global
new_count-insert-le ip n local [] = omega arith
new_count-insert-le ip n local ((gip, b) ∷ global) =
    ground (arith, new_count-insert-le ip n local global, lookup-insert ip gip n local)

new_count-insert_old :
    (ip : String) (n : ℕ) (local : Ips) (global : Map String Bool) {k : ℕ}
    → lookup ip local ≡ some k
    → new_count (insert ip n local) global ≡ new_count local global
new_count-insert_old ip n local [] h = refl
new_count-insert_old ip n local ((gip, b) ∷ global) h = ground (
  arith,
  new_count-insert_old ip n local global h,
  lookup-insert ip gip n local,
  text_key.same_iff ip gip,
)

-- A write at one address adds at most one device, and none if the address is there.
pub card-insert :
    (ip : String) (n : ℕ) (local : Ips) (global : Map String Bool)
    → IsMap local
    → IsMap global
    → card (devices (insert ip n local) global)
      ≤ (elim (lookup ip local) [ none ↦ 1 | some _ ↦ 0 ]) + card (devices local global)
card-insert ip n local global d g = elim (Option-cases (lookup ip local)) [
  | inl e ↦ rw e (
      ground (
        arith,
        card-devices local global d g,
        card-devices (insert ip n local) global (insert-IsMap ip n local d) g,
        new_count-insert-le ip n local global,
        length-insert ip n local,
      ))
  | inr (k, e) ↦ rw e (
      ground (
        arith,
        card-devices local global d g,
        card-devices (insert ip n local) global (insert-IsMap ip n local d) g,
        new_count-insert_old ip n local global e,
        length-insert ip n local,
        contains-keys ip local,
      ))
]
