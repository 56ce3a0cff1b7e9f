-- ===== src/Panel/Socket/Numbered.antt =====
-- Addresses with numbers, in any order, as the object of a device list.
use ljfxznode.Common.{
  ℕ, ◌+◌, ◌^◌, ◌<◌, ◌≡◌, ◌∙◌, refl, ap, sym, false, none, some, List, [], ◌∷◌, String, ℤ, pos,
  negsuc, true, leb_ℤ, ◌==◌, text_key, nat_key, Bool-cases, inl, inr, Map, lookup, map, IsMap,
  arith,
}
use mathlib.Core.Path.{subst}
use mathlib.Core.List.{Permᴰ}
use mathlib.Core.List.Permᴰ.{nil, cons, swap, trans}
use ljfxznode.Common.Decimal.{decimal, atoi, parsed, atoi-decimal}
use ljfxznode.Common.Sorting.{Sorted, insert_by, insert_by_comm, sort_by}
use ljfxznode.Panel.Json.{text, Fields, done, field, decode_text}
use ljfxznode.Panel.Socket.{decode_named, int_keys, pick_ips, itoa}

-- The addresses with their numbers, and as the object in which they arrive.
abbrev pub Numbered : Type 0
Numbered = List (ℕ × String)

unfoldable pub indexed : Numbered → Fields
indexed [] = done
indexed ((n, ip) ∷ es) = field (decimal n) (text ip) (indexed es)

abbrev pub named : Numbered → Map String String
named [] = []
named ((n, ip) ∷ es) = (decimal n, ip) ∷ named es

-- The numbers grow, from one above `low` on.
abbrev pub GrowsFrom : ℕ → Numbered → Type 0
GrowsFrom low [] = Unit
GrowsFrom low ((n, ip) ∷ es) = (low < n + 1) × (n < 2 ^ 63) × GrowsFrom (n + 1) es

abbrev pub addresses : Numbered → List String
addresses es = map (λ e. e.1) es

decimal_injective : (m n : ℕ) → m < 2 ^ 63 → n < 2 ^ 63 → decimal m ≡ decimal n → m ≡ n
decimal_injective m n p q e =
    let same : parsed (pos m) ≡ parsed (pos n) =
      sym (atoi-decimal m p) ∙ ap atoi e ∙ atoi-decimal n q in
    cc same

other_key : (m n : ℕ) → m < 2 ^ 63 → n < 2 ^ 63 → m < n → (decimal m == decimal n) ≡ false
other_key m n p q h = elim (Bool-cases (decimal m == decimal n)) [
  | inr e ↦ e
  | inl e ↦
      let same : m ≡ n =
        decimal_injective m n p q ((text_key.same_iff (decimal m) (decimal n)).0 e) in
      absurd (omega arith)
]

other_key' : (m n : ℕ) → m < 2 ^ 63 → n < 2 ^ 63 → m < n → (decimal n == decimal m) ≡ false
other_key' m n p q h = elim (Bool-cases (decimal n == decimal m)) [
  | inr e ↦ e
  | inl e ↦
      let same : n ≡ m =
        decimal_injective n m q p ((text_key.same_iff (decimal n) (decimal m)).0 e) in
      absurd (omega arith)
]

lookup-named :
    (n low : ℕ) (es : Numbered)
    → n < 2 ^ 63
    → n < low
    → GrowsFrom low es
    → lookup (decimal n) (named es) ≡ none
unfolding lookup
lookup-named n low [] p h g = refl
lookup-named n low ((m, ip) ∷ es) p h g =
    rw (other_key' n m p g.1 (omega arith)) (lookup-named n (m + 1) es p (omega arith) g.2)

pub named-IsMap : (low : ℕ) (es : Numbered) → GrowsFrom low es → IsMap (named es)
named-IsMap low [] g = tt
named-IsMap low ((n, ip) ∷ es) g =
    (lookup-named n (n + 1) es g.1 (omega arith) g.2, named-IsMap (n + 1) es g.2)

abbrev AllSmall : Numbered → Type 0
AllSmall [] = Unit
AllSmall ((n, ip) ∷ es) = (n < 2 ^ 63) × AllSmall es

pub grows-AllSmall : (low : ℕ) (es : Numbered) → GrowsFrom low es → AllSmall es
grows-AllSmall low [] g = tt
grows-AllSmall low ((n, ip) ∷ es) g = (g.1, grows-AllSmall (n + 1) es g.2)

pub perm-AllSmall : {l l' : Numbered} → Permᴰ l l' → AllSmall l' → AllSmall l
perm-AllSmall nil h = tt
perm-AllSmall (cons e p) h = (rw e h.0, perm-AllSmall p h.1)
perm-AllSmall (swap e e') h = rw (e, e') (h.1.0, (h.0, h.1.1))
perm-AllSmall (trans p p') h = perm-AllSmall p (perm-AllSmall p' h)

swapped : {a b a' b' : ℕ × String} → a ≡ b' → b ≡ a' → (l : Numbered) → a ∷ b ∷ l ≡ b' ∷ a' ∷ l
swapped e e' l = rw (e, e') refl

swap_named :
    (a b : ℕ × String) (l : Numbered)
    → IsMap (named (b ∷ a ∷ l))
    → IsMap (named (a ∷ b ∷ l))
      × ((k : String) → lookup k (named (a ∷ b ∷ l)) ≡ lookup k (named (b ∷ a ∷ l)))
unfolding lookup
swap_named a b l h =
    let same = text_key.same_iff in
    (
      (
        ground (arith, same (decimal a.0) (decimal b.0), same (decimal b.0) (decimal a.0)),
        (ground (arith, same (decimal a.0) (decimal b.0)), h.1.1),
      ),
      λ k. ground (
        arith,
        same (decimal a.0) (decimal b.0),
        same (decimal b.0) (decimal a.0),
        same (decimal a.0) k,
        same (decimal b.0) k,
      ),
    )

-- The order of the entries of a map does not matter.
pub perm-named :
    {l l' : Numbered}
    → Permᴰ l l'
    → IsMap (named l')
    → IsMap (named l) × ((k : String) → lookup k (named l) ≡ lookup k (named l'))
unfolding lookup
perm-named nil h = (tt, λ k. refl)
perm-named (cons e p) h =
    let (d, same) = perm-named p h.1 in rw e ((same _ ∙ h.0, d), λ k. rw (same k) refl)
perm-named (swap {a' = a} {b' = b} {l} e e') h =
    subst
      (λ l'. IsMap (named l') × ((k : String) → lookup k (named l') ≡ lookup k (named (a ∷ b ∷ l))))
      (sym (swapped e e' l)) (swap_named b a l h)
perm-named (trans p p') h =
    let (h', same') = perm-named p' h in
    let (h'', same) = perm-named p h' in (h'', λ k. same k ∙ same' k)

pub decode_named-indexed :
    (es : Numbered) → IsMap (named es) → decode_named (indexed es) ≡ some (named es)
unfolding decode_named decode_text indexed
decode_named-indexed [] h = refl
decode_named-indexed ((n, ip) ∷ es) h = rw (decode_named-indexed es h.1, h.0) refl

abbrev pub numbers : Numbered → List ℤ
numbers es = map (λ e. pos e.0) es

pub int_keys-named : (es : Numbered) → AllSmall es → int_keys (named es) ≡ numbers es
unfolding int_keys
int_keys-named [] g = refl
int_keys-named ((n, ip) ∷ es) g =
    rw (atoi-decimal n g.0, int_keys) (ap (λ ks. pos n ∷ ks) (int_keys-named es g.1))

leb_ℤ_antisymm : (a b : ℤ) → leb_ℤ a b ≡ true → leb_ℤ b a ≡ true → a ≡ b
leb_ℤ_antisymm (pos m) (pos n) h h' = ap pos (ground arith)
leb_ℤ_antisymm (pos m) (negsuc n) h h' = ground arith
leb_ℤ_antisymm (negsuc m) (pos n) h h' = ground arith
leb_ℤ_antisymm (negsuc m) (negsuc n) h h' = ap negsuc (ground arith)

leb_ℤ_comm :
    (a b : ℤ) (xs : List ℤ)
    → insert_by leb_ℤ a (insert_by leb_ℤ b xs) ≡ insert_by leb_ℤ b (insert_by leb_ℤ a xs)
leb_ℤ_comm =
    insert_by_comm leb_ℤ (λ a b h. ground arith) leb_ℤ_antisymm (λ a b c h h'. ground arith)

pub perm-sort_by :
    {l l' : Numbered} → Permᴰ l l' → sort_by leb_ℤ (numbers l) ≡ sort_by leb_ℤ (numbers l')
unfolding sort_by
perm-sort_by nil = refl
perm-sort_by (cons e p) = rw (e, perm-sort_by p) refl
perm-sort_by (swap {a' = a} {b' = b} {l} e e') =
    rw (e, e') (leb_ℤ_comm (pos b.0) (pos a.0) (sort_by leb_ℤ (numbers l)))
perm-sort_by (trans p p') = perm-sort_by p ∙ perm-sort_by p'

pub numbers-Sorted : (low : ℕ) (es : Numbered) → GrowsFrom low es → Sorted leb_ℤ (numbers es)
numbers-Sorted low [] g = tt
numbers-Sorted low (e ∷ []) g = tt
numbers-Sorted low ((n, ip) ∷ (m, ip') ∷ es) g =
    (ground arith, numbers-Sorted (n + 1) ((m, ip') ∷ es) g.2)

-- A key below all that are looked up does not matter.
pick_ips-below :
    (n low : ℕ) (ip : String) (m : Map String String) (es : Numbered)
    → n < 2 ^ 63
    → n < low
    → GrowsFrom low es
    → pick_ips ((decimal n, ip) ∷ m) (numbers es) ≡ pick_ips m (numbers es)
unfolding pick_ips itoa lookup
pick_ips-below n low ip m [] p h g = refl
pick_ips-below n low ip m ((k, _) ∷ es) p h g =
    rw (other_key n k p g.1 (omega arith), pick_ips-below n (k + 1) ip m es p (omega arith) g.2)
      refl

pub pick_ips-named :
    (low : ℕ) (es : Numbered) → GrowsFrom low es → pick_ips (named es) (numbers es) ≡ addresses es
unfolding pick_ips itoa lookup
pick_ips-named low [] g = refl
pick_ips-named low ((n, ip) ∷ es) g =
    rw
      (
        (text_key.same_iff (decimal n) (decimal n)).1 refl,
        pick_ips-below n (n + 1) ip (named es) es g.1 (omega arith) g.2,
        pick_ips-named (n + 1) es g.2,
      )
      refl
