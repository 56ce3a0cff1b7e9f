-- ===== src/Panel/Socket/Indexed.antt =====
-- The device lists that arrive as objects, since PHP's `array_unique` leaves gaps in the numbering.
use ljfxznode.Common.{
  ℕ, ◌^◌, ◌<◌, ◌≡◌, refl, ap, none, some, List, [], ◌∷◌, String, ℤ, leb_ℤ, text_key, nat_key, Map,
  lookup, IsMap, arith,
}
use mathlib.Core.List.{Permᴰ}
use ljfxznode.Common.Decimal.{decimal}
use ljfxznode.Common.Sorting.{sort_by-Sorted}
use ljfxznode.Panel.Json.{Json, object, Fields, done, field, field_of, decode_int, decode_texts}
use ljfxznode.Panel.Socket.Devices.{parse_key-decimal}
use ljfxznode.Panel.Socket.{
  Devices, pick_ips, ordered_ips, lax_ips, itoa, decode_users, decode_strict, decode_lax, lax_users,
  decode_sync_devices,
}
use ljfxznode.Panel.Socket.Numbered.{
  Numbered, indexed, named, GrowsFrom, addresses, named-IsMap, grows-AllSmall, perm-AllSmall,
  perm-named, decode_named-indexed, numbers, int_keys-named, perm-sort_by, numbers-Sorted,
  pick_ips-named,
}

pick_ips_lem :
    (m m' : Map String String) (ks : List ℤ)
    → ((k : String) → lookup k m ≡ lookup k m')
    → pick_ips m ks ≡ pick_ips m' ks
unfolding pick_ips
pick_ips_lem m m' [] h = refl
pick_ips_lem m m' (k ∷ ks) h = rw (h (itoa k), pick_ips_lem m m' ks h) refl

-- An object whose keys are numbers is read as the list of its addresses, in the order of the numbers.
pub lax_ips-indexed :
    (es ordered : Numbered)
    → Permᴰ es ordered
    → GrowsFrom 0 ordered
    → lax_ips (object (indexed es)) ≡ some (addresses ordered)
unfolding lax_ips ordered_ips
lax_ips-indexed es ordered p g =
    let (d, same) = perm-named p (named-IsMap 0 ordered g) in
    rw
      (
        decode_named-indexed es d,
        int_keys-named es (perm-AllSmall p (grows-AllSmall 0 ordered g)),
        perm-sort_by p,
        sort_by-Sorted leb_ℤ (numbers ordered) (numbers-Sorted 0 ordered g),
        pick_ips_lem (named es) (named ordered) (numbers ordered) same,
        pick_ips-named 0 ordered g,
      )
      refl

-- A user's addresses as they arrive, and in the order of their numbers.
pub record Arrival : Type 0 where
  pub arrived : Numbered
  pub ordered : Numbered

-- The devices as objects, and as lists.
unfoldable pub indexed_users : Map ℕ Arrival → Fields
unfolding indexed
indexed_users [] = done
indexed_users ((uid, a) ∷ m) = field (decimal uid) (object (indexed a.arrived)) (indexed_users m)

abbrev pub listed : Map ℕ Arrival → Devices
listed [] = []
listed ((uid, a) ∷ m) = (uid, addresses a.ordered) ∷ listed m

abbrev pub AllShuffled : Map ℕ Arrival → Type 0
AllShuffled [] = Unit
AllShuffled ((uid, a) ∷ m) =
    (uid < 2 ^ 63) × Permᴰ a.arrived a.ordered × GrowsFrom 0 a.ordered × AllShuffled m

lookup-listed : (uid : ℕ) (m : Map ℕ Arrival) → lookup uid m ≡ none → lookup uid (listed m) ≡ none
unfolding lookup
lookup-listed uid [] h = refl
lookup-listed uid ((k, a) ∷ m) h = ground (arith, lookup-listed uid m)

lax_users-indexed :
    (m : Map ℕ Arrival) → IsMap m → AllShuffled m → lax_users (indexed_users m) ≡ listed m
unfolding lax_users indexed_users
lax_users-indexed [] d g = refl
lax_users-indexed ((uid, a) ∷ m) d g =
    rw
      (
        parse_key-decimal uid g.0,
        lax_ips-indexed a.arrived a.ordered g.1 g.2,
        lax_users-indexed m d.1 g.3,
        lookup-listed uid m d.0,
      )
      refl

abbrev payload : Map ℕ Arrival → Json
payload m = object (field "users" (object (indexed_users m)) done)

decode_strict_fails :
    (uid : ℕ) (a : Arrival) (m : Map ℕ Arrival)
    → uid < 2 ^ 63
    → decode_strict (payload ((uid, a) ∷ m)) ≡ none
unfolding decode_strict decode_users indexed_users field_of decode_int decode_texts
decode_strict_fails uid a m h = rw (parse_key-decimal uid h) refl

-- The devices that the panel pushes as objects, whose keys are different numbers in any order, are
-- handed on as the lists of their addresses in the order of the numbers, for every user.
pub decode_sync_devices-indexed :
    (m : Map ℕ Arrival)
    → IsMap m
    → AllShuffled m
    → decode_sync_devices (some (object (field "users" (object (indexed_users m)) done)))
      ≡ some (listed m)
unfolding decode_sync_devices decode_lax field_of decode_int indexed_users
decode_sync_devices-indexed [] d g = refl
decode_sync_devices-indexed ((uid, a) ∷ m) d g =
    rw (decode_strict_fails uid a m g.0, decode_sync_devices)
      (ap some (lax_users-indexed ((uid, a) ∷ m) d g))
