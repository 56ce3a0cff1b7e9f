-- ===== src/Limiter/Devices/Globals.antt =====
-- The global table after an set_shard from the panel.
use ljfxznode.Common.{
  ℕ, ◌+◌, ◌≡◌, ◌∙◌, refl, ap, inl, inr, Bool, true, false, ◌||◌, none, some, List, [], ◌∷◌, String,
  arith, text_key, nat_key, nat_beq_iff, Map, lookup, insert, get, keys, length, contains, IsMap,
  AllEntries, insert-IsMap, AllEntries-insert, AllEntries-lookup, map, ◌↔◌, ◌≤◌, lookup-insert,
  Option-cases, contains-keys,
}
use ljfxznode.Limiter.State.{Externals, Limiter, pure_ip, global_devices_stale_after}
use ljfxznode.Limiter.Gate.{global_ips, is_stale}
use ljfxznode.Limiter.Valid.{IsTrue, GlobalEntry, LimiterValid}
use ljfxznode.Limiter.Devices.{ip_set, device_table, count_table, update_global_devices}

ip_set_valid :
    (ips : List String) (m : Map String Bool)
    → IsMap m
    → AllEntries IsTrue m
    → IsMap (ip_set ips m) × AllEntries IsTrue (ip_set ips m)
unfolding ip_set
ip_set_valid [] m d t = (d, t)
ip_set_valid (ip ∷ ips) m d t =
    ip_set_valid ips (insert (pure_ip ip) true m) (insert-IsMap (pure_ip ip) true m d)
      (AllEntries-insert IsTrue (pure_ip ip) true m refl t)

abbrev TableEntry : ℕ → Map String Bool → Type 0
TableEntry _ m = IsMap m × AllEntries IsTrue m

device_table_valid :
    (users : Map ℕ (List String)) (devices : Map ℕ (Map String Bool))
    → IsMap devices
    → AllEntries TableEntry devices
    → IsMap (device_table users devices) × AllEntries TableEntry (device_table users devices)
unfolding device_table
device_table_valid [] devices d t = (d, t)
device_table_valid ((uid, ips) ∷ users) devices d t =
    device_table_valid users (insert uid (ip_set ips []) devices)
      (insert-IsMap uid (ip_set ips []) devices d)
      (AllEntries-insert TableEntry uid (ip_set ips []) devices (ip_set_valid ips [] tt tt) t)

lookup_eq :
    (p q : ℕ) (devices : Map ℕ (Map String Bool)) → p ≡ q → lookup p devices ≡ lookup q devices
lookup_eq p q devices h = ap (λ z. lookup z devices) h

-- The counts are those of the table.
lookup-count_table :
    (uid : ℕ) (devices : Map ℕ (Map String Bool)) (counts : Map ℕ ℕ)
    → IsMap devices
    → lookup uid (count_table devices counts)
      ≡ (elim (lookup uid devices) [ none ↦ lookup uid counts | some m ↦ some (length m) ])
unfolding count_table lookup
lookup-count_table uid [] counts d = refl
lookup-count_table uid ((u, m) ∷ devices) counts d = ground (
  arith,
  lookup-count_table uid devices (insert u (length m) counts) d.1,
  lookup-insert u uid (length m) counts,
  nat_beq_iff u uid,
  lookup_eq u uid devices,
)

global_entry :
    (uid : ℕ) (devices : Map ℕ (Map String Bool))
    → IsMap devices
    → AllEntries TableEntry devices
    → GlobalEntry (get uid [] devices) (get uid 0 (count_table devices []))
unfolding lookup
global_entry uid devices d t = elim (Option-cases (lookup uid devices)) [
  | inl gone ↦
      rw (gone, lookup-count_table uid devices [] d, gone)
        (record { distinct = tt; marked = tt; counted = refl })
  | inr (m, found) ↦
      let e = AllEntries-lookup TableEntry uid devices t found in
      rw (found, lookup-count_table uid devices [] d, found)
        (record { distinct = e.0; marked = e.1; counted = refl })
]

module _ {x : Externals} (l : Limiter x) where
  pub update_global_devices-LimiterValid :
      (now : ℕ) (users : Map ℕ (List String))
      → LimiterValid l
      → LimiterValid (update_global_devices l now users)
  unfolding update_global_devices
  update_global_devices-LimiterValid now users v =
      let t = device_table_valid users [] tt tt in
      record {
        refs = v.refs;
        globals = λ uid. global_entry uid (device_table users []) t.0 t.1;
        cooldowns = v.cooldowns;
        cooldowns_counted = v.cooldowns_counted;
      }

contains-ip_set :
    (a : String) (ips : List String) (m : Map String Bool)
    → contains a (keys (ip_set ips m)) ≡ (contains a (map pure_ip ips) || contains a (keys m))
unfolding ip_set
contains-ip_set a [] m = refl
contains-ip_set a (ip ∷ ips) m = ground (
  arith,
  contains-ip_set a ips (insert (pure_ip ip) true m),
  contains-keys a (insert (pure_ip ip) true m),
  contains-keys a m,
  lookup-insert (pure_ip ip) a true m,
)

ap_lookup : (p q : ℕ) (users : Map ℕ (List String)) → p ≡ q → lookup p users ≡ lookup q users
ap_lookup p q users h = ap (λ z. lookup z users) h

lookup-device_table :
    (uid : ℕ) (users : Map ℕ (List String)) (devices : Map ℕ (Map String Bool))
    → IsMap users
    → lookup uid (device_table users devices)
      ≡ (elim (lookup uid users) [ none ↦ lookup uid devices | some ips ↦ some (ip_set ips []) ])
unfolding device_table lookup
lookup-device_table uid [] devices d = refl
lookup-device_table uid ((u, ips) ∷ users) devices d = ground (
  arith,
  lookup-device_table uid users (insert u (ip_set ips []) devices) d.1,
  lookup-insert u uid (ip_set ips []) devices,
  nat_beq_iff u uid,
  ap_lookup u uid users,
)

module _ {x : Externals} (l : Limiter x) where
  -- After an set_shard the global table holds the pushed addresses, mapped ones read as IPv4, for every
  -- user and no others, and is fresh for 60 seconds.
  pub update_global_devices_lem :
      (now later uid : ℕ) (users : Map ℕ (List String)) (a : String)
      → IsMap users
      → let l' = update_global_devices l now users in
        (contains a (keys (global_ips l' uid)) ≡ contains a (map pure_ip (get uid [] users)))
        × ((is_stale later l'.global_last_update ≡ false)
            ↔ (later ≤ now + global_devices_stale_after))
  unfolding update_global_devices is_stale lookup
  update_global_devices_lem now later uid users a d = (
    elim (Option-cases (lookup uid users)) [
      | inl gone ↦ rw (gone, lookup-device_table uid users [] d, gone)
      | inr (ips, found) ↦
          rw (found, lookup-device_table uid users [] d, found)
            (contains-ip_set a ips [] ∙ ground arith)
    ],
    ground arith,
  )
