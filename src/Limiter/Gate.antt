-- ===== src/Limiter/Gate.antt =====
-- `checkDeviceGate`, `pickVictim` and the two branches of the gate.
pub mod Union
pub mod Decision
pub mod Victim
use ljfxznode.Common.{
  ℕ, ◌+◌, ◌%◌, Bool, true, false, ◌||◌, Option, none, some, List, [], ◌∷◌, String, ltb, leb_ℤ,
  ltb_ℤ, ℤ, pos, if◌then◌else◌, ◌==◌, text_key, nat_key, Map, keys, lookup, get, or_zero, length,
  get_elem?,
}
use ljfxznode.Limiter.State.{Ips, Externals, Limiter, shard_of, global_devices_stale_after}

-- The first key of a `range` over a map, whose order is random: any key, by the choice.
unfoldable pub any_key : ℕ → List String → Option String
any_key choice xs = get_elem? xs (choice % length xs)

unfoldable pub pick_victim : ℕ → Ips → Map String Bool → String
unfolding any_key
pick_victim choice local global =
    or_zero (any_key choice (keys local)) (or_zero (any_key choice (keys global)) "")

-- `for gip := range globalIPs { if _, dup := local[gip]; !dup { count++ } }`
unfoldable pub count_union : Ips → ℕ → Map String Bool → ℕ
count_union local count [] = count
count_union local count ((gip, _) ∷ global) =
    count_union local (elim (lookup gip local) [ none ↦ count + 1 | some _ ↦ count ]) global

-- The branch for a fresh global table, after the test for a reconnection.
unfoldable pub gate_fresh : ℕ → Ips → Map String Bool → ℕ → String → ℤ → Bool × String
unfolding pick_victim count_union
gate_fresh choice local global_ips global_count ip limit =
    if get ip false global_ips
    then (true, "")
    else (if leb_ℤ limit (pos (length local)) || leb_ℤ limit (pos global_count)
        then (true, pick_victim choice local global_ips)
        else (if ltb_ℤ (pos (length local + global_count)) limit
            then (false, "")
            else (let count = count_union local (length local) global_ips in
                if leb_ℤ limit (pos count)
                then (true, pick_victim choice local global_ips)
                else (false, ""))))

-- The branch for a stale table: the local count, then the panel's list of counts.
unfoldable pub gate_stale : ℕ → Ips → ℤ → ℤ → Bool × String
unfolding pick_victim
gate_stale choice local alive limit =
    if ltb_ℤ (pos (length local)) limit
    then (if leb_ℤ limit alive then (true, pick_victim choice local []) else (false, ""))
    else (true, pick_victim choice local [])

-- `time.Since(l.globalLastUpdate) > globalDevicesStaleAfter`; a zero time is long ago.
unfoldable pub is_stale : ℕ → Option ℕ → Bool
is_stale now none = true
is_stale now (some updated) = ltb (updated + global_devices_stale_after) now

module _ {x : Externals} (l : Limiter x) where
  abbrev pub local_ips : ℕ → Ips
  local_ips uid = get uid [] (l.ref_shards (shard_of uid))

  abbrev pub global_ips : ℕ → Map String Bool
  global_ips uid = get uid [] l.global_devices

  unfoldable pub get_alive_count : ℕ → ℤ
  get_alive_count uid = get uid (pos 0) l.alive_list

  unfoldable pub check_device_gate : ℕ → ℕ → ℕ → String → ℤ → Bool × String
  unfolding get_alive_count gate_fresh gate_stale is_stale
  check_device_gate now choice uid ip limit =
      if leb_ℤ limit (pos 0)
      then (false, "")
      else (let local = local_ips uid in
          if ltb 0 (get ip 0 local)
          then (false, "")
          else (if is_stale now l.global_last_update
              then gate_stale choice local (get_alive_count uid) limit
              else gate_fresh choice local (global_ips uid) (get uid 0 l.global_count) ip limit))
