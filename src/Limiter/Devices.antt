-- ===== src/Limiter/Devices.antt =====
-- The device tables: `UpdateGlobalDevices`, `GetOnlineDevice` and `LocalDeviceSnapshot`.
pub mod Globals
pub mod Snapshot
use ljfxznode.Common.{
  ℕ, zero, suc, ◌≡◌, Bool, true, false, Option, none, some, List, [], ◌∷◌, ◌++◌, String, ltb, beq_ℤ,
  pos, if◌then◌else◌, text_key, nat_key, Map, lookup, insert, get, keys, length, contains, map,
}
use ljfxznode.Panel.{OnlineUser}
use ljfxznode.Limiter.State.{Externals, Limiter, RefShard, Ips, CooldownShard, gate_shards, pure_ip}

-- The set of a user's addresses.
unfoldable pub ip_set : List String → Map String Bool → Map String Bool
unfolding pure_ip
ip_set [] m = m
ip_set (ip ∷ ips) m = ip_set ips (insert (pure_ip ip) true m)

-- A user id stands once in a Go map, so the loop writes each once.
unfoldable pub device_table :
    Map ℕ (List String) → Map ℕ (Map String Bool) → Map ℕ (Map String Bool)
unfolding ip_set
device_table [] devices = devices
device_table ((uid, ips) ∷ users) devices = device_table users (insert uid (ip_set ips []) devices)

unfoldable pub count_table : Map ℕ (Map String Bool) → Map ℕ ℕ → Map ℕ ℕ
count_table [] counts = counts
count_table ((uid, m) ∷ devices) counts = count_table devices (insert uid (length m) counts)

module _ {x : Externals} (l : Limiter x) where
  -- A nil map reads as an empty one.
  unfoldable pub update_global_devices : ℕ → Map ℕ (List String) → Limiter x
  unfolding device_table count_table
  update_global_devices now users =
      let devices = device_table users [] in
      record l {
        global_devices = devices;
        global_count = count_table devices [];
        global_last_update = some now;
      }

-- The two loops of `GetOnlineDevice`, over the first `n` shards.
unfoldable pub online_in_shard : RefShard → List OnlineUser
online_in_shard [] = []
online_in_shard ((uid, m) ∷ sh) =
    map (λ ip. record { uid = uid; ip = ip }) (keys m) ++ online_in_shard sh

unfoldable pub online_in_shards : ℕ → (ℕ → RefShard) → List OnlineUser
unfolding online_in_shard
online_in_shards zero shards = []
online_in_shards (suc n) shards = online_in_shards n shards ++ online_in_shard (shards n)

-- The first loop of `LocalDeviceSnapshot`, over the first `n` shards.
unfoldable pub report_shard : RefShard → Map ℕ (List String) → Map ℕ (List String)
report_shard [] out = out
report_shard ((uid, m) ∷ sh) out = report_shard sh (insert uid (keys m) out)

unfoldable pub report_shards : ℕ → (ℕ → RefShard) → Map ℕ (List String)
unfolding report_shard
report_shards zero shards = []
report_shards (suc n) shards = report_shard (shards n) (report_shards n shards)

-- The addresses that cool down go to the end of the user's list, unless they stand in it.
unfoldable pub merge_ips : ℕ → Map String ℕ → List String → List String
merge_ips now [] cur = cur
merge_ips now ((ip, expiry) ∷ ips) cur =
    merge_ips now ips
      (if ltb now expiry then (if contains ip cur then cur else cur ++ ip ∷ []) else cur)

unfoldable pub merge_shard : ℕ → CooldownShard → Map ℕ (List String) → Map ℕ (List String)
unfolding merge_ips
merge_shard now [] out = out
merge_shard now ((uid, ips) ∷ cd) out =
    merge_shard now cd (insert uid (merge_ips now ips (get uid [] out)) out)

unfoldable pub merge_shards :
    ℕ → ℕ → (ℕ → CooldownShard) → Map ℕ (List String) → Map ℕ (List String)
unfolding merge_shard
merge_shards zero now cds out = out
merge_shards (suc n) now cds out = merge_shard now (cds n) (merge_shards n now cds out)

module _ {x : Externals} (l : Limiter x) where
  unfoldable pub get_online_device : List OnlineUser
  get_online_device = online_in_shards gate_shards l.ref_shards

  unfoldable pub local_device_snapshot : ℕ → Map ℕ (List String)
  local_device_snapshot now =
      let out = report_shards gate_shards l.ref_shards in
      if beq_ℤ l.cooldown_count (pos 0)
      then out
      else merge_shards gate_shards now l.kick_cooldown out
