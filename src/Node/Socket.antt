-- ===== src/Node/Socket.antt =====
-- The callbacks that `startWS` of node/controller.go gives to the WebSocket client, and a device list on
-- its way from one node over the panel to another.
use ljfxznode.Common.{
  ℕ, ◌^◌, ◌<◌, ◌≡◌, refl, none, some, [], ◌∷◌, String, beq_ℤ, pos, zero, suc, Bool-cases, inl, inr,
  insert, get, keys, map, contains, IsMap, insert-IsMap, text_key, nat_key,
}
use ljfxznode.Core.{Core}
use ljfxznode.Limiter.State.{Externals, Limiter, RefShard, CooldownShard, gate_shards, pure_ip}
use ljfxznode.Limiter.Gate.{global_ips}
use ljfxznode.Limiter.Devices.{
  update_global_devices, local_device_snapshot, report_shard, report_shards, merge_ips, merge_shard,
  merge_shards,
}
use ljfxznode.Limiter.Devices.Globals.{update_global_devices_lem}
use ljfxznode.Panel.Socket.{
  Devices, Callback, on_device, on_remove_users, on_add_users, on_kick, Message, handle_message,
}
use ljfxznode.Panel.Socket.Devices.{push_devices, SmallDevices, decode_sync_devices-push_devices}
use ljfxznode.Node.Controller.{Controller}
use ljfxznode.Node.Deltas.{remove_users_by_ids, add_users_by_ws}

module _ {x : Externals} {core : Core} where
  -- A kick goes to the dispatcher, not to the controller.
  unfoldable pub run_callback : ℕ → Callback → Controller x core → Controller x core
  run_callback now (on_device users) c = record c {
    limiter = update_global_devices c.limiter now users;
  }
  run_callback now (on_remove_users ids) c = remove_users_by_ids ids c
  run_callback now (on_add_users users) c = add_users_by_ws users c
  run_callback now (on_kick email ip) c = c

  -- A message of the panel.
  unfoldable pub on_message : ℕ → Message → Controller x core → Controller x core
  unfolding run_callback
  on_message now msg c = elim (handle_message msg) [
    | none ↦ c
    | some callback ↦ run_callback now callback c
  ]

report_shard-IsMap : (sh : RefShard) (out : Devices) → IsMap out → IsMap (report_shard sh out)
unfolding report_shard
report_shard-IsMap [] out h = h
report_shard-IsMap ((uid, m) ∷ sh) out h =
    report_shard-IsMap sh (insert uid (keys m) out) (insert-IsMap uid (keys m) out h)

report_shards-IsMap : (n : ℕ) (shards : ℕ → RefShard) → IsMap (report_shards n shards)
unfolding report_shards
report_shards-IsMap zero shards = tt
report_shards-IsMap (suc n) shards =
    report_shard-IsMap (shards n) (report_shards n shards) (report_shards-IsMap n shards)

merge_shard-IsMap :
    (now : ℕ) (cd : CooldownShard) (out : Devices) → IsMap out → IsMap (merge_shard now cd out)
unfolding merge_shard
merge_shard-IsMap now [] out h = h
merge_shard-IsMap now ((uid, ips) ∷ cd) out h =
    let cur = merge_ips now ips (get uid [] out) in
    merge_shard-IsMap now cd (insert uid cur out) (insert-IsMap uid cur out h)

merge_shards-IsMap :
    (n now : ℕ) (cds : ℕ → CooldownShard) (out : Devices)
    → IsMap out
    → IsMap (merge_shards n now cds out)
unfolding merge_shards
merge_shards-IsMap zero now cds out h = h
merge_shards-IsMap (suc n) now cds out h =
    merge_shard-IsMap now (cds n) (merge_shards n now cds out) (merge_shards-IsMap n now cds out h)

snapshot-IsMap : {x : Externals} (l : Limiter x) (now : ℕ) → IsMap (local_device_snapshot l now)
unfolding local_device_snapshot
snapshot-IsMap l now =
    let out = report_shards gate_shards l.ref_shards in
    elim (Bool-cases (beq_ℤ l.cooldown_count (pos 0))) [
      | inl idle ↦ rw idle (report_shards-IsMap gate_shards l.ref_shards)
      | inr busy ↦ rw busy (
          merge_shards-IsMap gate_shards now l.kick_cooldown out
            (report_shards-IsMap gate_shards l.ref_shards))
    ]

-- The panel's push of what a node has reported.
abbrev pub push_message : ℕ → ℕ → Devices → Message
push_message time node m = record {
  event = "sync.devices";
  payload = some (push_devices time node m);
  timestamp = time;
}

handle_message-push_message :
    (time node : ℕ) (m : Devices)
    → time < 2 ^ 63
    → node < 2 ^ 63
    → IsMap m
    → SmallDevices m
    → handle_message (push_message time node m) ≡ some (on_device m)
unfolding handle_message
handle_message-push_message time node m t n d h =
    rw (decode_sync_devices-push_devices time node m t n d h) refl

module _ {x : Externals} {core : Core} (l : Limiter x) (c : Controller x core) where
  -- When the panel pushes what a node has reported, the other node's global table lists for each user
  -- exactly the reported addresses, mapped ones read as IPv4; the user ids, the panel's clock and the
  -- node's number are an `int`.
  pub on_message-local_device_snapshot :
      (then_ now time node u : ℕ) (a : String)
      → time < 2 ^ 63
      → node < 2 ^ 63
      → SmallDevices (local_device_snapshot l then_)
      → let pushed = push_message time node (local_device_snapshot l then_) in
        contains a (keys (global_ips (on_message now pushed c).limiter u))
        ≡ contains a (map pure_ip (get u [] (local_device_snapshot l then_)))
  unfolding on_message
  on_message-local_device_snapshot then_ now time node u a t n h =
      let m = local_device_snapshot l then_ in
      let d = snapshot-IsMap l then_ in
      rw (handle_message-push_message time node m t n d h, on_message)
        (update_global_devices_lem c.limiter now now u m a d).0
