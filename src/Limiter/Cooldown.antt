-- ===== src/Limiter/Cooldown.antt =====
-- The cooldown list: kicked addresses that stay refused, and reported, until their time runs out.
pub mod Count
pub mod Expiry
use ljfxznode.Common.{
  ℕ, zero, suc, ◌+◌, ◌≡◌, Bool, true, false, ◌||◌, Option, none, some, List, [], ◌∷◌, String, ltb,
  leb, beq_ℤ, ℤ, pos, negsuc, ◌+ℤ◌, ◌-ℤ◌, if◌then◌else◌, text_key, nat_key, Map, lookup, insert,
  delete, get, or_zero, length,
}
use ljfxznode.Limiter.State.{
  Externals, Limiter, CooldownShard, shard_of, gate_shards, kick_cooldown_duration, set_shard,
}

-- The entry of `kickDevice`: the user's table is made if it is missing.
unfoldable pub shard_kick : ℕ → String → ℕ → CooldownShard → CooldownShard
shard_kick uid ip expiry cd = insert uid (insert ip expiry (get uid [] cd)) cd

-- `if _, exists := ips[ip]; !exists { l.cooldownCount.Add(1) }`
unfoldable pub added_by_kick : ℕ → String → CooldownShard → ℕ
added_by_kick uid ip cd = elim (lookup ip (get uid [] cd)) [ none ↦ 1 | some _ ↦ 0 ]

-- The inner loop of `purgeExpiredCooldowns`: the entries that stay.
unfoldable pub unexpired : ℕ → Map String ℕ → Map String ℕ
unexpired now [] = []
unexpired now ((ip, expiry) ∷ ips) =
    if ltb now expiry then (ip, expiry) ∷ unexpired now ips else unexpired now ips

-- ... and how many go.
unfoldable pub expired_count : ℕ → Map String ℕ → ℕ
expired_count now [] = 0
expired_count now ((ip, expiry) ∷ ips) = (if ltb now expiry then 0 else 1) + expired_count now ips

-- One shard: a user with no entry left goes out.
unfoldable pub purge_shard : ℕ → CooldownShard → CooldownShard
unfolding unexpired
purge_shard now [] = []
purge_shard now ((uid, ips) ∷ cd) = elim (unexpired now ips) [
  | [] ↦ purge_shard now cd
  | e ∷ kept ↦ (uid, e ∷ kept) ∷ purge_shard now cd
]

unfoldable pub purged_count : ℕ → CooldownShard → ℕ
unfolding expired_count
purged_count now [] = 0
purged_count now ((uid, ips) ∷ cd) = expired_count now ips + purged_count now cd

-- `for i := range l.gateLocks`, over the first `n` shards: the shards, and the number removed.
unfoldable pub purge_shards : ℕ → ℕ → (ℕ → CooldownShard) → (ℕ → CooldownShard) × ℕ
unfolding purge_shard purged_count
purge_shards zero now cds = (cds, 0)
purge_shards (suc n) now cds =
    let (rest, removed) = purge_shards n now cds in
    (set_shard rest n (purge_shard now (cds n)), removed + purged_count now (cds n))

module _ {x : Externals} (l : Limiter x) where
  unfoldable pub in_cooldown : ℕ → ℕ → String → Bool
  in_cooldown now uid ip =
      if beq_ℤ l.cooldown_count (pos 0)
      then false
      else (elim (lookup uid (l.kick_cooldown (shard_of uid))) [
        | none ↦ false
        | some ips ↦ elim (lookup ip ips) [ none ↦ false | some expiry ↦ ltb now expiry ]
      ])

  -- The state, and whether anything was removed.
  unfoldable pub purge_expired_cooldowns : ℕ → Limiter x × Bool
  purge_expired_cooldowns now =
      if beq_ℤ l.cooldown_count (pos 0)
      then (l, false)
      else (let (cds, removed) = purge_shards gate_shards now l.kick_cooldown in
          if ltb 0 removed
          then (
            record l {
              kick_cooldown = cds;
              cooldown_count = l.cooldown_count -ℤ pos removed;
              device_dirty = true;
            },
            true,
          )
          else (record l { kick_cooldown = cds }, false))

  -- `DevicesDirty`: the purge comes first, whatever the mark says.
  unfoldable pub devices_dirty : ℕ → Limiter x × Bool
  devices_dirty now =
      let (l', removed) = purge_expired_cooldowns now in (l', l'.device_dirty || removed)

  unfoldable pub reset_devices_dirty : Limiter x
  reset_devices_dirty = record l { device_dirty = false }
