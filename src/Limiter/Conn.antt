-- ===== src/Limiter/Conn.antt =====
-- Opening and closing connections, and dropping devices: `ConnOpened`, `ConnClosed`,
-- `TryOpenConn` and `kickDevice`. Each call reads the clock once, as `now`.
pub mod Counts
pub mod Admission
pub mod Kicks
use ljfxznode.Common.{
  ℕ, ◌+◌, ◌≡◌, Bool, true, false, Option, none, some, List, [], ◌∷◌, ◌++◌, String, ltb, leb_ℤ, ℤ,
  pos, ◌+ℤ◌, if◌then◌else◌, ◌==◌, text_key, nat_key, Map, lookup,
}
use ljfxznode.Limiter.State.{
  Externals, Limiter, UserLimitInfo, shard_of, set_shard, pure_ip, second, kick_cooldown_duration,
}
use ljfxznode.Limiter.Refs.{shard_open, shard_close}
use ljfxznode.Limiter.Gate.{check_device_gate}
use ljfxznode.Limiter.Cooldown.{shard_kick, added_by_kick, in_cooldown}

-- `go l.kickDevice(uid, taguuid, victim)`: a goroutine that is started, to run later.
pub record Kick : Type 0 where
  pub uid : ℕ
  pub taguuid : String
  pub victim : String

-- The callbacks that `kickDevice` makes.
pub data Callback : Type 0 where
  kick_local : String → String → Callback
  kick_reporter : ℕ → String → String → Callback

-- Whether the two callbacks are registered.
pub record Registered : Type 0 where
  pub local : Bool
  pub reporter : Bool

module _ {x : Externals} (l : Limiter x) where
  unfoldable pub conn_opened : ℕ → String → Limiter x
  conn_opened uid ip =
      let i = shard_of uid in
      record l {
        ref_shards = set_shard l.ref_shards i (shard_open uid (pure_ip ip) (l.ref_shards i));
        device_dirty = true;
      }

  unfoldable pub close_of_user : ℕ → String → Limiter x
  close_of_user uid ip =
      let i = shard_of uid in
      record l {
        ref_shards = set_shard l.ref_shards i (shard_close uid (pure_ip ip) (l.ref_shards i));
        device_dirty = true;
      }

  -- A user that is gone has no counts to lower.
  unfoldable pub conn_closed : String → String → Limiter x
  conn_closed taguuid ip = elim (lookup taguuid l.user_limit_info) [
    | none ↦ l
    | some u ↦ close_of_user u.uid ip
  ]

  -- A refusal with a victim starts a kick, at most one in a second for each shard.
  unfoldable pub refuse : ℕ → ℕ → String → String → Limiter x × Bool × Option Kick
  refuse now uid taguuid victim =
      if victim == ""
      then (l, false, none)
      else (if ltb (l.kick_throttle (shard_of uid) + second) now
          then (
            record l { kick_throttle = set_shard l.kick_throttle (shard_of uid) now },
            false,
            some (record { uid = uid; taguuid = taguuid; victim = victim }),
          )
          else (l, false, none))

  -- The state, whether the connection is admitted, and the goroutine started.
  unfoldable pub try_open_conn : ℕ → ℕ → ℕ → String → String → ℤ → Limiter x × Bool × Option Kick
  try_open_conn now choice uid taguuid ip device_limit =
      let ip' = pure_ip ip in
      if leb_ℤ device_limit (pos 0)
      then (conn_opened uid ip', true, none)
      else (if in_cooldown l now uid ip'
          then (l, false, none)
          else (let (reject, victim) = check_device_gate l now choice uid ip' device_limit in
              if reject then refuse now uid taguuid victim else (conn_opened uid ip', true, none)))

  -- The state, and the callbacks in the order in which they are made.
  unfoldable pub kick_device : Registered → ℕ → ℕ → String → String → Limiter x × List Callback
  kick_device reg now uid taguuid ip =
      let i = shard_of uid in
      let cd = l.kick_cooldown i in
      (
        record l {
          kick_cooldown =
              set_shard l.kick_cooldown i (shard_kick uid ip (now + kick_cooldown_duration) cd);
          cooldown_count = l.cooldown_count +ℤ pos (added_by_kick uid ip cd);
          device_dirty = true;
        },
        (if reg.local then kick_local taguuid ip ∷ [] else [])
            ++ (if reg.reporter then kick_reporter uid taguuid ip ∷ [] else []),
      )
