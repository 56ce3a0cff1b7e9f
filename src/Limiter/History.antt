-- ===== src/Limiter/History.antt =====
-- A limiter over any sequence of operations, in any order. The operations of one user are serialised
-- by the shard's lock, so that concurrent calls are such a sequence.
pub mod Throttle
pub mod Cooling
use ljfxznode.Common.{
  ℕ, inl, inr, Bool, true, false, none, List, [], ◌∷◌, String, ℤ, pos, Map, leb_ℤ, ltb_ℤ, Option,
  arith, Bool-cases, Option-cases, lookup, text_key,
}
use ljfxznode.Panel.{UserInfo, AliveMap, LimitConfig, Rules}
use ljfxznode.Limiter.State.{Externals, Limiter, UserLimitInfo, pure_ip}
use ljfxznode.Limiter.Valid.{LimiterValid, SameTables, SameTables-LimiterValid}
use ljfxznode.Limiter.Gate.{check_device_gate}
use ljfxznode.Limiter.Cooldown.{in_cooldown, devices_dirty, reset_devices_dirty}
use ljfxznode.Limiter.Cooldown.Expiry.{purge_expired_cooldowns-LimiterValid}
use ljfxznode.Limiter.Conn.{Registered, Kick, refuse, try_open_conn, conn_closed, kick_device}
use ljfxznode.Limiter.Conn.Counts.{conn_opened-LimiterValid, conn_closed-LimiterValid}
use ljfxznode.Limiter.Conn.Kicks.{kick_device-LimiterValid}
use ljfxznode.Limiter.Users.{set_alive_list, update_user, new_limiter}
use ljfxznode.Limiter.Users.Valid.{update_user-LimiterValid, new_limiter-LimiterValid}
use ljfxznode.Limiter.Devices.{update_global_devices}
use ljfxznode.Limiter.Devices.Globals.{update_global_devices-LimiterValid}
use ljfxznode.Limiter.Rules.{update_rule}
use ljfxznode.Limiter.Limit.{user_bucket, with_bucket, rejected, check_limit, check_user}

pub data Event : Type 0 where
  open_conn : ℕ → ℕ → ℕ → String → String → ℤ → Event
  check : ℕ → ℕ → String → String → Bool → Event
  close_conn : String → String → Event
  kick : Registered → ℕ → ℕ → String → String → Event
  sync_devices : ℕ → Map ℕ (List String) → Event
  ask_dirty : ℕ → Event
  reset_dirty : Event
  set_alive : AliveMap → Event
  change_users : String → List UserInfo → List UserInfo → List UserInfo → Event
  change_rules : Rules → Event

module _ {x : Externals} where
  unfoldable pub step : Event → Limiter x → Limiter x
  step (open_conn now choice uid taguuid ip limit) l =
      (try_open_conn l now choice uid taguuid ip limit).0
  step (check now choice taguuid ip tcp) l = (check_limit l now choice taguuid ip tcp).state
  step (close_conn taguuid ip) l = conn_closed l taguuid ip
  step (kick reg now uid taguuid ip) l = (kick_device l reg now uid taguuid ip).0
  step (sync_devices now users) l = update_global_devices l now users
  step (ask_dirty now) l = (devices_dirty l now).0
  step reset_dirty l = reset_devices_dirty l
  step (set_alive m) l = set_alive_list m l
  step (change_users tag added deleted modified) l = update_user tag added deleted modified l
  step (change_rules rules) l = (update_rule l rules).0

  unfoldable pub run : List Event → Limiter x → Limiter x
  unfolding step
  run [] l = l
  run (e ∷ es) l = run es (step e l)

  refuse-SameTables :
      (l : Limiter x) (now uid : ℕ) (taguuid victim : String)
      → SameTables l (refuse l now uid taguuid victim).0
  unfolding refuse
  refuse-SameTables l now uid taguuid victim = ground arith

  user_bucket-SameTables :
      (l : Limiter x) (taguuid : String) (limit : ℤ) → SameTables l (user_bucket l taguuid limit).0
  unfolding user_bucket
  user_bucket-SameTables l taguuid limit = ground arith

  update_rule-SameTables : (l : Limiter x) (rules : Rules) → SameTables l (update_rule l rules).0
  unfolding update_rule
  update_rule-SameTables l rules = ground arith

  try_open_conn-LimiterValid :
      (l : Limiter x) (now choice uid : ℕ) (taguuid ip : String) (limit : ℤ)
      → LimiterValid l
      → LimiterValid (try_open_conn l now choice uid taguuid ip limit).0
  unfolding try_open_conn
  try_open_conn-LimiterValid l now choice uid taguuid ip limit v =
      let opened = conn_opened-LimiterValid l uid (pure_ip ip) v in
      elim (Bool-cases (leb_ℤ limit (pos 0))) [
        | inl free ↦ rw free opened
        | inr limited ↦ elim (Bool-cases (in_cooldown l now uid (pure_ip ip))) [
          | inl cooling ↦ rw (limited, cooling) v
          | inr warm ↦
              let gate = check_device_gate l now choice uid (pure_ip ip) limit in
              elim (Bool-cases gate.0) [
                | inl reject ↦
                    rw (limited, warm, reject)
                      (SameTables-LimiterValid l _ (refuse-SameTables l now uid taguuid gate.1) v)
                | inr pass ↦ rw (limited, warm, pass) opened
              ]
        ]
      ]

  with_bucket-LimiterValid :
      (l : Limiter x) (taguuid : String) (limit : ℤ) (k : Option Kick)
      → LimiterValid l
      → LimiterValid (with_bucket l taguuid limit k).state
  unfolding with_bucket
  with_bucket-LimiterValid l taguuid limit k v =
      SameTables-LimiterValid l _ (user_bucket-SameTables l taguuid limit) v

  check_user-LimiterValid :
      (l : Limiter x) (now choice : ℕ) (taguuid ip : String) (tcp : Bool) (info : UserLimitInfo)
      → LimiterValid l
      → LimiterValid (check_user l now choice taguuid ip tcp info).state
  unfolding check_user rejected
  check_user-LimiterValid l now choice taguuid ip true info v =
      let t = try_open_conn l now choice info.uid taguuid ip info.device_limit in
      let w = try_open_conn-LimiterValid l now choice info.uid taguuid ip info.device_limit v in
      elim (Bool-cases t.1) [
        | inl ok ↦ rw ok (with_bucket-LimiterValid t.0 taguuid info.speed_limit t.2 w)
        | inr denied ↦ rw denied w
      ]
  check_user-LimiterValid l now choice taguuid ip false info v =
      let w = with_bucket-LimiterValid l taguuid info.speed_limit none v in
      elim (Bool-cases (ltb_ℤ (pos 0) info.device_limit)) [
        | inl limited ↦
            elim (Bool-cases (check_device_gate l now choice info.uid ip info.device_limit).0) [
              | inl reject ↦ rw (limited, reject) v
              | inr pass ↦ rw (limited, pass) w
            ]
        | inr free ↦ rw free w
      ]

  check_limit-LimiterValid :
      (l : Limiter x) (now choice : ℕ) (taguuid ip : String) (tcp : Bool)
      → LimiterValid l
      → LimiterValid (check_limit l now choice taguuid ip tcp).state
  unfolding check_limit rejected
  check_limit-LimiterValid l now choice taguuid ip tcp v =
      elim (Option-cases (lookup taguuid l.user_limit_info)) [
        | inl gone ↦ rw (gone, check_limit) v
        | inr (info, found) ↦
            rw (found, check_limit)
              (check_user-LimiterValid l now choice taguuid (pure_ip ip) tcp info v)
      ]

  -- Every operation keeps a limiter in order.
  pub step-LimiterValid : (e : Event) (l : Limiter x) → LimiterValid l → LimiterValid (step e l)
  unfolding step devices_dirty reset_devices_dirty set_alive_list
  step-LimiterValid (open_conn now choice uid taguuid ip limit) l v =
      try_open_conn-LimiterValid l now choice uid taguuid ip limit v
  step-LimiterValid (check now choice taguuid ip tcp) l v =
      check_limit-LimiterValid l now choice taguuid ip tcp v
  step-LimiterValid (close_conn taguuid ip) l v = conn_closed-LimiterValid l taguuid ip v
  step-LimiterValid (kick reg now uid taguuid ip) l v =
      kick_device-LimiterValid l reg now uid taguuid ip v
  step-LimiterValid (sync_devices now users) l v = update_global_devices-LimiterValid l now users v
  step-LimiterValid (ask_dirty now) l v = purge_expired_cooldowns-LimiterValid l now v
  step-LimiterValid reset_dirty l v = SameTables-LimiterValid l _ (ground arith) v
  step-LimiterValid (set_alive m) l v = SameTables-LimiterValid l _ (ground arith) v
  step-LimiterValid (change_users tag added deleted modified) l v =
      update_user-LimiterValid tag added deleted modified l v
  step-LimiterValid (change_rules rules) l v =
      SameTables-LimiterValid l _ (update_rule-SameTables l rules) v

  pub run-LimiterValid :
      (es : List Event) (l : Limiter x) → LimiterValid l → LimiterValid (run es l)
  unfolding run
  run-LimiterValid [] l v = v
  run-LimiterValid (e ∷ es) l v = run-LimiterValid es (step e l) (step-LimiterValid e l v)

-- From the moment a limiter is made, no sequence of operations takes it out of order.
pub run-new_limiter :
    (x : Externals) (tag : String) (config : LimitConfig) (users : List UserInfo) (alive : AliveMap)
    (es : List Event)
    → LimiterValid (run es (new_limiter x tag config users alive))
run-new_limiter x tag config users alive es =
    run-LimiterValid es _ (new_limiter-LimiterValid x tag config users alive)
