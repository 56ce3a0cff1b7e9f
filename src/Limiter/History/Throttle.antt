-- ===== src/Limiter/History/Throttle.antt =====
-- The throttle of the kicks over a history: it never goes back.
use ljfxznode.Common.{
  ℕ, ◌+◌, ◌≤◌, ◌<◌, ◌≡◌, ◌≢◌, ◌∙◌, refl, ap, inl, inr, Bool, true, false, none, some, List, [], ◌∷◌,
  String, ℤ, pos, leb_ℤ, ltb_ℤ, Option, arith, Bool-cases, Option-cases, lookup, text_key, nat_key,
  nat_beq_iff,
}
use ljfxznode.Panel.{UserInfo, Rules}
use ljfxznode.Limiter.State.{Externals, Limiter, UserLimitInfo, pure_ip, shard_of, second}
use ljfxznode.Limiter.Valid.{LimiterValid}
use ljfxznode.Limiter.Gate.{check_device_gate, local_ips, global_ips}
use ljfxznode.Limiter.Gate.Victim.{IsVictim, check_device_gate-IsVictim}
use ljfxznode.Limiter.Cooldown.{
  in_cooldown, devices_dirty, reset_devices_dirty, purge_expired_cooldowns,
}
use ljfxznode.Limiter.Conn.{
  Kick, refuse, try_open_conn, conn_opened, conn_closed, close_of_user, kick_device,
}
use ljfxznode.Limiter.Conn.Kicks.{try_open_conn-kick}
use ljfxznode.Limiter.Cooldown.Expiry.{}
use ljfxznode.Limiter.Users.{
  set_alive_list, update_user, delete_user, modify_user, delete_users, modify_users, add_users,
}
use ljfxznode.Limiter.Devices.{update_global_devices}
use ljfxznode.Limiter.Rules.{update_rule}
use ljfxznode.Limiter.Limit.{user_bucket, with_bucket, rejected, check_limit, check_user}
use ljfxznode.Limiter.History.{
  Event, open_conn, check, close_conn, kick, sync_devices, ask_dirty, reset_dirty, set_alive,
  change_users, change_rules, step, run, step-LimiterValid, run-LimiterValid,
}

module _ {x : Externals} where
  -- The throttles of all shards are as before or later, and the cooldown table is the same.
  pub record Later (l k : Limiter x) : Type 0 where
    pub throttle : (i : ℕ) → l.kick_throttle i ≤ k.kick_throttle i
    pub cooldowns : k.kick_cooldown ≡ l.kick_cooldown

  pub Later-self : (l : Limiter x) → Later l l
  Later-self l = record { throttle = λ i. omega arith; cooldowns = refl }

  Later-same :
      (l k : Limiter x)
      → k.kick_throttle ≡ l.kick_throttle
      → k.kick_cooldown ≡ l.kick_cooldown
      → Later l k
  Later-same l k t c = record { throttle = λ i. rw t (omega arith); cooldowns = c }

  Later-trans : (l k m : Limiter x) → Later l k → Later k m → Later l m
  Later-trans l k m p q = record {
    throttle = λ i.
        let a : l.kick_throttle i ≤ k.kick_throttle i = p.throttle i in
        let b : k.kick_throttle i ≤ m.kick_throttle i = q.throttle i in omega arith;
    cooldowns = q.cooldowns ∙ p.cooldowns;
  }

  refuse-Later :
      (l : Limiter x) (now uid : ℕ) (taguuid victim : String)
      → Later l (refuse l now uid taguuid victim).0
  unfolding refuse
  refuse-Later l now uid taguuid victim = record {
    throttle = λ i. ground (arith, nat_beq_iff (shard_of uid) i);
    cooldowns = ground arith;
  }

  conn_opened-Later : (l : Limiter x) (uid : ℕ) (ip : String) → Later l (conn_opened l uid ip)
  unfolding conn_opened
  conn_opened-Later l uid ip = Later-same l _ refl refl

  pub try_open_conn-Later :
      (l : Limiter x) (now choice uid : ℕ) (taguuid ip : String) (limit : ℤ)
      → Later l (try_open_conn l now choice uid taguuid ip limit).0
  unfolding try_open_conn
  try_open_conn-Later l now choice uid taguuid ip limit =
      let opened = conn_opened-Later l uid (pure_ip ip) in
      let gate = check_device_gate l now choice uid (pure_ip ip) limit in
      elim (Bool-cases (leb_ℤ limit (pos 0))) [
        | inl free ↦ rw free opened
        | inr limited ↦ elim (Bool-cases (in_cooldown l now uid (pure_ip ip))) [
          | inl cooling ↦ rw (limited, cooling) (Later-self l)
          | inr warm ↦ elim (Bool-cases gate.0) [
            | inl reject ↦ rw (limited, warm, reject) (refuse-Later l now uid taguuid gate.1)
            | inr pass ↦ rw (limited, warm, pass) opened
          ]
        ]
      ]

  with_bucket-Later :
      (l : Limiter x) (taguuid : String) (limit : ℤ) (k : Option Kick)
      → Later l (with_bucket l taguuid limit k).state
  unfolding with_bucket user_bucket
  with_bucket-Later l taguuid limit k = Later-same l _ (ground arith) (ground arith)

  check_user-Later :
      (l : Limiter x) (now choice : ℕ) (taguuid ip : String) (tcp : Bool) (info : UserLimitInfo)
      → Later l (check_user l now choice taguuid ip tcp info).state
  unfolding check_user rejected
  check_user-Later l now choice taguuid ip true info =
      let t = try_open_conn l now choice info.uid taguuid ip info.device_limit in
      let w = try_open_conn-Later l now choice info.uid taguuid ip info.device_limit in
      elim (Bool-cases t.1) [
        | inl ok ↦
            rw ok (Later-trans l t.0 _ w (with_bucket-Later t.0 taguuid info.speed_limit t.2))
        | inr denied ↦ rw denied w
      ]
  check_user-Later l now choice taguuid ip false info =
      let w = with_bucket-Later l taguuid info.speed_limit none in
      elim (Bool-cases (ltb_ℤ (pos 0) info.device_limit)) [
        | inl limited ↦
            elim (Bool-cases (check_device_gate l now choice info.uid ip info.device_limit).0) [
              | inl reject ↦ rw (limited, reject) (Later-self l)
              | inr pass ↦ rw (limited, pass) w
            ]
        | inr free ↦ rw free w
      ]

  pub check_limit-Later :
      (l : Limiter x) (now choice : ℕ) (taguuid ip : String) (tcp : Bool)
      → Later l (check_limit l now choice taguuid ip tcp).state
  unfolding check_limit rejected
  check_limit-Later l now choice taguuid ip tcp =
      elim (Option-cases (lookup taguuid l.user_limit_info)) [
        | inl gone ↦ rw (gone, check_limit) (Later-self l)
        | inr (info, found) ↦
            rw (found, check_limit) (check_user-Later l now choice taguuid (pure_ip ip) tcp info)
      ]

  pub conn_closed-Later : (l : Limiter x) (taguuid ip : String) → Later l (conn_closed l taguuid ip)
  unfolding conn_closed close_of_user
  conn_closed-Later l taguuid ip = elim (Option-cases (lookup taguuid l.user_limit_info)) [
    | inl gone ↦ rw (gone, conn_closed) (Later-self l)
    | inr (info, found) ↦ rw (found, conn_closed) (Later-same l _ refl refl)
  ]

  pub update_rule-Later : (l : Limiter x) (rules : Rules) → Later l (update_rule l rules).0
  unfolding update_rule
  update_rule-Later l rules = Later-same l _ (ground arith) (ground arith)

  delete_users_throttle :
      (tag : String) (us : List UserInfo) (l : Limiter x)
      → (delete_users tag us l).kick_throttle ≡ l.kick_throttle
  unfolding delete_users delete_user
  delete_users_throttle tag [] l = refl
  delete_users_throttle tag (u ∷ us) l = delete_users_throttle tag us (delete_user tag u l)

  pub modify_users-Later :
      (tag : String) (us : List UserInfo) (l : Limiter x) → Later l (modify_users tag us l)
  unfolding modify_users modify_user
  modify_users-Later tag [] l = Later-self l
  modify_users-Later tag (u ∷ us) l =
      Later-trans l (modify_user tag u l) _ (Later-same l _ refl refl)
        (modify_users-Later tag us (modify_user tag u l))

  step_throttle :
      (e : Event) (l : Limiter x) (i : ℕ) → l.kick_throttle i ≤ (step e l).kick_throttle i
  unfolding step devices_dirty reset_devices_dirty set_alive_list kick_device update_global_devices
      purge_expired_cooldowns update_user add_users
  step_throttle (open_conn now choice uid taguuid ip limit) l i =
      (try_open_conn-Later l now choice uid taguuid ip limit).throttle i
  step_throttle (check now choice taguuid ip tcp) l i =
      (check_limit-Later l now choice taguuid ip tcp).throttle i
  step_throttle (close_conn taguuid ip) l i = (conn_closed-Later l taguuid ip).throttle i
  step_throttle (kick reg now uid taguuid ip) l i = omega arith
  step_throttle (sync_devices now users) l i = omega arith
  step_throttle (ask_dirty now) l i = ground arith
  step_throttle reset_dirty l i = omega arith
  step_throttle (set_alive m) l i = omega arith
  step_throttle (change_users tag added deleted modified) l i =
      let d = delete_users tag deleted l in
      rw (← ap (λ f. f i) (delete_users_throttle tag deleted l))
        ((modify_users-Later tag modified d).throttle i)
  step_throttle (change_rules rules) l i = (update_rule-Later l rules).throttle i

  run_throttle :
      (es : List Event) (l : Limiter x) (i : ℕ) → l.kick_throttle i ≤ (run es l).kick_throttle i
  unfolding run
  run_throttle [] l i = omega arith
  run_throttle (e ∷ es) l i =
      let a : l.kick_throttle i ≤ (step e l).kick_throttle i = step_throttle e l i in
      let b : (step e l).kick_throttle i ≤ (run es (step e l)).kick_throttle i =
        run_throttle es (step e l) i in
      omega arith

  started_victim :
      (l : Limiter x) (now choice uid : ℕ) (taguuid ip : String) (limit : ℤ) (k : Kick)
      → (try_open_conn l now choice uid taguuid ip limit).2 ≡ some k
      → k.victim ≡ (check_device_gate l now choice uid (pure_ip ip) limit).1
  unfolding try_open_conn refuse
  started_victim l now choice uid taguuid ip limit k h = ground arith

-- Two kicks that users of one shard start are more than a second apart, whatever the limiter does between
-- them and whatever times it reads; and whom the later one names is an online device of its user, on this
-- node if the user has any here, and not the address that was refused. The limiter is in order when the
-- first is started.
pub try_open_conn-run :
    {x : Externals} (l : Limiter x) (es : List Event) (now choice uid later choice' uid' : ℕ)
    (taguuid ip taguuid' ip' : String) (limit limit' : ℤ) (k k' : Kick)
    → LimiterValid l
    → shard_of uid ≡ shard_of uid'
    → (try_open_conn l now choice uid taguuid ip limit).2 ≡ some k
    → let l' = run es (try_open_conn l now choice uid taguuid ip limit).0 in
      (try_open_conn l' later choice' uid' taguuid' ip' limit').2 ≡ some k'
      → (now + second < later)
        × (k'.uid ≡ uid')
        × IsVictim (local_ips l' uid') (global_ips l' uid') k'.victim
        × (k'.victim ≢ pure_ip ip')
unfolding step
try_open_conn-run l es now choice uid later choice' uid' taguuid ip taguuid' ip' limit limit' k k' v
      shard first next =
    let l1 = (try_open_conn l now choice uid taguuid ip limit).0 in
    let l' = run es l1 in
    let a = try_open_conn-kick l now choice uid taguuid ip limit k first in
    let b = try_open_conn-kick l' later choice' uid' taguuid' ip' limit' k' next in
    let noted : l1.kick_throttle (shard_of uid) ≡ now = a.5 in
    let grown : l1.kick_throttle (shard_of uid) ≤ l'.kick_throttle (shard_of uid) =
      run_throttle es l1 (shard_of uid) in
    let apart : l'.kick_throttle (shard_of uid') + second < later = b.4 in
    let moved : l'.kick_throttle (shard_of uid) ≡ l'.kick_throttle (shard_of uid') =
      ap l'.kick_throttle shard in
    let named = started_victim l' later choice' uid' taguuid' ip' limit' k' next in
    let v' =
      run-LimiterValid es l1 (step-LimiterValid (open_conn now choice uid taguuid ip limit) l v) in
    let (victim, other) =
      check_device_gate-IsVictim l' later choice' uid' (pure_ip ip') limit' v'
        (λ e. b.3 (named ∙ e)) in
    (omega arith, b.1, rw named victim, rw named other)
