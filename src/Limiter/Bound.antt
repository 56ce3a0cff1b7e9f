-- ===== src/Limiter/Bound.antt =====
-- What keeps the devices of a user on the node, and the operations of limiter/limiter.go that leave the
-- table of users as it is.
pub mod Steps
use mathlib.Core.Path.{subst}
use ljfxznode.Common.{
  ℕ, ◌+◌, ◌-◌, ◌<◌, ◌≤◌, ◌≡◌, ◌≢◌, ◌∙◌, refl, sym, ap, inl, inr, Bool, true, false, not, none, some,
  List, [], ◌∷◌, String, ℤ, pos, Map, leb_ℤ, ltb_ℤ, Option, arith, Bool-cases, Option-cases, lookup,
  insert, delete, get, keys, contains, contains-keys, lookup-insert, length, length-insert,
  AllEntries, AllEntries-lookup, text_key, nat_key, nat_beq, nat_beq_iff, leb, if◌then◌else◌,
}
use ljfxznode.Panel.{UserInfo, AliveMap, LimitConfig, Rules}
use ljfxznode.Limiter.State.{
  Externals, Limiter, UserLimitInfo, Ips, RefShard, pure_ip, shard_of, set_shard, observe-set_shard,
}
use ljfxznode.Limiter.Refs.{decrement, put_ips, shard_open, shard_close, get-put_ips}
use ljfxznode.Limiter.Valid.{LimiterValid}
use ljfxznode.Limiter.Gate.{local_ips, check_device_gate}
use ljfxznode.Limiter.Cooldown.{
  in_cooldown, devices_dirty, reset_devices_dirty, purge_expired_cooldowns,
}
use ljfxznode.Limiter.Conn.{
  Registered, Kick, refuse, try_open_conn, conn_opened, conn_closed, close_of_user, kick_device,
}
use ljfxznode.Limiter.Conn.Admission.{try_open_conn-local_devices}
use ljfxznode.Limiter.Users.{set_alive_list}
use ljfxznode.Limiter.Devices.{update_global_devices}
use ljfxznode.Limiter.Rules.{update_rule}
use ljfxznode.Limiter.Limit.{user_bucket, with_bucket, rejected, check_limit, check_user}
use ljfxznode.Limiter.History.{
  Event, open_conn, check, close_conn, kick, sync_devices, ask_dirty, reset_dirty, set_alive,
  change_users, change_rules, step, run, step-LimiterValid,
}

length-delete_le : (k : String) (m : Ips) → length (delete k m) ≤ length m
unfolding delete
length-delete_le k [] = omega arith
length-delete_le k ((i, w) ∷ m) = ground (arith, length-delete_le k m)

length-decrement : (ip : String) (m : Ips) → length (decrement ip m) ≤ length m
unfolding decrement
length-decrement ip m =
    ground (arith, length-delete_le ip m, length-insert ip (get ip 0 m - 1) m, contains-keys ip m)

length-shard_close :
    (uid : ℕ) (ip : String) (sh : RefShard) (u : ℕ)
    → length (get u [] (shard_close uid ip sh)) ≤ length (get u [] sh)
unfolding shard_close
length-shard_close uid ip sh u = elim (Option-cases (lookup uid sh)) [
  | inl gone ↦ rw (gone, shard_close) (omega arith)
  | inr (m, found) ↦
      rw (found, shard_close)
        (rw (get-put_ips uid u (decrement ip m) sh) (elim (Bool-cases (nat_beq uid u)) [
          | inl e ↦
              let same : lookup u sh ≡ some m =
                ap (λ v. lookup v sh) (sym ((nat_beq_iff uid u).0 e)) ∙ found in
              rw (e, same) (length-decrement ip m)
          | inr e ↦ rw e (omega arith)
        ]))
]

module _ {x : Externals} (l : Limiter x) where
  pub length-close_of_user :
      (uid : ℕ) (ip : String) (u : ℕ)
      → length (local_ips (close_of_user l uid ip) u) ≤ length (local_ips l u)
  unfolding close_of_user
  length-close_of_user uid ip u =
      let shrunk = length-shard_close uid (pure_ip ip) (l.ref_shards (shard_of uid)) u in
      elim (Bool-cases (nat_beq (shard_of uid) (shard_of u))) [
        | inl s ↦
            let q = (nat_beq_iff (shard_of uid) (shard_of u)).0 s in
            rw s (
              subst
                (λ i.
                  length (get u [] (shard_close uid (pure_ip ip) (l.ref_shards (shard_of uid))))
                  ≤ length (get u [] (l.ref_shards i)))
                q shrunk)
        | inr s ↦ rw s (omega arith)
      ]

  local_ips-conn_opened_other :
      (uid : ℕ) (ip : String) (u : ℕ)
      → nat_beq uid u ≡ false
      → local_ips (conn_opened l uid ip) u ≡ local_ips l u
  unfolding conn_opened shard_open
  local_ips-conn_opened_other uid ip u e =
      observe-set_shard (λ v sh. get v [] sh) l.ref_shards uid
        (shard_open uid (pure_ip ip) (l.ref_shards (shard_of uid))) u
        (λ other. ground (
          arith,
          nat_beq_iff uid u,
          lookup-insert uid u
              (insert (pure_ip ip) (get (pure_ip ip) 0 (local_ips l uid) + 1) (local_ips l uid))
              (l.ref_shards (shard_of uid)),
        ))
      ∙ rw e refl

pub leb_pos : (n m : ℕ) → leb_ℤ (pos n) (pos m) ≡ true → n ≤ m
leb_pos n m h = ground arith

-- The operations of a history in which the table of users stays, on addresses that have no second prefix.
-- The limits of `TryOpenConn` are those that `CheckLimit` takes from the table.
abbrev pub IsSteady : Event → Type 0
IsSteady (open_conn now choice uid taguuid ip limit) = ⊥
IsSteady (check now choice taguuid ip tcp) = pure_ip (pure_ip (pure_ip ip)) ≡ pure_ip (pure_ip ip)
IsSteady (close_conn taguuid ip) = Unit
IsSteady (kick reg now uid taguuid ip) = Unit
IsSteady (sync_devices now users) = Unit
IsSteady (ask_dirty now) = Unit
IsSteady reset_dirty = Unit
IsSteady (set_alive m) = Unit
IsSteady (change_users tag added deleted modified) = ⊥
IsSteady (change_rules rules) = Unit

-- Whoever has the user's id has the limit.
abbrev pub HasLimit : ℕ → ℕ → Map String UserLimitInfo → Type 0
HasLimit u limit = AllEntries (λ tag info. info.uid ≡ u → info.device_limit ≡ pos limit)

module _ {x : Externals} where
  -- The counts and the users of two states are the same.
  pub record SameUsers (l k : Limiter x) : Type 0 where
    pub refs : k.ref_shards ≡ l.ref_shards
    pub users : k.user_limit_info ≡ l.user_limit_info

  -- The table is as before, and the bound of a user's devices here is kept.
  pub record Bounded (u limit : ℕ) (l k : Limiter x) : Type 0 where
    pub table : k.user_limit_info ≡ l.user_limit_info
    pub bounded : length (local_ips l u) ≤ limit → length (local_ips k u) ≤ limit

  pub SameUsers-Bounded : (u limit : ℕ) (l k : Limiter x) → SameUsers l k → Bounded u limit l k
  SameUsers-Bounded u limit l k s = record { table = s.users; bounded = λ h. rw s.refs h }

  refuse-SameUsers :
      (l : Limiter x) (now uid : ℕ) (taguuid victim : String)
      → SameUsers l (refuse l now uid taguuid victim).0
  unfolding refuse
  refuse-SameUsers l now uid taguuid victim = ground arith

  pub user_bucket-SameUsers :
      (l : Limiter x) (taguuid : String) (limit : ℤ) → SameUsers l (user_bucket l taguuid limit).0
  unfolding user_bucket
  user_bucket-SameUsers l taguuid limit = ground arith

  pub update_rule-SameUsers : (l : Limiter x) (rules : Rules) → SameUsers l (update_rule l rules).0
  unfolding update_rule
  update_rule-SameUsers l rules = ground arith

  pub purge-SameUsers : (l : Limiter x) (now : ℕ) → SameUsers l (purge_expired_cooldowns l now).0
  unfolding purge_expired_cooldowns
  purge-SameUsers l now = ground arith

  pub try_open_conn_table :
      (l : Limiter x) (now choice uid : ℕ) (taguuid ip : String) (limit : ℤ)
      → (try_open_conn l now choice uid taguuid ip limit).0.user_limit_info ≡ l.user_limit_info
  unfolding try_open_conn conn_opened
  try_open_conn_table l now choice uid taguuid ip limit =
      let victim = (check_device_gate l now choice uid (pure_ip ip) limit).1 in
      ground (arith, (refuse-SameUsers l now uid taguuid victim).users)

  -- A connection of another user.
  pub try_open_conn_other :
      (l : Limiter x) (now choice uid : ℕ) (taguuid ip : String) (limit : ℤ) (u : ℕ)
      → nat_beq uid u ≡ false
      → local_ips (try_open_conn l now choice uid taguuid ip limit).0 u ≡ local_ips l u
  unfolding try_open_conn
  try_open_conn_other l now choice uid taguuid ip limit u e =
      let opened = local_ips-conn_opened_other l uid (pure_ip ip) u e in
      let gate = check_device_gate l now choice uid (pure_ip ip) limit in
      elim (Bool-cases (leb_ℤ limit (pos 0))) [
        | inl free ↦ rw free opened
        | inr limited ↦ elim (Bool-cases (in_cooldown l now uid (pure_ip ip))) [
          | inl cooling ↦ rw (limited, cooling) refl
          | inr warm ↦ elim (Bool-cases gate.0) [
            | inl reject ↦
                rw (limited, warm, reject)
                  (ap (λ f. get u [] (f (shard_of u)))
                    (refuse-SameUsers l now uid taguuid gate.1).refs)
            | inr pass ↦ rw (limited, warm, pass) opened
          ]
        ]
      ]
