-- ===== src/Limiter/Users/Valid.antt =====
-- The user operations keep a limiter in order.
use ljfxznode.Common.{
  ℕ, ◌+◌, ◌≡◌, refl, sym, ap, inl, inr, List, [], ◌∷◌, String, arith, text_key, nat_key, nat_beq,
  nat_beq_iff, lookup, delete, get, delete-IsMap, AllEntries-delete, lookup-delete, Option-cases,
  Bool-cases, int_laws, eq_of_parts, pos,
}
use ljfxznode.Panel.{UserInfo, AliveMap, LimitConfig}
use ljfxznode.Limiter.State.{Externals, Limiter, CooldownShard, shard_of, gate_shards}
use ljfxznode.Limiter.Refs.{shard_delete-ShardValid}
use ljfxznode.Limiter.Valid.{GlobalEntry, LimiterValid}
use ljfxznode.Limiter.Cooldown.Count.{
  CooldownEntry, CooldownShardValid, shard_size, total-set_shard, shard_size-delete, total_empty,
}
use ljfxznode.Limiter.Conn.Counts.{shards-set_shard}
use ljfxznode.Limiter.Users.{
  new_limiter, drop_cooldown, delete_user, modify_user, delete_users, modify_users, add_users,
  update_user,
}
use mathlib.Core.Path.{subst}

-- A new limiter is in order.
pub new_limiter-LimiterValid :
    (x : Externals) (tag : String) (config : LimitConfig) (users : List UserInfo) (alive : AliveMap)
    → LimiterValid (new_limiter x tag config users alive)
unfolding new_limiter lookup
new_limiter-LimiterValid x tag config users alive = record {
  refs = λ i. record { distinct = tt; entries = tt };
  globals = λ uid. record { distinct = tt; marked = tt; counted = refl };
  cooldowns = λ i. record { distinct = tt; entries = tt };
  cooldowns_counted = ap pos (sym (total_empty gate_shards));
}

drop_cooldown_lem :
    (i uid : ℕ) (cd : CooldownShard)
    → CooldownShardValid i cd
    → CooldownShardValid i (drop_cooldown uid cd).0
      × (shard_size (drop_cooldown uid cd).0 + (drop_cooldown uid cd).1 ≡ shard_size cd)
unfolding drop_cooldown
drop_cooldown_lem i uid cd v = elim (Option-cases (lookup uid cd)) [
  | inl gone ↦ rw (gone, drop_cooldown) (v, omega arith)
  | inr (ips, found) ↦
      rw (found, drop_cooldown)
        (
          record {
            distinct = delete-IsMap uid cd v.distinct;
            entries = AllEntries-delete (CooldownEntry i) uid cd v.entries;
          },
          ground (arith, shard_size-delete uid cd v.distinct),
        )
]

global_delete :
    {x : Externals} (l : Limiter x) (gone uid : ℕ)
    → LimiterValid l
    → GlobalEntry
        (get uid [] (delete gone l.global_devices))
        (get uid 0 (delete gone l.global_count))
global_delete l gone uid v =
    rw (lookup-delete gone uid l.global_devices, lookup-delete gone uid l.global_count)
      (elim (Bool-cases (nat_beq gone uid)) [
        | inl e ↦ rw e (record { distinct = tt; marked = tt; counted = refl })
        | inr e ↦ rw e (v.globals uid)
      ])

module _ {x : Externals} (tag : String) where
  delete_user-LimiterValid :
      (u : UserInfo) (l : Limiter x) → LimiterValid l → LimiterValid (delete_user tag u l)
  unfolding delete_user
  delete_user-LimiterValid u l v =
      let i = shard_of u.id in
      let (valid, sizes) = drop_cooldown_lem i u.id (l.kick_cooldown i) (v.cooldowns i) in
      let new = (drop_cooldown u.id (l.kick_cooldown i)).0 in
      record {
        refs =
            shards-set_shard l.ref_shards i (delete u.id (l.ref_shards i)) v.refs
              (shard_delete-ShardValid i u.id (l.ref_shards i) (v.refs i));
        globals = λ uid. global_delete l u.id uid v;
        cooldowns = λ j. elim (Bool-cases (nat_beq i j)) [
          | inl e ↦ rw e (subst (λ k. CooldownShardValid k new) ((nat_beq_iff i j).0 e) valid)
          | inr e ↦ rw e (v.cooldowns j)
        ];
        cooldowns_counted = rw v.cooldowns_counted (
            eq_of_parts _ _ (
              omega (
                int_laws,
                sizes,
                total-set_shard gate_shards i l.kick_cooldown new (omega arith),
              )));
      }

  modify_user-LimiterValid :
      (u : UserInfo) (l : Limiter x) → LimiterValid l → LimiterValid (modify_user tag u l)
  unfolding modify_user
  modify_user-LimiterValid u l v = record {
    refs = v.refs;
    globals = v.globals;
    cooldowns = v.cooldowns;
    cooldowns_counted = v.cooldowns_counted;
  }

  delete_users-LimiterValid :
      (us : List UserInfo) (l : Limiter x) → LimiterValid l → LimiterValid (delete_users tag us l)
  unfolding delete_users
  delete_users-LimiterValid [] l v = v
  delete_users-LimiterValid (u ∷ us) l v =
      delete_users-LimiterValid us (delete_user tag u l) (delete_user-LimiterValid u l v)

  modify_users-LimiterValid :
      (us : List UserInfo) (l : Limiter x) → LimiterValid l → LimiterValid (modify_users tag us l)
  unfolding modify_users
  modify_users-LimiterValid [] l v = v
  modify_users-LimiterValid (u ∷ us) l v =
      modify_users-LimiterValid us (modify_user tag u l) (modify_user-LimiterValid u l v)

  pub update_user-LimiterValid :
      (added deleted modified : List UserInfo) (l : Limiter x)
      → LimiterValid l
      → LimiterValid (update_user tag added deleted modified l)
  unfolding update_user add_users
  update_user-LimiterValid added deleted modified l v =
      let w =
        modify_users-LimiterValid modified (delete_users tag deleted l)
          (delete_users-LimiterValid deleted l v) in
      record {
        refs = w.refs;
        globals = w.globals;
        cooldowns = w.cooldowns;
        cooldowns_counted = w.cooldowns_counted;
      }
