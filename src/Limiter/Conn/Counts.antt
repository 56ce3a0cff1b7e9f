-- ===== src/Limiter/Conn/Counts.antt =====
-- The connection counts under opening and closing.
use mathlib.Core.Path.{subst}
use ljfxznode.Common.{
  ℕ, ◌+◌, ◌-◌, ◌≡◌, sym, refl, ap, ◌∙◌, inl, inr, Bool, false, none, some, String, arith, nat_beq,
  nat_beq_iff, if◌then◌else◌, text_key, nat_key, lookup, Bool-cases, Option-cases, Option,
}
use ljfxznode.Limiter.State.{
  Externals, Limiter, UserLimitInfo, RefShard, shard_of, set_shard, observe-set_shard, pure_ip,
}
use ljfxznode.Limiter.Refs.{
  shard_open, shard_close, active, same, active-shard_open, active-shard_close, ShardValid,
  shard_open-ShardValid, shard_close-ShardValid,
}
use ljfxznode.Limiter.Valid.{LimiterValid}
use ljfxznode.Limiter.Conn.{conn_opened, close_of_user, conn_closed}

-- The active connections of a user from an address.
abbrev pub active_count : {x : Externals} → Limiter x → ℕ → String → ℕ
active_count l uid ip = active uid ip (l.ref_shards (shard_of uid))

-- Whether a closed connection is one of the user from the address.
abbrev pub closes : Option UserLimitInfo → String → ℕ → String → Bool
closes none ip u a = false
closes (some info) ip u a = same info.uid (pure_ip ip) u a

module _ {x : Externals} (l : Limiter x) where
  same_user :
      (uid u : ℕ) (a : String)
      → uid ≡ u
      → active_count l u a ≡ active u a (l.ref_shards (shard_of uid))
  same_user uid u a e = ap (λ i. active u a (l.ref_shards (shard_of i))) (sym e)

  -- An opened connection counts once more for its user and address, and nowhere else.
  pub active_count-conn_opened :
      (uid : ℕ) (ip : String) (u : ℕ) (a : String)
      → active_count (conn_opened l uid ip) u a
        ≡ (if same uid (pure_ip ip) u a then active_count l u a + 1 else active_count l u a)
  unfolding conn_opened
  active_count-conn_opened uid ip u a =
      let sh = l.ref_shards (shard_of uid) in
      let new = active-shard_open uid (pure_ip ip) sh u a in
      observe-set_shard (λ v. active v a) l.ref_shards uid (shard_open uid (pure_ip ip) sh) u
        (λ e. new ∙ ground (arith, nat_beq_iff uid u))
      ∙ ground (arith, nat_beq_iff uid u, new, same_user uid u a)

  active_count-close_of_user :
      (uid : ℕ) (ip : String) (u : ℕ) (a : String)
      → active_count (close_of_user l uid ip) u a
        ≡ (if same uid (pure_ip ip) u a then active_count l u a - 1 else active_count l u a)
  unfolding close_of_user
  active_count-close_of_user uid ip u a =
      let sh = l.ref_shards (shard_of uid) in
      let new = active-shard_close uid (pure_ip ip) sh u a in
      observe-set_shard (λ v. active v a) l.ref_shards uid (shard_close uid (pure_ip ip) sh) u
        (λ e. new ∙ ground (arith, nat_beq_iff uid u))
      ∙ ground (arith, nat_beq_iff uid u, new, same_user uid u a)

  -- A closed connection counts once less, down to 0, for its user and address, and nowhere else; the
  -- connection of a user that is gone counts for nobody.
  pub active_count-conn_closed :
      (taguuid ip : String) (u : ℕ) (a : String)
      → active_count (conn_closed l taguuid ip) u a ≡ (
          if closes (lookup taguuid l.user_limit_info) ip u a
          then active_count l u a - 1
          else active_count l u a)
  unfolding conn_closed
  active_count-conn_closed taguuid ip u a = elim (Option-cases (lookup taguuid l.user_limit_info)) [
    | inl gone ↦ rw (gone, conn_closed)
    | inr (info, found) ↦ rw (found, conn_closed) (active_count-close_of_user info.uid ip u a)
  ]

module _ {x : Externals} (l : Limiter x) where
  -- A connection that is opened and then closed leaves no trace in the counts.
  pub conn_closed-conn_opened :
      (taguuid ip : String) (info : UserLimitInfo) (u : ℕ) (a : String)
      → lookup taguuid l.user_limit_info ≡ some info
      → active_count (conn_closed (conn_opened l info.uid ip) taguuid ip) u a ≡ active_count l u a
  unfolding conn_opened
  conn_closed-conn_opened taguuid ip info u a h =
      rw (active_count-conn_closed (conn_opened l info.uid ip) taguuid ip u a, h)
        (ground (arith, active_count-conn_opened l info.uid ip u a))

pub shards-set_shard :
    (shards : ℕ → RefShard) (i : ℕ) (sh : RefShard)
    → ((j : ℕ) → ShardValid j (shards j))
    → ShardValid i sh
    → (j : ℕ) → ShardValid j (set_shard shards i sh j)
shards-set_shard shards i sh all v j = elim (Bool-cases (nat_beq i j)) [
  | inl e ↦ rw e (subst (λ k. ShardValid k sh) ((nat_beq_iff i j).0 e) v)
  | inr e ↦ rw e (all j)
]

module _ {x : Externals} (l : Limiter x) where
  pub conn_opened-LimiterValid :
      (uid : ℕ) (ip : String) → LimiterValid l → LimiterValid (conn_opened l uid ip)
  unfolding conn_opened
  conn_opened-LimiterValid uid ip v = record {
    refs =
        shards-set_shard l.ref_shards (shard_of uid) _ v.refs
          (shard_open-ShardValid (shard_of uid) uid (pure_ip ip) _ refl (v.refs _));
    globals = v.globals;
    cooldowns = v.cooldowns;
    cooldowns_counted = v.cooldowns_counted;
  }

  close_of_user-LimiterValid :
      (uid : ℕ) (ip : String) → LimiterValid l → LimiterValid (close_of_user l uid ip)
  unfolding close_of_user
  close_of_user-LimiterValid uid ip v = record {
    refs =
        shards-set_shard l.ref_shards (shard_of uid) _ v.refs
          (shard_close-ShardValid (shard_of uid) uid (pure_ip ip) _ refl (v.refs _));
    globals = v.globals;
    cooldowns = v.cooldowns;
    cooldowns_counted = v.cooldowns_counted;
  }

  pub conn_closed-LimiterValid :
      (taguuid ip : String) → LimiterValid l → LimiterValid (conn_closed l taguuid ip)
  unfolding conn_closed
  conn_closed-LimiterValid taguuid ip v = elim (Option-cases (lookup taguuid l.user_limit_info)) [
    | inl gone ↦ rw (gone, conn_closed) v
    | inr (info, found) ↦ rw (found, conn_closed) (close_of_user-LimiterValid info.uid ip v)
  ]
