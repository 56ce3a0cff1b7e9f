-- ===== src/Limiter/Conn/Kicks.antt =====
-- What a kick does, and how often one is started.
use mathlib.Core.Path.{subst}
use ljfxznode.Common.{
  ℕ, ◌+◌, ◌<◌, ◌≡◌, ◌≢◌, refl, ap, ◌∙◌, inl, inr, true, false, none, some, [], String, arith, leb_ℤ,
  pos, ℤ, nat_beq, nat_beq_iff, if◌then◌else◌, Bool-cases, get, text_key, nat_key, insert, IsMap,
  insert-IsMap, AllEntries-insert, AllEntries-lookup, Option-cases, lookup, int_laws, eq_of_parts,
}
use ljfxznode.Limiter.State.{
  Externals, Limiter, CooldownShard, shard_of, gate_shards, set_shard_self, observe-set_shard,
  pure_ip, second, kick_cooldown_duration,
}
use ljfxznode.Limiter.Refs.{same}
use ljfxznode.Limiter.Valid.{LimiterValid}
use ljfxznode.Limiter.Cooldown.{shard_kick, in_cooldown}
use ljfxznode.Limiter.Cooldown.Count.{
  CooldownEntry, CooldownShardValid, total-set_shard, shard_size-shard_kick,
}
use ljfxznode.Limiter.Cooldown.Expiry.{expiry_in, expiry, expiry_in-shard_kick}
use ljfxznode.Limiter.Gate.{check_device_gate}
use ljfxznode.Limiter.Conn.{Registered, Kick, refuse, try_open_conn, kick_device}

shard_kick-CooldownShardValid :
    (i uid : ℕ) (ip : String) (e : ℕ) (cd : CooldownShard)
    → shard_of uid ≡ i
    → CooldownShardValid i cd
    → CooldownShardValid i (shard_kick uid ip e cd)
unfolding shard_kick
shard_kick-CooldownShardValid i uid ip e cd h v =
    let ips = get uid [] cd in
    record {
      distinct = insert-IsMap uid (insert ip e ips) cd v.distinct;
      entries =
          AllEntries-insert (CooldownEntry i) uid (insert ip e ips) cd
            (h, insert-IsMap ip e ips old) v.entries;
    }
  where
    old : IsMap (get uid [] cd)
    old = elim (Option-cases (lookup uid cd)) [
      | inl gone ↦ rw gone tt
      | inr (m, found) ↦ rw found (AllEntries-lookup (CooldownEntry i) uid cd v.entries found).1
    ]

module _ {x : Externals} (l : Limiter x) (reg : Registered) where
  same_shard :
      (uid u : ℕ) (a : String)
      → uid ≡ u
      → expiry_in u a (l.kick_cooldown (shard_of uid)) ≡ expiry l u a
  same_shard uid u a e = ap (λ v. expiry_in u a (l.kick_cooldown (shard_of v))) e

  -- A kicked address cools down for the whole time from the kick on; no other entry changes.
  pub kick_device-expiry :
      (now uid : ℕ) (taguuid ip : String) (u : ℕ) (a : String)
      → expiry (kick_device l reg now uid taguuid ip).0 u a
        ≡ (if same uid ip u a then some (now + kick_cooldown_duration) else expiry l u a)
  unfolding kick_device
  kick_device-expiry now uid taguuid ip u a =
      let cd = l.kick_cooldown (shard_of uid) in
      let e = now + kick_cooldown_duration in
      let new = expiry_in-shard_kick uid ip e cd u a in
      observe-set_shard (λ v. expiry_in v a) l.kick_cooldown uid (shard_kick uid ip e cd) u
        (λ other. new ∙ ground (arith, nat_beq_iff uid u))
      ∙ ground (arith, nat_beq_iff uid u, new, same_shard uid u a)

  pub kick_device-LimiterValid :
      (now uid : ℕ) (taguuid ip : String)
      → LimiterValid l
      → LimiterValid (kick_device l reg now uid taguuid ip).0
  unfolding kick_device
  kick_device-LimiterValid now uid taguuid ip v =
      let i = shard_of uid in
      let cd = l.kick_cooldown i in
      let e = now + kick_cooldown_duration in
      record {
        refs = v.refs;
        globals = v.globals;
        cooldowns = λ j. elim (Bool-cases (nat_beq i j)) [
          | inl here ↦ rw here (
              subst (λ k. CooldownShardValid k (shard_kick uid ip e cd)) ((nat_beq_iff i j).0 here)
                (shard_kick-CooldownShardValid i uid ip e cd refl (v.cooldowns i)))
          | inr there ↦ rw there (v.cooldowns j)
        ];
        cooldowns_counted = rw v.cooldowns_counted (
            eq_of_parts _ _ (
              omega (
                int_laws,
                total-set_shard gate_shards i l.kick_cooldown (shard_kick uid ip e cd)
                    (omega arith),
                shard_size-shard_kick uid ip e cd,
              )));
      }

module _ {x : Externals} (l : Limiter x) where
  -- While an address cools down, a limited user gets no connection from it, whatever the tables say,
  -- and the attempt changes nothing.
  pub try_open_conn-cooldown :
      (now choice uid : ℕ) (taguuid ip : String) (limit : ℤ)
      → leb_ℤ limit (pos 0) ≡ false
      → in_cooldown l now uid (pure_ip ip) ≡ true
      → try_open_conn l now choice uid taguuid ip limit ≡ (l, false, none)
  unfolding try_open_conn
  try_open_conn-cooldown now choice uid taguuid ip limit limited cooling = rw (limited, cooling)

  -- A started kick is the user's, names a victim, comes more than a second after the last one of the
  -- shard, and is noted there.
  pub try_open_conn-kick :
      (now choice uid : ℕ) (taguuid ip : String) (limit : ℤ) (k : Kick)
      → let r = try_open_conn l now choice uid taguuid ip limit in
        r.2 ≡ some k
        → (r.1 ≡ false)
          × (k.uid ≡ uid)
          × (k.taguuid ≡ taguuid)
          × (k.victim ≢ "")
          × (l.kick_throttle (shard_of uid) + second < now)
          × (r.0.kick_throttle (shard_of uid) ≡ now)
  unfolding try_open_conn refuse
  try_open_conn-kick now choice uid taguuid ip limit k h = ground (
    arith,
    text_key.same_iff (check_device_gate l now choice uid (pure_ip ip) limit).1 "",
    set_shard_self l.kick_throttle (shard_of uid) now,
  )
