-- ===== src/Limiter/Cooldown/Expiry.antt =====
-- When the entry of an address runs out, and what the operations do to it.
use ljfxznode.Common.{
  ℕ, ◌≡◌, refl, ap, ◌∙◌, inl, inr, Bool, true, false, none, some, Option, [], ◌∷◌, String, arith,
  ltb, nat_beq_iff, if◌then◌else◌, text_key, nat_key, Map, get, lookup, insert, IsMap, AllEntries,
  lookup-insert, length, Bool-cases, beq_ℤ, pos, ◌-ℤ◌, lt→ltb, int_laws, eq_of_parts,
}
use ljfxznode.Limiter.State.{Externals, Limiter, CooldownShard, shard_of, gate_shards}
use ljfxznode.Limiter.Refs.{same}
use ljfxznode.Limiter.Cooldown.{
  shard_kick, unexpired, purge_shard, purge_shards, in_cooldown, purge_expired_cooldowns,
}
use ljfxznode.Limiter.Cooldown.Count.{
  CooldownEntry, CooldownShardValid, total, entries-le-total, total-purge_shards, purge_shards-at,
}
use ljfxznode.Limiter.Valid.{LimiterValid}

-- The time at which the user's entry for the address runs out.
abbrev pub expiry_in : ℕ → String → CooldownShard → Option ℕ
expiry_in uid ip cd = lookup ip (get uid [] cd)

abbrev pub expiry : {x : Externals} → Limiter x → ℕ → String → Option ℕ
expiry l uid ip = expiry_in uid ip (l.kick_cooldown (shard_of uid))

-- Whether a time is still to come.
abbrev pub runs : ℕ → Option ℕ → Bool
runs now none = false
runs now (some e) = ltb now e

abbrev pub still : ℕ → Option ℕ → Option ℕ
still now none = none
still now (some e) = if ltb now e then some e else none

lookup-unexpired :
    (now : ℕ) (ip : String) (ips : Map String ℕ)
    → IsMap ips
    → lookup ip (unexpired now ips) ≡ still now (lookup ip ips)
unfolding unexpired lookup
lookup-unexpired now ip [] d = refl
lookup-unexpired now ip ((a, e) ∷ ips) d =
    ground (arith, lookup-unexpired now ip ips d.1, text_key.same_iff a ip)

lookup_eq : (p q : ℕ) (cd : CooldownShard) → p ≡ q → lookup p cd ≡ lookup q cd
lookup_eq p q cd h = ap (λ z. lookup z cd) h

absent_user :
    (now uid : ℕ) (cd : CooldownShard)
    → lookup uid cd ≡ none
    → lookup uid (purge_shard now cd) ≡ none
unfolding lookup purge_shard
absent_user now uid [] h = refl
absent_user now uid ((u, ips) ∷ cd) h = ground (arith, absent_user now uid cd)

-- A purge keeps the entries that still run, and no other.
pub expiry_in-purge_shard :
    (now i uid : ℕ) (ip : String) (cd : CooldownShard)
    → IsMap cd
    → AllEntries (CooldownEntry i) cd
    → expiry_in uid ip (purge_shard now cd) ≡ still now (expiry_in uid ip cd)
unfolding lookup purge_shard
expiry_in-purge_shard now i uid ip [] d v = refl
expiry_in-purge_shard now i uid ip ((u, ips) ∷ cd) d v = ground (
  arith,
  expiry_in-purge_shard now i uid ip cd d.1 v.1,
  lookup-unexpired now ip ips v.0.1,
  absent_user now u cd d.0,
  nat_beq_iff u uid,
  lookup_eq u uid (purge_shard now cd),
  lookup_eq u uid cd,
)

pub expiry_in-shard_kick :
    (uid : ℕ) (ip : String) (e : ℕ) (cd : CooldownShard) (u : ℕ) (a : String)
    → expiry_in u a (shard_kick uid ip e cd)
      ≡ (if same uid ip u a then some e else expiry_in u a cd)
unfolding shard_kick
expiry_in-shard_kick uid ip e cd u a = rw (lookup-insert uid u (insert ip e (get uid [] cd)) cd) (
    ground (
      arith,
      nat_beq_iff uid u,
      lookup_eq uid u cd,
      text_key.same_iff ip a,
      lookup-insert ip a e (get uid [] cd),
    ))

empty_lookup : (ip : String) (ips : Map String ℕ) → length ips ≡ 0 → lookup ip ips ≡ none
unfolding lookup
empty_lookup ip [] h = refl
empty_lookup ip (e ∷ ips) h = absurd (omega arith)

unexpired-IsMap : (now : ℕ) (ips : Map String ℕ) → IsMap ips → IsMap (unexpired now ips)
unfolding unexpired
unexpired-IsMap now [] d = tt
unexpired-IsMap now ((ip, e) ∷ ips) d =
    ground (arith, unexpired-IsMap now ips d.1, lookup-unexpired now ip ips d.1)

pub no_entries :
    (uid : ℕ) (ip : String) (cds : ℕ → CooldownShard)
    → total gate_shards cds ≡ 0
    → expiry_in uid ip (cds (shard_of uid)) ≡ none
unfolding lookup
no_entries uid ip cds h =
    empty_lookup ip (get uid [] (cds (shard_of uid))) (omega (arith, entries-le-total uid cds))

purge_shard-CooldownShardValid :
    (now i : ℕ) (cd : CooldownShard)
    → IsMap cd
    → AllEntries (CooldownEntry i) cd
    → IsMap (purge_shard now cd) × AllEntries (CooldownEntry i) (purge_shard now cd)
unfolding purge_shard
purge_shard-CooldownShardValid now i [] d v = (tt, tt)
purge_shard-CooldownShardValid now i ((u, ips) ∷ cd) d v = ground (
  arith,
  purge_shard-CooldownShardValid now i cd d.1 v.1,
  unexpired-IsMap now ips v.0.1,
  absent_user now u cd d.0,
)

module _ {x : Externals} (l : Limiter x) where
  -- The cooldown test, with its shortcut on the count, tells whether the address's entry still runs.
  pub in_cooldown-runs :
      (now uid : ℕ) (ip : String)
      → LimiterValid l
      → in_cooldown l now uid ip ≡ runs now (expiry l uid ip)
  unfolding in_cooldown lookup
  in_cooldown-runs now uid ip v =
      ground (arith, v.cooldowns_counted, no_entries uid ip l.kick_cooldown)

  -- The two ways of a purge: nothing to do, or the loop.
  pub purge_cases {ℓ} :
      (P : Limiter x → Type ℓ) (now : ℕ)
      → let r = purge_shards gate_shards now l.kick_cooldown in
        (l.cooldown_count ≡ pos 0 → P l)
        → (r.1 ≡ 0 → P (record l { kick_cooldown = r.0 }))
        → P (record l {
          kick_cooldown = r.0;
          cooldown_count = l.cooldown_count -ℤ pos r.1;
          device_dirty = true;
        })
        → P (purge_expired_cooldowns l now).0
  unfolding purge_expired_cooldowns
  purge_cases P now idle same changed = elim (Bool-cases (beq_ℤ l.cooldown_count (pos 0))) [
    | inl zero_left ↦ rw zero_left (idle (ground arith))
    | inr some_left ↦ elim (Bool-cases (ltb 0 (purge_shards gate_shards now l.kick_cooldown).1)) [
      | inl removed ↦ rw (some_left, removed) changed
      | inr kept ↦ rw (some_left, kept) (same (ground arith))
    ]
  ]

  purged_expiry :
      (now uid : ℕ) (ip : String)
      → LimiterValid l
      → expiry_in uid ip ((purge_shards gate_shards now l.kick_cooldown).0 (shard_of uid))
        ≡ still now (expiry l uid ip)
  purged_expiry now uid ip v =
      let i = shard_of uid in
      let cd = v.cooldowns i in
      rw (purge_shards-at gate_shards now l.kick_cooldown i, lt→ltb i gate_shards (omega arith))
        (expiry_in-purge_shard now i uid ip (l.kick_cooldown i) cd.distinct cd.entries)

  -- A purge takes out the entries that have run out, and no other.
  pub purge_expired_cooldowns-expiry :
      (now uid : ℕ) (ip : String)
      → LimiterValid l
      → expiry (purge_expired_cooldowns l now).0 uid ip ≡ still now (expiry l uid ip)
  purge_expired_cooldowns-expiry now uid ip v =
      let p = purged_expiry now uid ip v in
      purge_cases (λ k. expiry k uid ip ≡ still now (expiry l uid ip)) now
        (λ h. rw (no_entries uid ip l.kick_cooldown (ground (arith, v.cooldowns_counted)))) (λ _. p)
        p

  purged_valid :
      (now i : ℕ)
      → LimiterValid l
      → CooldownShardValid i ((purge_shards gate_shards now l.kick_cooldown).0 i)
  purged_valid now i v =
      let cd = v.cooldowns i in
      rw (purge_shards-at gate_shards now l.kick_cooldown i)
        (elim (Bool-cases (ltb i gate_shards)) [
          | inl inside ↦
              let (d, e) =
                purge_shard-CooldownShardValid now i (l.kick_cooldown i) cd.distinct cd.entries in
              rw inside (record { distinct = d; entries = e })
          | inr outside ↦ rw outside cd
        ])

  pub purge_expired_cooldowns-LimiterValid :
      (now : ℕ) → LimiterValid l → LimiterValid (purge_expired_cooldowns l now).0
  purge_expired_cooldowns-LimiterValid now v =
      let t = total-purge_shards gate_shards now l.kick_cooldown in
      let c = v.cooldowns_counted in
      purge_cases LimiterValid now (λ _. v)
        (λ h. record {
          refs = v.refs;
          globals = v.globals;
          cooldowns = λ i. purged_valid now i v;
          cooldowns_counted = c ∙ ap pos (omega arith);
        })
        (record {
          refs = v.refs;
          globals = v.globals;
          cooldowns = λ i. purged_valid now i v;
          cooldowns_counted = rw c (eq_of_parts _ _ (omega (int_laws, t)));
        })
