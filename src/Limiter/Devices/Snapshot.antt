-- ===== src/Limiter/Devices/Snapshot.antt =====
-- What the device reports say.
use ljfxznode.Common.{
  ℕ, zero, suc, ◌≡◌, ◌≢◌, ◌∙◌, refl, ap, inl, inr, false, ◌||◌, none, some, List, [], ◌∷◌, ◌++◌,
  String, arith, ltb, if◌then◌else◌, text_key, nat_key, nat_beq, nat_beq_iff, Map, lookup, insert,
  get, keys, contains, contains-append, IsMap, AllEntries, AllEntries-lookup, lookup-insert,
  Option-cases, Bool-cases, contains-keys, beq_ℤ, pos, lt→ltb,
}
use ljfxznode.Limiter.State.{Externals, Limiter, RefShard, CooldownShard, shard_of, gate_shards}
use ljfxznode.Limiter.Refs.{ShardValid, Entry, Positive, get_ips_valid}
use ljfxznode.Limiter.Valid.{LimiterValid}
use ljfxznode.Limiter.Gate.{local_ips}
use ljfxznode.Limiter.Conn.Counts.{active_count}
use ljfxznode.Limiter.Cooldown.Count.{CooldownEntry, CooldownShardValid}
use ljfxznode.Limiter.Cooldown.Expiry.{expiry_in, expiry, runs, no_entries}
use ljfxznode.Limiter.Devices.{
  report_shard, report_shards, merge_ips, merge_shard, merge_shards, local_device_snapshot,
}

lookup_eq {ℓ} : {V : Type ℓ} (p q : ℕ) (m : Map ℕ V) → p ≡ q → lookup p m ≡ lookup q m
lookup_eq p q m h = ap (λ z. lookup z m) h

lookup-report_shard :
    (u : ℕ) (sh : RefShard) (out : Map ℕ (List String))
    → IsMap sh
    → lookup u (report_shard sh out)
      ≡ (elim (lookup u sh) [ none ↦ lookup u out | some m ↦ some (keys m) ])
unfolding report_shard lookup
lookup-report_shard u [] out d = refl
lookup-report_shard u ((uid, m) ∷ sh) out d = ground (
  arith,
  lookup-report_shard u sh (insert uid (keys m) out) d.1,
  lookup-insert uid u (keys m) out,
  nat_beq_iff uid u,
  lookup_eq {0} uid u sh,
)

-- A user stands in no shard but its own.
not_elsewhere : (i u : ℕ) (sh : RefShard) → ShardValid i sh → shard_of u ≢ i → lookup u sh ≡ none
not_elsewhere i u sh v h = elim (Option-cases (lookup u sh)) [
  | inl gone ↦ gone
  | inr (m, found) ↦ absurd (h (AllEntries-lookup (Entry i) u sh v.entries found).0)
]

report_at :
    (n u : ℕ) (shards : ℕ → RefShard)
    → ((i : ℕ) → ShardValid i (shards i))
    → get u [] (report_shards n shards)
      ≡ (if ltb (shard_of u) n then keys (get u [] (shards (shard_of u))) else [])
unfolding report_shards lookup
report_at zero u shards v = ground arith
report_at (suc n) u shards v = elim (Bool-cases (nat_beq (shard_of u) n)) [
  | inl here ↦
      let q = (nat_beq_iff (shard_of u) n).0 here in
      rw (lookup-report_shard u (shards n) (report_shards n shards) (v n).distinct)
        (elim (Option-cases (lookup u (shards n))) [
          | inl gone ↦ rw (q, gone) (ground (arith, report_at n u shards v))
          | inr (m, found) ↦ rw (q, found) (ground arith)
        ])
  | inr there ↦
      rw
        (
          lookup-report_shard u (shards n) (report_shards n shards) (v n).distinct,
          not_elsewhere n u (shards n) (v n) (ground (arith, nat_beq_iff (shard_of u) n)),
        )
        (report_at n u shards v ∙ ground (arith, nat_beq_iff (shard_of u) n))
]

same_address : (ip a : String) (cur : List String) → ip ≡ a → contains ip cur ≡ contains a cur
same_address ip a cur h = ap (λ z. contains z cur) h

same_entry : (ip a : String) (ips : Map String ℕ) → ip ≡ a → lookup ip ips ≡ lookup a ips
same_entry ip a ips h = ap (λ z. lookup z ips) h

contains-merge_ips :
    (now : ℕ) (a : String) (ips : Map String ℕ) (cur : List String)
    → IsMap ips
    → contains a (merge_ips now ips cur) ≡ (contains a cur || runs now (lookup a ips))
unfolding merge_ips lookup
contains-merge_ips now a [] cur d = ground arith
contains-merge_ips now a ((ip, e) ∷ ips) cur d = ground (
  arith,
  contains-merge_ips now a ips (cur ++ ip ∷ []) d.1,
  contains-merge_ips now a ips cur d.1,
  contains-append a cur (ip ∷ []),
  text_key.same_iff ip a,
  same_address ip a cur,
  same_entry ip a ips,
)

no_expiry :
    (i u : ℕ) (a : String) (cd : CooldownShard)
    → CooldownShardValid i cd
    → shard_of u ≢ i
    → expiry_in u a cd ≡ none
unfolding lookup
no_expiry i u a cd v h = elim (Option-cases (lookup u cd)) [
  | inl gone ↦ rw gone
  | inr (ips, found) ↦ absurd (h (AllEntries-lookup (CooldownEntry i) u cd v.entries found).0)
]

contains-merge_shard :
    (now i u : ℕ) (a : String) (cd : CooldownShard) (out : Map ℕ (List String))
    → IsMap cd
    → AllEntries (CooldownEntry i) cd
    → contains a (get u [] (merge_shard now cd out))
      ≡ (contains a (get u [] out) || runs now (expiry_in u a cd))
unfolding merge_shard lookup
contains-merge_shard now i u a [] out d v = ground arith
contains-merge_shard now i u a ((uid, ips) ∷ cd) out d v =
    let cur = merge_ips now ips (get uid [] out) in
    contains-merge_shard now i u a cd (insert uid cur out) d.1 v.1
    ∙ rw (lookup-insert uid u cur out) (
        ground (
          arith,
          nat_beq_iff uid u,
          contains-merge_ips now a ips (get uid [] out) v.0.1,
          lookup_eq {0} uid u out,
          lookup_eq {0} uid u cd,
        ))

contains-merge_shards :
    (n now u : ℕ) (a : String) (cds : ℕ → CooldownShard) (out : Map ℕ (List String))
    → ((i : ℕ) → CooldownShardValid i (cds i))
    → contains a (get u [] (merge_shards n now cds out)) ≡ (
        contains a (get u [] out)
        || (if ltb (shard_of u) n then runs now (expiry_in u a (cds (shard_of u))) else false))
unfolding merge_shards
contains-merge_shards zero now u a cds out v = ground arith
contains-merge_shards (suc n) now u a cds out v =
    let before = merge_shards n now cds out in
    contains-merge_shard now n u a (cds n) before (v n).distinct (v n).entries
    ∙ elim (Bool-cases (nat_beq (shard_of u) n)) [
      | inl here ↦
          let q = (nat_beq_iff (shard_of u) n).0 here in
          rw q (ground (arith, rw q at (contains-merge_shards n now u a cds out v)))
      | inr there ↦
          let other : shard_of u ≢ n = ground (arith, nat_beq_iff (shard_of u) n) in
          rw (no_expiry n u a (cds n) (v n) other)
            (ground (arith, contains-merge_shards n now u a cds out v))
    ]

module _ {x : Externals} (l : Limiter x) (v : LimiterValid l) where
  online_is_listed :
      (u : ℕ) (a : String) → contains a (keys (local_ips l u)) ≡ ltb 0 (active_count l u a)
  online_is_listed u a =
      let (d, p) = get_ips_valid (shard_of u) u (l.ref_shards (shard_of u)) (v.refs _) in
      contains-keys a (local_ips l u) ∙ elim (Option-cases (lookup a (local_ips l u))) [
        | inl gone ↦ rw gone
        | inr (n, found) ↦
            rw found (ground (arith, AllEntries-lookup Positive a (local_ips l u) p found))
      ]

  reported_online :
      (u : ℕ) (a : String)
      → contains a (get u [] (report_shards gate_shards l.ref_shards)) ≡ ltb 0 (active_count l u a)
  reported_online u a =
      rw
        (report_at gate_shards u l.ref_shards v.refs, lt→ltb (shard_of u) gate_shards (omega arith))
        (online_is_listed u a)

  -- In a limiter in order, a user's address is reported exactly if it has a connection here or still
  -- cools down.
  pub contains-local_device_snapshot :
      (now u : ℕ) (a : String)
      → contains a (get u [] (local_device_snapshot l now))
        ≡ (ltb 0 (active_count l u a) || runs now (expiry l u a))
  unfolding local_device_snapshot
  contains-local_device_snapshot now u a =
      let out = report_shards gate_shards l.ref_shards in
      elim (Bool-cases (beq_ℤ l.cooldown_count (pos 0))) [
        | inl idle ↦
            rw (idle, no_entries u a l.kick_cooldown (ground (arith, v.cooldowns_counted)))
              (reported_online u a ∙ ground arith)
        | inr busy ↦ rw busy (
            contains-merge_shards gate_shards now u a l.kick_cooldown out v.cooldowns
            ∙ rw (lt→ltb (shard_of u) gate_shards (omega arith), reported_online u a))
      ]
