-- ===== src/Limiter/Cooldown/Count.antt =====
-- The atomic count of cooldown entries against the entries.
use ljfxznode.Common.{
  ℕ, zero, suc, ◌+◌, ◌<◌, ◌≤◌, ◌≡◌, refl, ap, inl, inr, [], ◌∷◌, String, arith, ltb, nat_beq,
  nat_beq_iff, if◌then◌else◌, text_key, nat_key, Map, get, lookup, insert, delete, delete_absent,
  IsMap, AllEntries, length, length-insert, contains-keys, Bool-cases,
}
use ljfxznode.Limiter.State.{CooldownShard, shard_of, gate_shards, set_shard, set_shard_self}
use ljfxznode.Limiter.Cooldown.{
  shard_kick, added_by_kick, unexpired, expired_count, purge_shard, purged_count, purge_shards,
}

unfoldable pub shard_size : CooldownShard → ℕ
shard_size [] = 0
shard_size ((uid, ips) ∷ cd) = length ips + shard_size cd

-- The entries of the first `n` shards.
unfoldable pub total : ℕ → (ℕ → CooldownShard) → ℕ
unfolding shard_size
total zero cds = 0
total (suc n) cds = total n cds + shard_size (cds n)

abbrev pub CooldownEntry : ℕ → ℕ → Map String ℕ → Type 0
CooldownEntry i uid ips = (shard_of uid ≡ i) × IsMap ips

pub record CooldownShardValid (i : ℕ) (cd : CooldownShard) : Type 0 where
  pub distinct : IsMap cd
  pub entries : AllEntries (CooldownEntry i) cd

shard_size-insert :
    (uid : ℕ) (ips : Map String ℕ) (cd : CooldownShard)
    → shard_size (insert uid ips cd) + length (get uid [] cd) ≡ shard_size cd + length ips
unfolding shard_size lookup insert
shard_size-insert uid ips [] = omega arith
shard_size-insert uid ips ((j, js) ∷ cd) = ground (arith, shard_size-insert uid ips cd)

pub shard_size-delete :
    (uid : ℕ) (cd : CooldownShard)
    → IsMap cd
    → shard_size (delete uid cd) + length (get uid [] cd) ≡ shard_size cd
unfolding shard_size lookup delete
shard_size-delete uid [] d = refl
shard_size-delete uid ((j, js) ∷ cd) d =
    ground (arith, shard_size-delete uid cd d.1, delete_absent uid cd, nat_beq_iff j uid)

-- A kick adds what it counts.
pub shard_size-shard_kick :
    (uid : ℕ) (ip : String) (expiry : ℕ) (cd : CooldownShard)
    → shard_size (shard_kick uid ip expiry cd) ≡ added_by_kick uid ip cd + shard_size cd
unfolding shard_kick added_by_kick
shard_size-shard_kick uid ip expiry cd =
    let ips = get uid [] cd in
    ground (
      arith,
      shard_size-insert uid (insert ip expiry ips) cd,
      length-insert ip expiry ips,
      contains-keys ip ips,
    )

unexpired-length :
    (now : ℕ) (ips : Map String ℕ) → length (unexpired now ips) + expired_count now ips ≡ length ips
unfolding unexpired expired_count
unexpired-length now [] = refl
unexpired-length now ((ip, e) ∷ ips) = ground (arith, unexpired-length now ips)

-- A purge removes what it counts.
pub shard_size-purge_shard :
    (now : ℕ) (cd : CooldownShard)
    → shard_size (purge_shard now cd) + purged_count now cd ≡ shard_size cd
unfolding shard_size purge_shard purged_count
shard_size-purge_shard now [] = refl
shard_size-purge_shard now ((uid, ips) ∷ cd) =
    ground (arith, shard_size-purge_shard now cd, unexpired-length now ips)

-- A write at or above `n` leaves the first `n` shards alone.
pub total-above :
    (n i : ℕ) (cds : ℕ → CooldownShard) (cd : CooldownShard)
    → n ≤ i
    → total n (set_shard cds i cd) ≡ total n cds
unfolding total
total-above zero i cds cd h = refl
total-above (suc n) i cds cd h = ground (arith, total-above n i cds cd, nat_beq_iff i n)

pub total-set_shard :
    (n i : ℕ) (cds : ℕ → CooldownShard) (cd : CooldownShard)
    → i < n
    → total n (set_shard cds i cd) + shard_size (cds i) ≡ total n cds + shard_size cd
unfolding total
total-set_shard zero i cds cd h = absurd (omega arith)
total-set_shard (suc n) i cds cd h = elim (Bool-cases (nat_beq i n)) [
  | inl e ↦
      let q = (nat_beq_iff i n).0 e in
      rw (q, total-above n n cds cd (omega arith), set_shard_self cds n cd) (omega arith)
  | inr e ↦ rw e (ground (arith, total-set_shard n i cds cd, nat_beq_iff i n))
]

-- The loop over the shards purges each of the first `n`.
pub purge_shards-at :
    (n now : ℕ) (cds : ℕ → CooldownShard) (i : ℕ)
    → (purge_shards n now cds).0 i ≡ (if ltb i n then purge_shard now (cds i) else cds i)
unfolding purge_shards
purge_shards-at zero now cds i = ground arith
purge_shards-at (suc n) now cds i = elim (Bool-cases (nat_beq n i)) [
  | inl e ↦ let q = (nat_beq_iff n i).0 e in rw (e, ap cds q) (ground arith)
  | inr e ↦ rw e (ground (arith, purge_shards-at n now cds i))
]

pub total-purge_shards :
    (n now : ℕ) (cds : ℕ → CooldownShard)
    → total n (purge_shards n now cds).0 + (purge_shards n now cds).1 ≡ total n cds
unfolding total purge_shards
total-purge_shards zero now cds = refl
total-purge_shards (suc n) now cds =
    let rest = (purge_shards n now cds).0 in
    let cd = purge_shard now (cds n) in
    rw (set_shard_self rest n cd) (
      omega (
        arith,
        total-above n n rest cd (omega arith),
        total-purge_shards n now cds,
        shard_size-purge_shard now (cds n),
      ))

shard_size-le-total : (n i : ℕ) (cds : ℕ → CooldownShard) → i < n → shard_size (cds i) ≤ total n cds
unfolding total
shard_size-le-total zero i cds h = absurd (omega arith)
shard_size-le-total (suc n) i cds h = elim (Bool-cases (nat_beq i n)) [
  | inl e ↦ rw ((nat_beq_iff i n).0 e) (omega arith)
  | inr e ↦ ground (arith, shard_size-le-total n i cds, nat_beq_iff i n)
]

lookup-le-shard_size : (uid : ℕ) (cd : CooldownShard) → length (get uid [] cd) ≤ shard_size cd
unfolding shard_size lookup
lookup-le-shard_size uid [] = omega arith
lookup-le-shard_size uid ((j, js) ∷ cd) = ground (arith, lookup-le-shard_size uid cd)

pub entries-le-total :
    (uid : ℕ) (cds : ℕ → CooldownShard)
    → length (get uid [] (cds (shard_of uid))) ≤ total gate_shards cds
entries-le-total uid cds = omega (
  arith,
  shard_size-le-total gate_shards (shard_of uid) cds (omega arith),
  lookup-le-shard_size uid (cds (shard_of uid)),
)

pub total_empty : (n : ℕ) → total n (λ _. []) ≡ 0
unfolding total shard_size
total_empty zero = refl
total_empty (suc n) = omega (arith, total_empty n)
