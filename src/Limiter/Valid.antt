-- ===== src/Limiter/Valid.antt =====
-- What every limiter keeps true: the connection counts, the global table and the cooldown list are in
-- order.
use ljfxznode.Common.{
  ℕ, pos, ◌≡◌, Bool, true, String, nat_key, text_key, Map, get, IsMap, AllEntries, length,
}
use ljfxznode.Limiter.State.{Externals, Limiter, gate_shards}
use ljfxznode.Limiter.Refs.{ShardValid}
use ljfxznode.Limiter.Cooldown.Count.{CooldownShardValid, total}
use ljfxznode.Limiter.Gate.{global_ips}

abbrev pub IsTrue : String → Bool → Type 0
IsTrue _ b = b ≡ true

-- A user's addresses in the global table: each once, marked true, and counted.
pub record GlobalEntry (m : Map String Bool) (n : ℕ) : Type 0 where
  pub distinct : IsMap m
  pub marked : AllEntries IsTrue m
  pub counted : n ≡ length m

pub record LimiterValid {x : Externals} (l : Limiter x) : Type 0 where
  pub refs : (i : ℕ) → ShardValid i (l.ref_shards i)
  pub globals : (uid : ℕ) → GlobalEntry (global_ips l uid) (get uid 0 l.global_count)
  pub cooldowns : (i : ℕ) → CooldownShardValid i (l.kick_cooldown i)
  pub cooldowns_counted : l.cooldown_count ≡ pos (total gate_shards l.kick_cooldown)

-- Two states of a limiter with the same tables.
pub record SameTables {x : Externals} (l k : Limiter x) : Type 0 where
  pub refs : k.ref_shards ≡ l.ref_shards
  pub devices : k.global_devices ≡ l.global_devices
  pub counts : k.global_count ≡ l.global_count
  pub cooldowns : k.kick_cooldown ≡ l.kick_cooldown
  pub cooldown_count : k.cooldown_count ≡ l.cooldown_count

pub SameTables-LimiterValid :
    {x : Externals} (l k : Limiter x) → SameTables l k → LimiterValid l → LimiterValid k
SameTables-LimiterValid l k s v = record {
  refs = λ i. rw s.refs (v.refs i);
  globals = λ uid. rw (s.devices, s.counts) (v.globals uid);
  cooldowns = λ i. rw s.cooldowns (v.cooldowns i);
  cooldowns_counted = rw (s.cooldown_count, s.cooldowns) v.cooldowns_counted;
}
