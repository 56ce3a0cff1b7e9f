-- ===== src/Limiter/State.antt =====
-- The data of limiter/limiter.go. A user id is the bit pattern of the Go `int`, so that
-- `uint(uid) & (n - 1)` is `uid % n` for the powers of two used here. Times are nanoseconds.
use ljfxznode.Common.{
  ℕ, ◌*◌, ◌%◌, ◌<◌, ◌≡◌, ◌≢◌, ap, ◌∙◌, inl, inr, Bool-cases, Bool, Option, List, String, ℤ, Map,
  trim_prefix, nat_beq, nat_beq_iff, arith, if◌then◌else◌,
}

abbrev pub second : ℕ
second = 1000000000

-- `globalDevicesStaleAfter`
abbrev pub global_devices_stale_after : ℕ
global_devices_stale_after = 60 * second

-- `kickCooldownDuration`
abbrev pub kick_cooldown_duration : ℕ
kick_cooldown_duration = 300 * second

abbrev pub gate_shards : ℕ
gate_shards = 256

-- The index of a user's shard, for `refShards`, `gateLocks`, `kickThrottle` and `kickCooldown`.
abbrev pub shard_of : ℕ → ℕ
shard_of uid = uid % gate_shards

-- An array of shards, written at one index.
abbrev pub set_shard {ℓ} : {A : Type ℓ} → (ℕ → A) → ℕ → A → ℕ → A
set_shard f i a = λ j. if nat_beq i j then a else f j

-- `strings.TrimPrefix(ip, "::ffff:")`: an IPv4 address that is mapped to IPv6 is read as IPv4.
unfoldable pub pure_ip : String → String
unfolding trim_prefix
pure_ip ip = trim_prefix ip "::ffff:"

-- The libraries that the limiter calls: token buckets and regular expressions.
pub record Externals : Type 1 where
  pub Bucket : Type 0
  -- fill interval, capacity, quantum
  pub new_bucket_with_quantum : ℕ → ℤ → ℤ → Bucket
  pub Regexp : Type 0
  -- `none` is an error
  pub compile : String → Option Regexp
  pub match_string : Regexp → String → Bool

pub record UserLimitInfo : Type 0 where
  pub uid : ℕ
  pub speed_limit : ℤ
  pub device_limit : ℤ

-- ip to the number of its active connections, for one user
abbrev pub Ips : Type 0
Ips = Map String ℕ

-- `refShard.m`
abbrev pub RefShard : Type 0
RefShard = Map ℕ Ips

-- `kickCooldown[i]`: uid to ip to the time at which the entry runs out. A nil map reads as empty.
abbrev pub CooldownShard : Type 0
CooldownShard = Map ℕ (Map String ℕ)

-- The locks are left out: every operation below is the body of a critical section or a sequence of
-- them, and a history is a sequence of operations.
pub record Limiter (x : Externals) : Type 0 where
  pub domain_rules : List x.Regexp
  pub protocol_rules : List String
  pub speed_limit : ℤ
  pub user_limit_info : Map String UserLimitInfo
  pub speed_limiter : Map String x.Bucket
  pub alive_list : Map ℕ ℤ
  pub ref_shards : ℕ → RefShard
  pub device_dirty : Bool
  pub kick_throttle : ℕ → ℕ
  pub kick_cooldown : ℕ → CooldownShard
  pub cooldown_count : ℤ
  pub global_devices : Map ℕ (Map String Bool)
  pub global_count : Map ℕ ℕ
  -- `none` is the zero time
  pub global_last_update : Option ℕ

pub set_shard_self {ℓ} : {A : Type ℓ} (f : ℕ → A) (i : ℕ) (a : A) → set_shard f i a i ≡ a
set_shard_self f i a = ground arith

pub shard-lt : (uid : ℕ) → shard_of uid < gate_shards
shard-lt uid = omega arith

-- What is observed of a user after a write at another user's shard, which leaves the observation of
-- others alone: the two users stand in different shards, or in one.
pub observe-set_shard {ℓ κ} :
    {A : Type ℓ} {B : Type κ} (obs : ℕ → A → B) (shards : ℕ → A) (uid : ℕ) (sh : A) (u : ℕ)
    → (u ≢ uid → obs u sh ≡ obs u (shards (shard_of uid)))
    → obs u (set_shard shards (shard_of uid) sh (shard_of u))
      ≡ (if nat_beq uid u then obs u sh else obs u (shards (shard_of u)))
observe-set_shard obs shards uid sh u others = elim (Bool-cases (nat_beq uid u)) [
  | inl e ↦
      let q = (nat_beq_iff uid u).0 e in
      rw (e, ← ap shard_of q, set_shard_self shards (shard_of uid) sh)
  | inr e ↦
      let q : u ≢ uid = ground (arith, nat_beq_iff uid u) in
      elim (Bool-cases (nat_beq (shard_of uid) (shard_of u))) [
        | inl s ↦
            rw (e, s)
              (others q
                ∙ ap (λ i. obs u (shards i)) ((nat_beq_iff (shard_of uid) (shard_of u)).0 s))
        | inr s ↦ rw (e, s)
      ]
]
