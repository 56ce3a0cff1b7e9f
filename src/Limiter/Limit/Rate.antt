-- ===== src/Limiter/Limit/Rate.antt =====
-- The rate of a bucket.
use ljfxznode.Common.{ℕ, ◌*◌, ◌^◌, ◌≤◌, ◌<◌, ◌≡◌, ◌⊎◌, arith, pos, from_bits, ltb, if◌then◌else◌}
use ljfxznode.Limiter.Limit.{determine_speed_limit, byte_rate}

-- The least limit that is set, where 0 means that none is: a set limit is never exceeded, and the
-- result is one of the two.
pub record LeastSet (a b r : ℕ) : Type 0 where
  pub below_first : 0 < a → (r ≤ a) × (0 < r)
  pub below_second : 0 < b → (r ≤ b) × (0 < r)
  pub chosen : (r ≡ a) ⊎ (r ≡ b)

abbrev least : ℕ → ℕ → ℕ
least a b = if ltb 0 a then (if ltb 0 b then (if ltb a b then a else b) else a) else b

-- Of a node's and a user's limit, neither below 0, the least one that is set counts.
pub determine_speed_limit-LeastSet :
    (a b : ℕ) → (r : ℕ) × (determine_speed_limit (pos a) (pos b) ≡ pos r) × LeastSet a b r
unfolding determine_speed_limit
determine_speed_limit-LeastSet a b = (
  least a b,
  ground arith,
  record {
    below_first = λ h. ground arith;
    below_second = λ h. ground arith;
    chosen = ground arith;
  },
)

-- A limit of `n` megabits in a second is `n * 125000` bytes, if the product of the code fits an
-- `int64`.
pub byte_rate_lem : (n : ℕ) → n * 1000000 < 2 ^ 63 → byte_rate (pos n) ≡ pos (n * 125000)
unfolding byte_rate from_bits
byte_rate_lem n h = ground arith
