-- ===== src/Panel/Config/Intervals.antt =====
-- The intervals of a node: `intervalToTime` of api/panel/node.go.
use ljfxznode.Common.{
  ℕ, zero, suc, ◌*◌, ◌%◌, ◌^◌, ◌≤◌, ◌≡◌, ◌⊎◌, refl, inl, inr, true, false, ℤ, pos, negsuc, leb_ℤ,
  ltb_ℤ, ◌≤ℤ◌, from_bits, from_bits_small, to_bits, arith,
}
use ljfxznode.Common.Decimal.{atoi}
use ljfxznode.Limiter.State.{second}
use ljfxznode.Panel.Json.{Json, null, boolean, int, float, text, array, object}
use ljfxznode.Panel.Config.{seconds_or_default, or_nearest, interval_to_time}

-- The seconds of which an `int64` holds the nanoseconds.
abbrev pub max_seconds : ℕ
max_seconds = 9223372036

-- An interval whose nanoseconds an `int64` holds.
abbrev pub Fits : Json → Type 0
Fits (int z) = z ≤ℤ pos max_seconds
Fits (float negative n) = n ≤ max_seconds
Fits (text s) = or_nearest (atoi s) ≤ℤ pos max_seconds
Fits _ = Unit

in_seconds : (n : ℕ) → n ≤ max_seconds → from_bits (to_bits (pos n) * second) ≡ pos (n * second)
unfolding to_bits
in_seconds n h =
    let e : n % 2 ^ 64 ≡ n = omega arith in rw e (from_bits_small (n * second) (omega arith))

seconds_or_default_bound :
    (z : ℤ) → z ≤ℤ pos max_seconds → leb_ℤ (pos second) (seconds_or_default z) ≡ true
unfolding seconds_or_default
seconds_or_default_bound (pos n) h = ground (arith, in_seconds n (omega arith))
seconds_or_default_bound (negsuc n) h =
    let off : ltb_ℤ (pos 0) (negsuc n) ≡ false = ground arith in rw off refl

-- An interval is a second at least, whatever the panel sends and an `int64` can hold; but a positive
-- number below 1 gives 0.
pub interval_to_time-bounds :
    (v : Json)
    → Fits v
    → (leb_ℤ (pos second) (interval_to_time v) ≡ true)
      ⊎ ((v ≡ float false 0) × (interval_to_time v ≡ pos 0))
unfolding interval_to_time
interval_to_time-bounds (int z) h = inl (seconds_or_default_bound z h)
interval_to_time-bounds (float true n) h = inl refl
interval_to_time-bounds (float false zero) h = inr (refl, in_seconds 0 (omega arith))
interval_to_time-bounds (float false (suc n)) h = inl (rw (in_seconds (suc n) h) (ground arith))
interval_to_time-bounds (text s) h = inl (seconds_or_default_bound (or_nearest (atoi s)) h)
interval_to_time-bounds null h = inl refl
interval_to_time-bounds (boolean b) h = inl refl
interval_to_time-bounds (array xs) h = inl refl
interval_to_time-bounds (object fs) h = inl refl
