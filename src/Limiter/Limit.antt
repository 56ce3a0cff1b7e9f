-- ===== src/Limiter/Limit.antt =====
-- `CheckLimit` and `determineSpeedLimit`: the verdict on a new connection, and its token bucket.
pub mod Rate
pub mod Outcome
pub mod Kept
use ljfxznode.Common.{
  ℕ, suc, ◌+◌, ◌-◌, ◌*◌, ◌/◌, ◌%◌, ◌^◌, Bool, true, false, ◌||◌, Option, none, some, String, ℤ, pos,
  negsuc, sub_ℕ, from_bits, to_bits, leb_ℤ, ltb_ℤ, beq_ℤ, if◌then◌else◌, text_key, Map, lookup,
  insert,
}
use ljfxznode.Limiter.State.{Externals, Limiter, UserLimitInfo, pure_ip, second}
use ljfxznode.Limiter.Gate.{check_device_gate}
use ljfxznode.Limiter.Conn.{Kick, try_open_conn}

unfoldable pub determine_speed_limit : ℤ → ℤ → ℤ
determine_speed_limit limit1 limit2 =
    if beq_ℤ limit1 (pos 0) || beq_ℤ limit2 (pos 0)
    then (if ltb_ℤ limit2 limit1 then limit1 else (if ltb_ℤ limit1 limit2 then limit2 else pos 0))
    else (if ltb_ℤ limit2 limit1 then limit2 else (if ltb_ℤ limit1 limit2 then limit1 else limit1))

abbrev pub max_ℤ : ℤ → ℤ → ℤ
max_ℤ a b = if leb_ℤ a b then b else a

-- Go's `/ 8` rounds towards 0.
unfoldable pub quot_8 : ℤ → ℤ
quot_8 (pos n) = pos (n / 8)
quot_8 (negsuc n) = sub_ℕ 0 (suc n / 8)

-- `int64(...) * 1000000 / 8`: megabits to bytes in a second, the product as an `int64`.
unfoldable pub byte_rate : ℤ → ℤ
unfolding from_bits to_bits quot_8
byte_rate limit = quot_8 (from_bits (to_bits limit * 1000000))

module _ {x : Externals} (l : Limiter x) where
  -- The end of `CheckLimit`: a bucket of the user is made unless there is one. A limit that is not
  -- above 0 means none.
  unfoldable pub user_bucket : String → ℤ → Limiter x × Option x.Bucket
  unfolding determine_speed_limit byte_rate
  user_bucket taguuid user_limit =
      let limit =
        byte_rate
          (determine_speed_limit (max_ℤ l.speed_limit (pos 0)) (max_ℤ user_limit (pos 0))) in
      if ltb_ℤ (pos 0) limit
      then (elim (lookup taguuid l.speed_limiter) [
        | some cached ↦ (l, some cached)
        | none ↦
            let bucket = x.new_bucket_with_quantum second limit limit in
            (record l { speed_limiter = insert taguuid bucket l.speed_limiter }, some bucket)
      ])
      else (l, none)

-- What a call of `CheckLimit` leaves: the state, the bucket, the rejection, and the kick started.
pub record Verdict (x : Externals) : Type 0 where
  pub state : Limiter x
  pub bucket : Option x.Bucket
  pub reject : Bool
  pub kick : Option Kick

module _ {x : Externals} where
  unfoldable pub with_bucket : Limiter x → String → ℤ → Option Kick → Verdict x
  with_bucket l taguuid user_limit kick =
      let (l', bucket) = user_bucket l taguuid user_limit in
      record { state = l'; bucket = bucket; reject = false; kick = kick }

  unfoldable pub rejected : Limiter x → Option Kick → Verdict x
  rejected l kick = record { state = l; bucket = none; reject = true; kick = kick }

  -- The part for a known user: a TCP connection is counted, a UDP session only judged.
  unfoldable pub check_user : Limiter x → ℕ → ℕ → String → String → Bool → UserLimitInfo → Verdict x
  unfolding with_bucket rejected
  check_user l now choice taguuid ip no_ss_udp u =
      if no_ss_udp
      then (let (l', ok, kick) = try_open_conn l now choice u.uid taguuid ip u.device_limit in
          if ok then with_bucket l' taguuid u.speed_limit kick else rejected l' kick)
      else (if ltb_ℤ (pos 0) u.device_limit
          then (if (check_device_gate l now choice u.uid ip u.device_limit).0
              then rejected l none
              else with_bucket l taguuid u.speed_limit none)
          else with_bucket l taguuid u.speed_limit none)

  unfoldable pub check_limit : Limiter x → ℕ → ℕ → String → String → Bool → Verdict x
  unfolding check_user rejected pure_ip
  check_limit l now choice taguuid ip no_ss_udp = elim (lookup taguuid l.user_limit_info) [
    | none ↦ rejected l none
    | some u ↦ check_user l now choice taguuid (pure_ip ip) no_ss_udp u
  ]
