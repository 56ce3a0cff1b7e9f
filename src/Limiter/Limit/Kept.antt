-- ===== src/Limiter/Limit/Kept.antt =====
-- What a verdict, a kick and the end of a connection leave alone.
use ljfxznode.Common.{
  ℕ, ◌≡◌, refl, inl, inr, Bool, true, false, none, String, ℤ, arith, text_key, nat_key, lookup,
  Option-cases,
}
use ljfxznode.Limiter.State.{Externals, Limiter, UserLimitInfo, pure_ip}
use ljfxznode.Limiter.Gate.{check_device_gate}
use ljfxznode.Limiter.Conn.{
  Registered, refuse, conn_opened, close_of_user, conn_closed, try_open_conn, kick_device,
}
use ljfxznode.Limiter.Limit.{user_bucket, check_user, check_limit}

module _ {x : Externals} (l : Limiter x) where
  refuse_users :
      (now uid : ℕ) (taguuid victim : String)
      → (refuse l now uid taguuid victim).0.user_limit_info ≡ l.user_limit_info
  unfolding refuse
  refuse_users now uid taguuid victim = ground arith

  user_bucket_users :
      (taguuid : String) (limit : ℤ)
      → (user_bucket l taguuid limit).0.user_limit_info ≡ l.user_limit_info
  unfolding user_bucket
  user_bucket_users taguuid limit = ground arith

  try_open_conn_users :
      (now choice uid : ℕ) (taguuid ip : String) (limit : ℤ)
      → (try_open_conn l now choice uid taguuid ip limit).0.user_limit_info ≡ l.user_limit_info
  unfolding try_open_conn conn_opened
  try_open_conn_users now choice uid taguuid ip limit =
      let victim = (check_device_gate l now choice uid (pure_ip ip) limit).1 in
      ground (arith, refuse_users now uid taguuid victim)

module _ {x : Externals} (l : Limiter x) where
  check_user_users :
      (now choice : ℕ) (taguuid ip : String) (tcp : Bool) (info : UserLimitInfo)
      → (check_user l now choice taguuid ip tcp info).state.user_limit_info ≡ l.user_limit_info
  unfolding check_user
  check_user_users now choice taguuid ip true info =
      let t = try_open_conn l now choice info.uid taguuid ip info.device_limit in
      ground (
        arith,
        try_open_conn_users l now choice info.uid taguuid ip info.device_limit,
        user_bucket_users t.0 taguuid info.speed_limit,
      )
  check_user_users now choice taguuid ip false info =
      ground (arith, user_bucket_users l taguuid info.speed_limit)

  pub check_limit_users :
      (now choice : ℕ) (taguuid ip : String) (tcp : Bool)
      → (check_limit l now choice taguuid ip tcp).state.user_limit_info ≡ l.user_limit_info
  unfolding check_limit
  check_limit_users now choice taguuid ip tcp =
      elim (Option-cases (lookup taguuid l.user_limit_info)) [
        | inl gone ↦ rw (gone, check_limit) refl
        | inr (info, found) ↦
            rw (found, check_limit) (check_user_users now choice taguuid (pure_ip ip) tcp info)
      ]

  pub check_limit_unknown :
      (now choice : ℕ) (taguuid ip : String) (tcp : Bool)
      → lookup taguuid l.user_limit_info ≡ none
      → let v = check_limit l now choice taguuid ip tcp in (v.reject ≡ true) × (v.state ≡ l)
  unfolding check_limit
  check_limit_unknown now choice taguuid ip tcp gone = rw (gone, check_limit) (refl, refl)

  pub conn_closed_users :
      (taguuid ip : String) → (conn_closed l taguuid ip).user_limit_info ≡ l.user_limit_info
  unfolding conn_closed close_of_user
  conn_closed_users taguuid ip = ground arith

  pub kick_device_kept :
      (reg : Registered) (now uid : ℕ) (taguuid ip : String)
      → let l' = (kick_device l reg now uid taguuid ip).0 in
        (l'.user_limit_info ≡ l.user_limit_info) × (l'.ref_shards ≡ l.ref_shards)
  unfolding kick_device
  kick_device_kept reg now uid taguuid ip = (refl, refl)
