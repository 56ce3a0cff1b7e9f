-- ===== src/Limiter/Limit/Outcome.antt =====
-- What `CheckLimit` answers.
use ljfxznode.Common.{
  ℕ, ◌+◌, ◌≡◌, ◌∙◌, refl, ap, inl, inr, Bool, true, false, ◌&&◌, not, none, some, String, ℤ, pos,
  leb_ℤ, ltb_ℤ, arith, if◌then◌else◌, text_key, nat_key, lookup, lookup-insert, Option-cases,
  Bool-cases,
}
use ljfxznode.Limiter.State.{Externals, Limiter, UserLimitInfo, pure_ip, shard_of, second}
use ljfxznode.Limiter.Refs.{same, active}
use ljfxznode.Limiter.Gate.{check_device_gate}
use ljfxznode.Limiter.Conn.{try_open_conn, conn_opened, refuse}
use ljfxznode.Limiter.Conn.Counts.{active_count}
use ljfxznode.Limiter.Conn.Admission.{try_open_conn-active_count}
use ljfxznode.Limiter.Limit.{
  user_bucket, check_user, check_limit, determine_speed_limit, byte_rate, max_ℤ,
}

user_bucket_refs :
    {x : Externals} (l : Limiter x) (taguuid : String) (user_limit : ℤ)
    → (user_bucket l taguuid user_limit).0.ref_shards ≡ l.ref_shards
unfolding user_bucket
user_bucket_refs l taguuid user_limit = ground arith

module _ {x : Externals} (l : Limiter x) where
  pub check_limit_found :
      (now choice : ℕ) (taguuid ip : String) (tcp : Bool) (info : UserLimitInfo)
      → lookup taguuid l.user_limit_info ≡ some info
      → check_limit l now choice taguuid ip tcp
        ≡ check_user l now choice taguuid (pure_ip ip) tcp info
  unfolding check_limit
  check_limit_found now choice taguuid ip tcp info found = rw (found, check_limit)

  -- An address is counted once for each TCP connection that is let in, and nothing else is counted.
  check_user-active_count :
      (now choice : ℕ) (taguuid ip : String) (tcp : Bool) (info : UserLimitInfo) (u : ℕ)
      (a : String)
      → let v = check_user l now choice taguuid ip tcp info in
        active_count v.state u a ≡ (
          if tcp && (not v.reject && same info.uid (pure_ip (pure_ip ip)) u a)
          then active_count l u a + 1
          else active_count l u a)
  unfolding check_user
  check_user-active_count now choice taguuid ip true info u a =
      let t = try_open_conn l now choice info.uid taguuid ip info.device_limit in
      let counts =
        try_open_conn-active_count l now choice info.uid taguuid ip info.device_limit u a in
      elim (Bool-cases t.1) [
        | inl ok ↦ rw ok (
            ap (λ shards. active u a (shards (shard_of u)))
              (user_bucket_refs t.0 taguuid info.speed_limit)
            ∙ rw ok at counts)
        | inr denied ↦ rw denied (rw denied at counts)
      ]
  check_user-active_count now choice taguuid ip false info u a =
      let b =
        ap (λ shards. active u a (shards (shard_of u)))
          (user_bucket_refs l taguuid info.speed_limit) in
      ground arith

  -- A connection of a known user is counted if it is TCP and let in, under the address that the
  -- limiter reads, and no other count changes.
  pub check_limit-active_count :
      (now choice : ℕ) (taguuid ip : String) (tcp : Bool) (info : UserLimitInfo) (u : ℕ)
      (a : String)
      → lookup taguuid l.user_limit_info ≡ some info
      → let v = check_limit l now choice taguuid ip tcp in
        active_count v.state u a ≡ (
          if tcp && (not v.reject && same info.uid (pure_ip (pure_ip (pure_ip ip))) u a)
          then active_count l u a + 1
          else active_count l u a)
  check_limit-active_count now choice taguuid ip tcp info u a found =
      rw (check_limit_found now choice taguuid ip tcp info found)
        (check_user-active_count now choice taguuid (pure_ip ip) tcp info u a)

  user_bucket_shared :
      (taguuid : String) (user_limit : ℤ) (b : x.Bucket)
      → (user_bucket l taguuid user_limit).1 ≡ some b
      → lookup taguuid (user_bucket l taguuid user_limit).0.speed_limiter ≡ some b
  unfolding user_bucket
  user_bucket_shared taguuid user_limit b h = grind (arith, lookup-insert, text_key.same_iff)

  gate_unlimited :
      (now choice uid : ℕ) (ip : String) (limit : ℤ)
      → leb_ℤ limit (pos 0) ≡ true
      → (check_device_gate l now choice uid ip limit).0 ≡ false
  unfolding check_device_gate
  gate_unlimited now choice uid ip limit h = rw h

  -- A UDP session changes no count and starts no kick; it is rejected by the gate alone.
  pub check_limit_udp :
      (now choice : ℕ) (taguuid ip : String) (info : UserLimitInfo)
      → lookup taguuid l.user_limit_info ≡ some info
      → let v = check_limit l now choice taguuid ip false in
        (v.state.ref_shards ≡ l.ref_shards)
        × (v.kick ≡ none)
        × (v.reject ≡ (check_device_gate l now choice info.uid (pure_ip ip) info.device_limit).0)
  unfolding check_user
  check_limit_udp now choice taguuid ip info found =
      rw (check_limit_found now choice taguuid ip false info found) (
        ground (
          arith,
          user_bucket_refs l taguuid info.speed_limit,
          gate_unlimited now choice info.uid (pure_ip ip) info.device_limit,
        ))

try_open_conn_tables :
    {x : Externals} (l : Limiter x) (now choice uid : ℕ) (taguuid ip : String) (limit : ℤ)
    → let l' = (try_open_conn l now choice uid taguuid ip limit).0 in
      (l'.speed_limiter ≡ l.speed_limiter) × (l'.speed_limit ≡ l.speed_limit)
unfolding try_open_conn conn_opened refuse
try_open_conn_tables l now choice uid taguuid ip limit = ground arith

module _ {x : Externals} (l : Limiter x) where
  -- Every bucket that is handed out is the one that is kept for the user, so that all connections of
  -- the user share it.
  pub check_limit-bucket :
      (now choice : ℕ) (taguuid ip : String) (tcp : Bool) (b : x.Bucket)
      → let v = check_limit l now choice taguuid ip tcp in
        v.bucket ≡ some b → lookup taguuid v.state.speed_limiter ≡ some b
  unfolding check_limit check_user
  check_limit-bucket now choice taguuid ip tcp b h =
      elim (Option-cases (lookup taguuid l.user_limit_info)) [
        | inl gone ↦ absurd (cc (rw (gone, check_limit) at h))
        | inr (info, found) ↦
            let t = try_open_conn l now choice info.uid taguuid (pure_ip ip) info.device_limit in
            let e = check_limit_found l now choice taguuid ip tcp info found in
            rw e (
              ground (
                arith,
                ap (λ v. v.bucket) e,
                user_bucket_shared t.0 taguuid info.speed_limit b,
                user_bucket_shared l taguuid info.speed_limit b,
              ))
      ]

  -- The bytes in a second that a user may use: the least of the node's and the user's limit that is
  -- above 0.
  abbrev pub user_rate : UserLimitInfo → ℤ
  user_rate info =
      byte_rate
        (determine_speed_limit (max_ℤ l.speed_limit (pos 0)) (max_ℤ info.speed_limit (pos 0)))

  user_bucket_new :
      (k : Limiter x) (taguuid : String) (info : UserLimitInfo)
      → k.speed_limit ≡ l.speed_limit
      → lookup taguuid k.speed_limiter ≡ none
      → (user_bucket k taguuid info.speed_limit).1 ≡ (
          if ltb_ℤ (pos 0) (user_rate info)
          then some (x.new_bucket_with_quantum second (user_rate info) (user_rate info))
          else none)
  unfolding user_bucket
  user_bucket_new k taguuid info e h = rw (e, h) (ground arith)

  -- A user that is let in without a bucket gets a new one, filled each second at the user's rate, or
  -- none if no rate is set.
  pub check_limit-new_bucket :
      (now choice : ℕ) (taguuid ip : String) (tcp : Bool) (info : UserLimitInfo)
      → lookup taguuid l.user_limit_info ≡ some info
      → lookup taguuid l.speed_limiter ≡ none
      → let v = check_limit l now choice taguuid ip tcp in
        v.reject ≡ false
        → v.bucket ≡ (
            if ltb_ℤ (pos 0) (user_rate info)
            then some (x.new_bucket_with_quantum second (user_rate info) (user_rate info))
            else none)
  unfolding check_user
  check_limit-new_bucket now choice taguuid ip tcp info found fresh ok =
      let t = try_open_conn l now choice info.uid taguuid (pure_ip ip) info.device_limit in
      let (same_buckets, same_limit) =
        try_open_conn_tables l now choice info.uid taguuid (pure_ip ip) info.device_limit in
      let e = check_limit_found l now choice taguuid ip tcp info found in
      rw e (
        ground (
          arith,
          ap (λ v. v.reject) e,
          user_bucket_new t.0 taguuid info same_limit (rw same_buckets fresh),
          user_bucket_new l taguuid info refl fresh,
        ))
