-- ===== src/Limiter/Conn/Admission.antt =====
-- What `TryOpenConn` admits.
use ljfxznode.Common.{
  ℕ, ◌+◌, ◌≤◌, ◌≡◌, ◌⊎◌, refl, inl, inr, true, false, none, some, String, arith, ltb, leb_ℤ, pos, ℤ,
  nat_beq_iff, if◌then◌else◌, text_key, nat_key, get, lookup, insert, Bool-cases, Option-cases,
  ◌&&◌, lookup-insert, length, length-insert, contains-keys, IsMap,
}
use ljfxznode.Limiter.State.{Externals, Limiter, shard_of, set_shard_self, pure_ip}
use ljfxznode.Limiter.Refs.{shard_open, same, get_ips_valid}
use ljfxznode.Limiter.Valid.{LimiterValid}
use ljfxznode.Limiter.Gate.{check_device_gate, local_ips, global_ips, is_stale}
use ljfxznode.Limiter.Gate.Union.{card-insert, union_bounds}
use ljfxznode.Limiter.Gate.Decision.{device_count, check_device_gate-must_reject}
use ljfxznode.Limiter.Cooldown.{in_cooldown}
use ljfxznode.Limiter.Conn.{conn_opened, refuse, try_open_conn}
use ljfxznode.Limiter.Conn.Counts.{active_count, active_count-conn_opened}

module _ {x : Externals} (l : Limiter x) where
  refuse_lem :
      (now uid : ℕ) (taguuid victim : String)
      → let r = refuse l now uid taguuid victim in
        (r.1 ≡ false)
        × (r.0.ref_shards ≡ l.ref_shards)
        × (r.0.global_devices ≡ l.global_devices)
        × (r.0.global_count ≡ l.global_count)
  unfolding refuse
  refuse_lem now uid taguuid victim = ground arith

  -- An admitted connection is counted once, under its user and address; a refused one is not counted,
  -- and no other count changes.
  pub try_open_conn-active_count :
      (now choice uid : ℕ) (taguuid ip : String) (limit : ℤ) (u : ℕ) (a : String)
      → let r = try_open_conn l now choice uid taguuid ip limit in
        active_count r.0 u a ≡ (
          if r.1 && same uid (pure_ip (pure_ip ip)) u a
          then active_count l u a + 1
          else active_count l u a)
  unfolding try_open_conn
  try_open_conn-active_count now choice uid taguuid ip limit u a =
      let victim = (check_device_gate l now choice uid (pure_ip ip) limit).1 in
      ground
        (arith, active_count-conn_opened l uid (pure_ip ip) u a, refuse_lem now uid taguuid victim)

  -- A limited user's connection is admitted when it is not cooling down and the gate lets it pass.
  admitted_lem :
      (now choice uid : ℕ) (taguuid ip : String) (limit : ℤ)
      → leb_ℤ limit (pos 0) ≡ false
      → let r = try_open_conn l now choice uid taguuid ip limit in
        r.1 ≡ true
        → (r.0 ≡ conn_opened l uid (pure_ip ip))
          × (in_cooldown l now uid (pure_ip ip) ≡ false)
          × ((check_device_gate l now choice uid (pure_ip ip) limit).0 ≡ false)
  unfolding try_open_conn
  admitted_lem now choice uid taguuid ip limit h ok =
      let victim = (check_device_gate l now choice uid (pure_ip ip) limit).1 in
      ground (arith, refuse_lem now uid taguuid victim)

  refused_lem :
      (now choice uid : ℕ) (taguuid ip : String) (limit : ℤ)
      → let r = try_open_conn l now choice uid taguuid ip limit in
        r.1 ≡ false
        → (r.0.ref_shards ≡ l.ref_shards)
          × (r.0.global_devices ≡ l.global_devices)
          × (r.0.global_count ≡ l.global_count)
  unfolding try_open_conn
  refused_lem now choice uid taguuid ip limit denied =
      let victim = (check_device_gate l now choice uid (pure_ip ip) limit).1 in
      ground (arith, refuse_lem now uid taguuid victim)

  pub local_ips-conn_opened_self :
      (uid : ℕ) (ip : String)
      → local_ips (conn_opened l uid ip) uid
        ≡ insert (pure_ip ip) (get (pure_ip ip) 0 (local_ips l uid) + 1) (local_ips l uid)
  unfolding conn_opened shard_open
  local_ips-conn_opened_self uid ip = rw (set_shard_self l.ref_shards (shard_of uid) _) (
      rw (lookup-insert uid uid _ (l.ref_shards (shard_of uid)))
        (ground (arith, nat_beq_iff uid uid)))

  global_ips-conn_opened :
      (uid : ℕ) (ip : String) (u : ℕ) → global_ips (conn_opened l uid ip) u ≡ global_ips l u
  unfolding conn_opened
  global_ips-conn_opened uid ip u = refl

  local_distinct : (uid : ℕ) → LimiterValid l → IsMap (local_ips l uid)
  local_distinct uid v =
      (get_ips_valid (shard_of uid) uid (l.ref_shards (shard_of uid)) (v.refs _)).0

  device_count-conn_opened :
      (uid : ℕ) (ip : String)
      → LimiterValid l
      → device_count (conn_opened l uid ip) uid
        ≤ (elim (lookup (pure_ip ip) (local_ips l uid)) [ none ↦ 1 | some _ ↦ 0 ])
          + device_count l uid
  device_count-conn_opened uid ip v =
      rw (local_ips-conn_opened_self uid ip, global_ips-conn_opened uid ip uid)
        (card-insert (pure_ip ip) (get (pure_ip ip) 0 (local_ips l uid) + 1) (local_ips l uid)
          (global_ips l uid) (local_distinct uid v) (v.globals uid).distinct)

  -- What a pass of the gate says under a fresh table.
  passed_fresh :
      (now choice uid : ℕ) (ip : String) (limit : ℤ)
      → LimiterValid l
      → is_stale now l.global_last_update ≡ false
      → leb_ℤ limit (pos 0) ≡ false
      → (check_device_gate l now choice uid ip limit).0 ≡ false
      → (ltb 0 (get ip 0 (local_ips l uid)) ≡ true)
        ⊎ (leb_ℤ limit (pos (device_count l uid)) ≡ false)
  passed_fresh now choice uid ip limit v fresh limited passed =
      ground (arith, check_device_gate-must_reject l now choice uid ip limit v)

  -- What a pass of the gate says of the local devices, under any table.
  passed_local :
      (now choice uid : ℕ) (ip : String) (limit : ℤ)
      → LimiterValid l
      → leb_ℤ limit (pos 0) ≡ false
      → (check_device_gate l now choice uid ip limit).0 ≡ false
      → (ltb 0 (get ip 0 (local_ips l uid)) ≡ true)
        ⊎ (leb_ℤ limit (pos (length (local_ips l uid))) ≡ false)
  passed_local now choice uid ip limit v limited passed =
      let b =
        union_bounds (local_ips l uid) (global_ips l uid) (local_distinct uid v)
          (v.globals uid).distinct in
      ground (arith, b.local_le, check_device_gate-must_reject l now choice uid ip limit v)

  counted_is_listed :
      (uid : ℕ) (ip : String)
      → ltb 0 (get ip 0 (local_ips l uid)) ≡ true
      → (n : ℕ) × (lookup ip (local_ips l uid) ≡ some n)
  counted_is_listed uid ip h = elim (Option-cases (lookup ip (local_ips l uid))) [
    | inl e ↦ absurd (cc)
    | inr found ↦ found
  ]

  module _ (now choice uid : ℕ) (taguuid ip : String) (limit : ℤ) (valid : LimiterValid l)
      (limited : leb_ℤ limit (pos 0) ≡ false) where
    -- With a fresh table, a user whose devices, here and elsewhere, are within the limit stays within it
    -- over an attempt to open a connection. The limiter is in order, the limit is set, and the address
    -- without its prefix has no second prefix.
    pub try_open_conn-device_count :
        pure_ip (pure_ip ip) ≡ pure_ip ip
        → is_stale now l.global_last_update ≡ false
        → leb_ℤ (pos (device_count l uid)) limit ≡ true
        → leb_ℤ (pos (device_count (try_open_conn l now choice uid taguuid ip limit).0 uid)) limit
          ≡ true
    try_open_conn-device_count plain fresh fits =
        elim (Bool-cases (try_open_conn l now choice uid taguuid ip limit).1) [
          | inl ok ↦
              let (e, _, passed) = admitted_lem now choice uid taguuid ip limit limited ok in
              rw e
                (elim (passed_fresh now choice uid (pure_ip ip) limit valid fresh limited passed) [
                  | inl here ↦
                      let (n, found) = counted_is_listed uid (pure_ip ip) here in
                      ground (
                        arith,
                        rw (plain, found) at (device_count-conn_opened uid (pure_ip ip) valid),
                      )
                  | inr room ↦ ground (arith, device_count-conn_opened uid (pure_ip ip) valid)
                ])
          | inr denied ↦
              let (a, b, _) = refused_lem now choice uid taguuid ip limit denied in rw (a, b) fits
        ]

    local_length-conn_opened :
        length (local_ips (conn_opened l uid (pure_ip ip)) uid)
        ≤ (elim (lookup (pure_ip (pure_ip ip)) (local_ips l uid)) [ none ↦ 1 | some _ ↦ 0 ])
          + length (local_ips l uid)
    local_length-conn_opened =
        let a = pure_ip (pure_ip ip) in
        rw (local_ips-conn_opened_self uid (pure_ip ip)) (
          ground (
            arith,
            length-insert a (get a 0 (local_ips l uid) + 1) (local_ips l uid),
            contains-keys a (local_ips l uid),
          ))

    -- With any table, fresh or stale, a user whose devices on the node are within the limit stays within
    -- it over an attempt to open a connection. The limiter is in order, the limit is set, and the
    -- address without its prefix has no second prefix.
    pub try_open_conn-local_devices :
        pure_ip (pure_ip ip) ≡ pure_ip ip
        → leb_ℤ (pos (length (local_ips l uid))) limit ≡ true
        → leb_ℤ
            (pos (length (local_ips (try_open_conn l now choice uid taguuid ip limit).0 uid)))
            limit
          ≡ true
    try_open_conn-local_devices plain fits =
        elim (Bool-cases (try_open_conn l now choice uid taguuid ip limit).1) [
          | inl ok ↦
              let (e, _, passed) = admitted_lem now choice uid taguuid ip limit limited ok in
              rw e (elim (passed_local now choice uid (pure_ip ip) limit valid limited passed) [
                | inl here ↦
                    let (n, found) = counted_is_listed uid (pure_ip ip) here in
                    ground (arith, rw (plain, found) at local_length-conn_opened)
                | inr room ↦ ground (arith, local_length-conn_opened)
              ])
          | inr denied ↦
              let (a, _, _) = refused_lem now choice uid taguuid ip limit denied in rw a fits
        ]
