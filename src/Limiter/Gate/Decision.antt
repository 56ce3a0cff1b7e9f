-- ===== src/Limiter/Gate/Decision.antt =====
-- The gate decides by the size of the union.
use ljfxznode.Common.{
  ℕ, ◌≡◌, Bool, false, not, String, arith, ltb, leb_ℤ, ltb_ℤ, ℤ, pos, if◌then◌else◌, text_key,
  nat_key, Map, get, IsMap, length, ◌||◌, ◌&&◌,
}
use ljfxznode.Limiter.State.{Ips, Externals, Limiter, shard_of}
use ljfxznode.Limiter.Refs.{get_ips_valid}
use ljfxznode.Limiter.Valid.{LimiterValid}
use ljfxznode.Limiter.Gate.{
  gate_fresh, gate_stale, is_stale, local_ips, global_ips, get_alive_count, check_device_gate,
}
use ljfxznode.Limiter.Gate.Union.{card, devices, count_union-card, union_bounds}

gate_fresh-card :
    (choice : ℕ) (local : Ips) (global : Map String Bool) (ip : String) (limit : ℤ)
    → IsMap local
    → IsMap global
    → (gate_fresh choice local global (length global) ip limit).0
      ≡ (get ip false global || leb_ℤ limit (pos (card (devices local global))))
unfolding gate_fresh
gate_fresh-card choice local global ip limit d g =
    let b = union_bounds local global d g in
    ground (arith, b.local_le, b.global_le, b.le_sum, count_union-card local global d g)

gate_stale-counts :
    (choice : ℕ) (local : Ips) (alive limit : ℤ)
    → (gate_stale choice local alive limit).0
      ≡ (leb_ℤ limit (pos (length local)) || leb_ℤ limit alive)
unfolding gate_stale
gate_stale-counts choice local alive limit = ground arith

module _ {x : Externals} (l : Limiter x) where
  -- The number of a user's devices as far as the node knows: here and, by a fresh table, anywhere.
  abbrev pub device_count : ℕ → ℕ
  device_count uid = card (devices (local_ips l uid) (global_ips l uid))

  -- What the gate is for: the user has a limit, the address is no reconnection, and the address is
  -- bound to another node or the devices fill the limit.
  abbrev pub is_over : ℕ → ℕ → String → ℤ → Bool
  is_over now uid ip limit =
      if is_stale now l.global_last_update
      then leb_ℤ limit (pos (length (local_ips l uid))) || leb_ℤ limit (get_alive_count l uid)
      else get ip false (global_ips l uid) || leb_ℤ limit (pos (device_count uid))

  abbrev pub must_reject : ℕ → ℕ → String → ℤ → Bool
  must_reject now uid ip limit =
      ltb_ℤ (pos 0) limit && not (ltb 0 (get ip 0 (local_ips l uid))) && is_over now uid ip limit

  -- In a limiter in order, the gate, with the bounds that spare it the loop, gives the verdict of the
  -- exact count: it rejects if the user has a limit, the address has no connection here, and, by a
  -- fresh table, the address is bound to another node or the union of the devices fills the limit, by a
  -- stale one the devices here or the panel's number fill it.
  pub check_device_gate-must_reject :
      (now choice uid : ℕ) (ip : String) (limit : ℤ)
      → LimiterValid l
      → (check_device_gate l now choice uid ip limit).0 ≡ must_reject now uid ip limit
  unfolding check_device_gate
  check_device_gate-must_reject now choice uid ip limit v =
      let (d, _) = get_ips_valid (shard_of uid) uid (l.ref_shards (shard_of uid)) (v.refs _) in
      let g = v.globals uid in
      rw g.counted (
        ground (
          arith,
          gate_fresh-card choice (local_ips l uid) (global_ips l uid) ip limit d g.distinct,
          gate_stale-counts choice (local_ips l uid) (get_alive_count l uid) limit,
        ))
