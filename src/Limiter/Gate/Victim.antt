-- ===== src/Limiter/Gate/Victim.antt =====
-- Whom the gate chooses to drop.
use mathlib.Core.Path.{subst}
use ljfxznode.Common.{
  sym, ap, ◌∙◌, ℕ, zero, suc, ◌%◌, ◌<◌, ◌≡◌, ◌≢◌, ◌⊎◌, refl, inl, inr, Bool, true, false, some,
  List, [], ◌∷◌, String, arith, ltb, leb_ℤ, ℤ, pos, text_key, nat_key, Map, keys, get, IsMap,
  length, contains, contains-keys, lookup, get_elem?, AllEntries, AllEntries-lookup, Option-cases,
  Bool-cases, or_zero,
}
use ljfxznode.Limiter.State.{Ips, Externals, Limiter, shard_of}
use ljfxznode.Limiter.Refs.{get_ips_valid, Positive}
use ljfxznode.Limiter.Valid.{LimiterValid, IsTrue}
use ljfxznode.Limiter.Gate.{
  any_key, pick_victim, gate_fresh, gate_stale, is_stale, local_ips, global_ips, get_alive_count,
  check_device_gate,
}

get_elem?-contains :
    (i : ℕ) (xs : List String) {a : String} → get_elem? xs i ≡ some a → contains a xs ≡ true
get_elem?-contains i [] h = cc
get_elem?-contains zero (y ∷ xs) {a} h = ground (arith, text_key.same_iff y a)
get_elem?-contains (suc i) (y ∷ xs) h = ground (arith, get_elem?-contains i xs h)

get_elem?-in_range :
    (i : ℕ) (xs : List String) → i < length xs → (a : String) × (get_elem? xs i ≡ some a)
get_elem?-in_range i [] h = elim h [ ]
get_elem?-in_range zero (y ∷ xs) h = (y, refl)
get_elem?-in_range (suc i) (y ∷ xs) h = get_elem?-in_range i xs (omega arith)

-- A victim is a local address, or a global one if none is local.
pub IsVictim : Ips → Map String Bool → String → Type 0
IsVictim local global v =
    (contains v (keys local) ≡ true) ⊎ ((keys local ≡ []) × (contains v (keys global) ≡ true))

any_key-contains :
    (choice : ℕ) (xs : List String)
    → or_zero (any_key choice xs) "" ≢ ""
    → contains (or_zero (any_key choice xs) "") xs ≡ true
unfolding any_key
any_key-contains choice xs h = elim (Option-cases (get_elem? xs (choice % length xs))) [
  | inl e ↦ absurd (h (rw e))
  | inr (a, e) ↦ rw e (get_elem?-contains (choice % length xs) xs e)
]

pub pick_victim-IsVictim :
    (choice : ℕ) (local : Ips) (global : Map String Bool)
    → pick_victim choice local global ≢ ""
    → IsVictim local global (pick_victim choice local global)
unfolding IsVictim pick_victim
pick_victim-IsVictim choice [] global h = inr (refl, any_key-contains choice (keys global) h)
pick_victim-IsVictim choice ((ip, n) ∷ local) global h =
    let ks = ip ∷ keys local in
    let (a, found) = get_elem?-in_range (choice % length ks) ks (ground arith) in
    inl (ground (arith, get_elem?-contains (choice % length ks) ks {a = a}))

IsVictim-weaken :
    (local : Ips) (global : Map String Bool) (v : String)
    → IsVictim local [] v
    → IsVictim local global v
unfolding IsVictim
IsVictim-weaken local global v (inl h) = inl h
IsVictim-weaken local global v (inr (e, h)) = absurd (cc)

-- A verdict with a victim: where it comes from.
gate_fresh-victim :
    (choice : ℕ) (local : Ips) (global : Map String Bool) (n : ℕ) (ip : String) (limit : ℤ)
    → let r = gate_fresh choice local global n ip limit in
      r.1 ≢ "" → (r.1 ≡ pick_victim choice local global) × (get ip false global ≡ false)
unfolding gate_fresh
gate_fresh-victim choice local global n ip limit h = ground arith

gate_stale-victim :
    (choice : ℕ) (local : Ips) (alive limit : ℤ)
    → let r = gate_stale choice local alive limit in r.1 ≢ "" → r.1 ≡ pick_victim choice local []
unfolding gate_stale
gate_stale-victim choice local alive limit h = ground arith

not_local :
    (ip : String) (local : Ips)
    → AllEntries Positive local
    → ltb 0 (get ip 0 local) ≡ false
    → contains ip (keys local) ≡ false
not_local ip local p h = elim (Option-cases (lookup ip local)) [
  | inl e ↦ rw (contains-keys ip local, e)
  | inr (n, e) ↦ absurd (ground (arith, AllEntries-lookup Positive ip local p e))
]

not_global :
    (ip : String) (global : Map String Bool)
    → AllEntries IsTrue global
    → get ip false global ≡ false
    → contains ip (keys global) ≡ false
not_global ip global p h = elim (Option-cases (lookup ip global)) [
  | inl e ↦ rw (contains-keys ip global, e)
  | inr (b, e) ↦ absurd (ground (arith, AllEntries-lookup IsTrue ip global p e))
]

not_victim :
    (local : Ips) (global : Map String Bool) (ip : String) {v : String}
    → contains ip (keys local) ≡ false
    → contains ip (keys global) ≡ false
    → IsVictim local global v
    → v ≢ ip
unfolding IsVictim
not_victim local global ip a b (inl h) = λ e. cc (ap (λ z. contains z (keys local)) e)
not_victim local global ip a b (inr (_, h)) = λ e. cc (ap (λ z. contains z (keys global)) e)

fresh-IsVictim :
    (choice : ℕ) (local : Ips) (global : Map String Bool) (n : ℕ) (ip : String) (limit : ℤ)
    → AllEntries Positive local
    → AllEntries IsTrue global
    → ltb 0 (get ip 0 local) ≡ false
    → let v = (gate_fresh choice local global n ip limit).1 in
      v ≢ "" → IsVictim local global v × (v ≢ ip)
fresh-IsVictim choice local global n ip limit p q z h =
    let (e, absent) = gate_fresh-victim choice local global n ip limit h in
    let iv =
      subst (IsVictim local global) (sym e)
        (pick_victim-IsVictim choice local global (λ k. h (e ∙ k))) in
    (iv, not_victim local global ip (not_local ip local p z) (not_global ip global q absent) iv)

stale-IsVictim :
    (choice : ℕ) (local : Ips) (global : Map String Bool) (alive : ℤ) (ip : String) (limit : ℤ)
    → AllEntries Positive local
    → ltb 0 (get ip 0 local) ≡ false
    → let v = (gate_stale choice local alive limit).1 in v ≢ "" → IsVictim local global v × (v ≢ ip)
stale-IsVictim choice local global alive ip limit p z h =
    let e = gate_stale-victim choice local alive limit h in
    let iv =
      subst (IsVictim local []) (sym e) (pick_victim-IsVictim choice local [] (λ k. h (e ∙ k))) in
    (IsVictim-weaken local global _ iv, not_victim local [] ip (not_local ip local p z) refl iv)

-- In a limiter in order, whom a verdict names is online, on this node if any device of the user is, and
-- is not the address that asks.
pub check_device_gate-IsVictim :
    {x : Externals} (l : Limiter x) (now choice uid : ℕ) (ip : String) (limit : ℤ)
    → LimiterValid l
    → let v = (check_device_gate l now choice uid ip limit).1 in
      v ≢ "" → IsVictim (local_ips l uid) (global_ips l uid) v × (v ≢ ip)
unfolding check_device_gate
check_device_gate-IsVictim l now choice uid ip limit v h = elim (Bool-cases (leb_ℤ limit (pos 0))) [
  | inl free ↦ absurd (h (rw free))
  | inr limited ↦ elim (Bool-cases (ltb 0 (get ip 0 (local_ips l uid)))) [
    | inl here ↦ absurd (h (rw (limited, here)))
    | inr away ↦ elim (Bool-cases (is_stale now l.global_last_update)) [
      | inl stale ↦
          rw (limited, away, stale)
            (stale-IsVictim choice (local_ips l uid) (global_ips l uid) (get_alive_count l uid) ip
              limit p.1 away (rw (limited, away, stale) at h))
      | inr fresh ↦
          rw (limited, away, fresh)
            (fresh-IsVictim choice (local_ips l uid) (global_ips l uid) (get uid 0 l.global_count)
              ip limit p.1 (v.globals uid).marked away (rw (limited, away, fresh) at h))
    ]
  ]
]
  where
    p : IsMap (local_ips l uid) × AllEntries Positive (local_ips l uid)
    p = get_ips_valid (shard_of uid) uid (l.ref_shards (shard_of uid)) (v.refs _)
