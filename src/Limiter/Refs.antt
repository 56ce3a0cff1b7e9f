-- ===== src/Limiter/Refs.antt =====
-- One shard of the connection counts: the critical sections of `ConnOpened` and `ConnClosed`.
use ljfxznode.Common.{
  ℕ, ◌+◌, ◌-◌, ◌<◌, ◌≡◌, ◌≢◌, ap, inl, inr, Bool, ◌&&◌, none, some, List, [], ◌∷◌, String, arith,
  leb, nat_beq_iff, if◌then◌else◌, ◌==◌, Key, text_key, nat_key, Bool-cases, Option-cases, lookup,
  insert, delete, get, IsMap, AllEntries, lookup-insert, lookup-delete, insert-IsMap, delete-IsMap,
  AllEntries-lookup, AllEntries-insert, AllEntries-delete,
}
use ljfxznode.Limiter.State.{Ips, RefShard, shard_of}

-- `m[ip]++` on the user's map, which is made if it is missing
unfoldable pub shard_open : ℕ → String → RefShard → RefShard
shard_open uid ip sh = let m = get uid [] sh in insert uid (insert ip (get ip 0 m + 1) m) sh

-- `m[ip]--; if m[ip] <= 0 { delete(m, ip) }`. Counts are natural numbers: a missing entry counts 0,
-- and goes to -1 and out again.
unfoldable pub decrement : String → Ips → Ips
decrement ip m = let n = get ip 0 m in if leb n 1 then delete ip m else insert ip (n - 1) m

-- `if len(m) == 0 { delete(sh.m, uid) }`
unfoldable pub put_ips : ℕ → Ips → RefShard → RefShard
put_ips uid [] sh = delete uid sh
put_ips uid (e ∷ m) sh = insert uid (e ∷ m) sh

unfoldable pub shard_close : ℕ → String → RefShard → RefShard
unfolding decrement put_ips
shard_close uid ip sh = elim (lookup uid sh) [
  | none ↦ sh
  | some m ↦ put_ips uid (decrement ip m) sh
]

-- The active connections of a user from an address.
abbrev pub active : ℕ → String → RefShard → ℕ
active uid ip sh = get ip 0 (get uid [] sh)

abbrev pub same : ℕ → String → ℕ → String → Bool
same uid ip u a = (uid == u) && (ip == a)

pub active-shard_open :
    (uid : ℕ) (ip : String) (sh : RefShard) (u : ℕ) (a : String)
    → active u a (shard_open uid ip sh)
      ≡ (if same uid ip u a then active u a sh + 1 else active u a sh)
unfolding shard_open
active-shard_open uid ip sh u a =
    rw (lookup-insert uid u (insert ip (get ip 0 (get uid [] sh) + 1) (get uid [] sh)) sh) (
      ground (
        arith,
        nat_beq_iff uid u,
        text_key.same_iff ip a,
        lookup-insert ip a (get ip 0 (get uid [] sh) + 1) (get uid [] sh),
      ))

get-decrement :
    (ip a : String) (m : Ips)
    → get a 0 (decrement ip m) ≡ (if ip == a then get a 0 m - 1 else get a 0 m)
unfolding decrement
get-decrement ip a m =
    ground
      (arith, text_key.same_iff ip a, lookup-insert ip a (get ip 0 m - 1) m, lookup-delete ip a m)

pub get-put_ips :
    (uid u : ℕ) (m : Ips) (sh : RefShard)
    → get u [] (put_ips uid m sh) ≡ (if uid == u then m else get u [] sh)
unfolding put_ips
get-put_ips uid u [] sh = ground (arith, lookup-delete uid u sh)
get-put_ips uid u (e ∷ m) sh = ground (arith, lookup-insert uid u (e ∷ m) sh)

lookup-eq : {p q : ℕ} (sh : RefShard) → p ≡ q → lookup p sh ≡ lookup q sh
lookup-eq sh h = ap (λ z. lookup z sh) h

pub active-shard_close :
    (uid : ℕ) (ip : String) (sh : RefShard) (u : ℕ) (a : String)
    → active u a (shard_close uid ip sh)
      ≡ (if same uid ip u a then active u a sh - 1 else active u a sh)
unfolding shard_close lookup
active-shard_close uid ip sh u a = elim (Option-cases (lookup uid sh)) [
  | inl gone ↦
      rw (gone, shard_close) (ground (arith, nat_beq_iff uid u, lookup-eq {p = uid} {q = u} sh))
  | inr (m, found) ↦
      rw (found, shard_close)
        (rw (get-put_ips uid u (decrement ip m) sh)
          (ground (arith, nat_beq_iff uid u, get-decrement ip a m)))
]

-- A user's entry: addresses stand once, with a positive count, and there is one at least.
pub record IpsValid (m : Ips) : Type 0 where
  pub distinct : IsMap m
  pub positive : AllEntries (λ _ n. 0 < n) m
  pub nonempty : m ≢ []

abbrev pub Entry : ℕ → ℕ → Ips → Type 0
Entry i u m = (shard_of u ≡ i) × IpsValid m

-- Shard `i` holds users of that shard only, each once, each with a valid entry.
pub record ShardValid (i : ℕ) (sh : RefShard) : Type 0 where
  pub distinct : IsMap sh
  pub entries : AllEntries (Entry i) sh

abbrev pub Positive : String → ℕ → Type 0
Positive _ n = 0 < n

insert-ne-nil : {K V : Type 0} ⦃e : Key K⦄ (k : K) (v : V) (m : List (K × V)) → insert k v m ≢ []
unfolding insert
insert-ne-nil k v [] = λ h. cc
insert-ne-nil k v ((j, w) ∷ m) = ground arith

insert-IpsValid :
    (ip : String) (n : ℕ) (m : Ips)
    → IsMap m
    → AllEntries Positive m
    → 0 < n
    → IpsValid (insert ip n m)
insert-IpsValid ip n m d p h = record {
  distinct = insert-IsMap ip n m d;
  positive = AllEntries-insert Positive ip n m h p;
  nonempty = insert-ne-nil ip n m;
}

pub get_ips_valid :
    (i uid : ℕ) (sh : RefShard)
    → ShardValid i sh
    → IsMap (get uid [] sh) × AllEntries Positive (get uid [] sh)
get_ips_valid i uid sh v = elim (Option-cases (lookup uid sh)) [
  | inl gone ↦ rw gone (tt, tt)
  | inr (m, found) ↦
      let e = AllEntries-lookup (Entry i) uid sh v.entries found in
      rw found (e.1.distinct, e.1.positive)
]

pub shard_open-ShardValid :
    (i uid : ℕ) (ip : String) (sh : RefShard)
    → shard_of uid ≡ i
    → ShardValid i sh
    → ShardValid i (shard_open uid ip sh)
unfolding shard_open
shard_open-ShardValid i uid ip sh h v =
    let m = get uid [] sh in
    let n = get ip 0 m + 1 in
    let (d, p) = get_ips_valid i uid sh v in
    record {
      distinct = insert-IsMap uid (insert ip n m) sh v.distinct;
      entries =
          AllEntries-insert (Entry i) uid (insert ip n m) sh
            (h, insert-IpsValid ip n m d p (omega arith)) v.entries;
    }

decrement_valid :
    (ip : String) (m : Ips)
    → IsMap m
    → AllEntries Positive m
    → IsMap (decrement ip m) × AllEntries Positive (decrement ip m)
unfolding decrement
decrement_valid ip m d p = elim (Bool-cases (leb (get ip 0 m) 1)) [
  | inl last ↦ rw last (delete-IsMap ip m d, AllEntries-delete Positive ip m p)
  | inr more ↦ rw more (
    insert-IsMap ip (get ip 0 m - 1) m d,
    AllEntries-insert Positive ip (get ip 0 m - 1) m (ground arith) p,
  )
]

put_ips-ShardValid :
    (i uid : ℕ) (m : Ips) (sh : RefShard)
    → shard_of uid ≡ i
    → IsMap m
    → AllEntries Positive m
    → ShardValid i sh
    → ShardValid i (put_ips uid m sh)
unfolding put_ips
put_ips-ShardValid i uid [] sh h d p v = record {
  distinct = delete-IsMap uid sh v.distinct;
  entries = AllEntries-delete (Entry i) uid sh v.entries;
}
put_ips-ShardValid i uid (e ∷ m) sh h d p v = record {
  distinct = insert-IsMap uid (e ∷ m) sh v.distinct;
  entries =
      AllEntries-insert (Entry i) uid (e ∷ m) sh
        (h, record { distinct = d; positive = p; nonempty = λ q. cc }) v.entries;
}

pub shard_close-ShardValid :
    (i uid : ℕ) (ip : String) (sh : RefShard)
    → shard_of uid ≡ i
    → ShardValid i sh
    → ShardValid i (shard_close uid ip sh)
unfolding shard_close
shard_close-ShardValid i uid ip sh h v = elim (Option-cases (lookup uid sh)) [
  | inl gone ↦ rw (gone, shard_close) v
  | inr (m, found) ↦
      let e = AllEntries-lookup (Entry i) uid sh v.entries found in
      let (d, p) = decrement_valid ip m e.1.distinct e.1.positive in
      rw (found, shard_close) (put_ips-ShardValid i uid (decrement ip m) sh h d p v)
]

pub shard_delete-ShardValid :
    (i uid : ℕ) (sh : RefShard) → ShardValid i sh → ShardValid i (delete uid sh)
shard_delete-ShardValid i uid sh v = record {
  distinct = delete-IsMap uid sh v.distinct;
  entries = AllEntries-delete (Entry i) uid sh v.entries;
}
