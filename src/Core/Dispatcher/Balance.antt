-- ===== src/Core/Dispatcher/Balance.antt =====
-- The limiters of a server count the connections that it holds, over any history of
-- core/xray/app/dispatcher/default.go in which no node and no user is added or removed.
use ljfxznode.Common.{
  ℕ, ◌+◌, ◌≡◌, ◌∙◌, refl, inl, inr, Bool, true, false, not, ◌&&◌, Option, none, some, String, Map,
  lookup, nat_beq, nat_beq_iff, text_key, nat_key, arith, Option-cases, Bool-cases, if◌then◌else◌,
}
use ljfxznode.Limiter.State.{Externals, Limiter, pure_ip}
use ljfxznode.Limiter.Conn.{Kick}
use ljfxznode.Limiter.Conn.Counts.{active_count}
use ljfxznode.Limiter.Limit.{check_limit}
use ljfxznode.Limiter.Limit.Outcome.{check_limit-active_count}
use ljfxznode.Limiter.Limit.Kept.{check_limit_users, check_limit_unknown}
use ljfxznode.Core.Dispatcher.{Client, Server, admit, start_kick, set_limiter}
use ljfxznode.Core.Dispatcher.Routing.{Deferred}
use ljfxznode.Core.Dispatcher.Pairing.{Users, lowers}

-- What a connection of a client will end with.
abbrev pub held : Bool → Client → Map String ℕ → Option Deferred
held tcp c registry =
    if tcp
    then (elim (lookup c.tag registry) [
      | none ↦ none
      | some p ↦ some (record { limiter = p; email = c.email; ip = c.ip })
    ])
    else none

abbrev pub is_some {ℓ} : {A : Type ℓ} → Option A → Bool
is_some none = false
is_some (some a) = true

beq_self : (p : ℕ) → nat_beq p p ≡ true
beq_self p = (nat_beq_iff p p).1 refl

module _ {x : Externals} (users : Users) where
  -- A verdict counts what the end of the connection will take back.
  verdict_counts :
      (l : Limiter x) (p now choice : ℕ) (tcp : Bool) (c : Client) (u : ℕ) (a : String)
      → pure_ip c.ip ≡ c.ip
      → l.user_limit_info ≡ users p
      → let v = check_limit l now choice c.email c.ip tcp in
        let d : Deferred = record { limiter = p; email = c.email; ip = c.ip } in
        active_count v.state u a
        ≡ (if not v.reject && lowers users (if tcp then some d else none) p u a then 1 else 0)
          + active_count l u a
  verdict_counts l p now choice true c u a plain known =
      elim (Option-cases (lookup c.email l.user_limit_info)) [
        | inl gone ↦
            let (rejected, kept) = check_limit_unknown l now choice c.email c.ip true gone in
            rw (rejected, kept) (omega arith)
        | inr (info, found) ↦
            let listed : lookup c.email (users p) ≡ some info = rw (← known) found in
            rw (listed, beq_self p, plain)
              (ground (
                arith,
                rw plain at
                    (check_limit-active_count l now choice c.email c.ip true info u a found),
              ))
      ]
  verdict_counts l p now choice false c u a plain known =
      elim (Option-cases (lookup c.email l.user_limit_info)) [
        | inl gone ↦
            let (rejected, kept) = check_limit_unknown l now choice c.email c.ip false gone in
            rw (rejected, kept) (omega arith)
        | inr (info, found) ↦
            ground (arith, check_limit-active_count l now choice c.email c.ip false info u a found)
      ]

-- A server whose limiters count `n`, with a registry and users that stay.
pub record Paired {x : Externals} (registry : Map String ℕ) (users : Users) (n : ℕ → ℕ → String → ℕ)
    (s : Server x) : Type 0 where
  pub same_registry : s.registry ≡ registry
  pub same_users : (p : ℕ) → (s.limiters p).user_limit_info ≡ users p
  pub counted : (p u : ℕ) (a : String) → active_count (s.limiters p) u a ≡ n p u a

-- One more is counted for a client that is let in.
abbrev pub with_client :
    Map String ℕ → Users → Bool → Bool → Client → (ℕ → ℕ → String → ℕ) → ℕ → ℕ → String → ℕ
with_client registry users admitted tcp c n p u a =
    (if admitted && lowers users (held tcp c registry) p u a then 1 else 0) + n p u a

-- At another limiter a client lowers nothing.
elsewhere :
    (registry : Map String ℕ) (users : Users) (admitted tcp : Bool) (c : Client)
    (n : ℕ → ℕ → String → ℕ) (q p u : ℕ) (a : String)
    → lookup c.tag registry ≡ some q
    → nat_beq q p ≡ false
    → with_client registry users admitted tcp c n p u a ≡ n p u a
elsewhere registry users admitted true c n q p u a listed other = rw (listed, other) (ground arith)
elsewhere registry users admitted false c n q p u a listed other = ground arith

module _ {x : Externals} (registry : Map String ℕ) (users : Users) where
  pub Paired-eq :
      (n m : ℕ → ℕ → String → ℕ) (s : Server x)
      → ((p u : ℕ) (a : String) → n p u a ≡ m p u a)
      → Paired registry users n s
      → Paired registry users m s
  Paired-eq n m s e h = record {
    same_registry = h.same_registry;
    same_users = h.same_users;
    counted = λ p u a. h.counted p u a ∙ e p u a;
  }

  -- One limiter changes, and counts `m`.
  pub set_limiter-Paired :
      (n m : ℕ → ℕ → String → ℕ) (q : ℕ) (l : Limiter x) (s : Server x)
      → Paired registry users n s
      → l.user_limit_info ≡ users q
      → ((u : ℕ) (a : String) → active_count l u a ≡ m q u a)
      → ((p u : ℕ) (a : String) → nat_beq q p ≡ false → m p u a ≡ n p u a)
      → Paired registry users m (set_limiter q l s)
  unfolding set_limiter
  set_limiter-Paired n m q l s h known count others = record {
    same_registry = h.same_registry;
    same_users = λ p. elim (Bool-cases (nat_beq q p)) [
      | inl e ↦ rw (e, ← (nat_beq_iff q p).0 e) known
      | inr e ↦ rw e (h.same_users p)
    ];
    counted = λ p u a. elim (Bool-cases (nat_beq q p)) [
      | inl e ↦ rw (e, ← (nat_beq_iff q p).0 e) (count u a)
      | inr e ↦ rw (e, others p u a e) (h.counted p u a)
    ];
  }

  start_kick-Paired :
      (n : ℕ → ℕ → String → ℕ) (p : ℕ) (kick : Option Kick) (s : Server x)
      → Paired registry users n s
      → Paired registry users n (start_kick p kick s)
  unfolding start_kick
  start_kick-Paired n p none s h = h
  start_kick-Paired n p (some kick) s h = record {
    same_registry = h.same_registry;
    same_users = h.same_users;
    counted = h.counted;
  }

  admitted-Paired :
      (n : ℕ → ℕ → String → ℕ) (now choice : ℕ) (tcp : Bool) (c : Client) (q : ℕ) (s : Server x)
      → pure_ip c.ip ≡ c.ip
      → lookup c.tag registry ≡ some q
      → Paired registry users n s
      → let v = check_limit (s.limiters q) now choice c.email c.ip tcp in
        Paired registry users
          (with_client registry users (not v.reject) tcp c n)
          (start_kick q v.kick (set_limiter q v.state s))
  admitted-Paired n now choice tcp c q s plain listed h =
      let l = s.limiters q in
      let v = check_limit l now choice c.email c.ip tcp in
      let m = with_client registry users (not v.reject) tcp c n in
      start_kick-Paired m q v.kick (set_limiter q v.state s) (
        set_limiter-Paired n m q v.state s h
          (check_limit_users l now choice c.email c.ip tcp ∙ h.same_users q)
          (λ u a. rw listed (
            verdict_counts users l q now choice tcp c u a plain (h.same_users q)
            ∙ rw (h.counted q u a) refl))
          (λ p u a other. elsewhere registry users (not v.reject) tcp c n q p u a listed other))

  pub admit-Paired :
      (n : ℕ → ℕ → String → ℕ) (now choice : ℕ) (tcp : Bool) (c : Client) (s : Server x)
      → pure_ip c.ip ≡ c.ip
      → Paired registry users n s
      → let r = admit now choice tcp c s in
        Paired registry users (with_client registry users (is_some r.1) tcp c n) r.0
  unfolding admit
  admit-Paired n now choice tcp c s plain h = elim (Option-cases (lookup c.tag s.registry)) [
    | inl gone ↦ rw (gone, admit) (Paired-eq n _ s (λ p u a. omega arith) h)
    | inr (q, found) ↦
        let v = check_limit (s.limiters q) now choice c.email c.ip tcp in
        let listed : lookup c.tag registry ≡ some q = rw (← h.same_registry) found in
        let done = admitted-Paired n now choice tcp c q s plain listed h in
        elim (Bool-cases v.reject) [
          | inl e ↦ rw (found, admit, e) (rw e at done)
          | inr e ↦ rw (found, admit, e) (rw e at done)
        ]
  ]
