-- ===== src/Core/Dispatcher/Departures.antt =====
-- A connection that ends is taken back from its limiter: `routedDispatch`.
use ljfxznode.Common.{
  ℕ, ◌+◌, ◌-◌, ◌≡◌, ◌∙◌, refl, sym, ap, Option, none, some, String, Map, lookup, nat_beq_iff,
  text_key, nat_key, arith, if◌then◌else◌,
}
use ljfxznode.Limiter.State.{Externals, Limiter, UserLimitInfo}
use ljfxznode.Limiter.Conn.{conn_closed}
use ljfxznode.Limiter.Conn.Counts.{active_count, closes, active_count-conn_closed}
use ljfxznode.Limiter.Limit.Kept.{conn_closed_users}
use ljfxznode.Core.Dispatcher.{Server}
use ljfxznode.Core.Dispatcher.Routing.{
  Routes, Routed, blocked, no_handler, handled, Deferred, deferred_of, routed_dispatch,
}
use ljfxznode.Core.Dispatcher.Sessions.{
  Session, waiting, serving, World, get_at, run_deferred, end_session, settle, route_call, end_call,
}
use ljfxznode.Core.Dispatcher.Pairing.{
  Users, lowers, ending, open_sessions-remove_at, open_sessions-set_at,
}
use ljfxznode.Core.Dispatcher.Balance.{Paired, Paired-eq, set_limiter-Paired}
use ljfxznode.Core.Dispatcher.Arrivals.{counts}

module _ {x : Externals} (registry : Map String ℕ) (users : Users) where
  closed_count :
      (l : Limiter x) (known : Map String UserLimitInfo) (email ip : String) (u : ℕ) (a : String)
      → l.user_limit_info ≡ known
      → active_count (conn_closed l email ip) u a ≡ (
          if closes (lookup email known) ip u a then active_count l u a - 1 else active_count l u a)
  closed_count l known email ip u a e =
      active_count-conn_closed l email ip u a
      ∙ ap
          (λ m.
            if closes (lookup email m) ip u a then active_count l u a - 1 else active_count l u a)
          e

  run_deferred-Paired :
      (n m : ℕ → ℕ → String → ℕ) (d : Option Deferred) (s : Server x)
      → ((p u : ℕ) (a : String) → m p u a + (if lowers users d p u a then 1 else 0) ≡ n p u a)
      → Paired registry users n s
      → Paired registry users m (run_deferred d s)
  unfolding run_deferred
  run_deferred-Paired n m none s e h =
      Paired-eq registry users n m s (λ p u a. omega (arith, e p u a)) h
  run_deferred-Paired n m (some d) s e h =
      let q = d.limiter in
      let l = s.limiters q in
      set_limiter-Paired registry users n m q (conn_closed l d.email d.ip) s h
        (conn_closed_users l d.email d.ip ∙ h.same_users q)
        (λ u a.
          closed_count l (users q) d.email d.ip u a (h.same_users q)
          ∙ rw (h.counted q u a) (ground (arith, rw ((nat_beq_iff q q).1 refl) at (e q u a))))
        (λ p u a other. omega (arith, rw other at (e p u a)))

  abbrev pub Held : World x → Type 0
  Held w = Paired registry users (counts registry users w.sessions) w.server

  end_session-Held :
      (k : ℕ) (d : Option Deferred) (s : Session) (w : World x)
      → get_at k w.sessions ≡ some s
      → ending registry s ≡ d
      → Held w
      → Held (end_session k d w)
  unfolding end_session
  end_session-Held k d s w e same h =
      run_deferred-Paired (counts registry users w.sessions) _ d w.server
        (λ p u a. rw (← same) (open_sessions-remove_at registry users p u a k w.sessions {s = s} e))
        h

  settle-Held :
      (r : Routes) (k : ℕ) (d : Option Deferred) (t : Routed r) (s : Session) (w : World x)
      → get_at k w.sessions ≡ some s
      → ending registry s ≡ d
      → Held w
      → Held (settle r k d t w)
  unfolding settle
  settle-Held r k d blocked s w e same h = end_session-Held k d s w e same h
  settle-Held r k d no_handler s w e same h = end_session-Held k d s w e same h
  settle-Held r k d (handled pick y) s w e same h =
      Paired-eq registry users (counts registry users w.sessions) _ w.server
        (λ p u a. sym (
          open_sessions-set_at registry users p u a k (serving d) w.sessions {s = s} e
            (rw same refl)))
        h

  pub route_call-Held :
      (r : Routes) (k : ℕ) (o : Option Session) (w : World x)
      → get_at k w.sessions ≡ o
      → Held w
      → Held (route_call r k o w)
  unfolding route_call
  route_call-Held r k none w e h = h
  route_call-Held r k (some (serving d)) w e h = h
  route_call-Held r k (some (waiting call)) w e h =
      settle-Held r k (deferred_of call w.server.registry) (routed_dispatch r call w.server)
        (waiting call) w e (rw h.same_registry refl) h

  pub end_call-Held :
      (k : ℕ) (o : Option Session) (w : World x)
      → get_at k w.sessions ≡ o
      → Held w
      → Held (end_call k o w)
  unfolding end_call
  end_call-Held k none w e h = h
  end_call-Held k (some (waiting call)) w e h = h
  end_call-Held k (some (serving d)) w e h = end_session-Held k d (serving d) w e refl h
