-- ===== src/Core/Dispatcher/History.antt =====
-- Every history of core/xray/app/dispatcher/default.go keeps the limiters' counts equal to the
-- connections held.
use ljfxznode.Common.{
  ℕ, ◌≡◌, ◌∙◌, refl, Bool, true, Option, none, some, List, [], ◌∷◌, String, Map, text_key, nat_key,
  arith,
}
use ljfxznode.Limiter.State.{Externals}
use ljfxznode.Limiter.Conn.{Registered, Kick, Callback, kick_local, kick_reporter, kick_device}
use ljfxznode.Limiter.Conn.Counts.{active_count}
use ljfxznode.Limiter.Limit.Kept.{kick_device_kept}
use ljfxznode.Core.Dispatcher.{Server, set_limiter, kick_by_user_ip}
use ljfxznode.Core.Dispatcher.Routing.{Routes}
use ljfxznode.Core.Dispatcher.Sniffing.{Resolver}
use ljfxznode.Core.Dispatcher.Sessions.{
  World, Event, arrive, route, finish, kick_out, remove_at, run_callbacks, run_kick, step, run,
}
use ljfxznode.Core.Dispatcher.Pairing.{Users, open_sessions}
use ljfxznode.Core.Dispatcher.Balance.{Paired, set_limiter-Paired}
use ljfxznode.Core.Dispatcher.Arrivals.{PlainInbound, counts, same_limiters-Paired, dispatch-Paired}
use ljfxznode.Core.Dispatcher.Departures.{Held, route_call-Held, end_call-Held}

module _ {x : Externals} where
  kick_by_user_ip_kept :
      (email ip : String) (s : Server x)
      → ((kick_by_user_ip email ip s).registry ≡ s.registry)
        × ((kick_by_user_ip email ip s).limiters ≡ s.limiters)
  unfolding kick_by_user_ip
  kick_by_user_ip_kept email ip s = ground arith

  run_callbacks_kept :
      (cs : List Callback) (s : Server x)
      → ((run_callbacks cs s).registry ≡ s.registry) × ((run_callbacks cs s).limiters ≡ s.limiters)
  unfolding run_callbacks
  run_callbacks_kept [] s = (refl, refl)
  run_callbacks_kept (kick_local email ip ∷ cs) s =
      let a = run_callbacks_kept cs (kick_by_user_ip email ip s) in
      let b = kick_by_user_ip_kept email ip s in (a.0 ∙ b.0, a.1 ∙ b.1)
  run_callbacks_kept (kick_reporter uid email ip ∷ cs) s = run_callbacks_kept cs s

module _ {x : Externals} (registry : Map String ℕ) (users : Users) where
  run_kick-Paired :
      (n : ℕ → ℕ → String → ℕ) (now : ℕ) (reporter : Bool) (k : ℕ) (o : Option (ℕ × Kick))
      (s : Server x)
      → Paired registry users n s
      → Paired registry users n (run_kick now reporter k o s)
  unfolding run_kick
  run_kick-Paired n now reporter k none s h = h
  run_kick-Paired n now reporter k (some (p, kick)) s h =
      let reg : Registered = record { local = true; reporter = reporter } in
      let l = s.limiters p in
      let kept = kick_device_kept l reg now kick.uid kick.taguuid kick.victim in
      let r = kick_device l reg now kick.uid kick.taguuid kick.victim in
      let s' : Server x = record s { started = remove_at k s.started } in
      let b = run_callbacks_kept r.1 (set_limiter p r.0 s') in
      same_limiters-Paired registry users n (set_limiter p r.0 s') _ b.0 b.1 (
        set_limiter-Paired registry users n n p r.0 s'
          (same_limiters-Paired registry users n s s' refl refl h) (kept.0 ∙ h.same_users p)
          (λ u a. rw kept.1 (h.counted p u a)) (λ q u a other. refl))

-- The addresses of a history are as Go prints them.
abbrev pub PlainEvents : List Event → Type 0
PlainEvents [] = Unit
PlainEvents (arrive now choice inbound dest forced sniff ∷ es) =
    PlainInbound inbound × PlainEvents es
PlainEvents (route k ∷ es) = PlainEvents es
PlainEvents (finish k ∷ es) = PlainEvents es
PlainEvents (kick_out now reporter k ∷ es) = PlainEvents es

module _ {x : Externals} (registry : Map String ℕ) (users : Users) (v : Resolver) (r : Routes) where
  run-Held :
      (es : List Event) (w : World x)
      → PlainEvents es
      → Held registry users w
      → Held registry users (run v r es w)
  unfolding run step
  run-Held [] w plain h = h
  run-Held (arrive now choice inbound dest forced sniff ∷ es) w plain h =
      run-Held es _ plain.1
        (dispatch-Paired registry users v now choice inbound dest forced sniff w plain.0 h)
  run-Held (route k ∷ es) w plain h =
      run-Held es _ plain (route_call-Held registry users r k _ w refl h)
  run-Held (finish k ∷ es) w plain h =
      run-Held es _ plain (end_call-Held registry users k _ w refl h)
  run-Held (kick_out now reporter k ∷ es) w plain h = run-Held es _ plain (
      run_kick-Paired registry users (counts registry users w.sessions) now reporter k _ w.server h)

-- From a server that holds no connection and whose limiters count none, after any history each limiter
-- counts for a user and an address the connections it holds, over TCP, of the user from the address.
pub run-active_count :
    {x : Externals} (v : Resolver) (r : Routes) (es : List Event) (s : Server x) (p u : ℕ)
    (a : String)
    → PlainEvents es
    → ((q i : ℕ) (b : String) → active_count (s.limiters q) i b ≡ 0)
    → let w = run v r es (record { server = s; sessions = [] }) in
      active_count (w.server.limiters p) u a
      ≡ open_sessions s.registry (λ q. (s.limiters q).user_limit_info) p u a w.sessions
unfolding open_sessions
run-active_count v r es s p u a plain empty =
    let start : Held s.registry (λ q. (s.limiters q).user_limit_info)
        (record { server = s; sessions = [] }) =
      record { same_registry = refl; same_users = λ q. refl; counted = empty } in
    (run-Held s.registry _ v r es _ plain start).counted p u a
