-- ===== src/Core/Dispatcher/Sessions.antt =====
-- The connections of a server over time: `Dispatch`, the goroutines that it starts, and the kicks.
-- One step is a call of `getLink`, the part of `routedDispatch` up to the handler, its end, or a kick.
use ljfxznode.Common.{ℕ, zero, suc, Bool, true, Option, none, some, List, [], ◌∷◌, String}
use ljfxznode.Limiter.State.{Externals}
use ljfxznode.Limiter.Conn.{Kick, Callback, kick_local, kick_reporter, conn_closed, kick_device}
use ljfxznode.Core.Dispatcher.{
  Inbound, Server, Linked, refused, linked, get_link, set_limiter, kick_by_user_ip,
}
use ljfxznode.Core.Dispatcher.Routing.{
  Destination, Routes, Routed, blocked, no_handler, handled, Call, Deferred, deferred_of,
  routed_dispatch,
}
use ljfxznode.Core.Dispatcher.Sniffing.{
  SniffResult, SniffingRequest, Resolver, Sniffed, new_outbound, after_sniff,
}

-- A connection whose goroutine has not routed it yet, or that a handler serves.
pub data Session : Type 0 where
  waiting : Call → Session
  serving : Option Deferred → Session

-- The newest connection stands first.
pub record World (x : Externals) : Type 0 where
  pub server : Server x
  pub sessions : List Session

unfoldable pub get_at {ℓ} : {A : Type ℓ} → ℕ → List A → Option A
get_at k [] = none
get_at zero (s ∷ rest) = some s
get_at (suc k) (s ∷ rest) = get_at k rest

unfoldable pub remove_at {ℓ} : {A : Type ℓ} → ℕ → List A → List A
remove_at k [] = []
remove_at zero (s ∷ rest) = rest
remove_at (suc k) (s ∷ rest) = s ∷ remove_at k rest

unfoldable pub set_at {ℓ} : {A : Type ℓ} → ℕ → A → List A → List A
set_at k new [] = []
set_at zero new (s ∷ rest) = new ∷ rest
set_at (suc k) new (s ∷ rest) = s ∷ set_at k new rest

-- What the sniffer gives, where sniffing is enabled: the request, and the result if there is no error.
abbrev pub Sniff : Type 0
Sniff = Option (SniffingRequest × Option SniffResult)

unfoldable pub sniffed : Resolver → Destination → Sniff → Sniffed
unfolding after_sniff
sniffed v dest none = record { outbound = new_outbound dest; dest = dest; protocol = "" }
sniffed v dest (some (request, result)) = after_sniff v request dest result

unfoldable pub call_of : Resolver → Option Inbound → Destination → String → Sniff → Option ℕ → Call
unfolding sniffed
call_of v inbound dest forced sniff limiter =
    let found = sniffed v dest sniff in
    record {
      inbound = inbound;
      dest = found.dest;
      limiter = limiter;
      protocol = found.protocol;
      forced = forced;
    }

module _ {x : Externals} where
  unfoldable pub run_deferred : Option Deferred → Server x → Server x
  unfolding set_limiter
  run_deferred none s = s
  run_deferred (some d) s =
      set_limiter d.limiter (conn_closed (s.limiters d.limiter) d.email d.ip) s

  unfoldable pub start_session : Call → Linked x → List Session → List Session
  start_session call (refused closed interrupted) sessions = sessions
  start_session call (linked inbound outbound limiter) sessions =
      waiting (record call { limiter = limiter }) ∷ sessions

  -- `Dispatch`
  unfoldable pub dispatch :
      Resolver → ℕ → ℕ → Option Inbound → Destination → String → Sniff → World x → World x
  unfolding start_session call_of
  dispatch v now choice inbound dest forced sniff w =
      let (s, link) = get_link now choice inbound dest.tcp w.server in
      record {
        server = s;
        sessions = start_session (call_of v inbound dest forced sniff none) link w.sessions;
      }

  unfoldable pub end_session : ℕ → Option Deferred → World x → World x
  unfolding run_deferred remove_at
  end_session k d w = record { server = run_deferred d w.server; sessions = remove_at k w.sessions }

  -- A connection that no handler takes ends here.
  unfoldable pub settle : (r : Routes) → ℕ → Option Deferred → Routed r → World x → World x
  unfolding end_session set_at
  settle r k d blocked w = end_session k d w
  settle r k d no_handler w = end_session k d w
  settle r k d (handled pick h) w = record w { sessions = set_at k (serving d) w.sessions }

  -- The start of `routedDispatch`.
  unfoldable pub route_call : Routes → ℕ → Option Session → World x → World x
  unfolding routed_dispatch settle
  route_call r k none w = w
  route_call r k (some (serving d)) w = w
  route_call r k (some (waiting call)) w =
      settle r k (deferred_of call w.server.registry) (routed_dispatch r call w.server) w

  -- `handler.Dispatch` returns.
  unfoldable pub end_call : ℕ → Option Session → World x → World x
  unfolding end_session
  end_call k none w = w
  end_call k (some (waiting call)) w = w
  end_call k (some (serving d)) w = end_session k d w

  -- `RegisterKickLocal` makes `KickByUserIP` the local callback; the other one leaves the server.
  unfoldable pub run_callbacks : List Callback → Server x → Server x
  unfolding kick_by_user_ip
  run_callbacks [] s = s
  run_callbacks (kick_local email ip ∷ rest) s = run_callbacks rest (kick_by_user_ip email ip s)
  run_callbacks (kick_reporter uid email ip ∷ rest) s = run_callbacks rest s

  -- A kick that was started runs.
  unfoldable pub run_kick : ℕ → Bool → ℕ → Option (ℕ × Kick) → Server x → Server x
  unfolding set_limiter remove_at run_callbacks
  run_kick now reporter k none s = s
  run_kick now reporter k (some (p, kick)) s =
      let (l, callbacks) =
        kick_device (s.limiters p) (record { local = true; reporter = reporter }) now kick.uid
          kick.taguuid kick.victim in
      run_callbacks callbacks (set_limiter p l (record s { started = remove_at k s.started }))

pub data Event : Type 0 where
  arrive : ℕ → ℕ → Option Inbound → Destination → String → Sniff → Event
  route : ℕ → Event
  finish : ℕ → Event
  kick_out : ℕ → Bool → ℕ → Event

module _ {x : Externals} (v : Resolver) (r : Routes) where
  unfoldable pub step : Event → World x → World x
  unfolding dispatch route_call end_call run_kick get_at
  step (arrive now choice inbound dest forced sniff) w =
      dispatch v now choice inbound dest forced sniff w
  step (route k) w = route_call r k (get_at k w.sessions) w
  step (finish k) w = end_call k (get_at k w.sessions) w
  step (kick_out now reporter k) w = record w {
    server = run_kick now reporter k (get_at k w.server.started) w.server;
  }

  unfoldable pub run : List Event → World x → World x
  unfolding step
  run [] w = w
  run (e ∷ es) w = run es (step e w)
