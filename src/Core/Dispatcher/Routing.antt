-- ===== src/Core/Dispatcher/Routing.antt =====
-- `routedDispatch`: the block rules and the choice of an outbound.
use Prim.Native.String.{◌++◌ as ◌+++◌}
use ljfxznode.Common.{
  ℕ, Bool, false, not, ◌&&◌, ◌||◌, Option, none, some, String, Map, lookup, text_key, ◌==◌,
  if◌then◌else◌,
}
use ljfxznode.Limiter.State.{Externals, Limiter}
use ljfxznode.Limiter.Rules.{check_domain_rule, check_protocol_rule}
use ljfxznode.Core.Dispatcher.{Inbound, Server, client_of}

pub data Address : Type 0 where
  domain : String → Address
  ip : String → Address

-- `net.Destination`, its port left out: `tcp` is whether the network is TCP.
pub record Destination : Type 0 where
  pub tcp : Bool
  pub address : Address

-- `destStr`
abbrev pub text_of : Address → String
text_of (domain d) = d
text_of (ip a) = a

-- Xray's outbound manager and router. `pick_route` is `none` where there is no router; a route is the
-- tag of its outbound.
pub record Routes : Type 1 where
  pub Handler : Type 0
  pub get_handler : String → Option Handler
  pub get_default_handler : Option Handler
  pub tag : Handler → String
  pub pick_route : Option (Option Inbound → Destination → Option String)

-- How the outbound was picked, `isPickRoute`.
pub data Pick : Type 0 where
  by_default by_force by_route : Pick

-- The end of `routedDispatch`: the link is closed, or a handler takes it.
pub data Routed (r : Routes) : Type 0 where
  blocked : Routed r
  no_handler : Routed r
  handled : Pick → r.Handler → Routed r

-- `accessMessage.Detour`, which is set for a handler with a tag.
unfoldable pub detour : Pick → String → String → String
detour pick in_tag tag = if in_tag == "" then tag else (elim pick as (λ _. String) [
  | by_force ↦ (in_tag +++ " ==> ") +++ tag
  | by_route ↦ (in_tag +++ " -> ") +++ tag
  | by_default ↦ (in_tag +++ " >> ") +++ tag
])

module _ (r : Routes) where
  unfoldable pub take : Pick → Option r.Handler → Routed r
  take pick none = no_handler
  take pick (some h) = handled pick h

  unfoldable pub take_route : Option String → Routed r
  unfolding take
  take_route none = take by_default r.get_default_handler
  take_route (some out_tag) = take by_route (r.get_handler out_tag)

  -- The router's choice, where there is a router.
  unfoldable pub take_picked :
      Option (Option Inbound → Destination → Option String)
      → Option Inbound
      → Destination
      → Routed r
  unfolding take take_route
  take_picked none inbound dest = take by_default r.get_default_handler
  take_picked (some pick) inbound dest = take_route (pick inbound dest)

  -- A forced tag, then the router, then the default; a tag without a handler ends the connection.
  unfoldable pub pick_handler : String → Option Inbound → Destination → Routed r
  unfolding take take_picked
  pick_handler forced inbound dest =
      if not (forced == "")
      then take by_force (r.get_handler forced)
      else take_picked r.pick_route inbound dest

-- The two rules of a limiter; a protocol is looked at where the sniffer found one.
unfoldable pub is_blocked : {x : Externals} → Limiter x → String → String → Bool
is_blocked l dest protocol =
    check_domain_rule l dest || (not (protocol == "") && check_protocol_rule l protocol)

-- A call of `routedDispatch`: what the goroutine captures.
pub record Call : Type 0 where
  pub inbound : Option Inbound
  pub dest : Destination
  -- the limiter of `getLink`
  pub limiter : Option ℕ
  pub protocol : String
  pub forced : String

-- The deferred `lim.ConnClosed(email, ip)`.
pub record Deferred : Type 0 where
  pub limiter : ℕ
  pub email : String
  pub ip : String

-- A TCP connection of a user whose tag has a limiter is given back at the end.
unfoldable pub deferred_of : Call → Map String ℕ → Option Deferred
unfolding client_of
deferred_of call registry =
    if call.dest.tcp
    then (elim (client_of call.inbound) [
      | none ↦ none
      | some c ↦ elim (lookup c.tag registry) [
        | none ↦ none
        | some p ↦ some (record { limiter = p; email = c.email; ip = c.ip })
      ]
    ])
    else none

module _ {x : Externals} where
  -- The limiter whose rules are asked: that of `getLink`, or the one of the tag.
  unfoldable pub rules_of : Call → Server x → Option ℕ
  unfolding client_of
  rules_of call s = elim (client_of call.inbound) [
    | none ↦ none
    | some c ↦ elim call.limiter [ none ↦ lookup c.tag s.registry | some p ↦ some p ]
  ]

  unfoldable pub is_call_blocked : Call → Server x → Bool
  unfolding rules_of is_blocked
  is_call_blocked call s = elim (rules_of call s) [
    | none ↦ false
    | some p ↦ is_blocked (s.limiters p) (text_of call.dest.address) call.protocol
  ]

  unfoldable pub routed_dispatch : (r : Routes) → Call → Server x → Routed r
  unfolding is_call_blocked pick_handler
  routed_dispatch r call s =
      if is_call_blocked call s then blocked else pick_handler r call.forced call.inbound call.dest
