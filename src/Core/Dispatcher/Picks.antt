-- ===== src/Core/Dispatcher/Picks.antt =====
-- Which connections of `routedDispatch` reach a handler, and which handler.
use mathlib.Core.Path.{subst}
use ljfxznode.Common.{
  ℕ, ◌≡◌, ◌≢◌, ◌⊎◌, List, [], ◌∷◌, refl, inl, inr, true, false, Option, none, some, String,
  text_key, ◌==◌, lookup, Option-cases, Bool-cases,
}
use ljfxznode.Limiter.State.{Externals, Limiter}
use ljfxznode.Limiter.Rules.{any_match, any_protocol, check_domain_rule, check_protocol_rule}
use ljfxznode.Core.Dispatcher.{Inbound, Server, client_of}
use ljfxznode.Core.Dispatcher.Routing.{
  Destination, text_of, Routes, Pick, by_default, by_force, by_route, Routed, blocked, no_handler,
  handled, take, take_route, take_picked, pick_handler, Call, rules_of, is_blocked, is_call_blocked,
  routed_dispatch,
}

-- The handler that a connection is to have: that of the forced tag; with no forced tag, that of the
-- router's tag; with no route either, the default one.
pub data IsPicked (r : Routes) (call : Call) : Pick → r.Handler → Type 0 where
  forced :
      {h : r.Handler}
      → (call.forced == "") ≡ false
      → r.get_handler call.forced ≡ some h
      → IsPicked r call by_force h
  routed :
      {h : r.Handler} (pick : Option Inbound → Destination → Option String) (tag : String)
      → (call.forced == "") ≡ true
      → r.pick_route ≡ some pick
      → pick call.inbound call.dest ≡ some tag
      → r.get_handler tag ≡ some h
      → IsPicked r call by_route h
  no_router :
      {h : r.Handler}
      → (call.forced == "") ≡ true
      → r.pick_route ≡ none
      → r.get_default_handler ≡ some h
      → IsPicked r call by_default h
  no_route :
      {h : r.Handler} (pick : Option Inbound → Destination → Option String)
      → (call.forced == "") ≡ true
      → r.pick_route ≡ some pick
      → pick call.inbound call.dest ≡ none
      → r.get_default_handler ≡ some h
      → IsPicked r call by_default h

-- What holds of the handler that takes a connection.
abbrev OfHandled : {r : Routes} → (Pick → r.Handler → Type 0) → Routed r → Type 0
OfHandled P blocked = Unit
OfHandled P no_handler = Unit
OfHandled P (handled pick h) = P pick h

module _ (r : Routes) (P : Pick → r.Handler → Type 0) where
  take-OfHandled :
      (pick : Pick) (o : Option r.Handler)
      → ((h : r.Handler) → o ≡ some h → P pick h)
      → OfHandled P (take r pick o)
  unfolding take
  take-OfHandled pick none all = tt
  take-OfHandled pick (some h) all = all h refl

module _ (r : Routes) (call : Call) where
  take_route-OfHandled :
      (pick : Option Inbound → Destination → Option String)
      → (call.forced == "") ≡ true
      → r.pick_route ≡ some pick
      → OfHandled (IsPicked r call) (take_route r (pick call.inbound call.dest))
  unfolding take_route
  take_route-OfHandled pick free e = elim (Option-cases (pick call.inbound call.dest)) [
    | inl missed ↦
        rw (missed, take_route)
          (take-OfHandled r (IsPicked r call) by_default r.get_default_handler
            (λ h d. no_route pick free e missed d))
    | inr (tag, hit) ↦
        rw (hit, take_route)
          (take-OfHandled r (IsPicked r call) by_route (r.get_handler tag)
            (λ h d. routed pick tag free e hit d))
  ]

  take_picked-OfHandled :
      (o : Option (Option Inbound → Destination → Option String))
      → (call.forced == "") ≡ true
      → r.pick_route ≡ o
      → OfHandled (IsPicked r call) (take_picked r o call.inbound call.dest)
  unfolding take_picked
  take_picked-OfHandled none free e =
      take-OfHandled r (IsPicked r call) by_default r.get_default_handler
        (λ h d. no_router free e d)
  take_picked-OfHandled (some pick) free e = take_route-OfHandled pick free e

  pick_handler-OfHandled :
      OfHandled (IsPicked r call) (pick_handler r call.forced call.inbound call.dest)
  unfolding pick_handler
  pick_handler-OfHandled = elim (Bool-cases (call.forced == "")) [
    | inr set ↦
        rw (set, pick_handler)
          (take-OfHandled r (IsPicked r call) by_force (r.get_handler call.forced)
            (λ h d. forced set d))
    | inl free ↦ rw (free, pick_handler) (take_picked-OfHandled r.pick_route free refl)
  ]

-- No rule of a list matches.
abbrev pub NoneMatches : (x : Externals) → List x.Regexp → String → Type 0
NoneMatches x [] dest = Unit
NoneMatches x (re ∷ rules) dest = (x.match_string re dest ≡ false) × NoneMatches x rules dest

abbrev pub NotListed : List String → String → Type 0
NotListed [] protocol = Unit
NotListed (p ∷ rules) protocol = (p ≢ protocol) × NotListed rules protocol

-- A limiter's rules let a destination pass; the protocol counts only if the sniffer found one.
abbrev pub Passes : {x : Externals} → Limiter x → String → String → Type 0
Passes {x} l dest protocol =
    NoneMatches x l.domain_rules dest × ((protocol ≡ "") ⊎ NotListed l.protocol_rules protocol)

any_match_none :
    (x : Externals) (rules : List x.Regexp) (dest : String)
    → any_match x rules dest ≡ false
    → NoneMatches x rules dest
unfolding any_match
any_match_none x [] dest h = tt
any_match_none x (re ∷ rules) dest h = elim (Bool-cases (x.match_string re dest)) [
  | inl hit ↦ absurd (cc (rw hit at h))
  | inr miss ↦ (miss, any_match_none x rules dest (rw miss at h))
]

any_protocol_none :
    (rules : List String) (protocol : String)
    → any_protocol rules protocol ≡ false
    → NotListed rules protocol
unfolding any_protocol
any_protocol_none [] protocol h = tt
any_protocol_none (p ∷ rules) protocol h = elim (Bool-cases (p == protocol)) [
  | inl hit ↦ absurd (cc (rw hit at h))
  | inr miss ↦ (
    λ e. absurd (cc ((text_key.same_iff p protocol).1 e)),
    any_protocol_none rules protocol (rw miss at h),
  )
]

is_blocked-Passes :
    {x : Externals} (l : Limiter x) (dest protocol : String)
    → is_blocked l dest protocol ≡ false
    → Passes l dest protocol
unfolding is_blocked check_domain_rule check_protocol_rule
is_blocked-Passes {x} l dest protocol h = elim (Bool-cases (any_match x l.domain_rules dest)) [
  | inl hit ↦ absurd (cc (rw hit at h))
  | inr miss ↦ (
    any_match_none x l.domain_rules dest miss,
    elim (Bool-cases (protocol == "")) [
      | inl nothing ↦ inl ((text_key.same_iff protocol "").0 nothing)
      | inr named ↦ inr (any_protocol_none l.protocol_rules protocol (rw (miss, named) at h))
    ],
  )
]

-- The limiter whose rules a connection of a user of a node is to pass: the one that admitted it, or, where
-- none is handed on, the one that stands for the node's tag.
pub data Consults {x : Externals} (call : Call) (s : Server x) (p : ℕ) : Type 0 where
  own :
      (i : Inbound) (email : String)
      → call.inbound ≡ some i
      → i.email ≡ some email
      → email ≢ ""
      → i.tag ≢ ""
      → call.limiter ≡ some p
      → Consults call s p
  of_tag :
      (i : Inbound) (email : String)
      → call.inbound ≡ some i
      → i.email ≡ some email
      → email ≢ ""
      → i.tag ≢ ""
      → call.limiter ≡ none
      → lookup i.tag s.registry ≡ some p
      → Consults call s p

named_text : (t : String) → t ≢ "" → (t == "") ≡ false
named_text t h = elim (Bool-cases (t == "")) [
  | inl e ↦ absurd (h ((text_key.same_iff t "").0 e))
  | inr e ↦ e
]

Consults-rules_of :
    {x : Externals} (call : Call) (s : Server x) (p : ℕ)
    → Consults call s p
    → rules_of call s ≡ some p
unfolding rules_of client_of
Consults-rules_of call s p (own i email a b c d e) =
    rw (a, b, named_text email c, named_text i.tag d, e, rules_of) refl
Consults-rules_of call s p (of_tag i email a b c d e f) =
    rw (a, b, named_text email c, named_text i.tag d, e, rules_of) f

module _ {x : Externals} (r : Routes) (call : Call) (s : Server x) where
  -- The rules of every limiter that the connection is to consult let it pass.
  abbrev pub RulesPass : Type 0
  RulesPass =
      (p : ℕ) → Consults call s p → Passes (s.limiters p) (text_of call.dest.address) call.protocol

  not_blocked : is_call_blocked call s ≡ false → RulesPass
  unfolding is_call_blocked
  not_blocked free p consulted =
      is_blocked-Passes (s.limiters p) (text_of call.dest.address) call.protocol
        (rw (Consults-rules_of call s p consulted, is_call_blocked) at free)

  with_rules :
      RulesPass
      → (t : Routed r) → OfHandled (IsPicked r call) t
      → OfHandled (λ pick h. RulesPass × IsPicked r call pick h) t
  with_rules pass blocked p = tt
  with_rules pass no_handler p = tt
  with_rules pass (handled pick h) p = (pass, p)

  -- A connection that reaches a handler, and whose inbound has a tag and a user with an email, has passed
  -- the domain and the protocol rules of the limiter that admitted it, or, where none is handed on, of the
  -- limiter of the inbound's tag; and the handler is that of the forced tag, of the router's tag, or the
  -- default one, in this order.
  pub routed_dispatch-IsPicked :
      (pick : Pick) (h : r.Handler)
      → routed_dispatch r call s ≡ handled pick h
      → RulesPass × IsPicked r call pick h
  unfolding routed_dispatch
  routed_dispatch-IsPicked pick h e =
      subst (OfHandled (λ pick h. RulesPass × IsPicked r call pick h)) e
        (elim (Bool-cases (is_call_blocked call s)) [
          | inl stopped ↦ rw (stopped, routed_dispatch) tt
          | inr free ↦
              rw (free, routed_dispatch)
                (with_rules (not_blocked free) _ (pick_handler-OfHandled r call))
        ])
