-- ===== src/Panel/Config/Blocks.antt =====
-- The block rules of a node, from the panel's routes to the limiter that asks them.
use ljfxznode.Common.{
  ℕ, ◌+◌, ◌≡◌, ◌∙◌, inl, inr, Bool, true, false, ◌&&◌, ◌||◌, Option, none, some, List, [], ◌∷◌,
  ◌++◌, String, ◌==◌, text_key, cut_prefix, trim_prefix, Bool-cases, Option-cases, arith,
}
use ljfxznode.Panel.{Rules}
use ljfxznode.Limiter.State.{Externals, Limiter}
use ljfxznode.Limiter.Rules.{any_protocol, compile_rules, check_protocol_rule, update_rule}
use ljfxznode.Panel.Config.{
  Route, Routing, no_routing, matches_of, has_prefix, add_blocks, add_matches, parse_routes,
}

-- Whether a pattern is `protocol:` with the protocol.
abbrev pub names_protocol : String → String → Bool
names_protocol p v = elim (cut_prefix "protocol:" v) [ none ↦ false | some rest ↦ rest == p ]

abbrev pub any_names : String → List String → Bool
any_names p [] = false
any_names p (v ∷ rest) = names_protocol p v || any_names p rest

abbrev pub patterns : Option (List String) → List String
patterns none = []
patterns (some ms) = ms

-- Whether a route with the action `block` names the protocol.
abbrev pub blocked_by : String → List Route → Bool
blocked_by p [] = false
blocked_by p (route ∷ rest) =
    (route.action == "block" && any_names p (patterns (matches_of route.pattern_)))
    || blocked_by p rest

any_protocol-append :
    (xs : List String) (v p : String)
    → any_protocol (xs ++ v ∷ []) p ≡ (any_protocol xs p || v == p)
unfolding any_protocol
any_protocol-append [] v p = ground arith
any_protocol-append (x ∷ xs) v p = ground (arith, any_protocol-append xs v p)

any_protocol-add_blocks :
    (ms : List String) (r : Rules) (p : String)
    → any_protocol (add_blocks ms r).protocol p ≡ (any_protocol r.protocol p || any_names p ms)
unfolding add_blocks has_prefix trim_prefix
any_protocol-add_blocks [] r p = ground arith
any_protocol-add_blocks (v ∷ rest) r p = elim (Option-cases (cut_prefix "protocol:" v)) [
  | inl other ↦ rw (other, add_blocks, has_prefix) (any_protocol-add_blocks rest _ p ∙ ground arith)
  | inr (name, found) ↦
      rw (found, add_blocks, has_prefix, trim_prefix)
        (any_protocol-add_blocks rest _ p ∙ ground (arith, any_protocol-append r.protocol name p))
]

any_protocol-add_matches :
    (i : ℕ) (route : Route) (ms : Option (List String)) (st : Routing) (p : String)
    → any_protocol (add_matches i route ms st).rules.protocol p
      ≡ (any_protocol st.rules.protocol p || (route.action == "block" && any_names p (patterns ms)))
unfolding add_matches
any_protocol-add_matches i route none st p = ground arith
any_protocol-add_matches i route (some ms) st p = elim (Bool-cases (route.action == "block")) [
  | inl block ↦ rw block (any_protocol-add_blocks ms st.rules p)
  | inr other ↦ elim (Bool-cases (route.action == "dns")) [
    | inl dns ↦ rw (other, dns) (ground arith)
    | inr neither ↦ rw (other, neither) (ground arith)
  ]
]

any_protocol-parse_routes :
    (i : ℕ) (routes : List Route) (st : Routing) (p : String)
    → any_protocol (parse_routes i routes st).rules.protocol p
      ≡ (any_protocol st.rules.protocol p || blocked_by p routes)
unfolding parse_routes
any_protocol-parse_routes i [] st p = ground arith
any_protocol-parse_routes i (route ∷ rest) st p =
    let ms = matches_of route.pattern_ in
    any_protocol-parse_routes (i + 1) rest (add_matches i route ms st) p
    ∙ ground (arith, any_protocol-add_matches i route ms st p)

module _ {x : Externals} (l : Limiter x) where
  -- Once a limiter has taken the rules of a node, which all compile, it blocks a protocol exactly if a
  -- route of the panel with the action `block` has `protocol:` and the protocol among its patterns.
  pub check_protocol_rule-parse_routes :
      (routes : List Route) (p : String)
      → let rules = (parse_routes 0 routes no_routing).rules in
        (update_rule l rules).1 ≡ true
        → check_protocol_rule (update_rule l rules).0 p ≡ blocked_by p routes
  unfolding update_rule check_protocol_rule any_protocol
  check_protocol_rule-parse_routes routes p ok =
      let rules = (parse_routes 0 routes no_routing).rules in
      elim (Option-cases (compile_rules x rules.regexp)) [
        | inl failed ↦ absurd (cc (rw (failed, update_rule) at ok))
        | inr (compiled, good) ↦
            rw (good, update_rule) (any_protocol-parse_routes 0 routes no_routing p)
      ]
