-- ===== src/Limiter/Rules.antt =====
-- limiter/rule.go: the node's block rules.
use ljfxznode.Common.{
  Bool, true, false, Option, none, some, List, [], ◌∷◌, String, if◌then◌else◌, ◌==◌, text_key,
}
use ljfxznode.Panel.{Rules}
use ljfxznode.Limiter.State.{Externals, Limiter}

-- The loop of `CheckDomainRule`, which breaks at the first match.
unfoldable pub any_match : (x : Externals) → List x.Regexp → String → Bool
any_match x [] destination = false
any_match x (re ∷ rules) destination =
    if x.match_string re destination then true else any_match x rules destination

unfoldable pub any_protocol : List String → String → Bool
any_protocol [] protocol = false
any_protocol (r ∷ rules) protocol = if r == protocol then true else any_protocol rules protocol

-- `none` is the error of the first rule that does not compile.
unfoldable pub compile_rules : (x : Externals) → List String → Option (List x.Regexp)
compile_rules x [] = some []
compile_rules x (r ∷ rules) =
    let rest = compile_rules x rules in
    elim (x.compile r) [
      | none ↦ none
      | some re ↦ elim rest [ none ↦ none | some compiled ↦ some (re ∷ compiled) ]
    ]

module _ {x : Externals} (l : Limiter x) where
  unfoldable pub check_domain_rule : String → Bool
  unfolding any_match
  check_domain_rule destination = any_match x l.domain_rules destination

  unfoldable pub check_protocol_rule : String → Bool
  unfolding any_protocol
  check_protocol_rule protocol = any_protocol l.protocol_rules protocol

  -- The state, and whether there is no error.
  unfoldable pub update_rule : Rules → Limiter x × Bool
  unfolding compile_rules
  update_rule rule = elim (compile_rules x rule.regexp) [
    | none ↦ (l, false)
    | some compiled ↦ (record l { domain_rules = compiled; protocol_rules = rule.protocol }, true)
  ]
