-- ===== src/Core/Dispatcher/Sniffing.antt =====
-- `shouldOverride` and the use of what the sniffer found: the destination that `Dispatch` and
-- `DispatchLink` go on with.
use ljfxznode.Common.{
  Bool, true, false, not, ◌&&◌, ◌||◌, Option, none, some, List, [], ◌∷◌, String, cut_prefix,
  text_key, ◌==◌, if◌then◌else◌,
}
use ljfxznode.Core.Dispatcher.Routing.{Address, domain, ip, Destination}

-- `for_domain` is `ProtocolForDomainResult` of a composite result, `is_subset_of` that of a result that
-- has `IsProtoSubsetOf`.
pub record SniffResult : Type 0 where
  pub protocol : String
  pub domain : String
  pub for_domain : Option String
  pub is_subset_of : Option (String → Bool)

-- `exclude` is whether `ExcludeForDomain` matches a domain in lower case.
pub record SniffingRequest : Type 0 where
  pub exclude : Option (String → Bool)
  pub override : List String
  pub route_only : Bool

-- `is_ip_in_ip_pool` is that of a fake DNS engine; `parse_address` is Xray's.
pub record Resolver : Type 0 where
  pub is_ip_in_ip_pool : Option (String → Bool)
  pub parse_address : String → Address

-- `strings.HasPrefix(s, p)`
unfoldable pub has_prefix : String → String → Bool
unfolding cut_prefix
has_prefix s p = elim (cut_prefix p s) [ none ↦ false | some _ ↦ true ]

-- Whether an address is one of the fake DNS.
unfoldable pub is_fake : Resolver → Address → Bool
is_fake v (domain d) = false
is_fake v (ip a) = elim v.is_ip_in_ip_pool [ none ↦ false | some pool ↦ pool a ]

unfoldable pub domain_protocol : SniffResult → String
domain_protocol result = elim result.for_domain [ none ↦ result.protocol | some p ↦ p ]

-- A round of the loop of `shouldOverride`.
unfoldable pub overrides : Resolver → SniffResult → String → Address → String → Bool
unfolding has_prefix is_fake
overrides v result protocol address p =
    (has_prefix protocol p || has_prefix p protocol)
    || ((not (protocol == "bittorrent") && (p == "fakedns" && is_fake v address))
        || (elim result.is_subset_of [ none ↦ false | some subset ↦ subset p ]))

unfoldable pub any_overrides : Resolver → SniffResult → String → Address → List String → Bool
unfolding overrides
any_overrides v result protocol address [] = false
any_overrides v result protocol address (p ∷ ps) =
    overrides v result protocol address p || any_overrides v result protocol address ps

unfoldable pub should_override : Resolver → SniffResult → SniffingRequest → Destination → Bool
unfolding any_overrides domain_protocol
should_override v result request dest =
    if result.domain == ""
    then false
    else (if (elim request.exclude as (λ _. Bool) [
      | none ↦ false
      | some excluded ↦ excluded result.domain
    ])
        then false
        else any_overrides v result (domain_protocol result) dest.address request.override)

-- `session.Outbound`
pub record Outbound : Type 0 where
  pub original_target : Destination
  pub target : Destination
  pub route_target : Option Destination

-- The session's outbound, and the destination and the protocol that `routedDispatch` is called with.
pub record Sniffed : Type 0 where
  pub outbound : Outbound
  pub dest : Destination
  pub protocol : String

abbrev pub new_outbound : Destination → Outbound
new_outbound dest = record { original_target = dest; target = dest; route_target = none }

unfoldable pub override_target : Resolver → SniffResult → SniffingRequest → Destination → Outbound
unfolding domain_protocol is_fake
override_target v result request dest =
    let protocol = domain_protocol result in
    let dest' = record dest { address = v.parse_address result.domain } in
    let ob = new_outbound dest in
    if request.route_only
      && (not (protocol == "fakedns")
          && (not (protocol == "fakedns+others") && not (is_fake v dest.address)))
    then record ob { route_target = some dest' }
    else record ob { target = dest' }

-- What follows `sniffer`, whose error is `none`. The content's protocol was empty before.
unfoldable pub after_sniff : Resolver → SniffingRequest → Destination → Option SniffResult → Sniffed
unfolding should_override override_target
after_sniff v request dest none = record {
  outbound = new_outbound dest;
  dest = dest;
  protocol = "";
}
after_sniff v request dest (some result) =
    if should_override v result request dest
    then record {
      outbound = override_target v result request dest;
      dest = record dest { address = v.parse_address result.domain };
      protocol = result.protocol;
    }
    else record { outbound = new_outbound dest; dest = dest; protocol = result.protocol }
