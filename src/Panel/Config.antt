-- ===== src/Panel/Config.antt =====
-- api/panel/node.go: what `GetNodeInfo` makes of the panel's answer.
pub mod Intervals
pub mod Blocks
pub mod Caching
use Prim.Native.Char.{Char, code}
use Prim.Native.String.{◌++◌ as ◌+++◌}
use ljfxznode.Common.{
  ℕ, ◌+◌, ◌*◌, Bool, true, false, not, ◌||◌, Option, none, some, List, [], ◌∷◌, ◌++◌, String, ℤ,
  pos, negsuc, ltb_ℤ, from_bits, to_bits, nat_beq, trim_prefix, cut_prefix, ◌==◌, ◌>>=◌, text_key,
  nat_key, if◌then◌else◌, Map, insert,
}
use ljfxznode.Common.Decimal.{Parsed, atoi, no_number, out_of_range, parsed, decimal}
use ljfxznode.Limiter.State.{second}
use ljfxznode.Panel.{NodeInfo, Rules}
use ljfxznode.Panel.Json.{
  Json, null, int, float, text, array, object, Items, end, item, Fields, done, field_of, decode_int,
  decode_text, or_null,
}

-- `strings.Split(m, ",")`: a character is put before the first piece.
unfoldable pub put_char : Char → List String → List String
put_char c [] = String.◌∷◌ c "" ∷ []
put_char c (word ∷ rest) = String.◌∷◌ c word ∷ rest

unfoldable pub split : String → List String
unfolding put_char
split String.[] = "" ∷ []
split (String.◌∷◌ c s) =
    let rest = split s in if nat_beq (code c) b',' then "" ∷ rest else put_char c rest

unfoldable pub texts_of : Items → List String
texts_of end = []
texts_of (item (text s) rest) = s ∷ texts_of rest
texts_of (item _ rest) = texts_of rest

-- The patterns of a route; `none` is a kind that is passed over.
unfoldable pub matches_of : Json → Option (List String)
unfolding split texts_of
matches_of (text s) = some (split s)
matches_of (array xs) = some (texts_of xs)
matches_of _ = none

pub record Route : Type 0 where
  pub pattern_ : Json
  pub action : String
  pub action_value : String

-- An entry of `RawDNS.DNSMap`.
pub record DnsServer : Type 0 where
  pub address : String
  pub domains : List String

pub record RawDns : Type 0 where
  pub dns_map : Map String DnsServer
  pub dns_json : String

pub record Routing : Type 0 where
  pub rules : Rules
  pub dns : RawDns

unfoldable pub has_prefix : String → String → Bool
unfolding cut_prefix
has_prefix s p = elim (cut_prefix p s) [ none ↦ false | some _ ↦ true ]

-- The loop of a `block` route.
unfoldable pub add_blocks : List String → Rules → Rules
unfolding has_prefix trim_prefix
add_blocks [] r = r
add_blocks (v ∷ rest) r =
    if has_prefix v "protocol:"
    then add_blocks rest (record r { protocol = r.protocol ++ trim_prefix v "protocol:" ∷ [] })
    else add_blocks rest (record r { regexp = r.regexp ++ trim_prefix v "regexp:" ∷ [] })

-- `strings.Join(matchs[1:], "")`
unfoldable pub concat : List String → String
concat [] = ""
concat (s ∷ rest) = s +++ concat rest

-- A `dns` route, the `i`-th.
unfoldable pub add_dns : ℕ → String → List String → RawDns → RawDns
unfolding decimal concat
add_dns i value [] d = d
add_dns i value (first ∷ rest) d =
    if not (first == "main")
    then record d {
      dns_map = insert (decimal i) (record { address = value; domains = first ∷ rest }) d.dns_map;
    }
    else record d { dns_json = concat rest }

unfoldable pub add_matches : ℕ → Route → Option (List String) → Routing → Routing
unfolding add_blocks add_dns
add_matches i route none st = st
add_matches i route (some matches) st =
    if route.action == "block"
    then record st { rules = add_blocks matches st.rules }
    else (if route.action == "dns"
        then record st { dns = add_dns i route.action_value matches st.dns }
        else st)

-- `for i := range cm.Routes`
unfoldable pub parse_routes : ℕ → List Route → Routing → Routing
unfolding matches_of add_matches
parse_routes i [] st = st
parse_routes i (route ∷ rest) st =
    parse_routes (i + 1) rest (add_matches i route (matches_of route.pattern_) st)

abbrev pub no_routing : Routing
no_routing = record {
  rules = record { regexp = []; protocol = [] };
  dns = record { dns_map = []; dns_json = "" };
}

-- `time.Duration(v) * time.Second`, where it is above 0, as an `int64`.
unfoldable pub seconds_or_default : ℤ → ℤ
unfolding from_bits to_bits
seconds_or_default v = if ltb_ℤ (pos 0) v then from_bits (to_bits v * second) else pos (60 * second)

-- `s, _ := strconv.Atoi(...)`
abbrev pub or_nearest : Parsed → ℤ
or_nearest no_number = pos 0
or_nearest (out_of_range z) = z
or_nearest (parsed z) = z

-- `intervalToTime`. A JSON number is a `float64`, of which the conversion keeps the integral part;
-- numbers are within 2 ^ 53, where a `float64` is exact.
unfoldable pub interval_to_time : Json → ℤ
unfolding seconds_or_default atoi
interval_to_time (int z) = seconds_or_default z
interval_to_time (float false n) = from_bits (to_bits (pos n) * second)
interval_to_time (text s) = seconds_or_default (or_nearest (atoi s))
interval_to_time _ = pos (60 * second)

-- A record of `routes`, of which `null` is the zero value.
abbrev fields_or_null : Json → Option Fields
fields_or_null null = some done
fields_or_null (object fs) = some fs
fields_or_null _ = none

unfoldable pub decode_route : Json → Option Route
decode_route v = do
  fs ← fields_or_null v
  id ← decode_int (or_null (field_of "id" fs))
  action ← decode_text (or_null (field_of "action" fs))
  value ← decode_text (or_null (field_of "action_value" fs))
  some (record { pattern_ = or_null (field_of "match" fs); action = action; action_value = value })

unfoldable pub decode_routes : Items → Option (List Route)
unfolding decode_route
decode_routes end = some []
decode_routes (item v rest) = do
  route ← decode_route v
  others ← decode_routes rest
  some (route ∷ others)

abbrev pub route_list : Json → Option (List Route)
route_list null = some []
route_list (array xs) = decode_routes xs
route_list _ = none

-- The node's kind, with the fields of it that the node's users need.
pub record Params : Type 0 where
  pub security : ℕ
  pub flow : String
  pub cipher : String
  pub server_key : String

-- The switch on the kind, for the fields that are used later; the others' kinds are not looked at.
unfoldable pub decode_params : String → Fields → Option Params
decode_params node_type fs =
    if node_type == "vmess" || node_type == "vless"
    then (do
      security ← decode_int (or_null (field_of "tls" fs))
      flow ← decode_text (or_null (field_of "flow" fs))
      some (record { security = security; flow = flow; cipher = ""; server_key = "" }))
    else (if node_type == "shadowsocks"
        then (do
          cipher ← decode_text (or_null (field_of "cipher" fs))
          key ← decode_text (or_null (field_of "server_key" fs))
          some (record { security = 0; flow = ""; cipher = cipher; server_key = key }))
        else (if node_type == "trojan"
            then (do
              security ← decode_int (or_null (field_of "tls" fs))
              some (record { security = security; flow = ""; cipher = ""; server_key = "" }))
            else none))

-- The decoding of an answer: the node, with its DNS. Intervals below 0 do not arise but by overflow.
unfoldable pub decode_node : ℕ → String → Json → Option (NodeInfo × RawDns)
unfolding decode_params decode_routes parse_routes interval_to_time
decode_node id node_type body = do
  fs ← fields_or_null body
  params ← decode_params node_type fs
  routes ← route_list (or_null (field_of "routes" fs))
  base ← fields_or_null (or_null (field_of "base_config" fs))
  let st = parse_routes 0 routes no_routing
  let push = interval_to_time (or_null (field_of "push_interval" base))
  let pull = interval_to_time (or_null (field_of "pull_interval" base))
  some (
    record {
      id = id;
      node_type = node_type;
      security = params.security;
      push_interval = to_bits push;
      pull_interval = to_bits pull;
      flow = params.flow;
      cipher = params.cipher;
      server_key = params.server_key;
      rules = st.rules;
    },
    st.dns,
  )
