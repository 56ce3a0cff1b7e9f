-- ===== src/Panel/Config/Caching.antt =====
-- The exchange around `GetNodeInfo` of api/panel/node.go: what counts as a change.
use ljfxznode.Common.{
  ℕ, ◌≡◌, refl, inl, inr, Bool, false, ◌||◌, Option, none, some, String, leb, ◌==◌, nat_key,
  text_key, if◌then◌else◌, Bool-cases, ◌>>=◌,
}
use ljfxznode.Panel.{NodeInfo}
use ljfxznode.Panel.Json.{Json}
use ljfxznode.Panel.Config.{RawDns, decode_node}

-- The parts of the panel's client that `GetNodeInfo` keeps.
pub record PanelClient : Type 0 where
  pub node_id : ℕ
  pub node_type : String
  pub response_body_hash : String
  pub node_etag : String

-- A response: `failed` is an error of the request, `hash` the SHA-256 of the body, and `body` none where
-- it is no JSON.
pub record Response : Type 0 where
  pub status_code : ℕ
  pub failed : Bool
  pub hash : String
  pub etag : String
  pub body : Option Json

pub data Answer : Type 0 where
  error : Answer
  unchanged : Answer
  changed : NodeInfo → RawDns → Answer

abbrev answer_of : Option (NodeInfo × RawDns) → Answer
answer_of none = error
answer_of (some (node, dns)) = changed node dns

-- `checkResponse`
unfoldable pub check_response : Response → Bool
check_response r = r.failed || leb 400 r.status_code

-- The end of `GetNodeInfo`: the hash is kept before the body is decoded.
unfoldable pub take_body : Response → PanelClient → PanelClient × Answer
unfolding decode_node
take_body r c = if c.response_body_hash == r.hash then (c, unchanged) else (
  record c { response_body_hash = r.hash; node_etag = r.etag },
  answer_of (r.body >>= decode_node c.node_id c.node_type),
)

unfoldable pub get_node_info : Option Response → PanelClient → PanelClient × Answer
unfolding check_response take_body
get_node_info none c = (c, error)
get_node_info (some r) c =
    if r.status_code == 304
    then (c, unchanged)
    else (if check_response r then (c, error) else take_body r c)

take_body_again : (r : Response) (c : PanelClient) → (take_body r (take_body r c).0).1 ≡ unchanged
unfolding take_body
take_body_again r c = elim (Bool-cases (c.response_body_hash == r.hash)) [
  | inl old ↦ rw (old, old) refl
  | inr new ↦ rw (new, (text_key.same_iff r.hash r.hash).1 refl) refl
]

-- A body is handed on once: when the panel answers a second time as it did the first, and the request
-- does not fail, nothing has changed, even if the first body was not decoded and ended in an error.
pub get_node_info_again :
    (r : Response) (c : PanelClient)
    → check_response r ≡ false
    → (get_node_info (some r) (get_node_info (some r) c).0).1 ≡ unchanged
unfolding get_node_info
get_node_info_again r c good = elim (Bool-cases (r.status_code == 304)) [
  | inl same ↦ rw same refl
  | inr full ↦ rw (full, good) (take_body_again r c)
]
