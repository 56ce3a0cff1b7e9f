-- ===== src/Panel.antt =====
-- api/panel: the records that the panel sends and receives, and the names built from them
-- (api/panel/user.go, api/panel/node.go, common/format/user.go, conf/limit.go).
pub mod Json
pub mod Socket
pub mod Config
pub mod Requests
pub mod UserList
mod Tests
use Prim.Native.String.{◌++◌}
use text.Mathlib.TextLemmas.{append_cancel_left}
use ljfxznode.Common.{ℕ, ℤ, ◌≡◌, String, Map, List}

pub record UserInfo : Type 0 where
  pub id : ℕ
  pub uuid : String
  pub speed_limit : ℤ
  pub device_limit : ℤ

pub record OnlineUser : Type 0 where
  pub uid : ℕ
  pub ip : String

-- `upload` and `download` are `int64`s.
pub record UserTraffic : Type 0 where
  pub uid : ℕ
  pub upload : ℤ
  pub download : ℤ

-- `AliveMap.Alive`: uid to the number of the user's devices
abbrev pub AliveMap : Type 0
AliveMap = Map ℕ ℤ

pub record LimitConfig : Type 0 where
  pub speed_limit : ℤ

pub record Rules : Type 0 where
  pub regexp : List String
  pub protocol : List String

-- The parts of `NodeInfo` that the controller and the core's user code read; intervals in nanoseconds.
-- `flow` is `VAllss.Flow`, `cipher` and `server_key` those of `Shadowsocks`.
pub record NodeInfo : Type 0 where
  pub id : ℕ
  pub node_type : String
  pub security : ℕ
  pub push_interval : ℕ
  pub pull_interval : ℕ
  pub flow : String
  pub cipher : String
  pub server_key : String
  pub rules : Rules

-- The security type `Tls`.
abbrev pub tls : ℕ
tls = 1

-- `fmt.Sprintf("%s|%s", tag, uuid)`
unfoldable pub user_tag : String → String → String
user_tag tag uuid = (tag ++ "|") ++ uuid

-- Within a node, the tag tells the user.
pub user_tag-injective : (tag a b : String) → user_tag tag a ≡ user_tag tag b → a ≡ b
unfolding user_tag
user_tag-injective tag a b h = append_cancel_left (tag ++ "|") a b h
