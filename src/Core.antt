-- ===== src/Core.antt =====
-- core/interface.go: what a node asks of the proxy core. The state is the core's own; a call returns
-- it beside its result, and `false` or `none` is an error.
pub mod Accounts
pub mod Links
pub mod Xray
pub mod Selector
pub mod Dispatcher
mod Tests
use ljfxznode.Common.{◌≡◌, true, false, ◌∷◌, ℕ, Bool, Option, List, String}
use ljfxznode.Panel.{UserInfo, UserTraffic, NodeInfo}

pub record Core : Type 1 where
  pub State : Type 0
  pub add_node : String → NodeInfo → State → State × Bool
  pub del_node : String → State → State × Bool
  pub add_users : String → List UserInfo → NodeInfo → State → State × Option ℕ
  pub del_users : List UserInfo → String → NodeInfo → State → State × Bool
  pub get_user_traffic_slice : String → Bool → State → State × Option (List UserTraffic)

-- A core that does not remove a user it does not have, as Xray's user managers do not: users that were
-- just removed are not removed again.
pub record RefusesAbsent (core : Core) : Type 0 where
  pub twice :
      (u : UserInfo) (us : List UserInfo) (tag : String) (n : NodeInfo) (s : core.State)
      → (core.del_users (u ∷ us) tag n s).1 ≡ true
      → (core.del_users (u ∷ us) tag n (core.del_users (u ∷ us) tag n s).0).1 ≡ false
