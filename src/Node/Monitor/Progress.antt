-- ===== src/Node/Monitor/Progress.antt =====
-- When a round of `nodeInfoMonitor` adopts the panel's list.
use ljfxznode.Common.{Bool, Option, none, some, List}
use ljfxznode.Panel.{UserInfo, NodeInfo}
use ljfxznode.Core.{Core}
use ljfxznode.Limiter.State.{Externals}
use ljfxznode.Node.Controller.{Controller}
use ljfxznode.Node.Users.{compare_user_list}
use ljfxznode.Node.Monitor.Polling.{takes_changes}

module _ {x : Externals} {core : Core} where
  -- Whether the core takes the calls of a round before the list is adopted: the removal of the node, if it
  -- has changed, and else the deletions and the additions that the list asks for.
  abbrev pub takes_round : Option NodeInfo → List UserInfo → Controller x core → Bool
  takes_round (some n) us c = (core.del_node c.tag c.server).1
  takes_round none us c = takes_changes (compare_user_list c.user_list us) c
