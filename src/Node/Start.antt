-- ===== src/Node/Start.antt =====
-- `Start` and `Close` of node/controller.go, with the intervals that `startTasks` of node/task.go
-- sets. The WebSocket and the goroutines of the tasks are left out.
pub mod Tables
use ljfxznode.Common.{
  ℕ, Bool, true, false, not, ◌&&◌, Option, none, some, List, [], ◌∷◌, String, nat_beq, ◌==◌,
  text_key, if◌then◌else◌,
}
use ljfxznode.Panel.{UserInfo, AliveMap, NodeInfo, tls}
use ljfxznode.Core.{Core}
use ljfxznode.Limiter.State.{Externals, Limiter}
use ljfxznode.Limiter.Users.{new_limiter}
use ljfxznode.Limiter.Rules.{update_rule}
use ljfxznode.Node.Controller.{
  Controller, Options, Effect, add_limiter, delete_limiter, build_node_tag,
}
use ljfxznode.Node.Monitor.{or_alive}

-- The core and the table of limiters after `Start`, and the controller unless there is an error.
pub record Started (x : Externals) (core : Core) : Type 0 where
  pub server : core.State
  pub effects : List Effect
  pub controller : Option (Controller x core)

unfoldable pub start_tag : Options → String → NodeInfo → String
unfolding build_node_tag
start_tag opt host n = if opt.name == "" then build_node_tag host n else opt.name

module _ {x : Externals} {core : Core} (opt : Options) (host : String) where
  abbrev pub failed_start : core.State → List Effect → Started x core
  failed_start s effects = record { server = s; effects = effects; controller = none }

  -- The controller that `Start` leaves behind.
  unfoldable pub started_controller :
      String → NodeInfo → List UserInfo → Limiter x → core.State → Controller x core
  started_controller tag n users l s = record {
    server = s;
    tag = tag;
    limiter = l;
    user_list = users;
    pending_traffic = [];
    info = n;
    monitor_interval = n.pull_interval;
    report_interval = n.push_interval;
    status_interval = n.push_interval;
    last_report_devices_hash = "";
    options = opt;
    api_host = host;
    effects = add_limiter tag ∷ [];
  }

  -- The node and the users go to the core.
  unfoldable pub start_core :
      String → NodeInfo → List UserInfo → Limiter x → core.State → Started x core
  unfolding started_controller
  start_core tag n users l s =
      let (s', ok) = core.add_node tag n s in
      let (s'', added) = core.add_users tag users n s' in
      if not ok then failed_start s' (add_limiter tag ∷ []) else (elim added [
        | none ↦ failed_start s'' (add_limiter tag ∷ [])
        | some _ ↦ record {
          server = s'';
          effects = add_limiter tag ∷ [];
          controller = some (started_controller tag n users l s'');
        }
      ])

  unfoldable pub start_limiter :
      NodeInfo → List UserInfo → AliveMap → Bool → core.State → Started x core
  unfolding start_tag start_core
  start_limiter n users alive cert_ok s =
      let tag = start_tag opt host n in
      let (l, ok) = update_rule (new_limiter x tag opt.limit_config users alive) n.rules in
      if not ok
      then failed_start s (add_limiter tag ∷ [])
      else (if nat_beq n.security tls && not cert_ok
          then failed_start s (add_limiter tag ∷ [])
          else start_core tag n users l s)

  -- The panel's answers are arguments; `none` is an error.
  unfoldable pub start :
      Option NodeInfo
      → Option (List UserInfo)
      → Option AliveMap
      → Bool
      → core.State
      → Started x core
  unfolding start_limiter
  start node users alive cert_ok s = elim node [
    | none ↦ failed_start s []
    | some n ↦ elim users [
      | none ↦ failed_start s []
      | some us ↦ start_limiter n us (or_alive alive []) cert_ok s
    ]
  ]

module _ {x : Externals} {core : Core} where
  -- The limiter goes before the core is asked; `false` is an error.
  unfoldable pub close : Controller x core → Controller x core × Bool
  close c =
      let (s, ok) = core.del_node c.tag c.server in
      (record c { server = s; effects = delete_limiter c.tag ∷ c.effects }, ok)
