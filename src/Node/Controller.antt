-- ===== src/Node/Controller.antt =====
-- The state of node/controller.go's `Controller`, with the core's state that it drives.
use Prim.Native.String.{◌++◌}
use ljfxznode.Common.{ℕ, List, String, ℤ}
use ljfxznode.Common.Decimal.{decimal}
use ljfxznode.Panel.{UserInfo, UserTraffic, NodeInfo, LimitConfig}
use ljfxznode.Core.{Core}
use ljfxznode.Limiter.State.{Externals, Limiter}

-- The parts of `conf.Options` that the controller reads.
pub record Options : Type 0 where
  pub name : String
  pub device_online_min_traffic : ℤ
  pub limit_config : LimitConfig

-- What the controller does to the package's table of limiters and to its tasks.
pub data Effect : Type 0 where
  delete_limiter : String → Effect
  add_limiter : String → Effect
  restart_monitor restart_report restart_status : Effect

pub record Controller (x : Externals) (core : Core) : Type 0 where
  pub server : core.State
  pub tag : String
  pub limiter : Limiter x
  pub user_list : List UserInfo
  -- `[]` is nil
  pub pending_traffic : List UserTraffic
  -- `Start` sets it before it starts a task.
  pub info : NodeInfo
  pub monitor_interval : ℕ
  pub report_interval : ℕ
  pub status_interval : ℕ
  pub last_report_devices_hash : String
  pub options : Options
  pub api_host : String
  -- newest first
  pub effects : List Effect

-- `fmt.Sprintf("[%s]-%s:%d", c.apiClient.APIHost, node.Type, node.Id)`
unfoldable pub build_node_tag : String → NodeInfo → String
unfolding decimal
build_node_tag host node = ((("[" ++ host) ++ "]-") ++ node.node_type) ++ (":" ++ decimal node.id)
