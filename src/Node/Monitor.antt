-- ===== src/Node/Monitor.antt =====
-- `nodeInfoMonitor` of node/task.go: one round of polling. The panel's replies and the certificate's
-- are arguments; logging is left out.
pub mod Tables
pub mod Progress
pub mod Polling
mod Tests
use ljfxznode.Common.{
  ℕ, ◌≡◌, Bool, true, false, not, ◌||◌, ◌&&◌, Option, none, some, List, [], ◌∷◌, String, nat_beq,
  ◌==◌, text_key, if◌then◌else◌,
}
use ljfxznode.Panel.{UserInfo, AliveMap, NodeInfo, tls}
use ljfxznode.Core.{Core}
use ljfxznode.Limiter.State.{Externals, Limiter}
use ljfxznode.Limiter.Users.{new_limiter, update_user, set_alive_list, get_alive_list}
use ljfxznode.Limiter.Rules.{update_rule}
use ljfxznode.Node.Controller.{
  Controller, Effect, delete_limiter, add_limiter, restart_monitor, restart_report, restart_status,
  build_node_tag,
}
use ljfxznode.Node.Users.{compare_user_list}

-- What the panel answers: an error, no change (status 304), or a value.
pub data Reply (A : Type 0) : Type 0 where
  failed : Reply A
  unchanged : Reply A
  changed : A → Reply A

pub record Replies : Type 0 where
  pub node : Reply NodeInfo
  pub users : Reply (List UserInfo)
  -- The alive list is asked for only while the WebSocket is down; an error counts as none.
  pub ws_connected : Bool
  pub alive : Option AliveMap
  pub cert_ok : Bool

-- `none` is an error, and the value is nil when nothing changed.
abbrev pub answer : {A : Type 0} → Reply A → Option (Option A)
answer failed = none
answer unchanged = some none
answer (changed v) = some (some v)

abbrev pub is_some : {A : Type 0} → Option A → Bool
is_some none = false
is_some (some v) = true

abbrev pub is_empty : List UserInfo → Bool
is_empty [] = true
is_empty (u ∷ us) = false

-- `newA`: nil while the WebSocket is up and after an error.
unfoldable pub new_alive : Replies → Option AliveMap
new_alive r = if r.ws_connected then none else r.alive

-- The changes against the new list, if there is one.
unfoldable pub user_changes :
    List UserInfo → Option (List UserInfo) → List UserInfo × List UserInfo × List UserInfo
unfolding compare_user_list
user_changes old none = ([], [], [])
user_changes old (some new) = compare_user_list old new

abbrev pub or_list : Option (List UserInfo) → List UserInfo → List UserInfo
or_list none us = us
or_list (some us) _ = us

abbrev pub or_alive : Option AliveMap → AliveMap → AliveMap
or_alive none m = m
or_alive (some m) _ = m

module _ {x : Externals} {core : Core} where
  -- `if len(deleted)+len(added)+len(modified) > 0 { c.limiter.UpdateUser(...) }`
  unfoldable pub apply_changes :
      List UserInfo × List UserInfo × List UserInfo → Controller x core → Controller x core
  apply_changes (deleted, added, modified) c =
      if is_empty deleted && (is_empty added && is_empty modified)
      then c
      else record c { limiter = update_user c.tag added deleted modified c.limiter }

  unfoldable pub apply_users : Option (List UserInfo) → Controller x core → Controller x core
  apply_users none c = c
  apply_users (some us) c = record c { user_list = us }

  unfoldable pub apply_alive : Option AliveMap → Controller x core → Controller x core
  apply_alive none c = c
  apply_alive (some m) c = record c { limiter = set_alive_list m c.limiter }

  -- The tag has changed: a new limiter takes the place of the old one, with all users.
  unfoldable pub rebuild_limiter :
      String → Option (List UserInfo) → Option AliveMap → Controller x core → Controller x core
  rebuild_limiter new_tag users alive c =
      let user_data = or_list users c.user_list in
      let alive_data = or_alive alive (get_alive_list c.limiter) in
      record c {
        tag = new_tag;
        limiter = new_limiter x new_tag c.options.limit_config user_data alive_data;
        effects = add_limiter new_tag ∷ delete_limiter c.tag ∷ c.effects;
      }

  -- Whether the node is named by its tag, and the new one differs.
  unfoldable pub tag_changes : NodeInfo → Controller x core → Bool
  tag_changes n c = c.options.name == "" && not (build_node_tag c.api_host n == c.tag)

  -- The tables after the old node is gone.
  unfoldable pub sync_tables :
      NodeInfo → Option (List UserInfo) → Option AliveMap → Controller x core → Controller x core
  unfolding apply_changes apply_users apply_alive rebuild_limiter tag_changes user_changes
  sync_tables n users alive c =
      if tag_changes n c
      then apply_users users (rebuild_limiter (build_node_tag c.api_host n) users alive c)
      else apply_alive alive (apply_users users (apply_changes (user_changes c.user_list users) c))

  unfoldable pub set_intervals : NodeInfo → Controller x core → Controller x core
  set_intervals n c =
      let c' =
        if not (nat_beq c.monitor_interval n.pull_interval) && not (nat_beq n.pull_interval 0)
        then record c { monitor_interval = n.pull_interval; effects = restart_monitor ∷ c.effects }
        else c in
      if not (nat_beq c'.report_interval n.push_interval) && not (nat_beq n.push_interval 0)
      then record c' {
        report_interval = n.push_interval;
        status_interval = n.push_interval;
        effects = restart_status ∷ restart_report ∷ c'.effects;
      }
      else c'

  -- The node and its users go to the core; an error ends the round.
  unfoldable pub start_node : NodeInfo → Controller x core → Controller x core
  unfolding set_intervals
  start_node n c =
      let (s, ok) = core.add_node c.tag n c.server in
      let c' = record c { server = s } in
      if not ok
      then c'
      else (let (s', added) = core.add_users c'.tag c'.user_list n c'.server in
          elim added [
            | none ↦ record c' { server = s' }
            | some _ ↦ set_intervals n (record c' { server = s' })
          ])

  unfoldable pub finish_reload : Bool → NodeInfo → Controller x core → Controller x core
  unfolding start_node
  finish_reload cert_ok n c =
      let (lim, ok) = update_rule c.limiter n.rules in
      let c' = record c { limiter = lim } in
      if not ok then c' else (if nat_beq n.security tls && not cert_ok then c' else start_node n c')

  -- The branch for a changed node.
  unfoldable pub reload_node :
      NodeInfo
      → Option (List UserInfo)
      → Option AliveMap
      → Bool
      → Controller x core
      → Controller x core
  unfolding sync_tables finish_reload
  reload_node n users alive cert_ok c =
      let c' = record c { info = n } in
      let (s, ok) = core.del_node c'.tag c'.server in
      let c'' = record c' { server = s } in
      if not ok then c'' else finish_reload cert_ok n (sync_tables n users alive c'')

  -- Users that left the panel's list go from the core; an empty list asks nothing of it.
  unfoldable pub delete_from_core : List UserInfo → Controller x core → core.State × Bool
  delete_from_core [] c = (c.server, true)
  delete_from_core (u ∷ us) c = core.del_users (u ∷ us) c.tag c.info c.server

  unfoldable pub add_to_core : List UserInfo → Controller x core → core.State × Bool
  add_to_core [] c = (c.server, true)
  add_to_core (u ∷ us) c =
      let (s, added) = core.add_users c.tag (u ∷ us) c.info c.server in (s, is_some added)

  -- An error ends the round before the tables change.
  unfoldable pub sync_changes :
      List UserInfo × List UserInfo × List UserInfo
      → List UserInfo
      → Controller x core
      → Controller x core
  unfolding delete_from_core add_to_core apply_changes
  sync_changes (deleted, added, modified) new c =
      let (s, gone) = delete_from_core deleted c in
      let c' = record c { server = s } in
      let (s', put) = add_to_core added c' in
      let c'' = record c' { server = s' } in
      if not gone
      then c'
      else (if not put
          then c''
          else record (apply_changes (deleted, added, modified) c'') { user_list = new })

  -- The branch for an unchanged node.
  unfoldable pub sync_users : List UserInfo → Controller x core → Controller x core
  unfolding compare_user_list sync_changes
  sync_users new c = sync_changes (compare_user_list c.user_list new) new c

  unfoldable pub sync_new_users : Option (List UserInfo) → Controller x core → Controller x core
  unfolding sync_users
  sync_new_users none c = c
  sync_new_users (some new) c = sync_users new c

  -- A round in which the panel answered both questions; `none` is nil.
  unfoldable pub monitor_round :
      Option NodeInfo
      → Option (List UserInfo)
      → Option AliveMap
      → Bool
      → Controller x core
      → Controller x core
  unfolding reload_node sync_new_users apply_alive
  monitor_round (some n) users alive cert_ok c = reload_node n users alive cert_ok c
  monitor_round none users alive cert_ok c = sync_new_users users (apply_alive alive c)

  unfoldable pub node_info_monitor : Replies → Controller x core → Controller x core
  unfolding monitor_round new_alive
  node_info_monitor r c = elim (answer r.node) [
    | none ↦ c
    | some n ↦ elim (answer r.users) [
      | none ↦ c
      | some us ↦ monitor_round n us (new_alive r) r.cert_ok c
    ]
  ]
