-- ===== src/Node/Monitor/Tables.antt =====
-- Every round of `nodeInfoMonitor` keeps the limiter's table in step with the user list.
use ljfxznode.Common.{
  ◌≡◌, Bool, true, false, Option, none, some, List, String, inl, inr, Bool-cases, Option-cases,
  arith, or_zero, not, if◌then◌else◌, refl, [], ◌∷◌,
}
use ljfxznode.Panel.{UserInfo, AliveMap, NodeInfo, Rules}
use ljfxznode.Core.{Core}
use ljfxznode.Limiter.State.{Externals, Limiter}
use ljfxznode.Limiter.Valid.{LimiterValid, SameTables-LimiterValid}
use ljfxznode.Limiter.Users.{
  update_user, delete_users, modify_users, add_users, store_users, set_alive_list, get_alive_list,
}
use ljfxznode.Limiter.Users.Valid.{new_limiter-LimiterValid, update_user-LimiterValid}
use ljfxznode.Limiter.Rules.{update_rule}
use ljfxznode.Node.Controller.{Controller, build_node_tag}
use ljfxznode.Node.Users.{compare_user_list}
use ljfxznode.Node.Users.Sync.{Agrees, SameIds, update_user-Agrees, new_limiter-Agrees}
use ljfxznode.Node.Monitor.{
  Replies, answer, or_alive, new_alive, user_changes, apply_changes, apply_users, apply_alive,
  rebuild_limiter, tag_changes, sync_tables, set_intervals, start_node, finish_reload, reload_node,
  sync_changes, sync_users, sync_new_users, monitor_round, node_info_monitor, delete_from_core,
  add_to_core,
}

-- The limiter is in order, and its table is the one of the user list under the node's tag.
pub record Synced {x : Externals} {core : Core} (c : Controller x core) : Type 0 where
  pub agrees : Agrees c.tag c.user_list c.limiter
  pub valid : LimiterValid c.limiter

-- No user that stays changes its id.
abbrev pub KeepsIds : List UserInfo → Option (List UserInfo) → Type 0
KeepsIds old none = Unit
KeepsIds old (some new) = SameIds old new

module _ {x : Externals} where
  pub update_rule-LimiterValid :
      (l : Limiter x) (rules : Rules) → LimiterValid l → LimiterValid (update_rule l rules).0
  unfolding update_rule
  update_rule-LimiterValid l rules v = SameTables-LimiterValid l _ (ground arith) v

  pub update_rule-table :
      (l : Limiter x) (rules : Rules) → (update_rule l rules).0.user_limit_info ≡ l.user_limit_info
  unfolding update_rule
  update_rule-table l rules = ground arith

module _ {x : Externals} {core : Core} where
  -- The tables of a controller, apart from the core's state and the tasks.
  record SameNode (c d : Controller x core) : Type 0 where
    tag : d.tag ≡ c.tag
    limiter : d.limiter ≡ c.limiter
    user_list : d.user_list ≡ c.user_list

  SameNode-Synced : (c d : Controller x core) → SameNode c d → Synced c → Synced d
  SameNode-Synced c d s y = record {
    agrees = rw (s.tag, s.limiter, s.user_list) y.agrees;
    valid = rw s.limiter y.valid;
  }

  pub apply_alive-Synced :
      (m : Option AliveMap) (c : Controller x core) → Synced c → Synced (apply_alive m c)
  unfolding apply_alive set_alive_list Agrees
  apply_alive-Synced none c y = y
  apply_alive-Synced (some m) c y = record {
    agrees = y.agrees;
    valid =
        SameTables-LimiterValid c.limiter (set_alive_list m c.limiter)
          (record {
            refs = refl;
            devices = refl;
            counts = refl;
            cooldowns = refl;
            cooldown_count = refl;
          })
          y.valid;
  }

  unchanged_table :
      (c : Controller x core) (new : List UserInfo)
      → Agrees c.tag new (update_user c.tag [] [] [] c.limiter)
      → Agrees c.tag new c.limiter
  unfolding Agrees update_user delete_users modify_users add_users store_users
  unchanged_table c new a = a

  changes_applied :
      (deleted added modified new : List UserInfo) (c : Controller x core)
      → Agrees c.tag new (update_user c.tag added deleted modified c.limiter)
      → LimiterValid c.limiter
      → Synced (record (apply_changes (deleted, added, modified) c) { user_list = new })
  unfolding apply_changes
  changes_applied [] [] [] new c a v = record { agrees = unchanged_table c new a; valid = v }
  changes_applied [] [] (u ∷ us) new c a v = record {
    agrees = a;
    valid = update_user-LimiterValid c.tag [] [] (u ∷ us) c.limiter v;
  }
  changes_applied [] (u ∷ us) ms new c a v = record {
    agrees = a;
    valid = update_user-LimiterValid c.tag (u ∷ us) [] ms c.limiter v;
  }
  changes_applied (u ∷ us) added ms new c a v = record {
    agrees = a;
    valid = update_user-LimiterValid c.tag added (u ∷ us) ms c.limiter v;
  }

  -- The changes, and the new list with them.
  changes-Synced :
      (new : List UserInfo) (c : Controller x core)
      → SameIds c.user_list new
      → Synced c
      → Synced (record (apply_changes (compare_user_list c.user_list new) c) { user_list = new })
  changes-Synced new c ids y =
      let (deleted, added, modified) = compare_user_list c.user_list new in
      changes_applied deleted added modified new c
        (update_user-Agrees c.tag c.limiter c.user_list new ids y.agrees) y.valid

  rebuild_limiter-Synced :
      (new_tag : String) (users : Option (List UserInfo)) (alive : Option AliveMap)
      (c : Controller x core)
      → Synced (apply_users users (rebuild_limiter new_tag users alive c))
  unfolding apply_users rebuild_limiter
  rebuild_limiter-Synced new_tag none alive c = record {
    agrees =
        new_limiter-Agrees new_tag c.limiter c.options.limit_config c.user_list
          (or_alive alive (get_alive_list c.limiter));
    valid =
        new_limiter-LimiterValid x new_tag c.options.limit_config c.user_list
          (or_alive alive (get_alive_list c.limiter));
  }
  rebuild_limiter-Synced new_tag (some us) alive c = record {
    agrees =
        new_limiter-Agrees new_tag c.limiter c.options.limit_config us
          (or_alive alive (get_alive_list c.limiter));
    valid =
        new_limiter-LimiterValid x new_tag c.options.limit_config us
          (or_alive alive (get_alive_list c.limiter));
  }

  users_applied :
      (users : Option (List UserInfo)) (c : Controller x core)
      → KeepsIds c.user_list users
      → Synced c
      → Synced (apply_users users (apply_changes (user_changes c.user_list users) c))
  unfolding apply_users apply_changes user_changes
  users_applied none c ids y = y
  users_applied (some us) c ids y = changes-Synced us c ids y

  sync_tables-Synced :
      (n : NodeInfo) (users : Option (List UserInfo)) (alive : Option AliveMap)
      (c : Controller x core)
      → KeepsIds c.user_list users
      → Synced c
      → Synced (sync_tables n users alive c)
  unfolding sync_tables
  sync_tables-Synced n users alive c ids y = elim (Bool-cases (tag_changes n c)) [
    | inl e ↦ rw e (rebuild_limiter-Synced (build_node_tag c.api_host n) users alive c)
    | inr e ↦ rw e (apply_alive-Synced alive _ (users_applied users c ids y))
  ]

  either-Synced :
      (b : Bool) (c d : Controller x core) → Synced c → Synced d → Synced (if b then c else d)
  either-Synced true c d y z = y
  either-Synced false c d y z = z

  set_intervals-SameNode : (n : NodeInfo) (c : Controller x core) → SameNode c (set_intervals n c)
  unfolding set_intervals
  set_intervals-SameNode n c = ground arith

  set_intervals-Synced :
      (n : NodeInfo) (c : Controller x core) → Synced c → Synced (set_intervals n c)
  set_intervals-Synced n c y = SameNode-Synced c _ (set_intervals-SameNode n c) y

  with_server :
      (s : core.State) (c : Controller x core) → Synced c → Synced (record c { server = s })
  with_server s c y = record { agrees = y.agrees; valid = y.valid }

  start_node-Synced : (n : NodeInfo) (c : Controller x core) → Synced c → Synced (start_node n c)
  unfolding start_node
  start_node-Synced n c y =
      let (s, ok) = core.add_node c.tag n c.server in
      let (s', added) = core.add_users c.tag c.user_list n s in
      either-Synced (not ok) _ _ (with_server s c y) (elim (Option-cases added) [
        | inl e ↦ rw e (with_server s' c y)
        | inr (k, e) ↦ rw e (set_intervals-Synced n _ (with_server s' c y))
      ])

  with_rules :
      (rules : Rules) (c : Controller x core)
      → Synced c
      → Synced (record c { limiter = (update_rule c.limiter rules).0 })
  unfolding Agrees
  with_rules rules c y = record {
    agrees = λ q. rw (update_rule-table c.limiter rules) (y.agrees q);
    valid = update_rule-LimiterValid c.limiter rules y.valid;
  }

  finish_reload-Synced :
      (cert_ok : Bool) (n : NodeInfo) (c : Controller x core)
      → Synced c
      → Synced (finish_reload cert_ok n c)
  unfolding finish_reload
  finish_reload-Synced cert_ok n c y =
      let z = with_rules n.rules c y in
      either-Synced _ _ _ z (either-Synced _ _ _ z (start_node-Synced n _ z))

  reload_node-Synced :
      (n : NodeInfo) (users : Option (List UserInfo)) (alive : Option AliveMap) (cert_ok : Bool)
      (c : Controller x core)
      → KeepsIds c.user_list users
      → Synced c
      → Synced (reload_node n users alive cert_ok c)
  unfolding reload_node
  reload_node-Synced n users alive cert_ok c ids y =
      let (s, ok) = core.del_node c.tag c.server in
      let z : Synced (record c { info = n; server = s }) = record {
        agrees = y.agrees;
        valid = y.valid;
      } in
      either-Synced (not ok) _ _ z
        (finish_reload-Synced cert_ok n _ (sync_tables-Synced n users alive _ ids z))

  sync_users-Synced :
      (new : List UserInfo) (c : Controller x core)
      → SameIds c.user_list new
      → Synced c
      → Synced (sync_users new c)
  unfolding sync_users sync_changes
  sync_users-Synced new c ids y =
      let (deleted, added, modified) = compare_user_list c.user_list new in
      let (s, gone) = delete_from_core deleted c in
      let (s', put) = add_to_core added (record c { server = s }) in
      either-Synced (not gone) _ _ (with_server s c y) (
        either-Synced (not put) _ _ (with_server s' c y)
          (changes-Synced new (record c { server = s' }) ids (with_server s' c y)))

  monitor_round-Synced :
      (n : Option NodeInfo) (users : Option (List UserInfo)) (alive : Option AliveMap)
      (cert_ok : Bool) (c : Controller x core)
      → KeepsIds c.user_list users
      → Synced c
      → Synced (monitor_round n users alive cert_ok c)
  unfolding monitor_round sync_new_users
  monitor_round-Synced (some n) users alive cert_ok c ids y =
      reload_node-Synced n users alive cert_ok c ids y
  monitor_round-Synced none none alive cert_ok c ids y = apply_alive-Synced alive c y
  monitor_round-Synced none (some new) none cert_ok c ids y = sync_users-Synced new c ids y
  monitor_round-Synced none (some new) (some m) cert_ok c ids y =
      sync_users-Synced new _ ids (apply_alive-Synced (some m) c y)

  -- A round of polling keeps the limiter in order and its table the one of the controller's user
  -- list under the node's tag: whatever the panel answers, wherever an error ends the round, and
  -- also when the tag changes; if no user that stays changes its id.
  pub node_info_monitor-Synced :
      (r : Replies) (c : Controller x core)
      → KeepsIds c.user_list (or_zero (answer r.users) none)
      → Synced c
      → Synced (node_info_monitor r c)
  unfolding node_info_monitor
  node_info_monitor-Synced r c ids y = elim (Option-cases (answer r.node)) [
    | inl e ↦ rw (e, node_info_monitor) y
    | inr (n, e) ↦ elim (Option-cases (answer r.users)) [
      | inl f ↦ rw (e, f, node_info_monitor) y
      | inr (us, f) ↦
          rw (e, f, node_info_monitor)
            (monitor_round-Synced n us (new_alive r) r.cert_ok c (rw f at ids) y)
    ]
  ]
