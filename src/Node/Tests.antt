-- ===== src/Node/Tests.antt =====
-- The controller's theorems at concrete inputs.
use ljfxznode.Common.{
  none_some, ℕ, ◌+◌, ◌≡◌, refl, inl, inr, Bool, true, false, ◌||◌, some, [], ◌∷◌, String, arith, ℤ,
  pos, text_key, nat_key, lookup, insert, ap, ◌∙◌, Bool-cases, ◌==◌, contains, keys, map, get,
}
use ljfxznode.Panel.{UserInfo, NodeInfo}
use ljfxznode.Core.{Core}
use ljfxznode.Limiter.State.{Externals, Limiter, pure_ip}
use ljfxznode.Limiter.Refs.{shard_open}
use ljfxznode.Limiter.Gate.{global_ips}
use ljfxznode.Limiter.Conn.{conn_opened}
use ljfxznode.Node.Socket.{on_message, push_message, on_message-local_device_snapshot}
use ljfxznode.Limiter.Users.{new_limiter, update_user}
use ljfxznode.Limiter.Users.Valid.{new_limiter-LimiterValid}
use ljfxznode.Limiter.Devices.{local_device_snapshot, report_shards}
use ljfxznode.Node.Controller.{Controller}
use ljfxznode.Node.Users.{compare_user_list}
use ljfxznode.Node.Users.Table.{last_user}
use ljfxznode.Node.Users.Sync.{Agrees, SameIds, update_user-Agrees, new_limiter-Agrees}
use ljfxznode.Node.Monitor.{Replies, unchanged, changed, node_info_monitor}
use ljfxznode.Node.Monitor.Tables.{Synced, node_info_monitor-Synced}
use ljfxznode.Node.Start.{start, start_tag, start_core, start_limiter, started_controller}
use ljfxznode.Node.Start.Tables.{start-Synced}
use ljfxznode.Limiter.Rules.{update_rule, compile_rules}

abbrev pub plain : Externals
plain = record {
  Bucket = ℤ;
  new_bucket_with_quantum = λ _ capacity _. capacity;
  Regexp = String;
  compile = λ s. some s;
  match_string = λ _ _. false;
}

-- A core that takes every call and has ten bytes of traffic for each.
abbrev pub willing : Core
willing = record {
  State = ℕ;
  add_node = λ _ _ s. (s + 1, true);
  del_node = λ _ s. (s + 1, true);
  add_users = λ _ _ _ s. (s + 1, some 1);
  del_users = λ _ _ _ s. (s + 1, true);
  get_user_traffic_slice =
      λ _ _ s. (0, some (record { uid = 7; upload = pos s; download = pos 0 } ∷ []));
}

abbrev pub ann : UserInfo
ann = record { id = 7; uuid = "a"; speed_limit = pos 8; device_limit = pos 2 }

abbrev pub ann_faster : UserInfo
ann_faster = record { id = 7; uuid = "a"; speed_limit = pos 9; device_limit = pos 2 }

abbrev pub bob : UserInfo
bob = record { id = 8; uuid = "b"; speed_limit = pos 0; device_limit = pos 1 }

abbrev pub node : NodeInfo
node = record {
  id = 1;
  node_type = "vmess";
  security = 0;
  push_interval = 60;
  pull_interval = 60;
  flow = "";
  cipher = "";
  server_key = "";
  rules = record { regexp = "x" ∷ []; protocol = [] };
}

abbrev pub started : Controller plain willing
started = record {
  server = 5;
  tag = "n";
  limiter = new_limiter plain "n" (record { speed_limit = pos 0 }) (ann ∷ []) [];
  user_list = ann ∷ [];
  pending_traffic = record { uid = 7; upload = pos 3; download = pos 0 } ∷ [];
  info = node;
  monitor_interval = 30;
  report_interval = 60;
  status_interval = 60;
  last_report_devices_hash = "";
  options = record {
    name = "";
    device_online_min_traffic = pos 0;
    limit_config = record { speed_limit = pos 0 };
  };
  api_host = "h";
  effects = [];
}

pub started-Synced : Synced started
started-Synced = record {
  agrees = new_limiter-Agrees "n" started.limiter (record { speed_limit = pos 0 }) (ann ∷ []) [];
  valid = new_limiter-LimiterValid plain "n" (record { speed_limit = pos 0 }) (ann ∷ []) [];
}

of_a :
    (q : String) (o w : UserInfo)
    → "a" ≡ q
    → last_user q (ann ∷ []) ≡ some o
    → last_user q (ann_faster ∷ bob ∷ []) ≡ some w
    → o.id ≡ w.id
unfolding last_user
of_a q o w e was stays =
    let p : last_user "a" (ann ∷ []) ≡ some o = ap (λ z. last_user z (ann ∷ [])) e ∙ was in
    let r : last_user "a" (ann_faster ∷ bob ∷ []) ≡ some w =
      ap (λ z. last_user z (ann_faster ∷ bob ∷ [])) e ∙ stays in
    ids_equal p r
  where
    ids_equal : some ann ≡ some o → some ann_faster ≡ some w → o.id ≡ w.id
    ids_equal p r = ground arith

pub or_true : (b : Bool) → (b || true) ≡ true
or_true true = refl
or_true false = refl

-- Ann keeps her id, and Bob is new.
ids : SameIds (ann ∷ []) (ann_faster ∷ bob ∷ [])
unfolding SameIds last_user
ids q o w was stays = elim (Bool-cases ("a" == q)) [
  | inl e ↦ of_a q o w ((text_key.same_iff "a" q).0 e) was stays
  | inr e ↦ none_some (rw (e, last_user) at was)
]

update_user-Agrees_example :
    let (deleted, added, modified) = compare_user_list (ann ∷ []) (ann_faster ∷ bob ∷ []) in
    Agrees "n" (ann_faster ∷ bob ∷ []) (update_user "n" added deleted modified started.limiter)
update_user-Agrees_example =
    update_user-Agrees "n" started.limiter (ann ∷ []) (ann_faster ∷ bob ∷ []) ids
      started-Synced.agrees

abbrev reply : Replies
reply = record {
  node = changed node;
  users = changed (ann_faster ∷ bob ∷ []);
  ws_connected = false;
  alive = some [];
  cert_ok = true;
}

node_info_monitor-Synced_example : Synced (node_info_monitor reply started)
node_info_monitor-Synced_example = node_info_monitor-Synced reply started ids started-Synced

abbrev same_node : Replies
same_node = record reply { node = unchanged }

-- A start with one user on a node without rules.
abbrev plain_node : NodeInfo
plain_node = record node { rules = record { regexp = []; protocol = [] } }

abbrev first_controller : Controller plain willing
first_controller =
    started_controller started.options "h" (start_tag started.options "h" plain_node) plain_node
      (ann ∷ [])
      (update_rule
        (new_limiter plain (start_tag started.options "h" plain_node)
          (record { speed_limit = pos 0 }) (ann ∷ []) [])
        plain_node.rules).0
      2

start-Synced_example : Synced first_controller
unfolding start start_limiter start_core update_rule compile_rules
start-Synced_example =
    start-Synced started.options "h" (some plain_node) (some (ann ∷ [])) (some []) true 0
      first_controller refl

-- The limiter of another node, with one connection.
abbrev visited : Limiter plain
visited = conn_opened started.limiter 7 "1.1.1.1"

on_message-local_device_snapshot_example :
    contains "1.1.1.1" (
      keys (
        global_ips
          (on_message 9
            (push_message 1700000000 2 (local_device_snapshot visited 5))
            started).limiter
          7))
    ≡ contains "1.1.1.1" (map pure_ip (get 7 [] (local_device_snapshot visited 5)))
unfolding local_device_snapshot conn_opened shard_open pure_ip lookup insert new_limiter
    report_shards
on_message-local_device_snapshot_example =
    on_message-local_device_snapshot visited started 5 9 1700000000 2 7 "1.1.1.1" (omega arith)
      (omega arith) (omega arith)
