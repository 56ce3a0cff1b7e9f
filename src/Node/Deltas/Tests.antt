-- ===== src/Node/Deltas/Tests.antt =====
-- The deltas' theorems at concrete inputs.
use ljfxznode.Common.{
  ltb, ℕ, ◌+◌, ◌≡◌, refl, true, none, some, [], ◌∷◌, text_key, nat_key, lookup, insert, delete,
}
use ljfxznode.Panel.{user_tag}
use ljfxznode.Core.{Core, RefusesAbsent}
use ljfxznode.Node.Controller.{Controller}
use ljfxznode.Node.Users.{compare_user_list}
use ljfxznode.Node.Monitor.{sync_users}
use ljfxznode.Node.Monitor.Tables.{Synced}
use ljfxznode.Node.Deltas.{wanted, ids_of, remove_users_by_ids, add_users_by_ws}
use ljfxznode.Node.Deltas.Tables.{add_users_by_ws-Synced, restored_user_lem}
use ljfxznode.Node.Deltas.Stall.{IsStalled, stalled_round_lem}
use ljfxznode.Node.Tests.{plain, ann, bob, node, started, started-Synced}

add_users_by_ws-Synced_example : Synced (add_users_by_ws (bob ∷ []) started)
add_users_by_ws-Synced_example = add_users_by_ws-Synced (bob ∷ []) started refl started-Synced

restored_user_lem_example :
    lookup
      (user_tag "n" "a")
      (sync_users
        (ann ∷ [])
        (add_users_by_ws (ann ∷ []) (remove_users_by_ids (7 ∷ []) started))).limiter.user_limit_info
    ≡ none
unfolding wanted compare_user_list lookup ids_of insert delete
restored_user_lem_example =
    restored_user_lem (7 ∷ []) (ann ∷ []) (ann ∷ []) "a" started refl refl (refl, tt) refl

-- A core that has users while its state is not 0, and removes all of them at once.
abbrev strict : Core
strict = record {
  State = ℕ;
  add_node = λ _ _ s. (s + 1, true);
  del_node = λ _ s. (s, true);
  add_users = λ _ _ _ s. (s + 1, some 1);
  del_users = λ _ _ _ s. (0, ltb 0 s);
  get_user_traffic_slice = λ _ _ s. (s, none);
}

strict-RefusesAbsent : RefusesAbsent strict
strict-RefusesAbsent = record { twice = λ u us tag n s ok. refl }

abbrev strict_started : Controller plain strict
strict_started = record {
  server = 5;
  tag = "n";
  limiter = started.limiter;
  user_list = ann ∷ [];
  pending_traffic = [];
  info = node;
  monitor_interval = 30;
  report_interval = 60;
  status_interval = 60;
  last_report_devices_hash = "";
  options = started.options;
  api_host = "h";
  effects = [];
}

stalled_round_lem_example :
    IsStalled
      (remove_users_by_ids (7 ∷ []) strict_started)
      (sync_users (bob ∷ []) (remove_users_by_ids (7 ∷ []) strict_started))
unfolding wanted compare_user_list lookup insert delete
stalled_round_lem_example =
    stalled_round_lem strict-RefusesAbsent (7 ∷ []) ann [] (bob ∷ []) (bob ∷ []) [] strict_started
      refl refl refl
