-- ===== src/Node/Monitor/Tests.antt =====
-- Rounds of `nodeInfoMonitor` over a core that deletes no users.
use ljfxznode.Common.{
  ℕ, ◌≡◌, refl, true, false, Option, none, some, [], ◌∷◌, String, pos, ◌==◌, text_key, nat_key,
  ◌>>=◌, if◌then◌else◌, lookup, insert, delete,
}
use ljfxznode.Core.{Core}
use ljfxznode.Panel.{UserInfo}
use ljfxznode.Panel.Json.{
  Json, object, field, done, array, item, end, text, field_of, decode_int, decode_text,
}
use ljfxznode.Panel.Socket.{decode_user_items}
use ljfxznode.Panel.Config.Caching.{Response}
use ljfxznode.Panel.UserList.{user_list_of}
use ljfxznode.Node.Controller.{Controller}
use ljfxznode.Node.Users.{compare_user_list}
use ljfxznode.Node.Monitor.{Replies, unchanged}
use ljfxznode.Node.Monitor.Polling.{takes_changes, polls, polls-refused}
use ljfxznode.Node.Tests.{plain, ann, node, started}

abbrev refusing : Core
refusing = record {
  State = ℕ;
  add_node = λ _ _ s. (s, true);
  del_node = λ _ s. (s, true);
  add_users = λ _ _ _ s. (s, some 1);
  del_users = λ _ _ _ s. (s, false);
  get_user_traffic_slice = λ _ _ s. (s, none);
}

abbrev at_refusing : Controller plain refusing
at_refusing = record {
  server = 5;
  tag = "n";
  limiter = started.limiter;
  user_list = ann ∷ [];
  pending_traffic = [];
  info = node;
  monitor_interval = 30;
  report_interval = 60;
  status_interval = 60;
  last_report_devices_hash = "";
  options = started.options;
  api_host = "h";
  effects = [];
}

abbrev users_body : Json
users_body = object (
    field "users"
      (array (item (object (field "id" (Json.int (pos 9)) (field "uuid" (text "b") done))) end))
      done)

abbrev full_list : Response
full_list = record {
  status_code = 200;
  failed = false;
  hash = "";
  etag = "e";
  body = some users_body;
}

abbrev same_list : Response
same_list = record { status_code = 304; failed = false; hash = ""; etag = "e"; body = none }

abbrev list_panel : String → Option Response
list_panel etag = if etag == "e" then some same_list else some full_list

abbrev quiet : Replies
quiet = record {
  node = unchanged;
  users = unchanged;
  ws_connected = true;
  alive = none;
  cert_ok = true;
}

abbrev user_b : UserInfo
user_b = record { id = 9; uuid = "b"; speed_limit = pos 0; device_limit = pos 0 }

b_decoded : (some users_body >>= user_list_of) ≡ some (some (user_b ∷ []))
unfolding user_list_of field_of decode_int decode_text decode_user_items
b_decoded = refl

ann_kept : takes_changes (compare_user_list (ann ∷ []) (user_b ∷ [])) at_refusing ≡ false
unfolding takes_changes compare_user_list lookup insert delete
ann_kept = refl

polls-refused_example :
    (polls list_panel (quiet ∷ quiet ∷ quiet ∷ []) ("", at_refusing)).1.user_list ≡ ann ∷ []
polls-refused_example =
    polls-refused list_panel quiet (quiet ∷ quiet ∷ []) "" full_list same_list (user_b ∷ [])
      at_refusing (refl, (refl, (refl, tt))) refl refl refl b_decoded ann_kept refl refl
