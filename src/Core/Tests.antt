-- ===== src/Core/Tests.antt =====
-- The core's theorems at concrete inputs.
use ljfxznode.Common.{
  ltb, ℕ, ◌+◌, ◌≡◌, refl, true, none, some, [], ◌∷◌, String, pos, text_key, nat_key,
}
use ljfxznode.Panel.{UserInfo, NodeInfo}
use ljfxznode.Core.{Core, RefusesAbsent}
use ljfxznode.Core.Links.{LinkManager}
use ljfxznode.Core.Xray.{xray_core, Proxy, Xray, TrafficStorage, Counters, read_counters}
use ljfxznode.Core.Xray.Refusal.{UserLaws, xray_core-RefusesAbsent}
use ljfxznode.Core.Xray.Reading.{
  download, handed_out, held, too_late, arriving, read_counters-reset,
}
use ljfxznode.Core.Selector.{Selector, CoreChoice}

abbrev ann : UserInfo
ann = record { id = 7; uuid = "a"; speed_limit = pos 8; device_limit = pos 2 }

abbrev vmess_node : NodeInfo
vmess_node = record {
  id = 1;
  node_type = "vmess";
  security = 0;
  push_interval = 60;
  pull_interval = 60;
  flow = "";
  cipher = "";
  server_key = "";
  rules = record { regexp = []; protocol = [] };
}

abbrev two_links : LinkManager
two_links = record {
  links =
      (1, record { ip = "1.1.1.1"; reader = 11 })
      ∷ (2, record { ip = "2.2.2.2"; reader = 12 })
      ∷ [];
  closed = [];
  interrupted = [];
}

-- Inbounds that take every call.
abbrev willing : Proxy
willing = record {
  State = ℕ;
  lower = λ s. s;
  manages_users = λ _ _. true;
  add_user = λ _ _ s. (s + 1, true);
  remove_user = λ _ _ s. (s, true);
  add_handlers = λ _ _ s. (s, true);
  remove_inbound = λ _ s. (s, true);
  remove_outbound = λ _ s. (s, true);
}

abbrev serving : Xray willing
serving = record {
  proxy = 0;
  uid_map = ("n|a", 7) ∷ [];
  min_traffic = [];
  counters = [];
  link_managers = ("n|a", two_links) ∷ [];
  closed = [];
}

abbrev busy : Counters
busy = ("n|a", record { up = 5; down = 1 }) ∷ ("n|x", record { up = 9; down = 0 }) ∷ []

abbrev one_byte : String → TrafficStorage
one_byte _ = record { up = 1; down = 0 }

read_counters-reset_example :
    let (left, slice) = read_counters true (pos 0) (("n|a", 7) ∷ []) one_byte busy in
    (handed_out download 7 slice
        + held (("n|a", 7) ∷ []) download 7 left
        + too_late (("n|a", 7) ∷ []) download 7 (pos 0) one_byte busy
      ≡ held (("n|a", 7) ∷ []) download 7 busy
        + arriving (("n|a", 7) ∷ []) download 7 one_byte busy)
    × (handed_out download 0 slice ≡ 0)
read_counters-reset_example =
    read_counters-reset download 7 (pos 0) (("n|a", 7) ∷ []) one_byte busy refl

-- A core that takes every node, and a selector with one of them.
abbrev easy : Core
easy = record {
  State = ℕ;
  add_node = λ _ _ s. (s + 1, true);
  del_node = λ _ s. (s, true);
  add_users = λ _ _ _ s. (s, some 1);
  del_users = λ _ _ _ s. (s, true);
  get_user_traffic_slice = λ _ _ s. (s, none);
}

abbrev one_core : Selector easy
one_core = record {
  cores = ("x", record { protocols = "vmess" ∷ []; type_name = "xray"; state = 0 }) ∷ [];
  nodes = ("n", "x") ∷ [];
}

abbrev no_choice : CoreChoice
no_choice = record { core = ""; core_name = "" }

-- Inbounds that have users while their state is not 0.
abbrev emptying : Proxy
emptying = record {
  State = ℕ;
  lower = λ s. s;
  manages_users = λ _ _. true;
  add_user = λ _ _ s. (s + 1, true);
  remove_user = λ _ _ s. (0, ltb 0 s);
  add_handlers = λ _ _ s. (s, true);
  remove_inbound = λ _ s. (s, true);
  remove_outbound = λ _ s. (s, true);
}

emptying-UserLaws : UserLaws emptying
emptying-UserLaws = record {
  has = λ _ _ s. ltb 0 s;
  refuses = λ _ _ _ h. h;
  removes = λ _ _ _ _. refl;
  stays_away = λ _ _ _ _ _. refl;
}

xray_core-RefusesAbsent_example : RefusesAbsent (xray_core emptying 4)
xray_core-RefusesAbsent_example = xray_core-RefusesAbsent emptying-UserLaws 4
