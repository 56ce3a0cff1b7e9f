-- ===== src/Panel/Tests.antt =====
-- The panel client's theorems at concrete inputs, and runs of its decoding.
use ljfxznode.Common.{
  ℕ, ◌≡◌, ◌⊎◌, refl, true, false, none, some, List, [], ◌∷◌, String, pos, leb_ℤ, Map, lookup,
  insert, length, text_key, nat_key, arith,
}
use ljfxznode.Limiter.State.{Externals, Limiter, second}
use ljfxznode.Limiter.Rules.{update_rule, check_protocol_rule}
use ljfxznode.Limiter.Users.{new_limiter}
use ljfxznode.Panel.Json.{
  int, float, text, array, object, end, item, done, field, field_of, decode_int,
}
use ljfxznode.Panel.Socket.{Devices, on_remove_users, Message, decode_sync_devices, handle_message}
use ljfxznode.Panel.Socket.Devices.{push_devices, decode_sync_devices-push_devices}
use ljfxznode.Panel.Socket.Indexed.{Arrival, indexed_users, listed, decode_sync_devices-indexed}
use mathlib.Core.List.Permᴰ.{cons, swap}
use ljfxznode.Panel.Socket.Queue.{
  Step, greeted, opens, requests, resumes, writes, clears, notes_end, reports_kick, run,
  new_ws_client,
}
use ljfxznode.Panel.Socket.Channels.{accepted, taken, written}
use ljfxznode.Panel.Socket.Delivery.{IsDelivered, run-new_ws_client}
use ljfxznode.Panel.Socket.Backoff.{
  Attempt, AllInBounds, AllQuick, LastWait, run_waits, run_waits-bounds,
}
use ljfxznode.Panel.Config.{Route, parse_routes, no_routing, interval_to_time}
use ljfxznode.Panel.Config.Intervals.{interval_to_time-bounds}
use ljfxznode.Panel.Config.Blocks.{blocked_by, check_protocol_rule-parse_routes}
use ljfxznode.Panel.Config.Caching.{
  Response, PanelClient, unchanged, check_response, get_node_info, get_node_info_again,
}

program : Unit {0}
unfolding decode_sync_devices push_devices indexed_users handle_message update_rule parse_routes
    new_limiter lookup insert interval_to_time field_of decode_int check_response run accepted taken
    written
program = tt

abbrev two_users : Devices
two_users = (3, "1.1.1.1" ∷ "2.2.2.2" ∷ []) ∷ (5, []) ∷ []

decode_sync_devices-push_devices_example :
    decode_sync_devices (some (push_devices 1700000000 9 two_users)) ≡ some two_users
unfolding lookup
decode_sync_devices-push_devices_example =
    decode_sync_devices-push_devices 1700000000 9 two_users (omega arith) (omega arith)
      (refl, (refl, tt)) (omega arith)

-- The keys arrive in the order of their text, in which 10 is before 2.
abbrev with_gaps : Map ℕ Arrival
with_gaps =
    (
      3,
      record {
        arrived = (0, "1.1.1.1") ∷ (10, "3.3.3.3") ∷ (2, "2.2.2.2") ∷ [];
        ordered = (0, "1.1.1.1") ∷ (2, "2.2.2.2") ∷ (10, "3.3.3.3") ∷ [];
      },
    )
    ∷ []

decode_sync_devices-indexed_example :
    decode_sync_devices (some (object (field "users" (object (indexed_users with_gaps)) done)))
    ≡ some (listed with_gaps)
unfolding lookup
decode_sync_devices-indexed_example =
    decode_sync_devices-indexed with_gaps (refl, tt)
      (omega arith, cons refl (swap refl refl), omega arith, tt)

-- A user without a number, and a single address.
mixed_devices :
    decode_sync_devices (
      some (
        object (
          field "users"
            (object (field "x" (text "9.9.9.9") (field "4" (text "1.1.1.1") done)))
            done)))
    ≡ some ((4, "1.1.1.1" ∷ []) ∷ [])
unfolding program
mixed_devices = refl

removed_users :
    handle_message (record {
      event = "sync.user.delta";
      payload = some (
          object (
            field "action" (text "remove") (
              field "users"
                (array (
                  item
                    (object (field "id" (int (pos 4)) done))
                    (item (object (field "id" (int (pos 0)) done)) end)))
                done)));
      timestamp = 0;
    })
    ≡ some (on_remove_users (4 ∷ []))
unfolding program
removed_users = refl

abbrev greeting : Message
greeting = record { event = "auth.success"; payload = none; timestamp = 0 }

-- A report finds the channel of a connection that is over, and is answered with true.
abbrev orphaned : List Step
orphaned =
    greeted greeting
    ∷ opens
    ∷ requests
    ∷ reports_kick 5 7 "n|a" "1.1.1.1"
    ∷ resumes 0
    ∷ writes false
    ∷ clears
    ∷ notes_end
    ∷ resumes 0
    ∷ []

orphaned_report :
    ((run orphaned new_ws_client).connected ≡ false)
    × (length (accepted 0 (run orphaned new_ws_client).events) ≡ 2)
    × (length (taken 0 (run orphaned new_ws_client).events) ≡ 1)
    × (written 0 (run orphaned new_ws_client).events ≡ [])
unfolding program
orphaned_report = (refl, refl, refl, refl)

run-new_ws_client_example : IsDelivered (run orphaned new_ws_client)
run-new_ws_client_example = run-new_ws_client orphaned

abbrev failure : Attempt
failure = record { elapsed = 5; random = 12345 }

run_waits-bounds_example :
    AllInBounds (run_waits (failure ∷ []))
    × ((a b c d e f g : Attempt)
        → AllQuick (a ∷ b ∷ c ∷ d ∷ e ∷ f ∷ g ∷ [])
        → LastWait (run_waits (a ∷ b ∷ c ∷ d ∷ e ∷ f ∷ g ∷ [])))
run_waits-bounds_example = run_waits-bounds (failure ∷ [])

interval_to_time-bounds_example :
    (leb_ℤ (pos second) (interval_to_time (float false 0)) ≡ true)
    ⊎ ((float false 0 ≡ float false 0) × (interval_to_time (float false 0) ≡ pos 0))
interval_to_time-bounds_example = interval_to_time-bounds (float false 0) (omega arith)

abbrev small : Externals
small = record {
  Bucket = ℕ;
  new_bucket_with_quantum = λ _ _ _. 0;
  Regexp = String;
  compile = λ s. some s;
  match_string = λ _ _. false;
}

abbrev empty_limiter : Limiter small
empty_limiter = new_limiter small "n" (record { speed_limit = pos 0 }) [] []

abbrev no_torrents : List Route
no_torrents =
    record { pattern_ = text "protocol:bittorrent,ads.org"; action = "block"; action_value = "" }
    ∷ []

check_protocol_rule-parse_routes_example :
    check_protocol_rule
      (update_rule empty_limiter (parse_routes 0 no_torrents no_routing).rules).0
      "bittorrent"
    ≡ blocked_by "bittorrent" no_torrents
unfolding program
check_protocol_rule-parse_routes_example =
    check_protocol_rule-parse_routes empty_limiter no_torrents "bittorrent" refl

torrents_blocked : blocked_by "bittorrent" no_torrents ≡ true
unfolding program
torrents_blocked = refl

abbrev broken : Response
broken = record { status_code = 200; failed = false; hash = "h"; etag = "e"; body = none }

abbrev client : PanelClient
client = record { node_id = 1; node_type = "vless"; response_body_hash = ""; node_etag = "" }

get_node_info_again_example :
    (get_node_info (some broken) (get_node_info (some broken) client).0).1 ≡ unchanged
unfolding program
get_node_info_again_example = get_node_info_again broken client refl
