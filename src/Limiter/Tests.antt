-- ===== src/Limiter/Tests.antt =====
-- The limiter's theorems at concrete inputs, and runs of its operations.
use ljfxznode.Common.{
  ◌≤◌, ℕ, ◌+◌, ◌*◌, ◌<◌, ◌≡◌, ◌≢◌, refl, true, false, ◌||◌, none, some, List, [], ◌∷◌, String,
  arith, ltb, ℤ, pos, leb_ℤ, text_key, nat_key, Map, lookup, insert, get, contains, length,
}
use ljfxznode.Panel.{UserInfo, user_tag}
use ljfxznode.Limiter.State.{Externals, Limiter, UserLimitInfo, pure_ip, second}
use ljfxznode.Limiter.Refs.{shard_open}
use ljfxznode.Limiter.Valid.{LimiterValid}
use ljfxznode.Limiter.Gate.{check_device_gate, local_ips, global_ips}
use ljfxznode.Limiter.Gate.Union.{card}
use ljfxznode.Limiter.Gate.Decision.{must_reject, device_count, check_device_gate-must_reject}
use ljfxznode.Limiter.Gate.Victim.{IsVictim, check_device_gate-IsVictim}
use ljfxznode.Limiter.Cooldown.{
  in_cooldown, devices_dirty, reset_devices_dirty, purge_expired_cooldowns,
}
use ljfxznode.Limiter.Cooldown.Expiry.{expiry, runs}
use ljfxznode.Limiter.Conn.{Registered, Kick, conn_opened, try_open_conn, kick_device, refuse}
use ljfxznode.Limiter.Conn.Counts.{active_count, conn_opened-LimiterValid}
use ljfxznode.Limiter.Conn.Admission.{try_open_conn-device_count}
use ljfxznode.Limiter.Conn.Kicks.{kick_device-LimiterValid}
use ljfxznode.Limiter.History.Throttle.{try_open_conn-run}
use ljfxznode.Limiter.History.Cooling.{kick_device-run}
use ljfxznode.Limiter.Users.{new_limiter}
use ljfxznode.Limiter.Users.Valid.{new_limiter-LimiterValid}
use ljfxznode.Limiter.Devices.{update_global_devices, local_device_snapshot}
use ljfxznode.Limiter.Devices.Globals.{update_global_devices-LimiterValid}
use ljfxznode.Limiter.Devices.Snapshot.{contains-local_device_snapshot}
use ljfxznode.Limiter.Limit.{check_limit, check_user, user_bucket, with_bucket}
use ljfxznode.Limiter.Bound.Steps.{run-local_ips}
use ljfxznode.Limiter.History.{Event, check, close_conn, run, run-new_limiter}

program : Unit {0}
unfolding pure_ip lookup insert shard_open conn_opened try_open_conn check_device_gate in_cooldown
    refuse new_limiter update_global_devices card user_tag kick_device user_bucket check_limit
    check_user with_bucket run devices_dirty reset_devices_dirty purge_expired_cooldowns
program = tt

abbrev plain : Externals
plain = record {
  Bucket = ℤ;
  new_bucket_with_quantum = λ _ capacity _. capacity;
  Regexp = String;
  compile = λ s. some s;
  match_string = λ _ _. false;
}

abbrev alice : UserInfo
alice = record { id = 7; uuid = "a"; speed_limit = pos 8; device_limit = pos 2 }

abbrev alice_limit : UserLimitInfo
alice_limit = record { uid = 7; speed_limit = pos 8; device_limit = pos 2 }

-- One user with two devices at most, a fresh and empty global table, no connection.
abbrev idle : Limiter plain
idle =
    update_global_devices (new_limiter plain "n" (record { speed_limit = pos 100 }) (alice ∷ []) [])
      0 []

idle_valid : LimiterValid idle
idle_valid =
    update_global_devices-LimiterValid _ 0 []
      (new_limiter-LimiterValid plain "n" (record { speed_limit = pos 100 }) (alice ∷ []) [])

-- ... and with one.
abbrev busy : Limiter plain
busy = conn_opened idle 7 "1.1.1.1"

busy_valid : LimiterValid busy
busy_valid = conn_opened-LimiterValid idle 7 "1.1.1.1" idle_valid

abbrev both : Registered
both = record { local = true; reporter = true }

abbrev kicked : Limiter plain
kicked = (kick_device busy both second 7 "n|a" "1.1.1.1").0

kicked_valid : LimiterValid kicked
kicked_valid = kick_device-LimiterValid busy both second 7 "n|a" "1.1.1.1" busy_valid

second_device : (try_open_conn busy second 0 7 "n|a" "::ffff:2.2.2.2" (pos 2)).1 ≡ true
unfolding program
second_device = refl

third_device :
    (try_open_conn (conn_opened busy 7 "2.2.2.2") (2 * second) 0 7 "n|a" "3.3.3.3" (pos 2)).2
    ≡ some (record { uid = 7; taguuid = "n|a"; victim = "1.1.1.1" })
unfolding program
third_device = refl

check_device_gate-must_reject_example :
    (check_device_gate busy second 0 7 "2.2.2.2" (pos 1)).0
    ≡ must_reject busy second 7 "2.2.2.2" (pos 1)
check_device_gate-must_reject_example =
    check_device_gate-must_reject busy second 0 7 "2.2.2.2" (pos 1) busy_valid

try_open_conn-device_count_example :
    leb_ℤ (pos (device_count (try_open_conn busy second 0 7 "n|a" "2.2.2.2" (pos 2)).0 7)) (pos 2)
    ≡ true
unfolding program
try_open_conn-device_count_example =
    try_open_conn-device_count busy second 0 7 "n|a" "2.2.2.2" (pos 2) busy_valid refl refl refl
      refl

run-new_limiter_example : LimiterValid (
    run
      (Event.open_conn second 0 7 "n|a" "1.1.1.1" (pos 2) ∷ Event.close_conn "n|a" "1.1.1.1" ∷ [])
      (new_limiter plain "n" (record { speed_limit = pos 100 }) (alice ∷ []) []))
run-new_limiter_example =
    run-new_limiter plain "n" (record { speed_limit = pos 100 }) (alice ∷ []) []
      (Event.open_conn second 0 7 "n|a" "1.1.1.1" (pos 2) ∷ Event.close_conn "n|a" "1.1.1.1" ∷ [])

-- In the cooldown the table is purged, another device is kicked and another user is deleted.
abbrev busy_time : List Event
busy_time =
    Event.close_conn "n|a" "1.1.1.1"
    ∷ Event.ask_dirty (100 * second)
    ∷ Event.kick both (101 * second) 7 "n|a" "2.2.2.2"
    ∷ Event.change_users "n" [] ((record alice { id = 8; uuid = "b" }) ∷ []) []
    ∷ []

kick_device-run_example :
    let l = run busy_time (kick_device busy both second 7 "n|a" "1.1.1.1").0 in
    try_open_conn l (300 * second) 0 7 "n|a" "::ffff:1.1.1.1" (pos 2) ≡ (l, false, none)
unfolding pure_ip
kick_device-run_example =
    kick_device-run busy both busy_time second (300 * second) 0 7 "n|a" "n|a" "1.1.1.1"
      "::ffff:1.1.1.1" (pos 2) busy_valid (tt, (omega arith, (omega arith, ((refl, tt), tt)))) refl
      refl (omega arith)

check_device_gate-IsVictim_example :
    let v = (check_device_gate busy second 0 7 "2.2.2.2" (pos 1)).1 in
    IsVictim (local_ips busy 7) (global_ips busy 7) v × (v ≢ "2.2.2.2")
unfolding program
check_device_gate-IsVictim_example =
    check_device_gate-IsVictim busy second 0 7 "2.2.2.2" (pos 1) busy_valid (λ e. cc)

contains-local_device_snapshot_example :
    contains "1.1.1.1" (get 7 [] (local_device_snapshot kicked (2 * second)))
    ≡ (ltb 0 (active_count kicked 7 "1.1.1.1") || runs (2 * second) (expiry kicked 7 "1.1.1.1"))
contains-local_device_snapshot_example =
    contains-local_device_snapshot kicked kicked_valid (2 * second) 7 "1.1.1.1"

abbrev full : Limiter plain
full = conn_opened busy 7 "2.2.2.2"

abbrev first_kick : Kick
first_kick = record { uid = 7; taguuid = "n|a"; victim = "1.1.1.1" }

full_valid : LimiterValid full
full_valid = conn_opened-LimiterValid busy 7 "2.2.2.2" busy_valid

abbrev a_round : List Event
a_round = Event.ask_dirty (3 * second) ∷ Event.reset_dirty ∷ []

try_open_conn-run_example :
    let l = run a_round (try_open_conn full (2 * second) 0 7 "n|a" "3.3.3.3" (pos 2)).0 in
    (2 * second + second < 4 * second)
    × (first_kick.uid ≡ 7)
    × IsVictim (local_ips l 7) (global_ips l 7) first_kick.victim
    × (first_kick.victim ≢ "4.4.4.4")
unfolding program
try_open_conn-run_example =
    try_open_conn-run full a_round (2 * second) 0 7 (4 * second) 0 7 "n|a" "3.3.3.3" "n|a" "4.4.4.4"
      (pos 2) (pos 2) first_kick first_kick full_valid refl refl refl

abbrev pushed : Map ℕ (List String)
pushed = (7, "::ffff:1.1.1.1" ∷ []) ∷ []

-- One user with two devices, who connects from a third.
abbrev pair_user : UserInfo
pair_user = record { id = 7; uuid = "a"; speed_limit = pos 8; device_limit = pos 2 }

abbrev three_addresses : List Event
three_addresses =
    check 1 0 "n|a" "1.1.1.1" true
    ∷ check 2 0 "n|a" "2.2.2.2" true
    ∷ check 3 0 "n|a" "3.3.3.3" true
    ∷ close_conn "n|a" "1.1.1.1"
    ∷ []

run-local_ips_example :
    length (
      local_ips
        (run three_addresses
          (new_limiter plain "n" (record { speed_limit = pos 0 }) (pair_user ∷ []) []))
        7)
    ≤ 2
unfolding pure_ip
run-local_ips_example =
    run-local_ips plain "n" (record { speed_limit = pos 0 }) (pair_user ∷ []) [] three_addresses 7 2
      (omega arith) (λ e. refl, tt) (refl, (refl, (refl, (tt, tt))))
