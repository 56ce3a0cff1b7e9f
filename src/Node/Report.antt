-- ===== src/Node/Report.antt =====
-- The reports to the panel: `reportUserTrafficTask` of node/user.go, and `reportDevicesTask` with
-- `devicesHash` of node/controller.go.
pub mod Traffic
pub mod Devices
pub mod Body
pub mod Received
mod Tests
use Prim.Native.String.{◌++◌ as ◌+++◌, compare as compare_text}
use Prim.Native.Nat.{Ordering}
use ljfxznode.Common.{
  ℕ, ◌+◌, ◌*◌, Bool, true, false, not, ◌&&◌, ◌||◌, none, some, Option, List, [], ◌∷◌, ◌++◌, String,
  ℤ, pos, pos_part, ltb_ℤ, from_bits, to_bits, leb_ℤ, ◌==◌, text_key, nat_key, contains,
  if◌then◌else◌, Map, get, insert,
}
use ljfxznode.Common.Sorting.{sort_by}
use ljfxznode.Panel.{OnlineUser, UserTraffic}
use ljfxznode.Core.{Core}
use ljfxznode.Limiter.State.{Externals, Limiter}
use ljfxznode.Limiter.Cooldown.{devices_dirty, reset_devices_dirty}
use ljfxznode.Limiter.Devices.{get_online_device, local_device_snapshot}
use ljfxznode.Panel.Socket.{itoa}
use ljfxznode.Node.Controller.{Controller}

-- A user's traffic, added as `int64`s, and the least that counts, in kilobytes.
unfoldable pub below : ℤ → UserTraffic → Bool
below min t =
    ltb_ℤ (from_bits (to_bits t.upload + to_bits t.download)) (from_bits (pos_part min * 1000))

-- `nocountUID`
unfoldable pub low_users : ℤ → List UserTraffic → List ℕ
unfolding below
low_users min [] = []
low_users min (t ∷ ts) =
    let rest = low_users min ts in if ltb_ℤ (pos 0) min && below min t then t.uid ∷ rest else rest

unfoldable pub reportable : List ℕ → List OnlineUser → List OnlineUser
reportable low [] = []
reportable low (o ∷ os) =
    let rest = reportable low os in if contains o.uid low then rest else o ∷ rest

-- `data[uid] = append(data[uid], ip)`
unfoldable pub group_online : List OnlineUser → Map ℕ (List String) → Map ℕ (List String)
group_online [] grouped = grouped
group_online (o ∷ os) grouped =
    group_online os (insert o.uid (get o.uid [] grouped ++ o.ip ∷ []) grouped)

-- What a round sends, and what the panel answers to the traffic.
pub record Sent : Type 0 where
  pub traffic : List UserTraffic
  pub accepted : Bool
  -- `none` when nothing is reported
  pub online : Option (Map ℕ (List String))

abbrev pub or_none : Option (List UserTraffic) → List UserTraffic
or_none none = []
or_none (some ts) = ts

abbrev pub is_nil : List UserTraffic → Bool
is_nil [] = true
is_nil (t ∷ ts) = false

module _ {x : Externals} {core : Core} where
  -- The REST report of online users, which the WebSocket replaces while it is up.
  unfoldable pub online_report :
      Bool → List UserTraffic → Controller x core → Option (Map ℕ (List String))
  unfolding low_users reportable group_online get_online_device
  online_report ws_connected ts c =
      let low = low_users c.options.device_online_min_traffic ts in
      elim (get_online_device c.limiter) [
        | [] ↦ none
        | o ∷ os ↦ if ws_connected then none else some (group_online (reportable low (o ∷ os)) [])
      ]

  -- `panel_ok` is whether the panel takes the traffic.
  unfoldable pub report_user_traffic : Bool → Bool → Controller x core → Controller x core × Sent
  unfolding online_report
  report_user_traffic panel_ok ws_connected c =
      let (s, slice) = core.get_user_traffic_slice c.tag true c.server in
      let ts = or_none slice ++ c.pending_traffic in
      let failed = not (is_nil ts) && not panel_ok in
      let c' = record c { server = s; pending_traffic = if failed then ts else [] } in
      (
        c',
        record {
          traffic = ts;
          accepted = not (is_nil ts) && panel_ok;
          online = online_report ws_connected ts c';
        },
      )

unfoldable pub leb_text : String → String → Bool
leb_text a b = elim (compare_text a b) [ Ordering.gt ↦ false | _ ↦ true ]

-- `sort.Ints`, on the numbers that the bit patterns stand for.
abbrev pub leb_uid : ℕ × List String → ℕ × List String → Bool
leb_uid a b = leb_ℤ (from_bits a.0) (from_bits b.0)

-- `sort.Strings` sorts the slices in place, so that the report that is sent has them in order too.
unfoldable pub sorted_devices : Map ℕ (List String) → Map ℕ (List String)
unfolding sort_by leb_text
sorted_devices [] = []
sorted_devices ((uid, ips) ∷ m) = (uid, sort_by leb_text ips) ∷ sorted_devices m

unfoldable pub write_ips : List String → String
write_ips [] = ";"
write_ips (ip ∷ ips) = (ip +++ ",") +++ write_ips ips

unfoldable pub write_devices : Map ℕ (List String) → String
unfolding write_ips itoa
write_devices [] = ""
write_devices ((uid, ips) ∷ m) =
    ((itoa (from_bits uid) +++ ":") +++ write_ips ips) +++ write_devices m

-- `digest` is sha256 in hexadecimal.
unfoldable pub devices_hash : (String → String) → Map ℕ (List String) → String
unfolding write_devices sort_by sorted_devices
devices_hash digest m = digest (write_devices (sort_by leb_uid (sorted_devices m)))

abbrev pub is_empty_map : Map ℕ (List String) → Bool
is_empty_map [] = true
is_empty_map (e ∷ m) = false

module _ {x : Externals} {core : Core} (digest : String → String) where
  -- The report that a round sends, if any, and the state when `sent` says whether the queue takes it.
  unfoldable pub report_snapshot :
      Map ℕ (List String)
      → Bool
      → Controller x core
      → Controller x core × Option (Map ℕ (List String))
  unfolding devices_hash reset_devices_dirty sorted_devices
  report_snapshot [] sent c =
      if c.last_report_devices_hash == ""
      then (record c { limiter = reset_devices_dirty c.limiter }, none)
      else (if sent
          then (
            record c { last_report_devices_hash = ""; limiter = reset_devices_dirty c.limiter },
            some [],
          )
          else (c, none))
  report_snapshot (e ∷ m) sent c =
      let hash = devices_hash digest (e ∷ m) in
      if hash == c.last_report_devices_hash
      then (record c { limiter = reset_devices_dirty c.limiter }, none)
      else (if sent
          then (
            record c { last_report_devices_hash = hash; limiter = reset_devices_dirty c.limiter },
            some (sorted_devices (e ∷ m)),
          )
          else (c, none))

  unfoldable pub report_devices :
      ℕ → ℕ → Bool → Bool → Controller x core → Controller x core × Option (Map ℕ (List String))
  unfolding devices_dirty report_snapshot local_device_snapshot
  report_devices now later ws_connected sent c =
      let (l, dirty) = devices_dirty c.limiter now in
      let c' = record c { limiter = l } in
      if not ws_connected
      then (c, none)
      else (if not dirty && not (c'.last_report_devices_hash == "")
          then (c', none)
          else report_snapshot (local_device_snapshot c'.limiter later) sent c')

  -- A new WebSocket connection forces a report.
  unfoldable pub ws_status : Bool → Controller x core → Controller x core
  ws_status connected c = if connected then record c { last_report_devices_hash = "" } else c
