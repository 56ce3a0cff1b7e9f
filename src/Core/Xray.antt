-- ===== src/Core/Xray.antt =====
-- The state that the core keeps about users, and the operations on it: core/xray/user.go, the user
-- part of core/xray/node.go and common/counter/traffic.go. The inbounds are Xray's own.
pub mod Tables
pub mod Reading
pub mod Refusal
use Prim.Native.String.{◌++◌ as ◌+++◌}
use ljfxznode.Common.{
  ℕ, ◌+◌, ◌*◌, Bool, true, false, not, none, some, Option, List, [], ◌∷◌, ◌++◌, String, ℤ, pos,
  ◌+ℤ◌, ltb_ℤ, nat_beq, cut_prefix, text_key, nat_key, if◌then◌else◌, Map, lookup, get, insert,
  delete, length,
}
use ljfxznode.Panel.{UserInfo, UserTraffic, NodeInfo, user_tag}
use ljfxznode.Core.{Core}
use ljfxznode.Core.Accounts.{Account, User, account_builder, build_users}
use ljfxznode.Core.Links.{LinkManager, close_all}

-- Xray's inbounds and outbounds. `false` is an error. `manages_users` is whether `GetUserManager` finds
-- the inbound and it manages users.
pub record Proxy : Type 1 where
  pub State : Type 0
  pub lower : String → String
  pub manages_users : String → State → Bool
  pub add_user : String → User → State → State × Bool
  pub remove_user : String → String → State → State × Bool
  pub add_handlers : String → NodeInfo → State → State × Bool
  pub remove_inbound : String → State → State × Bool
  pub remove_outbound : String → State → State × Bool

-- `TrafficStorage`: byte counts, which do not reach 2 ^ 63.
pub record TrafficStorage : Type 0 where
  pub up : ℕ
  pub down : ℕ

abbrev pub new_storage : TrafficStorage
new_storage = record { up = 0; down = 0 }

abbrev pub Counters : Type 0
Counters = Map String TrafficStorage

pub record Xray (p : Proxy) : Type 0 where
  pub proxy : p.State
  pub uid_map : Map String ℕ
  pub min_traffic : Map String ℤ
  -- `dispatcher.Counter`: tag to user to bytes
  pub counters : Map String Counters
  pub link_managers : Map String LinkManager
  -- the writers closed so far
  pub closed : List ℕ

-- `GetCounter`: the counter, which is made if there is none, and the counters.
unfoldable pub get_counter : String → Counters → TrafficStorage × Counters
get_counter email cs = elim (lookup email cs) [
  | some t ↦ (t, cs)
  | none ↦ (new_storage, insert email new_storage cs)
]

-- The loop of `GetUserTrafficSlice`: the counters after it, and the traffic to report. `meanwhile`
-- is what a connection counts between the load of a counter and its reset.
unfoldable pub read_counters :
    Bool → ℤ → Map String ℕ → (String → TrafficStorage) → Counters → Counters × List UserTraffic
read_counters reset min uids meanwhile [] = ([], [])
read_counters reset min uids meanwhile ((email, t) ∷ cs) =
    let (left, slice) = read_counters reset min uids meanwhile cs in
    let m = meanwhile email in
    let uid = get email 0 uids in
    if not (ltb_ℤ min (pos t.up +ℤ pos t.down))
    then ((email, record { up = t.up + m.up; down = t.down + m.down }) ∷ left, slice)
    else (if nat_beq uid 0 then (left, slice) else (
      (email, if reset then new_storage else record { up = t.up + m.up; down = t.down + m.down })
          ∷ left,
      record { uid = uid; upload = pos t.up; download = pos t.down } ∷ slice,
    ))

-- `nil` for an empty slice.
unfoldable pub or_nil : List UserTraffic → Option (List UserTraffic)
or_nil [] = none
or_nil (t ∷ ts) = some (t ∷ ts)

-- `for i := range p.Users { c.users.uidMap[...] = p.Users[i].Id }`
unfoldable pub store_uids : String → List UserInfo → Map String ℕ → Map String ℕ
unfolding user_tag
store_uids tag [] m = m
store_uids tag (u ∷ us) m = store_uids tag us (insert (user_tag tag u.uuid) u.id m)

-- `strings.HasPrefix(key.(string), tag+"|")`
unfoldable pub is_of_tag : String → String → Bool
unfolding cut_prefix
is_of_tag tag key = elim (cut_prefix (tag +++ "|") key) [ none ↦ false | some _ ↦ true ]

-- The link managers that stay, and the writers closed.
unfoldable pub drop_links : String → Map String LinkManager → Map String LinkManager × List ℕ
unfolding is_of_tag close_all
drop_links tag [] = ([], [])
drop_links tag ((email, m) ∷ rest) =
    let (others, closed) = drop_links tag rest in
    if is_of_tag tag email
    then (others, (close_all m).closed ++ closed)
    else ((email, m) ∷ others, closed)

unfoldable pub add_each : (p : Proxy) → String → List User → p.State → p.State × Bool
add_each p tag [] s = (s, true)
add_each p tag (u ∷ us) s =
    let (s', ok) = p.add_user tag u s in
    let rest = add_each p tag us s' in if ok then rest else (s', false)

module _ {p : Proxy} where
  unfoldable pub get_user_traffic_slice :
      (String → TrafficStorage) → String → Bool → Xray p → Xray p × Option (List UserTraffic)
  unfolding read_counters or_nil
  get_user_traffic_slice meanwhile tag reset x = elim (lookup tag x.counters) [
    | none ↦ (x, none)
    | some cs ↦
        let (left, slice) =
          read_counters reset (get tag (pos 0) x.min_traffic) x.uid_map meanwhile cs in
        (record x { counters = insert tag left x.counters }, or_nil slice)
  ]

  -- A removed user's entries go, and its connections are closed.
  unfoldable pub forget_user : String → String → Xray p → Xray p
  unfolding close_all
  forget_user tag email x = record x {
    uid_map = delete email x.uid_map;
    counters = elim (lookup tag x.counters) [
      | none ↦ x.counters
      | some cs ↦ insert tag (delete email cs) x.counters
    ];
    link_managers = delete email x.link_managers;
    closed = elim (lookup email x.link_managers) [
      | none ↦ x.closed
      | some m ↦ (close_all m).closed ++ x.closed
    ];
  }

  -- The loop of `DelUsers`, which an error ends.
  unfoldable pub del_each : String → List UserInfo → Xray p → Xray p × Bool
  unfolding user_tag forget_user
  del_each tag [] x = (x, true)
  del_each tag (u ∷ us) x =
      let email = user_tag tag u.uuid in
      let (s, ok) = p.remove_user tag email x.proxy in
      let x' = record x { proxy = s } in
      let rest = del_each tag us (forget_user tag email x') in if ok then rest else (x', false)

  unfoldable pub del_users : List UserInfo → String → Xray p → Xray p × Bool
  unfolding del_each
  del_users us tag x = if p.manages_users tag x.proxy then del_each tag us x else (x, false)

  -- The table of ids is written before anything can fail.
  unfoldable pub add_users : String → List UserInfo → NodeInfo → Xray p → Xray p × Option ℕ
  unfolding store_uids add_each account_builder build_users
  add_users tag us n x =
      let x' = record x { uid_map = store_uids tag us x.uid_map } in
      elim (account_builder p.lower n) [
        | none ↦ (x', none)
        | some account ↦
            let users = build_users tag account us in
            let (s, ok) = add_each p tag users x'.proxy in
            if not (p.manages_users tag x'.proxy)
            then (x', none)
            else (record x' { proxy = s }, if ok then some (length users) else none)
      ]

  unfoldable pub del_node : String → Xray p → Xray p × Bool
  unfolding drop_links
  del_node tag x =
      let (s, ok) = p.remove_inbound tag x.proxy in
      let x' = record x { proxy = s } in
      let (s', ok') = p.remove_outbound tag s in
      let x'' = record x { proxy = s' } in
      if not ok
      then (x', false)
      else (if not ok' then (x'', false) else (
        record x'' {
          min_traffic = delete tag x''.min_traffic;
          counters = delete tag x''.counters;
          link_managers = (drop_links tag x''.link_managers).0;
          closed = (drop_links tag x''.link_managers).1 ++ x''.closed;
        },
        true,
      ))

  -- `report_min_traffic` is in kilobytes.
  unfoldable pub add_node : ℕ → String → NodeInfo → Xray p → Xray p × Bool
  add_node report_min_traffic tag n x =
      let x' = record x {
        min_traffic = insert tag (pos (report_min_traffic * 1024)) x.min_traffic;
      } in
      let (s, ok) = p.add_handlers tag n x'.proxy in (record x' { proxy = s }, ok)

-- Xray as a core, when no traffic arrives between the load of a counter and its reset.
unfoldable pub xray_core : Proxy → ℕ → Core
unfolding add_node del_node add_users del_users get_user_traffic_slice
xray_core p report_min_traffic = record {
  State = Xray p;
  add_node = add_node report_min_traffic;
  del_node = del_node;
  add_users = add_users;
  del_users = λ us tag n x. del_users us tag x;
  get_user_traffic_slice = get_user_traffic_slice (λ _. new_storage);
}
