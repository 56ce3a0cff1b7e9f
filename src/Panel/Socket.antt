-- ===== src/Panel/Socket.antt =====
-- api/panel/ws.go: what the client of the panel's WebSocket does with a message, and what it sends. The
-- order of a Go map is that of the list that models it.
pub mod Devices
pub mod Queue
pub mod Channels
pub mod Numbered
pub mod Indexed
pub mod Backoff
pub mod Delivery
use Prim.Native.String.{◌++◌}
use ljfxznode.Common.{
  ℕ, suc, ◌+◌, ◌^◌, Bool, true, false, Option, none, some, List, [], ◌∷◌, String, ℤ, pos, negsuc,
  leb_ℤ, ltb, not, ◌&&◌, ◌==◌, ◌>>=◌, text_key, nat_key, if◌then◌else◌, Map, lookup, get, map,
}
use ljfxznode.Common.Decimal.{atoi, no_number, out_of_range, parsed, decimal}
use ljfxznode.Common.Sorting.{sort_by}
use ljfxznode.Panel.{UserInfo}
use ljfxznode.Panel.Json.{
  Json, null, text, array, object, Items, end, item, Fields, done, field, field_of, unless_later,
  decode_int, decode_text, decode_texts, or_null, parse_key,
}

-- `map[int][]string`
abbrev pub Devices : Type 0
Devices = Map ℕ (List String)

-- The strict decoding of `users`.
unfoldable pub decode_users : Fields → Option Devices
unfolding parse_key decode_texts
decode_users done = some []
decode_users (field k v rest) = do
  uid ← parse_key k
  ips ← decode_texts v
  others ← decode_users rest
  some (unless_later (lookup uid others) uid ips others)

-- `strict.Users`, where it is not nil.
abbrev pub strict_users : Json → Option Devices
strict_users (object users) = decode_users users
strict_users _ = none

-- The strong decoding; `none` is an error, or that `Users` is nil.
unfoldable pub decode_strict : Json → Option Devices
unfolding decode_users
decode_strict (object payload) = do
  timestamp ← decode_int (or_null (field_of "timestamp" payload))
  node ← decode_int (or_null (field_of "node_id" payload))
  strict_users (or_null (field_of "users" payload))
decode_strict _ = none

-- `map[string]json.RawMessage`, the field `users` of a payload.
abbrev pub raw_users : Json → Option Fields
raw_users null = some done
raw_users (object users) = some users
raw_users _ = none

unfoldable pub decode_lax : Json → Option Fields
decode_lax null = some done
decode_lax (object payload) = raw_users (or_null (field_of "users" payload))
decode_lax _ = none

-- `map[string]string`
unfoldable pub decode_named : Fields → Option (Map String String)
decode_named done = some []
decode_named (field k v rest) = do
  s ← decode_text v
  others ← decode_named rest
  some (unless_later (lookup k others) k s others)

-- The keys that are numbers.
unfoldable pub int_keys : Map String String → List ℤ
unfolding atoi
int_keys [] = []
int_keys ((k, s) ∷ m) =
    let rest = int_keys m in
    elim (atoi k) [ parsed z ↦ z ∷ rest | out_of_range z ↦ rest | no_number ↦ rest ]

-- `strconv.Itoa`
unfoldable pub itoa : ℤ → String
unfolding decimal
itoa (pos n) = decimal n
itoa (negsuc n) = "-" ++ decimal (suc n)

-- `ips = append(ips, ipMap[strconv.Itoa(k)])`
unfoldable pub pick_ips : Map String String → List ℤ → List String
unfolding itoa
pick_ips m [] = []
pick_ips m (k ∷ ks) = get (itoa k) "" m ∷ pick_ips m ks

-- The object's addresses in the order of their numbers.
unfoldable pub ordered_ips : Map String String → List String
unfolding int_keys pick_ips sort_by
ordered_ips m = pick_ips m (sort_by leb_ℤ (int_keys m))

-- A list, else an object, else a single text.
unfoldable pub lax_ips : Json → Option (List String)
unfolding decode_named ordered_ips decode_texts
lax_ips null = decode_texts null
lax_ips (text s) = some (s ∷ [])
lax_ips (array xs) = decode_texts (array xs)
lax_ips (object fs) = do m ← decode_named fs; some (ordered_ips m)
lax_ips _ = none

-- The entry of a user, where its key and its value can be read.
abbrev pub lax_entry : Option ℕ → Option (List String) → Devices → Devices
lax_entry none ips out = out
lax_entry (some uid) none out = out
lax_entry (some uid) (some ips) out = unless_later (lookup uid out) uid ips out

unfoldable pub lax_users : Fields → Devices
unfolding parse_key lax_ips
lax_users done = []
lax_users (field k v rest) = lax_entry (parse_key k) (lax_ips v) (lax_users rest)

-- `none` is an error, as it is for a message without a payload.
unfoldable pub decode_sync_devices : Option Json → Option Devices
unfolding decode_strict decode_lax lax_users
decode_sync_devices none = none
decode_sync_devices (some raw) = elim (decode_strict raw) [
  | some users ↦ some users
  | none ↦ do users ← decode_lax raw; some (lax_users users)
]

-- `UserInfo`, of which `null` is the zero value.
abbrev pub or_done : Json → Option Fields
or_done null = some done
or_done (object fs) = some fs
or_done _ = none

-- A limit, as a signed number.
abbrev pub decode_limit : Json → Option ℤ
decode_limit null = some (pos 0)
decode_limit (Json.int (pos n)) = if ltb n (2 ^ 63) then some (pos n) else none
decode_limit (Json.int (negsuc n)) = if ltb n (2 ^ 63) then some (negsuc n) else none
decode_limit _ = none

unfoldable pub decode_user : Json → Option UserInfo
decode_user v = do
  fs ← or_done v
  id ← decode_int (or_null (field_of "id" fs))
  uuid ← decode_text (or_null (field_of "uuid" fs))
  speed ← decode_limit (or_null (field_of "speed_limit" fs))
  devices ← decode_limit (or_null (field_of "device_limit" fs))
  some (record { id = id; uuid = uuid; speed_limit = speed; device_limit = devices })

unfoldable pub decode_user_items : Items → Option (List UserInfo)
unfolding decode_user
decode_user_items end = some []
decode_user_items (item v rest) = do
  u ← decode_user v
  others ← decode_user_items rest
  some (u ∷ others)

abbrev pub decode_user_list : Json → Option (List UserInfo)
decode_user_list null = some []
decode_user_list (array xs) = decode_user_items xs
decode_user_list _ = none

-- `u.Id > 0`, on the bit pattern.
abbrev pub is_positive : ℕ → Bool
is_positive id = ltb 0 id && ltb id (2 ^ 63)

unfoldable pub positive_ids : List UserInfo → List ℕ
positive_ids [] = []
positive_ids (u ∷ us) = let rest = positive_ids us in if is_positive u.id then u.id ∷ rest else rest

-- A call of one of the client's callbacks.
pub data Callback : Type 0 where
  on_device : Devices → Callback
  on_remove_users : List ℕ → Callback
  on_add_users : List UserInfo → Callback
  on_kick : String → String → Callback

-- A list that is empty is not handed on.
abbrev pub unless_empty {ℓ} : {A : Type ℓ} → (List A → Callback) → List A → Option Callback
unless_empty call [] = none
unless_empty call (a ∷ rest) = some (call (a ∷ rest))

unfoldable pub handle_delta : String → List UserInfo → Option Callback
unfolding positive_ids
handle_delta action users =
    if action == "add"
    then unless_empty on_add_users users
    else (if action == "remove" then unless_empty on_remove_users (positive_ids users) else none)

-- `wsMessage`; the payload is none where `data` is not there, and the timestamp 0.
pub record Message : Type 0 where
  pub event : String
  pub payload : Option Json
  pub timestamp : ℕ

unfoldable pub decode_delta : Json → Option Callback
unfolding decode_user_items handle_delta
decode_delta v = do
  fs ← or_done v
  action ← decode_text (or_null (field_of "action" fs))
  users ← decode_user_list (or_null (field_of "users" fs))
  handle_delta action users

unfoldable pub decode_kick : Json → Option Callback
decode_kick v = do
  fs ← or_done v
  email ← decode_text (or_null (field_of "email" fs))
  ip ← decode_text (or_null (field_of "ip" fs))
  if ip == "" then none else some (on_kick email ip)

-- `handleMessage`, when all callbacks are set: the callback it makes, if it makes one.
unfoldable pub handle_message : Message → Option Callback
unfolding decode_sync_devices decode_delta decode_kick
handle_message msg =
    if msg.event == "sync.devices"
    then (do users ← decode_sync_devices msg.payload; some (on_device users))
    else (if msg.event == "sync.user.delta"
        then (msg.payload >>= decode_delta)
        else (if msg.event == "sync.kick" then (msg.payload >>= decode_kick) else none))
