-- ===== src/Panel/Socket/Devices.antt =====
-- The device lists of `SendDeviceReport` and `sync.devices`: what is sent is read back.
use ljfxznode.Common.{
  ℕ, ◌^◌, ◌<◌, ◌≡◌, refl, ap, some, List, [], ◌∷◌, String, pos, from_bits, from_bits_small, to_bits,
  lt→ltb, text_key, nat_key, IsMap, AllEntries, arith,
}
use ljfxznode.Common.Decimal.{decimal, atoi-decimal}
use ljfxznode.Panel.Json.{
  Json, int, text, array, object, Items, end, item, Fields, done, field, field_of, decode_int,
  decode_text, decode_items, decode_texts, parse_key,
}
use ljfxznode.Panel.Socket.{Devices, itoa, decode_users, decode_strict, decode_sync_devices}

-- `json.Marshal` of a list of texts, and of a `map[int][]string`.
unfoldable pub marshal_items : List String → Items
marshal_items [] = end
marshal_items (s ∷ rest) = item (text s) (marshal_items rest)

unfoldable pub marshal_devices : Devices → Fields
unfolding marshal_items itoa
marshal_devices [] = done
marshal_devices ((uid, ips) ∷ m) =
    field (itoa (from_bits uid)) (array (marshal_items ips)) (marshal_devices m)

-- A user id is an `int` that is not negative.
abbrev pub Small : ℕ → List String → Type 0
Small uid ips = uid < 2 ^ 63

abbrev pub SmallDevices : Devices → Type 0
SmallDevices m = AllEntries Small m

pub parse_key-decimal : (n : ℕ) → n < 2 ^ 63 → parse_key (decimal n) ≡ some n
unfolding parse_key to_bits
parse_key-decimal n h = rw (atoi-decimal n h, parse_key) (ap some (omega arith))

parse_key-itoa : (n : ℕ) → n < 2 ^ 63 → parse_key (itoa (from_bits n)) ≡ some n
unfolding itoa
parse_key-itoa n h = rw (from_bits_small n h) (parse_key-decimal n h)

decode_items-marshal : (ips : List String) → decode_items (marshal_items ips) ≡ some ips
unfolding decode_items decode_text marshal_items
decode_items-marshal [] = refl
decode_items-marshal (s ∷ rest) = rw (decode_items-marshal rest) refl

decode_users-marshal :
    (m : Devices) → IsMap m → SmallDevices m → decode_users (marshal_devices m) ≡ some m
unfolding decode_users marshal_devices decode_texts
decode_users-marshal [] d h = refl
decode_users-marshal ((uid, ips) ∷ m) d h =
    rw (parse_key-itoa uid h.0, decode_items-marshal ips, decode_users-marshal m d.1 h.1, d.0) refl

-- The panel's push of the devices that it holds.
unfoldable pub push_devices : ℕ → ℕ → Devices → Json
unfolding marshal_devices
push_devices time node m = object (
    field "users" (object (marshal_devices m))
      (field "timestamp" (int (pos time)) (field "node_id" (int (pos node)) done)))

decode_int_small : (n : ℕ) → n < 2 ^ 63 → decode_int (int (pos n)) ≡ some (to_bits (pos n))
unfolding decode_int
decode_int_small n h = rw (lt→ltb n (2 ^ 63) h) refl

decode_strict-push_devices :
    (time node : ℕ) (m : Devices)
    → time < 2 ^ 63
    → node < 2 ^ 63
    → IsMap m
    → SmallDevices m
    → decode_strict (push_devices time node m) ≡ some m
unfolding decode_strict push_devices field_of
decode_strict-push_devices time node m t n d h =
    rw (decode_int_small time t, decode_int_small node n) (decode_users-marshal m d h)

-- The devices that the panel pushes as lists, as a node reports them, are those that the client hands
-- on: ids and times are an `int`, and each user stands once.
pub decode_sync_devices-push_devices :
    (time node : ℕ) (m : Devices)
    → time < 2 ^ 63
    → node < 2 ^ 63
    → IsMap m
    → SmallDevices m
    → decode_sync_devices (some (push_devices time node m)) ≡ some m
unfolding decode_sync_devices
decode_sync_devices-push_devices time node m t n d h =
    rw (decode_strict-push_devices time node m t n d h, decode_sync_devices) refl
