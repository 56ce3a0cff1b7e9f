-- ===== src/Panel/Json.antt =====
-- JSON values and what encoding/json makes of them in api/panel: `null` leaves the zero value, a value
-- of the wrong kind is an error, and of two fields with one name the later counts. Names of fields are
-- compared as they stand.
use ljfxznode.Common.{
  ℕ, ◌^◌, Bool, Option, none, some, List, [], ◌∷◌, String, ℤ, pos, negsuc, to_bits, ltb, ◌==◌,
  ◌>>=◌, text_key, if◌then◌else◌, Map,
}
use ljfxznode.Common.Decimal.{atoi, no_number, out_of_range, parsed}

-- A number that is no integer is given by its sign and its integral part.
mutual
  pub data Json : Type 0 where
    null : Json
    boolean : Bool → Json
    int : ℤ → Json
    float : Bool → ℕ → Json
    text : String → Json
    array : Items → Json
    object : Fields → Json

  pub data Items : Type 0 where
    end : Items
    item : Json → Items → Items

  pub data Fields : Type 0 where
    done : Fields
    field : String → Json → Fields → Fields

unfoldable pub field_of : String → Fields → Option Json
field_of name done = none
field_of name (field k v rest) = elim (field_of name rest) [
  | some later ↦ some later
  | none ↦ if k == name then some v else none
]

-- The entry of a Go map, unless a later one has the key.
abbrev pub unless_later {κ} : {K : Type κ} {V : Type 0} → Option V → K → V → Map K V → Map K V
unless_later none k v m = (k, v) ∷ m
unless_later (some later) k v m = m

-- An `int`: its bit pattern.
unfoldable pub decode_int : Json → Option ℕ
unfolding to_bits
decode_int null = some 0
decode_int (int (pos n)) = if ltb n (2 ^ 63) then some (to_bits (pos n)) else none
decode_int (int (negsuc n)) = if ltb n (2 ^ 63) then some (to_bits (negsuc n)) else none
decode_int _ = none

unfoldable pub decode_text : Json → Option String
decode_text null = some ""
decode_text (text s) = some s
decode_text _ = none

unfoldable pub decode_items : Items → Option (List String)
unfolding decode_text
decode_items end = some []
decode_items (item v rest) = do s ← decode_text v; others ← decode_items rest; some (s ∷ others)

-- `[]string`
unfoldable pub decode_texts : Json → Option (List String)
unfolding decode_items
decode_texts null = some []
decode_texts (array xs) = decode_items xs
decode_texts _ = none

-- A field that is not there leaves the zero value, as `null` does.
abbrev pub or_null : Option Json → Json
or_null none = null
or_null (some v) = v

-- The key of a `map[int]`, and `strconv.Atoi`.
unfoldable pub parse_key : String → Option ℕ
unfolding atoi to_bits
parse_key k = elim (atoi k) [
  | parsed z ↦ some (to_bits z)
  | out_of_range z ↦ none
  | no_number ↦ none
]
