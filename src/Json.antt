-- ===== src/Json.antt =====
-- encoding/json as the source uses it. A json.RawMessage or a response body is `absent` (no bytes),
-- `malformed` (bytes that are no JSON value) or the JSON value that its bytes denote; a number keeps
-- its literal. The functions are Unmarshal into the Go types that the source names.
use sabre.Common.{
  ℕ, ◌+◌, Bool, ◌&&◌, List, [], ◌∷◌, Option, none, some, leb, if◌then◌else◌, Text, text_eq,
}

mutual
  pub data Json : Type 0 where
    null : Json
    bool : Bool → Json
    num : Text → Json
    str : Text → Json
    arr : Items → Json
    obj : Fields → Json

  pub data Items : Type 0 where
    nil : Items
    cons : Json → Items → Items

  pub data Fields : Type 0 where
    end : Fields
    field : Text → Json → Fields → Fields

pub data Raw : Type 0 where
  absent : Raw
  malformed : Raw
  json : Json → Raw

-- Struct fields are matched without regard to case.
unfoldable pub lower_byte : ℕ → ℕ
lower_byte c = if leb b'A' c && leb c b'Z' then c + 32 else c

unfoldable pub lower : Text → Text
unfolding lower_byte
lower [] = []
lower (c ∷ cs) = lower_byte c ∷ lower cs

unfoldable pub raws : Items → List Raw
raws nil = []
raws (cons j js) = json j ∷ raws js

-- var s string; Unmarshal(raw, &s)
unfoldable pub unmarshal_string : Raw → Option Text
unmarshal_string (json (str s)) = some s
unmarshal_string (json null) = some []
unmarshal_string _ = none

-- var items []json.RawMessage; Unmarshal(raw, &items)
unfoldable pub unmarshal_array : Raw → Option (List Raw)
unfolding raws
unmarshal_array (json (arr items)) = some (raws items)
unmarshal_array (json null) = some []
unmarshal_array _ = none

-- The members of an object, for Unmarshal into a struct or a map.
unfoldable pub unmarshal_object : Raw → Option Fields
unmarshal_object (json (obj fs)) = some fs
unmarshal_object (json null) = some end
unmarshal_object _ = none

unfoldable pub first_raw : Raw → Raw → Raw
first_raw (json j) other = json j
first_raw _ other = other

-- A field of type json.RawMessage; of repeated members the last one counts.
unfoldable pub struct_field : Text → Fields → Raw
unfolding lower first_raw
struct_field name end = absent
struct_field name (field k v fs) =
    first_raw (struct_field name fs) (if text_eq (lower k) (lower name) then json v else absent)

-- A field of type string that one member gives at most: none is an error of the whole Unmarshal.
unfoldable pub string_of : Raw → Option Text
string_of absent = some []
string_of (json null) = some []
string_of (json (str s)) = some s
string_of _ = none

unfoldable pub assigned : Json → Option Text → Option Text
assigned null before = before
assigned (str s) (some before) = some s
assigned _ before = none

unfoldable pub string_from : Text → Fields → Option Text → Option Text
unfolding lower assigned
string_from name end before = before
string_from name (field k v fs) before =
    string_from name fs (if text_eq (lower k) (lower name) then assigned v before else before)

-- A field of type string: null leaves what an earlier member gave, and none, for a member of another
-- type, is an error of the whole Unmarshal.
unfoldable pub string_field : Text → Fields → Option Text
unfolding string_from
string_field name fs = string_from name fs (some [])

-- m[name] of a map[string]any; of repeated members the last one counts.
unfoldable pub map_entry : Text → Fields → Option Json
map_entry name end = none
map_entry name (field k v fs) = elim (map_entry name fs) [
  | some j ↦ some j
  | none ↦ if text_eq k name then some v else none
]

-- m[name].(string)
unfoldable pub map_string : Text → Fields → Option Text
unfolding map_entry
map_string name fs = elim (map_entry name fs) [ some (str s) ↦ some s | _ ↦ none ]
