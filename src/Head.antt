-- ===== src/Head.antt =====
-- internal/backend/head.go, and the block information that internal/backend/cache.go reads from
-- responses: block numbers in requests and responses, and errors in responses.
pub mod Unavailable
use sabre.Common.{
  ℕ, ◌+◌, ◌*◌, ◌^◌, Bool, true, false, not, ◌&&◌, ◌||◌, List, [], ◌∷◌, Option, none, some, ltb,
  ◌==◌, if◌then◌else◌, get_elem?, drop, Text, codes, text_eq, is_empty, hex_value,
}
use sabre.Json.{
  Json, Raw, absent, json, lower, raws, unmarshal_string, unmarshal_array, unmarshal_object,
  struct_field, string_of, map_string, Fields,
}

unfoldable pub starts_with : Text → Text → Bool
starts_with [] s = true
starts_with (p ∷ ps) [] = false
starts_with (p ∷ ps) (c ∷ cs) = p == c && starts_with ps cs

-- strings.Contains(s, sub)
unfoldable pub contains : Text → Text → Bool
unfolding starts_with
contains sub [] = is_empty sub
contains sub (c ∷ cs) = starts_with sub (c ∷ cs) || contains sub cs

unfoldable pub add_digit : Option ℕ → ℕ → Option ℕ
add_digit none acc = none
add_digit (some d) acc = some (acc * 16 + d)

unfoldable pub hex_digits : ℕ → Text → Option ℕ
unfolding add_digit hex_value
hex_digits acc [] = some acc
hex_digits acc (c ∷ cs) = elim (add_digit (hex_value c) acc) [
  | none ↦ none
  | some n ↦ hex_digits n cs
]

unfoldable pub in_uint64 : ℕ → Option ℕ
in_uint64 n = if ltb n (2 ^ 64) then some n else none

-- strconv.ParseUint(s, 16, 64)
unfoldable pub parse_uint_hex : Text → Option ℕ
unfolding hex_digits in_uint64
parse_uint_hex [] = none
parse_uint_hex (c ∷ cs) = elim (hex_digits 0 (c ∷ cs)) [ none ↦ none | some n ↦ in_uint64 n ]

unfoldable pub has_hex_prefix : Text → Bool
unfolding starts_with
has_hex_prefix s = starts_with (codes "0x") s || starts_with (codes "0X") s

unfoldable pub quantity_of_text : Text → Option ℕ
unfolding has_hex_prefix parse_uint_hex
quantity_of_text s = if has_hex_prefix s then parse_uint_hex (drop 2 s) else none

abbrev pub or_zero : Option ℕ → ℕ
or_zero none = 0
or_zero (some n) = n

-- quantityFromRaw
unfoldable pub quantity_from_raw : Raw → ℕ
unfolding quantity_of_text unmarshal_string
quantity_from_raw raw = elim (unmarshal_string raw) [
  | none ↦ 0
  | some s ↦ or_zero (quantity_of_text s)
]

abbrev pub is_some {ℓ} : {A : Type ℓ} → Option A → Bool
is_some none = false
is_some (some a) = true

-- isQuantity of cache.go
unfoldable pub is_quantity : Raw → Bool
unfolding quantity_of_text unmarshal_string
is_quantity raw = elim (unmarshal_string raw) [
  | none ↦ false
  | some s ↦ is_some (quantity_of_text s)
]

-- The position of the block parameter, for the methods that have one.
unfoldable pub block_param_index : Text → Option ℕ
block_param_index m =
    if text_eq m (codes "eth_getBalance")
      || text_eq m (codes "eth_getCode")
      || text_eq m (codes "eth_getTransactionCount")
      || text_eq m (codes "eth_call")
    then some 1
    else if text_eq m (codes "eth_getStorageAt") || text_eq m (codes "eth_getProof")
    then some 2
    else if text_eq m (codes "eth_getBlockByNumber")
        || text_eq m (codes "eth_getBlockTransactionCountByNumber")
        || text_eq m (codes "debug_traceBlockByNumber")
    then some 0
    else none

-- The item at a position of a params array, where both are there.
unfoldable pub param_at : Raw → ℕ → Option Raw
unfolding unmarshal_array
param_at params idx = elim (unmarshal_array params) [
  | none ↦ none
  | some items ↦ get_elem? items idx
]

-- The members of the first filter of eth_getLogs. The filters after it only have to be objects.
unfoldable pub all_objects : List Raw → Bool
unfolding unmarshal_object
all_objects [] = true
all_objects (r ∷ rs) = is_some (unmarshal_object r) && all_objects rs

unfoldable pub first_filter : Raw → Option Fields
unfolding unmarshal_array all_objects
first_filter params = elim (unmarshal_array params) [
  | none ↦ none
  | some [] ↦ none
  | some (r ∷ rs) ↦ if all_objects rs then unmarshal_object r else none
]

-- RequiredHead
unfoldable pub required_head : Text → Raw → ℕ
unfolding quantity_from_raw block_param_index param_at first_filter struct_field
required_head method params =
    if text_eq method (codes "eth_getLogs")
    then elim (first_filter params) [
      | none ↦ 0
      | some fs ↦ quantity_from_raw (struct_field (codes "toBlock") fs)
    ]
    else elim (block_param_index method) [
      | none ↦ 0
      | some idx ↦ elim (param_at params idx) [ none ↦ 0 | some raw ↦ quantity_from_raw raw ]
    ]

-- The "result" member of a response; absent where Unmarshal fails.
unfoldable pub result_of : Raw → Raw
unfolding unmarshal_object struct_field
result_of response = elim (unmarshal_object response) [
  | none ↦ absent
  | some fs ↦ struct_field (codes "result") fs
]

unfoldable pub block_number_of : Option Text → ℕ
unfolding parse_uint_hex starts_with
block_number_of none = 0
block_number_of (some s) =
    if starts_with (codes "0x") s then or_zero (parse_uint_hex (drop 2 s)) else 0

abbrev pub or_empty : Option Text → Text
or_empty none = []
or_empty (some s) = s

-- ExtractBlockInfo
unfoldable pub extract_block_info : Raw → ℕ × Text
unfolding result_of block_number_of map_string unmarshal_object
extract_block_info response = elim (unmarshal_object (result_of response)) [
  | none ↦ (0, [])
  | some fs ↦
      (block_number_of (map_string (codes "number") fs), or_empty (map_string (codes "hash") fs))
]

-- extractParentHashFromBlockData
unfoldable pub extract_parent_hash : Raw → Text
unfolding result_of map_string unmarshal_object
extract_parent_hash block_data = elim (unmarshal_object (result_of block_data)) [
  | none ↦ []
  | some fs ↦ or_empty (map_string (codes "parentHash") fs)
]

-- HeadFromResponse
unfoldable pub head_from_response : Raw → Option ℕ
unfolding result_of quantity_from_raw extract_block_info
head_from_response response =
    let n = quantity_from_raw (result_of response) in
    let m = (extract_block_info response).0 in
    if ltb 0 n then some n else if ltb 0 m then some m else none

-- A member that is there and is not null.
unfoldable pub non_null : Raw → Option Raw
non_null (json Json.null) = none
non_null (json j) = some (json j)
non_null _ = none

-- errorField
unfoldable pub error_field : Raw → Option Raw
unfolding unmarshal_object struct_field non_null
error_field response = elim (unmarshal_object response) [
  | none ↦ none
  | some fs ↦ non_null (struct_field (codes "error") fs)
]

-- IsErrorResponse
unfoldable pub is_error_response : Raw → Bool
unfolding error_field
is_error_response response = is_some (error_field response)

-- Cacheable
unfoldable pub cacheable : Raw → Bool
unfolding result_of non_null is_error_response
cacheable response = is_some (non_null (result_of response)) && not (is_error_response response)
