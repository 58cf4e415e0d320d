-- ===== src/Cache/Ttl.antt =====
-- internal/backend/cache.go: how long an answer is kept, TTL and AnswerTTL, and the block that an
-- answer was read from, ResponseBlock.
pub mod Pinned
pub mod Final
use sabre.Common.{
  ℕ, Bool, true, false, not, ◌&&◌, ◌||◌, List, [], ◌∷◌, Option, none, some, ltb, ◌==◌,
  if◌then◌else◌, Text, codes, text_eq, is_empty,
}
use sabre.Multicall.Word.{slt}
use sabre.Config.{CacheConfig}
use sabre.Json.{Raw, Fields, unmarshal_array, unmarshal_object, struct_field, string_field}
use sabre.Head.{
  is_some, quantity_from_raw, is_quantity, block_param_index, param_at, result_of, cacheable,
}

-- The string member of an EIP-1898 object or a filter, where Unmarshal succeeds.
unfoldable pub block_object : Option Text → Raw → Bool
block_object none number = false
block_object (some hash) number = not (is_empty hash) || is_quantity number

-- namesBlock
unfoldable pub names_block : Raw → Bool
unfolding block_object
names_block raw = if is_quantity raw then true else elim (unmarshal_object raw) [
  | none ↦ false
  | some fs ↦
      block_object (string_field (codes "blockHash") fs) (struct_field (codes "blockNumber") fs)
]

-- pinnedToBlock
unfoldable pub pinned_to_block : Text → Raw → Bool
pinned_to_block method params = elim (block_param_index method) [
  | none ↦ false
  | some idx ↦ elim (param_at params idx) [ none ↦ false | some raw ↦ names_block raw ]
]

-- Every filter is an object whose blockHash is a string.
unfoldable pub are_filters : List Raw → Bool
are_filters [] = true
are_filters (r ∷ rs) = elim (unmarshal_object r) [
  | none ↦ false
  | some fs ↦ is_some (string_field (codes "blockHash") fs) && are_filters rs
]

unfoldable pub filter_pinned : Option Fields → Bool
filter_pinned none = false
filter_pinned (some fs) = elim (string_field (codes "blockHash") fs) [
  | none ↦ false
  | some hash ↦
      not (is_empty hash)
      || (is_quantity (struct_field (codes "fromBlock") fs)
          && is_quantity (struct_field (codes "toBlock") fs))
]

-- logsPinned
unfoldable pub logs_pinned : Raw → Bool
unfolding are_filters filter_pinned
logs_pinned params = elim (unmarshal_array params) [
  | none ↦ false
  | some [] ↦ false
  | some (r ∷ rs) ↦ if are_filters rs then filter_pinned (unmarshal_object r) else false
]

-- The methods whose block parameter decides.
unfoldable pub reads_state : Text → Bool
reads_state m =
    text_eq m (codes "eth_getBlockByNumber")
    || text_eq m (codes "eth_getBalance")
    || text_eq m (codes "eth_getCode")
    || text_eq m (codes "eth_getStorageAt")
    || text_eq m (codes "eth_call")

-- answersWithInclusion
unfoldable pub answers_with_inclusion : Text → Bool
answers_with_inclusion m =
    text_eq m (codes "eth_getTransactionByHash") || text_eq m (codes "eth_getTransactionReceipt")

unfoldable pub by_hash : Text → Bool
unfolding answers_with_inclusion
by_hash m = text_eq m (codes "eth_getBlockByHash") || answers_with_inclusion m

-- TTL
unfoldable pub ttl_of : Text → Raw → CacheConfig → ℕ
ttl_of method params cfg =
    if reads_state method
    then if pinned_to_block method params then cfg.ttl_block else cfg.ttl_latest
    else if by_hash method
    then cfg.ttl_block
    else if text_eq method (codes "eth_getLogs")
    then if logs_pinned params then cfg.ttl_block else cfg.ttl_latest
    else 0

-- The fields that ResponseBlock reads; none where a hash is no string.
pub record Included : Type 0 where
  pub number : Raw
  pub hash : Text
  pub block_number : Raw
  pub block_hash : Text

unfoldable pub included_of : Raw → Option Included
included_of raw = elim (unmarshal_object raw) [
  | none ↦ none
  | some fs ↦ elim (string_field (codes "hash") fs) [
    | none ↦ none
    | some hash ↦ elim (string_field (codes "blockHash") fs) [
      | none ↦ none
      | some block_hash ↦ some (record {
        number = struct_field (codes "number") fs;
        hash = hash;
        block_number = struct_field (codes "blockNumber") fs;
        block_hash = block_hash;
      })
    ]
  ]
]

unfoldable pub all_included : List Raw → Option (List Included)
unfolding included_of
all_included [] = some []
all_included (r ∷ rs) =
    let rest = all_included rs in
    elim (included_of r) [
      | none ↦ none
      | some l ↦ elim rest [ none ↦ none | some ls ↦ some (l ∷ ls) ]
    ]

-- The newest block among the entries of a log list.
unfoldable pub newest : List Included → ℕ × Text → ℕ × Text
newest [] best = best
newest (l ∷ ls) best =
    let n = quantity_from_raw l.block_number in
    newest ls (if ltb best.0 n && not (is_empty l.block_hash) then (n, l.block_hash) else best)

unfoldable pub block_of : Included → ℕ × Text
block_of o =
    let n = quantity_from_raw o.block_number in
    let m = quantity_from_raw o.number in
    if ltb 0 n && not (is_empty o.block_hash)
    then (n, o.block_hash)
    else if ltb 0 m && not (is_empty o.hash)
    then (m, o.hash)
    else (0, [])

unfoldable pub logs_of : Raw → Option (List Included)
unfolding all_included
logs_of result = elim (unmarshal_array result) [ none ↦ none | some items ↦ all_included items ]

-- ResponseBlock
unfoldable pub response_block : Raw → ℕ × Text
unfolding logs_of included_of newest block_of
response_block response =
    let result = result_of response in
    elim (logs_of result) [
      | some logs ↦ newest logs (0, [])
      | none ↦ elim (included_of result) [ none ↦ (0, []) | some o ↦ block_of o ]
    ]

pub record Kept : Type 0 where
  pub ttl : ℕ
  pub block_num : ℕ
  pub block_hash : Text

abbrev pub not_kept : Kept
not_kept = record { ttl = 0; block_num = 0; block_hash = [] }

-- AnswerTTL
unfoldable pub answer_ttl : Text → Raw → Raw → CacheConfig → Kept
answer_ttl method params response cfg =
    let ttl = ttl_of method params cfg in
    let block = response_block response in
    if not (cacheable response)
    then not_kept
    else if not (slt 0 ttl)
    then not_kept
    else if answers_with_inclusion method && block.0 == 0
    then not_kept
    else record { ttl = ttl; block_num = block.0; block_hash = block.1 }
