-- ===== src/Multicall/Params.antt =====
-- internal/backend/multicall.go: the parameters of an eth_call, and the calls that the cache knows.
use sabre.Common.{
  ◌-◌, Bool, not, ◌||◌, List, [], ◌∷◌, ◌++◌, Option, none, some, ltb, if◌then◌else◌, length, take,
  drop, replicate, Text, codes, text_eq, is_empty, trim_0x, hex_decode,
}
use sabre.Json.{Raw, Fields, unmarshal_string, unmarshal_array, unmarshal_object, string_field}
use sabre.Multicall.Encode.{Call3}
use sabre.Multicall.Decode.{Outcome, refused, decode_aggregate3_calls}

pub record EthCallParams : Type 0 where
  pub to : Text
  pub call_data : Text
  pub from : Text
  pub gas : Text
  pub gas_price : Text
  pub value : Text

pub record ParsedEthCall : Type 0 where
  pub params : EthCallParams
  pub block_tag : Text
  pub has_state_overrides : Bool

-- The members of the call object; none where one of them is no string.
unfoldable pub call_fields : Fields → Option EthCallParams
call_fields fs = elim (string_field (codes "to") fs) [
  | none ↦ none
  | some to ↦ elim (string_field (codes "data") fs) [
    | none ↦ none
    | some call_data ↦ elim (string_field (codes "from") fs) [
      | none ↦ none
      | some from ↦ elim (string_field (codes "gas") fs) [
        | none ↦ none
        | some gas ↦ elim (string_field (codes "gasPrice") fs) [
          | none ↦ none
          | some gas_price ↦ elim (string_field (codes "value") fs) [
            | none ↦ none
            | some value ↦ some (record {
              to = to;
              call_data = call_data;
              from = from;
              gas = gas;
              gas_price = gas_price;
              value = value;
            })
          ]
        ]
      ]
    ]
  ]
]

unfoldable pub call_object : Raw → Option EthCallParams
unfolding call_fields
call_object raw = elim (unmarshal_object raw) [ none ↦ none | some fs ↦ call_fields fs ]

unfoldable pub tag_or_latest : Option Text → Text
tag_or_latest none = codes "latest"
tag_or_latest (some tag) = if is_empty tag then codes "latest" else tag

-- The block tag, from the items behind the call object.
unfoldable pub block_tag_of : List Raw → Text
unfolding tag_or_latest
block_tag_of [] = codes "latest"
block_tag_of (raw ∷ rest) = tag_or_latest (unmarshal_string raw)

-- parseEthCallParams
unfoldable pub parse_eth_call_params : Raw → Option ParsedEthCall
unfolding call_object block_tag_of
parse_eth_call_params params = elim (unmarshal_array params) [
  | none ↦ none
  | some [] ↦ none
  | some (raw ∷ rest) ↦ elim (call_object raw) [
    | none ↦ none
    | some call ↦ some (record {
      params = call;
      block_tag = block_tag_of rest;
      has_state_overrides = ltb 1 (length rest);
    })
  ]
]

-- hexToBytes; its nil is the empty slice
unfoldable pub hex_to_bytes : Text → Text
hex_to_bytes s = elim (hex_decode (trim_0x s)) [ none ↦ [] | some b ↦ b ]

unfoldable pub right_aligned : Text → Text
right_aligned b = let c = drop (length b - 20) b in replicate (20 - length c) 0 ++ c

-- hexToAddress
unfoldable pub hex_to_address : Text → Text
unfolding right_aligned
hex_to_address s = elim (hex_decode (trim_0x s)) [
  | none ↦ replicate 20 0
  | some b ↦ right_aligned b
]

-- isImmutableSelector: decimals(), symbol(), name(), token0() and token1()
unfoldable pub is_immutable_selector : Text → Bool
is_immutable_selector call_data =
    let selector = take 4 call_data in
    text_eq selector (0x31 ∷ 0x3c ∷ 0xe5 ∷ 0x67 ∷ [])
    || text_eq selector (0x95 ∷ 0xd8 ∷ 0x9b ∷ 0x41 ∷ [])
    || text_eq selector (0x06 ∷ 0xfd ∷ 0xde ∷ 0x03 ∷ [])
    || text_eq selector (0x0d ∷ 0xfe ∷ 0x16 ∷ 0x81 ∷ [])
    || text_eq selector (0xd2 ∷ 0x12 ∷ 0x20 ∷ 0xa7 ∷ [])

-- A sender, a value, a gas limit or a gas price.
unfoldable pub has_modifiers : EthCallParams → Bool
has_modifiers p =
    not (is_empty p.from)
    || not (is_empty p.value)
    || not (is_empty p.gas)
    || not (is_empty p.gas_price)

-- decodeImmutableCallParsed: the target and the call data
unfoldable pub decode_immutable_call_parsed : ParsedEthCall → Option (Text × Text)
unfolding has_modifiers
decode_immutable_call_parsed parsed =
    let call_data = hex_to_bytes parsed.params.call_data in
    if is_empty parsed.params.to || is_empty parsed.params.call_data
    then none
    else if parsed.has_state_overrides || has_modifiers parsed.params
    then none
    else if not (is_immutable_selector call_data)
    then none
    else some (hex_to_address parsed.params.to, call_data)

-- decodeImmutableCall
unfoldable pub decode_immutable_call : Text → Raw → Option (Text × Text)
unfolding decode_immutable_call_parsed
decode_immutable_call method params = elim (parse_eth_call_params params) [
  | none ↦ none
  | some parsed ↦
      if text_eq method (codes "eth_call") then decode_immutable_call_parsed parsed else none
]

-- decodeMulticallParsed
unfoldable pub decode_multicall_parsed : ParsedEthCall → Outcome (List Call3)
decode_multicall_parsed parsed =
    if is_empty parsed.params.call_data
    then refused
    else decode_aggregate3_calls (hex_to_bytes parsed.params.call_data)

-- decodeMulticall
unfoldable pub decode_multicall : Text → Raw → Outcome (List Call3)
unfolding decode_multicall_parsed
decode_multicall method params = elim (parse_eth_call_params params) [
  | none ↦ refused
  | some parsed ↦
      if text_eq method (codes "eth_call") then decode_multicall_parsed parsed else refused
]
