-- ===== src/Multicall/Aggregate.antt =====
-- internal/backend/multicall.go: aggregateEthCalls. The counter of the synthetic ids is passed
-- along; what other goroutines take from it meanwhile only makes it skip numbers.
pub mod Grouping
pub mod Covered
pub mod Groups
pub mod Tags
pub mod Synthetic
use sabre.Common.{
  ℕ, zero, suc, ◌+◌, ◌%◌, Bool, true, false, not, ◌||◌, List, [], ◌∷◌, ◌++◌, map, Option, none,
  some, ltb, if◌then◌else◌, length, take, drop, Text, codes, text_eq, is_empty, hex_encode, decimal,
}
use sabre.Json.{Json, Items, Fields, Raw, json}
use sabre.Config.{MulticallConfig}
use sabre.Rpc.{BatchRequest}
use sabre.Multicall.Word.{word_mod}
use sabre.Multicall.Encode.{Call3, encode_aggregate3}
use sabre.Multicall.Params.{
  EthCallParams, ParsedEthCall, parse_eth_call_params, has_modifiers, hex_to_address, hex_to_bytes,
}

-- eligibleCall; the request itself stands for its index
pub record EligibleCall : Type 0 where
  pub request : BatchRequest
  pub params : EthCallParams
  pub block_tag : Text

pub record MulticallEntry : Type 0 where
  pub original_id : Text
  pub original_params : Raw
  pub index : ℕ

pub record MulticallGroup : Type 0 where
  pub synthetic_id : Text
  pub block_tag : Text
  pub entries : List MulticallEntry

pub record MulticallMapping : Type 0 where
  pub groups : List MulticallGroup
  pub passthrough : List BatchRequest

unfoldable pub eligible_parsed : BatchRequest → ParsedEthCall → Option EligibleCall
unfolding has_modifiers
eligible_parsed req parsed =
    if is_empty parsed.params.to || is_empty parsed.params.call_data
    then none
    else if parsed.has_state_overrides
    then none
    else if has_modifiers parsed.params
    then none
    else some (record { request = req; params = parsed.params; block_tag = parsed.block_tag })

-- The body of the first loop: none is `passed through`.
unfoldable pub eligible : BatchRequest → Option EligibleCall
unfolding eligible_parsed
eligible req =
    if not (text_eq req.method (codes "eth_call"))
    then none
    else elim (parse_eth_call_params req.params) [
      | none ↦ none
      | some parsed ↦ eligible_parsed req parsed
    ]

unfoldable pub split_one :
    BatchRequest
    → Option EligibleCall
    → List BatchRequest × List EligibleCall
    → List BatchRequest × List EligibleCall
split_one req none (passed, calls) = (req ∷ passed, calls)
split_one req (some call) (passed, calls) = (passed, call ∷ calls)

-- The first loop.
unfoldable pub split : List BatchRequest → List BatchRequest × List EligibleCall
unfolding split_one
split [] = ([], [])
split (req ∷ reqs) = split_one req (eligible req) (split reqs)

-- tagGroups, in the order of tagOrder
abbrev pub TagGroups : Type 0
TagGroups = List (Text × List EligibleCall)

unfoldable pub add_call : EligibleCall → TagGroups → TagGroups
add_call e [] = (e.block_tag, e ∷ []) ∷ []
add_call e ((tag, calls) ∷ groups) =
    let rest = add_call e groups in
    if text_eq tag e.block_tag then (tag, calls ++ e ∷ []) ∷ groups else (tag, calls) ∷ rest

unfoldable pub group_calls : List EligibleCall → TagGroups → TagGroups
unfolding add_call
group_calls [] groups = groups
group_calls (e ∷ es) groups = group_calls es (add_call e groups)

-- calls[chunkStart:chunkEnd] for each chunkStart, on fuel: the number of calls is enough. MaxCalls is
-- a positive int, as ParseConfig leaves it: it replaces a max_calls of 0 or less.
unfoldable pub chunks : ℕ → ℕ → List EligibleCall → List (List EligibleCall)
chunks zero max_calls calls = []
chunks (suc fuel) max_calls [] = []
chunks (suc fuel) max_calls (e ∷ es) =
    take max_calls (e ∷ es) ∷ chunks fuel max_calls (drop max_calls (e ∷ es))

unfoldable pub call3_of : EligibleCall → Call3
call3_of c = record {
  target = hex_to_address c.params.to;
  allow_failure = true;
  call_data = hex_to_bytes c.params.call_data;
}

unfoldable pub entries_from : ℕ → List EligibleCall → List MulticallEntry
entries_from j [] = []
entries_from j (c ∷ cs) =
    (record { original_id = c.request.id; original_params = c.request.params; index = j })
    ∷ entries_from (j + 1) cs

-- "0x" + hex.EncodeToString(encoded), in a call object beside its address
unfoldable pub call_params : Text → Text → Text → Raw
call_params to tag encoded = json (
    Json.arr (
      Items.cons
        (Json.obj (
          Fields.field (codes "data") (Json.str (codes "0x" ++ hex_encode encoded))
            (Fields.field (codes "to") (Json.str to) Fields.end)))
        (Items.cons (Json.str tag) Items.nil)))

unfoldable pub synthetic_id : ℕ → Text
synthetic_id n = 34 ∷ (codes "__multicall_" ++ (decimal n ++ 34 ∷ []))

unfoldable pub synthetic_request : MulticallConfig → ℕ → Text → List EligibleCall → BatchRequest
unfolding call_params synthetic_id call3_of
synthetic_request cfg n tag chunk = record {
  jsonrpc = codes "2.0";
  id = synthetic_id n;
  method = codes "eth_call";
  params = call_params cfg.address tag (encode_aggregate3 (map call3_of chunk));
}

-- out, mapping and multicallIDCounter.
pub record Aggregation : Type 0 where
  pub out : List BatchRequest
  pub mapping : MulticallMapping
  pub counter : ℕ

unfoldable pub add_passthrough : BatchRequest → Aggregation → Aggregation
add_passthrough req a = record a {
  out = a.out ++ req ∷ [];
  mapping = record a.mapping { passthrough = a.mapping.passthrough ++ req ∷ [] };
}

unfoldable pub add_group : MulticallConfig → Text → List EligibleCall → Aggregation → Aggregation
unfolding synthetic_request synthetic_id entries_from
add_group cfg tag chunk a =
    let n = (a.counter + 1) % word_mod in
    record {
      out = a.out ++ synthetic_request cfg n tag chunk ∷ [];
      mapping = record a.mapping {
        groups =
            a.mapping.groups
            ++ (record {
              synthetic_id = synthetic_id n;
              block_tag = tag;
              entries = entries_from 0 chunk;
            })
              ∷ [];
      };
      counter = n;
    }

-- The body of the loop over the chunks.
unfoldable pub add_chunk : MulticallConfig → Text → List EligibleCall → Aggregation → Aggregation
unfolding add_passthrough add_group
add_chunk cfg tag (c ∷ []) a = add_passthrough c.request a
add_chunk cfg tag chunk a = add_group cfg tag chunk a

unfoldable pub add_chunks :
    MulticallConfig → Text → List (List EligibleCall) → Aggregation → Aggregation
unfolding add_chunk
add_chunks cfg tag [] a = a
add_chunks cfg tag (c ∷ cs) a = add_chunks cfg tag cs (add_chunk cfg tag c a)

-- The loop over tagOrder.
unfoldable pub add_groups : MulticallConfig → TagGroups → Aggregation → Aggregation
unfolding add_chunks chunks
add_groups cfg [] a = a
add_groups cfg ((tag, calls) ∷ groups) a =
    add_groups cfg groups (add_chunks cfg tag (chunks (length calls) cfg.max_calls calls) a)

pub record Aggregated : Type 0 where
  pub requests : List BatchRequest
  -- none is nil
  pub mapping : Option MulticallMapping
  pub counter : ℕ

unfoldable pub aggregate_all :
    MulticallConfig → ℕ → List BatchRequest → List EligibleCall → Aggregation
unfolding group_calls add_groups
aggregate_all cfg counter passed calls = add_groups cfg (group_calls calls []) (record {
  out = passed;
  mapping = record { groups = []; passthrough = passed };
  counter = counter;
})

-- aggregateEthCalls
unfoldable pub aggregate_eth_calls : MulticallConfig → ℕ → List BatchRequest → Aggregated
unfolding split aggregate_all
aggregate_eth_calls cfg counter requests =
    let (passed, calls) = split requests in
    let a = aggregate_all cfg counter passed calls in
    if ltb (length calls) 2
    then record { requests = requests; mapping = none; counter = counter }
    else record { requests = a.out; mapping = some a.mapping; counter = a.counter }
