-- ===== src/Examples/Aggregation.antt =====
-- Multicall aggregation at concrete inputs.
use sabre.Common.{
  ◌≡◌, refl, true, false, List, [], ◌∷◌, ◌++◌, map, some, arith, Text, codes, text_eq, hex_encode,
  All, trim_0x, hex_decode, hex_pair, hex_value, decimal, decimal_fuel,
}
use sabre.Config.{MulticallConfig}
use sabre.Json.{
  Json, Items, Fields, Raw, absent, json, raws, unmarshal_array, unmarshal_object, unmarshal_string,
  struct_field, first_raw, string_field, lower, lower_byte,
}
use sabre.Head.{non_null}
use sabre.Rpc.{BatchRequest, BatchResponse, has_error}
use sabre.Multicall.Word.{be_bytes, ceil32, copy_at}
use sabre.Multicall.Encode.{
  Call3, MulticallResult, encode_aggregate3, encode_aggregate3_result, write_calls, write_call,
  write_results, write_result, write_data, write_uint256, write_bool, write_target, write_offsets,
  running_offsets, call_sizes, result_sizes,
}
use sabre.Multicall.Decode.{Outcome, ok, refused, panic, decode_aggregate3_result, or_refused}
use sabre.Multicall.Params.{
  parse_eth_call_params, call_object, call_fields, block_tag_of, tag_or_latest, has_modifiers,
  decode_multicall, hex_to_address, hex_to_bytes, right_aligned,
}
use sabre.Multicall.Aggregate.{
  EligibleCall, MulticallMapping, split, split_one, eligible, eligible_parsed, add_call,
  group_calls, chunks, entries_from, synthetic_id, synthetic_request, add_passthrough, add_group,
  add_chunk, add_chunks, add_groups, aggregate_all, aggregate_eth_calls, call3_of,
}
use sabre.Multicall.Aggregate.Grouping.{flatten, flatten-chunks}
use sabre.Multicall.Aggregate.Covered.{IsCovered, aggregate_eth_calls-IsCovered}
use sabre.Multicall.Aggregate.Groups.{IsGroup, aggregate_eth_calls-IsGroup}
use sabre.Multicall.Aggregate.Synthetic.{decode_multicall-synthetic_request}
use sabre.Multicall.Aggregate.Tags.{at_object, eligible-at_object}
use sabre.Multicall.Expand.{resp_by_id, expand_multicall_responses, expand_found}
use sabre.Multicall.Expand.Delivered.{Balanced, expand-aggregate_eth_calls}
use sabre.Multicall.Expand.InOrder.{answer, Executes, expand_found-synthetic_request}

abbrev multicall3 : MulticallConfig
multicall3 = record { enabled = true; address = codes "0xca11"; max_calls = 2 }

abbrev call_object_of : Text → Json
call_object_of to = Json.obj (
    Fields.field (codes "to") (Json.str to)
      (Fields.field (codes "data") (Json.str (codes "0x313ce567")) Fields.end))

abbrev read_of : Text → Raw
read_of to =
    json
      (Json.arr (Items.cons (call_object_of to) (Items.cons (Json.str (codes "0x10")) Items.nil)))

abbrev request : Text → Text → Raw → BatchRequest
request id method params = record {
  jsonrpc = codes "2.0";
  id = id;
  method = method;
  params = params;
}

abbrev first : BatchRequest
first = request (codes "1") (codes "eth_call") (read_of (codes "0x11"))

abbrev second : BatchRequest
second = request (codes "2") (codes "eth_call") (read_of (codes "0x22"))

abbrev third : BatchRequest
third = request (codes "3") (codes "eth_chainId") (json (Json.arr Items.nil))

abbrev three_requests : List BatchRequest
three_requests = first ∷ second ∷ third ∷ []

abbrev one_group : MulticallMapping
one_group = record {
  groups =
      (record {
        synthetic_id = 34 ∷ (codes "__multicall_1" ++ 34 ∷ []);
        block_tag = codes "0x10";
        entries =
            (record {
              original_id = codes "1";
              original_params = read_of (codes "0x11");
              index = 0;
            })
            ∷ (record {
              original_id = codes "2";
              original_params = read_of (codes "0x22");
              index = 1;
            })
            ∷ [];
      })
      ∷ [];
  passthrough = third ∷ [];
}

abbrev only_third : List BatchResponse
only_third =
    (record {
      jsonrpc = codes "2.0";
      id = codes "3";
      result = json (Json.str (codes "0x1"));
      error = absent;
      internal_err = false;
    })
    ∷ []

grouped : (aggregate_eth_calls multicall3 0 three_requests).mapping ≡ some one_group
unfolding aggregate_eth_calls aggregate_all split split_one eligible eligible_parsed
    parse_eth_call_params call_object call_fields block_tag_of tag_or_latest has_modifiers raws
    unmarshal_array unmarshal_object unmarshal_string struct_field first_raw lower lower_byte
    string_field text_eq add_call group_calls chunks entries_from synthetic_id add_passthrough
    add_group add_chunk add_chunks add_groups decimal decimal_fuel
grouped = refl

expand-aggregate_eth_calls_example :
    Balanced (codes "1") three_requests (expand_multicall_responses (λ t. t) only_third one_group)
unfolding resp_by_id text_eq unmarshal_string decode_aggregate3_result or_refused hex_decode trim_0x
expand-aggregate_eth_calls_example =
    expand-aggregate_eth_calls (λ t. t) multicall3 0 three_requests one_group only_third (codes "1")
      (omega arith) grouped ((λ e. absurd (ground arith)), tt) ((λ e. absurd (ground arith)), tt)

aggregate_eth_calls-IsCovered_example :
    IsCovered (codes "2") three_requests (aggregate_eth_calls multicall3 0 three_requests)
aggregate_eth_calls-IsCovered_example =
    aggregate_eth_calls-IsCovered multicall3 0 three_requests (codes "2") (omega arith)

aggregate_eth_calls-IsGroup_example : All (IsGroup 2) one_group.groups
aggregate_eth_calls-IsGroup_example =
    aggregate_eth_calls-IsGroup multicall3 0 three_requests one_group (omega arith) grouped

abbrev call_of : BatchRequest → Text → EligibleCall
call_of req to = record {
  request = req;
  params = record {
    to = to;
    call_data = codes "0x313ce567";
    from = [];
    gas = [];
    gas_price = [];
    value = [];
  };
  block_tag = codes "0x10";
}

abbrev two_reads : List EligibleCall
two_reads = call_of first (codes "0x11") ∷ call_of second (codes "0x22") ∷ []

flatten-chunks_example : flatten (chunks 2 1 two_reads) ≡ two_reads
flatten-chunks_example = flatten-chunks 1 two_reads (omega arith)

decode_multicall-synthetic_request_example :
    decode_multicall
      (codes "eth_call")
      (synthetic_request multicall3 7 (codes "0x10") two_reads).params
    ≡ ok (map call3_of two_reads)
unfolding synthetic_request call3_of hex_to_address hex_to_bytes right_aligned trim_0x hex_decode
    hex_pair hex_value encode_aggregate3 write_calls write_call write_data copy_at write_uint256
    write_bool write_target write_offsets running_offsets call_sizes ceil32 be_bytes
decode_multicall-synthetic_request_example =
    decode_multicall-synthetic_request multicall3 7 (codes "0x10") two_reads (omega arith)
      (omega arith) (omega arith)

abbrev six : Call3 → MulticallResult
six c = record { success = true; return_data = 6 ∷ [] }

unfoldable result_for : Outcome (List Call3) → Raw
result_for (ok calls) =
    json (Json.str (codes "0x" ++ hex_encode (encode_aggregate3_result (map six calls))))
result_for refused = absent
result_for panic = absent

-- A server that answers every call with the byte 6.
unfoldable serve : BatchRequest → BatchResponse
unfolding result_for
serve req = record {
  jsonrpc = codes "2.0";
  id = req.id;
  result = result_for (decode_multicall req.method req.params);
  error = absent;
  internal_err = false;
}

serve-Executes : Executes six serve
unfolding serve has_error non_null unmarshal_string
serve-Executes req calls e = (refl, rw (e, result_for) refl)

expand_found-synthetic_request_example :
    expand_found
      (λ t. t)
      (entries_from 0 two_reads)
      (some (serve (synthetic_request multicall3 7 (codes "0x10") two_reads)))
    ≡ ok (map (answer six) two_reads)
unfolding call3_of hex_to_address hex_to_bytes right_aligned trim_0x hex_decode hex_pair hex_value
    encode_aggregate3 write_calls write_call write_data copy_at write_uint256 write_bool
    write_target write_offsets running_offsets call_sizes ceil32 be_bytes encode_aggregate3_result
    write_results write_result result_sizes
expand_found-synthetic_request_example =
    expand_found-synthetic_request (λ t. t) six serve multicall3 7 (codes "0x10") two_reads
      serve-Executes (omega arith) (omega arith) (omega arith)
      ((omega arith, tt), ((omega arith, tt), tt)) (omega arith)

-- A block given by its hash.
abbrev by_block_hash : Fields
by_block_hash = Fields.field (codes "blockHash") (Json.str (codes "0xabc")) Fields.end

abbrev pinned : BatchRequest
pinned =
    request (codes "4") (codes "eth_call")
      (at_object (call_object_of (codes "0x11")) by_block_hash Items.nil)

abbrev pinned_call : EligibleCall
pinned_call = record {
  request = pinned;
  params = record {
    to = codes "0x11";
    call_data = codes "0x313ce567";
    from = [];
    gas = [];
    gas_price = [];
    value = [];
  };
  block_tag = codes "latest";
}

pinned-eligible : eligible pinned ≡ some pinned_call
unfolding eligible eligible_parsed parse_eth_call_params call_object call_fields block_tag_of
    tag_or_latest has_modifiers raws unmarshal_array unmarshal_object unmarshal_string struct_field
    first_raw lower lower_byte string_field text_eq
pinned-eligible = refl

eligible-at_object_example : pinned_call.block_tag ≡ codes "latest"
eligible-at_object_example =
    eligible-at_object pinned pinned_call (call_object_of (codes "0x11")) by_block_hash Items.nil
      refl pinned-eligible
