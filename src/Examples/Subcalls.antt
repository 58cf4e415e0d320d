-- ===== src/Examples/Subcalls.antt =====
-- Multicalls and immutable reads in the cache at concrete inputs.
use sabre.Common.{
  ℕ, ◌≡◌, refl, ◌∙◌, true, false, List, [], ◌∷◌, ◌++◌, replicate, none, some, arith, Text, codes,
  text_eq, hex_encode, hex_decode, hex_digit, trim_0x,
}
use sabre.Json.{
  Json, Fields, Raw, json, raws, unmarshal_array, unmarshal_object, unmarshal_string, struct_field,
  first_raw, string_field, lower, lower_byte,
}
use sabre.Multicall.Word.{be_bytes, ceil32, copy_at}
use sabre.Multicall.Encode.{
  Call3, MulticallResult, encode_aggregate3, encode_aggregate3_result, write_calls, write_call,
  write_results, write_result, write_data, write_uint256, write_bool, write_target, write_offsets,
  running_offsets, call_sizes, result_sizes,
}
use sabre.Multicall.Decode.{ok, decode_aggregate3_result}
use sabre.Multicall.RoundTrip.CallList.{decode-encode_aggregate3}
use sabre.Multicall.RoundTrip.ResultText.{decode-encode_aggregate3_result}
use sabre.Multicall.Params.{
  parse_eth_call_params, call_object, call_fields, block_tag_of, tag_or_latest,
  is_immutable_selector, decode_multicall, hex_to_bytes,
}
use sabre.Multicall.Aggregate.{call_params}
use sabre.Multicall.Aggregate.Synthetic.{decode_multicall-call_params}
use sabre.Cache.Keys.{sub_call_digest, sub_call_key, sub_call_neg_key}
use sabre.Cache.Reply.{rpc_result, build_multicall_body, rewrite_response_id}
use sabre.Cache.Reply.Rewritten.{IsStamped, rewrite_response_id-IsStamped}
use sabre.Cache.SubCalls.{from_negative, from_positive, probe_call, cache_immutable_call}
use sabre.Cache.SubCalls.Stored.{probe_call-cache_immutable_call}
use sabre.Cache.Store.{
  Store, get, from_memory, from_disk, read_entry, or_else, settle, is_valid, put_immortal, keep,
  has_key,
}
use sabre.Cache.Tracker.{is_block_hash_valid}
use sabre.Cache.Store.History.{Op, get_op, put_op, apply_all}
use sabre.Cache.Plan.{
  MulticallPlan, add_probed, reply_text, plan_probe, plan_calls, plan_of, plan_multicall,
  complete_multicall,
}
use sabre.Cache.Plan.Merged.{Known, answered, known, Completes}
use sabre.Cache.Plan.Completed.{complete-plan_multicall}
use sabre.Examples.Instances.{tables, tables-IsTiers, empty_store}

abbrev response_to_7 : Fields
response_to_7 = Fields.field (codes "jsonrpc") (Json.str (codes "2.0")) (
    Fields.field (codes "id") (Json.num (codes "7"))
      (Fields.field (codes "result") (Json.str (codes "0x1")) Fields.end))

rewrite_response_id-IsStamped_example :
    IsStamped response_to_7
      (Json.num (codes "9"))
      (codes "result")
      (rewrite_response_id (json (Json.obj response_to_7)) (json (Json.num (codes "9"))))
rewrite_response_id-IsStamped_example =
    rewrite_response_id-IsStamped response_to_7 (Json.num (codes "9")) (codes "result")

-- A stand-in for the hash and for the compact form.
abbrev same_bytes : Text → Text
same_bytes t = t

abbrev no_text : Json → Text
no_text j = []

abbrev always : ℕ → ℕ
always i = 5_000_000_000

abbrev decimals : Text
decimals = 0x31 ∷ 0x3c ∷ 0xe5 ∷ 0x67 ∷ []

abbrev no_code : Fields
no_code = Fields.field (codes "result") (Json.str (codes "0x")) Fields.end

abbrev known_call : Call3
known_call = record { target = replicate 20 17; allow_failure = true; call_data = decimals }

abbrev unknown_call : Call3
unknown_call = record { target = replicate 20 34; allow_failure = true; call_data = decimals }

abbrev lately : List Op
lately =
    get_op 3_000_000 (codes "k")
    ∷ put_op 2_000_000 2_000_000 (codes "j") (codes "0x2") 3_000_000_000 (codes "base") 0 []
    ∷ []

probe_call-cache_immutable_call_example :
    (probe_call tables same_bytes no_text always 0 (codes "base") known_call (
      apply_all tables lately (
        cache_immutable_call tables same_bytes no_text 1_000_000
          (codes "base")
          known_call.target
          decimals
          (json (Json.obj no_code))
          empty_store))).0
    ≡ some (record { success = true; return_data = [] })
unfolding unmarshal_object struct_field first_raw lower lower_byte text_eq sub_call_key hex_to_bytes
    hex_decode trim_0x
probe_call-cache_immutable_call_example =
    probe_call-cache_immutable_call tables same_bytes no_text tables-IsTiers lately always 0
      1_000_000 (codes "base") known_call (json (Json.obj no_code)) no_code (codes "0x") empty_store
      refl refl refl (omega arith, (omega arith, (omega arith, (omega arith, tt)))) (tt, (refl, tt))
      (omega arith)

-- One of two calls is in the cache.
abbrev warm : Store tables
warm =
    put_immortal tables (sub_call_key same_bytes no_text (codes "base") known_call.target decimals)
      (8 ∷ []) (codes "base") empty_store

abbrev two_reads : List Call3
two_reads = known_call ∷ unknown_call ∷ []

abbrev multicall_params : Raw
multicall_params = call_params (codes "0xca11") (codes "0x10") (encode_aggregate3 two_reads)

abbrev found : Known
found = some (record { success = true; return_data = 8 ∷ [] }) ∷ none ∷ []

abbrev eighteen : Call3 → MulticallResult
eighteen c = record { success = true; return_data = 18 ∷ [] }

two_reads-decoded : decode_multicall (codes "eth_call") multicall_params ≡ ok two_reads
unfolding encode_aggregate3 write_calls write_call write_data copy_at write_uint256 write_bool
    write_target write_offsets running_offsets call_sizes ceil32 be_bytes
two_reads-decoded =
    decode_multicall-call_params (codes "0xca11") (codes "0x10") (encode_aggregate3 two_reads)
      (omega arith)
    ∙ decode-encode_aggregate3 two_reads (omega arith) (omega arith) (refl, (refl, tt))
        (omega arith)

two_reads-known : known tables same_bytes no_text always 0 (codes "base") two_reads warm ≡ found
unfolding known plan_probe probe_call from_positive from_negative get from_memory from_disk
    read_entry or_else settle is_valid is_block_hash_valid put_immortal keep has_key sub_call_key
    sub_call_neg_key text_eq is_immutable_selector sub_call_digest hex_encode hex_digit
two_reads-known = refl

abbrev partly : MulticallPlan
partly = record {
  id = json (Json.num (codes "5"));
  calls = two_reads;
  results =
      (record { success = true; return_data = 8 ∷ [] })
      ∷ (record { success = false; return_data = [] })
      ∷ [];
  miss_indices = 1 ∷ [];
  reduced_body =
      build_multicall_body (json (Json.num (codes "5")))
        (call_params (codes "0xca11") (codes "0x10") (encode_aggregate3 (unknown_call ∷ [])));
}

abbrev after_planning : Store tables
after_planning = (plan_calls tables same_bytes no_text always 0 (codes "base") two_reads warm).1

planned :
    plan_multicall tables same_bytes no_text always
      (codes "base")
      (codes "eth_call")
      multicall_params
      (json (Json.num (codes "5")))
      warm
    ≡ ok (some partly, after_planning)
unfolding plan_multicall plan_calls add_probed plan_of plan_probe probe_call from_positive
    from_negative get from_memory from_disk read_entry or_else settle is_valid is_block_hash_valid
    put_immortal keep has_key sub_call_key sub_call_neg_key text_eq is_immutable_selector
    sub_call_digest hex_encode hex_digit parse_eth_call_params call_object call_fields block_tag_of
    tag_or_latest call_params raws unmarshal_array unmarshal_object unmarshal_string struct_field
    first_raw string_field lower lower_byte
planned = rw two_reads-decoded refl

abbrev upstream_text : Text
upstream_text = codes "0x" ++ hex_encode (encode_aggregate3_result (eighteen unknown_call ∷ []))

abbrev upstream : Raw
upstream = json (Json.obj (Fields.field (codes "result") (Json.str upstream_text) Fields.end))

upstream-decoded : decode_aggregate3_result upstream_text ≡ ok (eighteen unknown_call ∷ [])
unfolding encode_aggregate3_result write_results write_result write_data copy_at write_uint256
    write_bool write_offsets running_offsets result_sizes ceil32 be_bytes
upstream-decoded =
    decode-encode_aggregate3_result (eighteen unknown_call ∷ []) (omega arith)
      ((omega arith, tt), tt) (omega arith)

complete-plan_multicall_example :
    Completes tables
      (rpc_result
        (json (Json.num (codes "5")))
        (encode_aggregate3_result (answered eighteen two_reads found)))
      (complete_multicall tables same_bytes no_text always (codes "base") partly upstream warm)
unfolding known plan_probe probe_call from_positive from_negative get from_memory from_disk
    read_entry or_else settle is_valid is_block_hash_valid put_immortal keep has_key sub_call_key
    sub_call_neg_key text_eq is_immutable_selector sub_call_digest hex_encode hex_digit reply_text
    unmarshal_object struct_field first_raw string_field lower lower_byte
complete-plan_multicall_example =
    complete-plan_multicall tables same_bytes no_text always always (codes "base")
      (codes "eth_call") multicall_params (json (Json.num (codes "5"))) upstream warm after_planning
      warm partly two_reads eighteen upstream_text two_reads-decoded planned refl upstream-decoded
