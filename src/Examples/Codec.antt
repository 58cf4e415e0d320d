-- ===== src/Examples/Codec.antt =====
-- The Multicall3 codec and the configuration at concrete inputs.
use sabre.Common.{
  ◌≡◌, refl, inl, true, false, List, [], ◌∷◌, ◌++◌, some, arith, replicate, Text, codes, hex_encode,
  text_eq,
}
use sabre.Multicall.Word.{be_bytes, read_uint256, copy_at, ceil32, slt}
use sabre.Multicall.Encode.{
  Call3, MulticallResult, aggregate3_selector, encode_aggregate3, encode_aggregate3_result,
  write_calls, write_call, write_results, write_result, write_data, write_uint256, write_bool,
  write_target, write_offsets, running_offsets, call_sizes, result_sizes,
}
use sabre.Multicall.Decode.{
  ok, panic, decode_aggregate3_calls, decode_result_bytes, decode_aggregate3_result,
}
use sabre.Multicall.RoundTrip.CallList.{decode-encode_aggregate3}
use sabre.Multicall.RoundTrip.ResultText.{decode-encode_aggregate3_result}
use sabre.Multicall.Panics.{decode_aggregate3_calls-panic, decode_result_bytes-panic}
use sabre.Config.{HealthConfig, BatchConfig, batch_section, check_backends}
use sabre.Config.Defaults.{
  IsPositive, batch_section-IsPositive, AreServable, check_backends-AreServable,
}
use sabre.Examples.Instances.{settings}

abbrev two_calls : List Call3
two_calls =
    (record { target = replicate 20 17; allow_failure = true; call_data = 1 ∷ 2 ∷ 3 ∷ 4 ∷ [] })
    ∷ (record { target = replicate 20 34; allow_failure = true; call_data = [] })
    ∷ []

abbrev two_results : List MulticallResult
two_results =
    (record { success = true; return_data = 1 ∷ 2 ∷ 3 ∷ [] })
    ∷ (record { success = false; return_data = [] })
    ∷ []

decode-encode_aggregate3_example :
    decode_aggregate3_calls (encode_aggregate3 two_calls) ≡ ok two_calls
unfolding encode_aggregate3 write_calls write_call write_data copy_at write_uint256 write_bool
    write_target write_offsets running_offsets call_sizes ceil32 be_bytes
decode-encode_aggregate3_example =
    decode-encode_aggregate3 two_calls (omega arith) (omega arith) (refl, (refl, tt)) (omega arith)

decode-encode_aggregate3_result_example :
    decode_aggregate3_result (codes "0x" ++ hex_encode (encode_aggregate3_result two_results))
    ≡ ok two_results
unfolding encode_aggregate3_result write_results write_result write_data copy_at write_uint256
    write_bool write_offsets running_offsets result_sizes ceil32 be_bytes
decode-encode_aggregate3_result_example =
    decode-encode_aggregate3_result two_results (omega arith)
      ((omega arith, (omega arith, (omega arith, tt))), (tt, tt)) (omega arith)

-- An array offset of 2 ^ 64 - 1.
abbrev far_offset : Text
far_offset = replicate 24 0 ++ replicate 8 255

decode_aggregate3_calls-panic_example :
    decode_aggregate3_calls (aggregate3_selector ++ far_offset) ≡ panic
unfolding read_uint256
decode_aggregate3_calls-panic_example =
    decode_aggregate3_calls-panic far_offset (omega arith) (omega arith) (omega arith) (omega arith)

decode_result_bytes-panic_example : decode_result_bytes (far_offset ++ replicate 32 0) ≡ panic
unfolding read_uint256
decode_result_bytes-panic_example =
    decode_result_bytes-panic (far_offset ++ replicate 32 0) (omega arith) (omega arith)
      (omega arith) (omega arith)

abbrev retries_off : BatchConfig
retries_off = record {
  enabled = true;
  max_batch_size = 0;
  max_batch_wait_time = 5;
  max_batch_workers = 2;
  max_retries = 0;
}

batch_section-IsPositive_example :
    IsPositive (batch_section (some retries_off)).max_batch_size
    × IsPositive (batch_section (some retries_off)).max_batch_wait_time
    × IsPositive (batch_section (some retries_off)).max_batch_workers
    × IsPositive (batch_section (some retries_off)).max_retries
batch_section-IsPositive_example = batch_section-IsPositive (some retries_off) (inl (omega arith))

abbrev probing : HealthConfig
probing = record {
  enabled = true;
  ttl_check = 0;
  timeout = 300;
  fails_to_down = 3;
  passes_to_up = 0;
}

check_backends-AreServable_example :
    AreServable settings ((codes "base", true) ∷ []) × (true ≡ true)
unfolding check_backends slt text_eq
check_backends-AreServable_example =
    check_backends-AreServable settings ((codes "base", true) ∷ []) true refl
