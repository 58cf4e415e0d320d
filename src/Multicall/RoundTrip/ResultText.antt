-- ===== src/Multicall/RoundTrip/ResultText.antt =====
-- internal/backend/multicall.go: the result of a multicall as the text "0x" and hexadecimal digits,
-- which serveMulticall and CompleteMulticall write and decodeAggregate3Result reads.
use sabre.Common.{
  ◌-◌, ◌≤◌, ◌≡◌, ap, List, [], ◌∷◌, ◌++◌, arith, length, Text, codes, IsBytes, IsBytes-append,
  hex_encode, trim_0x, hex_decode-hex_encode,
}
use sabre.Multicall.Word.{ceil32}
use sabre.Multicall.Encode.{MulticallResult, encode_aggregate3_result}
use sabre.Multicall.Layout.{padded, array_layout}
use sabre.Multicall.Layout.Results.{
  result_layout, results_layout, result_offsets, encode_aggregate3_result-layout,
}
use sabre.Multicall.Layout.Bytes.{
  zeros-IsBytes, bool_word-IsBytes, word-IsBytes, array_layout-IsBytes,
}
use sabre.Multicall.Decode.{ok, max_alloc, or_refused, decode_aggregate3_result}
use sabre.Multicall.RoundTrip.Results.{decode_result_bytes-layout}

-- Every return value is a list of bytes.
abbrev pub AreBytes : List MulticallResult → Type 0
AreBytes [] = Unit {0}
AreBytes (r ∷ rs) = IsBytes r.return_data × AreBytes rs

result_layout-IsBytes : (r : MulticallResult) → IsBytes r.return_data → IsBytes (result_layout r)
unfolding result_layout padded
result_layout-IsBytes r h =
    IsBytes-append _ _
      (IsBytes-append _ _ (IsBytes-append _ _ (bool_word-IsBytes r.success) (word-IsBytes 64))
        (word-IsBytes (length r.return_data)))
      (IsBytes-append r.return_data _ h
        (zeros-IsBytes (ceil32 (length r.return_data) - length r.return_data)))

results_layout-IsBytes : (rs : List MulticallResult) → AreBytes rs → IsBytes (results_layout rs)
unfolding results_layout
results_layout-IsBytes [] h = tt
results_layout-IsBytes (r ∷ rs) h =
    IsBytes-append (result_layout r) (results_layout rs) (result_layout-IsBytes r h.0)
      (results_layout-IsBytes rs h.1)

-- A list of at most 10000 results, whose encoding can be allocated, comes back from the text "0x"
-- and the hexadecimal digits of its encoding exactly as it was, with no refusal and no panic.
pub decode-encode_aggregate3_result :
    (results : List MulticallResult)
    → length results ≤ 10000
    → AreBytes results
    → length (encode_aggregate3_result results) ≤ max_alloc
    → decode_aggregate3_result (codes "0x" ++ hex_encode (encode_aggregate3_result results))
      ≡ ok results
unfolding decode_aggregate3_result or_refused trim_0x
decode-encode_aggregate3_result results few bytes small =
    let t : Text =
      array_layout (length results) (result_offsets results) (results_layout results) in
    let e : encode_aggregate3_result results ≡ t = encode_aggregate3_result-layout results in
    rw
      (
        e,
        hex_decode-hex_encode t (array_layout-IsBytes _ _ _ (results_layout-IsBytes results bytes)),
      )
      (decode_result_bytes-layout results few (omega (arith, ap length e)))
