-- ===== src/Multicall/RoundTrip/CallList.antt =====
-- internal/backend/multicall.go: decodeAggregate3Calls inverts encodeAggregate3.
use sabre.Common.{
  ℕ, ◌+◌, ◌-◌, ◌*◌, ◌≤◌, ◌<◌, ◌≡◌, refl, ap, sym, ◌∙◌, List, [], ◌∷◌, ◌++◌, arith, length, Text,
  length-append, append_assoc, le→ltb_false, text_eq_refl,
}
use sabre.Multicall.Word.{word, ceil32, length-word}
use sabre.Multicall.Encode.{
  Call3, aggregate3_selector, running_offsets, call_sizes, encode_aggregate3,
}
use sabre.Multicall.Layout.{words, array_layout, length-words, length-running_offsets}
use sabre.Multicall.Layout.Calls.{
  AreAddresses, call_layout, calls_layout, call_offsets, length-call_sizes,
  encode_aggregate3-layout,
}
use sabre.Multicall.Decode.{ok, max_alloc, decode_tuples, decode_args, decode_aggregate3_calls}
use sabre.Multicall.RoundTrip.{
  back_32, first_slot, length-array, bind_ok, pass, slot-at, slice_from-at, slt-false,
}
use sabre.Multicall.RoundTrip.Calls.{decode_tuple-layout, length-call_layout}

decode_tuples-layout :
    (cs : List Call3) (arr pre mid : Text) (i off : ℕ)
    → arr ≡ pre ++ (words (running_offsets off (call_sizes cs)).0 ++ (mid ++ calls_layout cs))
    → 32 + i * 32 ≡ length pre
    → 32 + off ≡ length pre + 32 * length cs + length mid
    → AreAddresses cs
    → length arr ≤ max_alloc
    → decode_tuples arr i (length cs) ≡ ok cs
unfolding decode_tuples words running_offsets call_sizes calls_layout
decode_tuples-layout [] arr pre mid i off e h o v small = refl
decode_tuples-layout (c ∷ cs) arr pre mid i off e h o v small =
    let size : ℕ = 128 + ceil32 (length c.call_data) in
    let os : List ℕ = (running_offsets (off + size) (call_sizes cs)).0 in
    let e1 : arr ≡ pre ++ (word off ++ (words os ++ (mid ++ (call_layout c ++ calls_layout cs)))) =
      e ∙ simp append_assoc in
    let e2 : arr ≡ (pre ++ word off ++ words os ++ mid) ++ (call_layout c ++ calls_layout cs) =
      e ∙ simp append_assoc in
    let e3 : arr ≡ (pre ++ word off) ++ (words os ++ ((mid ++ call_layout c) ++ calls_layout cs)) =
      e ∙ simp append_assoc in
    let lo : length os ≡ length cs =
      length-running_offsets (off + size) (call_sizes cs) ∙ length-call_sizes cs in
    let l1 : length (pre ++ word off) ≡ length pre + 32 =
      omega (arith, length-append pre (word off), length-word off) in
    let l2 : length (pre ++ word off ++ words os) ≡ length pre + 32 + 32 * length cs =
      omega (arith, length-append (pre ++ word off) (words os), l1, length-words os, lo) in
    let l3 : length (pre ++ word off ++ words os ++ mid)
        ≡ length pre + 32 + 32 * length cs + length mid =
      omega (arith, length-append (pre ++ word off ++ words os) mid, l2) in
    let l4 : length (mid ++ call_layout c) ≡ length mid + size =
      omega (arith, length-append mid (call_layout c), length-call_layout c v.0) in
    bind_ok _ _ c _
      (decode_tuple-layout c arr pre (words os ++ (mid ++ (call_layout c ++ calls_layout cs)))
        (pre ++ word off ++ words os ++ mid) (calls_layout cs) i off e1 h e2 (omega (arith, l3, o))
        v.0 small)
      (bind_ok _ _ cs _
        (decode_tuples-layout cs arr (pre ++ word off) (mid ++ call_layout c) (i + 1) (off + size)
          e3 (omega (arith, l1, h)) (omega (arith, l1, l4, o)) v.1 small)
        refl)

decode_args-layout :
    (cs : List Call3)
    → 0 < length cs
    → length cs ≤ 10000
    → AreAddresses cs
    → length (array_layout (length cs) (call_offsets cs) (calls_layout cs)) ≤ max_alloc
    → decode_args (array_layout (length cs) (call_offsets cs) (calls_layout cs)) ≡ ok cs
unfolding decode_args call_offsets array_layout
decode_args-layout cs some_call few v small =
    let n : ℕ = length cs in
    let os : List ℕ = call_offsets cs in
    let arr : Text = word n ++ (words os ++ calls_layout cs) in
    let args : Text = word 32 ++ word n ++ words os ++ calls_layout cs in
    let e : args ≡ word 32 ++ arr = simp append_assoc in
    let lo : length os ≡ n =
      length-running_offsets (n * 32) (call_sizes cs) ∙ length-call_sizes cs in
    let la : length arr ≡ 32 + 32 * n + length (calls_layout cs) =
      omega (arith, length-array n os (calls_layout cs), lo) in
    let l : length args ≡ 32 + length arr =
      omega (arith, ap length e, length-append (word 32) arr, length-word 32) in
    pass _ _ _ (le→ltb_false (length args) 32 (omega arith)) (
      rw
        (
          slot-at args [] arr 0 32 e refl (omega arith),
          back_32 (length args) (omega arith) (omega arith),
        )
        (pass _ _ _
          (rw (
            slt-false (length args) 32 (omega arith) (omega arith),
            slt-false (length args - 32) 32 (omega arith) (omega arith),
          ))
          (bind_ok _ _ arr _ (slice_from-at args (word 32) arr 32 e (sym (length-word 32))) (
            rw (first_slot n (words os ++ calls_layout cs) (omega arith)) (
              pass _ _ _ (ground arith) (
                pass _ _ _ (le→ltb_false (length arr) (32 + n * 32) (omega arith)) (
                  decode_tuples-layout cs arr (word n) [] 0 (n * 32) refl (sym (length-word n))
                    (omega (arith, length-word n)) v (omega arith))))))))

-- For a batch of 1 to 10000 calls to 20-byte addresses, whose encoding can be allocated, the
-- decoder returns exactly the calls that were encoded, and neither refuses nor panics.
pub decode-encode_aggregate3 :
    (calls : List Call3)
    → 0 < length calls
    → length calls ≤ 10000
    → AreAddresses calls
    → length (encode_aggregate3 calls) ≤ max_alloc
    → decode_aggregate3_calls (encode_aggregate3 calls) ≡ ok calls
unfolding decode_aggregate3_calls
decode-encode_aggregate3 calls some_call few v small =
    let args : Text = array_layout (length calls) (call_offsets calls) (calls_layout calls) in
    let e : encode_aggregate3 calls ≡ aggregate3_selector ++ args =
      encode_aggregate3-layout calls v in
    rw e (
      pass _ _ _
        (rw (
          text_eq_refl aggregate3_selector,
          le→ltb_false (length (aggregate3_selector ++ args)) 4 (omega arith),
        ))
        (decode_args-layout calls some_call few v (omega (arith, ap length e))))
