-- ===== src/Multicall/RoundTrip/Results.antt =====
-- internal/backend/multicall.go: decodeAggregate3Result inverts encodeAggregate3Result, through the
-- hexadecimal form in which the result travels.
use sabre.Common.{
  ℕ, ◌+◌, ◌-◌, ◌*◌, ◌≤◌, ◌≡◌, refl, ap, sym, ◌∙◌, not, ◌==◌, List, [], ◌∷◌, ◌++◌, arith, length,
  get_or, Text, length-append, length-replicate, append_assoc, append-nil, le→ltb_false,
}
use sabre.Multicall.Word.{read_uint256, word, ceil32, length-word, le-ceil32, read_uint256-word}
use sabre.Multicall.Encode.{MulticallResult, running_offsets, result_sizes}
use sabre.Multicall.Layout.{
  zeros, flag, bool_word, padded, words, array_layout, length-words, length-running_offsets,
}
use sabre.Multicall.Layout.Results.{
  result_layout, results_layout, result_offsets, length-result_sizes,
}
use sabre.Multicall.Decode.{
  ok, max_alloc, decode_result_tuple, decode_result_tuples, decode_result_bytes,
}
use sabre.Multicall.RoundTrip.{
  first_slot, length-array, bind_ok, pass, slot-at, slice-at, slice_from-at, make_copy-ok,
  add64-small, slt-false, slt-true, flag-at,
}

module _ (r : MulticallResult) (rest : Text) where
  abbrev size : ℕ
  size = length r.return_data

  abbrev head : Text
  head = bool_word r.success

  abbrev tail : Text
  tail = zeros (ceil32 size - size) ++ rest

  length-head : length head ≡ 32
  unfolding bool_word
  length-head = refl

  tuple_lem : result_layout r ++ rest ≡ head ++ (word 64 ++ (word size ++ (r.return_data ++ tail)))
  unfolding result_layout padded
  tuple_lem = simp append_assoc

  length-tuple : length (result_layout r ++ rest) ≡ 96 + size + length tail
  length-tuple = omega (
    arith,
    ap length tuple_lem,
    length-head,
    length-append head (word 64 ++ (word size ++ (r.return_data ++ tail))),
    length-append (word 64) (word size ++ (r.return_data ++ tail)),
    length-append (word size) (r.return_data ++ tail),
    length-append r.return_data tail,
    length-word 64,
    length-word size,
  )

  success-layout : not (get_or (result_layout r ++ rest) 31 0 == 0) ≡ r.success
  success-layout =
      let others : Text = word 64 ++ (word size ++ (r.return_data ++ tail)) in
      let e : result_layout r ++ rest ≡ zeros 31 ++ (flag r.success ∷ others) =
        tuple_lem ∙ unfold bool_word in simp append_assoc in
      flag-at _ (zeros 31) others r.success 31 e refl

-- Round `i` of the loop reads the result whose offset stands in slot `i` of the table.
decode_result_tuple-layout :
    (r : MulticallResult) (arr xs ys front rest : Text) (i off : ℕ)
    → arr ≡ xs ++ (word off ++ ys)
    → 32 + i * 32 ≡ length xs
    → arr ≡ front ++ (result_layout r ++ rest)
    → 32 + off ≡ length front
    → length arr ≤ max_alloc
    → decode_result_tuple arr i ≡ ok r
unfolding decode_result_tuple
decode_result_tuple-layout r arr xs ys front rest i off e h e' h' small =
    let t : Text = result_layout r ++ rest in
    let n : ℕ = length r.return_data in
    let after : Text = r.return_data ++ tail r rest in
    let total : length arr ≡ length front + length t = ap length e' ∙ length-append front t in
    let block : length t ≡ 96 + n + length (tail r rest) = length-tuple r rest in
    let t2 : t ≡ (bool_word r.success ++ word 64) ++ (word n ++ after) =
      tuple_lem r rest ∙ simp append_assoc in
    let t3 : t ≡ (bool_word r.success ++ word 64 ++ word n) ++ after =
      tuple_lem r rest ∙ simp append_assoc in
    let l2 : length (bool_word r.success ++ word 64) ≡ 64 =
      omega (
        arith,
        length-append (bool_word r.success) (word 64),
        length-head r rest,
        length-word 64,
      ) in
    let l3 : length (bool_word r.success ++ word 64 ++ word n) ≡ 96 =
      omega (arith, length-append (bool_word r.success ++ word 64) (word n), l2, length-word n) in
    let len_read : read_uint256 (word n) ≡ n =
      ap read_uint256 (sym (append-nil (word n))) ∙ read_uint256-word n [] (omega arith) in
    rw (slot-at arr xs ys (32 + i * 32) off e h (omega arith), add64-small 32 off (omega arith))
      (pass _ _ _ (rw (slt-true (32 + off) (length arr) (omega arith) (omega arith))) (
        bind_ok _ _ t _ (slice_from-at arr front t (32 + off) e' h') (
          pass _ _ _ (le→ltb_false (length t) 64 (omega arith)) (
            rw
              (
                slot-at t (bool_word r.success) (word n ++ after) 32 64 (tuple_lem r rest)
                    (sym (length-head r rest)) (omega arith),
                add64-small 64 32 (omega arith),
              )
              (pass _ _ _ (slt-false (length t) 96 (omega arith) (omega arith)) (
                bind_ok _ _ (word n) _
                  (slice-at t (bool_word r.success ++ word 64) (word n) after 64 96 t2 (sym l2)
                    (omega (arith, length-word n)))
                  (rw (len_read, add64-small 96 n (omega arith))
                    (pass _ _ _ (slt-false (length t) (96 + n) (omega arith) (omega arith)) (
                      bind_ok _ _ r.return_data _
                        (make_copy-ok n _ (omega arith)
                          ∙ slice-at t (bool_word r.success ++ word 64 ++ word n) r.return_data
                              (tail r rest) 96 (96 + n) t3 (sym l3) refl)
                        (λ j. ok (record {
                          success = success-layout r rest j;
                          return_data = r.return_data;
                        })))))))))))

length-result_layout :
    (r : MulticallResult) → length (result_layout r) ≡ 96 + ceil32 (length r.return_data)
length-result_layout r = omega (
  arith,
  length-tuple r [],
  length-append (result_layout r) [],
  length-append (zeros (ceil32 (length r.return_data) - length r.return_data)) [],
  length-replicate {A = ℕ} (ceil32 (length r.return_data) - length r.return_data) 0,
  le-ceil32 (length r.return_data),
)

decode_result_tuples-layout :
    (rs : List MulticallResult) (arr pre mid : Text) (i off : ℕ)
    → arr ≡ pre ++ (words (running_offsets off (result_sizes rs)).0 ++ (mid ++ results_layout rs))
    → 32 + i * 32 ≡ length pre
    → 32 + off ≡ length pre + 32 * length rs + length mid
    → length arr ≤ max_alloc
    → decode_result_tuples arr i (length rs) ≡ ok rs
unfolding decode_result_tuples words running_offsets result_sizes results_layout
decode_result_tuples-layout [] arr pre mid i off e h o small = refl
decode_result_tuples-layout (r ∷ rs) arr pre mid i off e h o small =
    let size : ℕ = 96 + ceil32 (length r.return_data) in
    let os : List ℕ = (running_offsets (off + size) (result_sizes rs)).0 in
    let e1 : arr
        ≡ pre ++ (word off ++ (words os ++ (mid ++ (result_layout r ++ results_layout rs)))) =
      e ∙ simp append_assoc in
    let e2 : arr ≡ (pre ++ word off ++ words os ++ mid) ++ (result_layout r ++ results_layout rs) =
      e ∙ simp append_assoc in
    let e3 : arr
        ≡ (pre ++ word off) ++ (words os ++ ((mid ++ result_layout r) ++ results_layout rs)) =
      e ∙ simp append_assoc in
    let lo : length os ≡ length rs =
      length-running_offsets (off + size) (result_sizes rs) ∙ length-result_sizes rs in
    let l1 : length (pre ++ word off) ≡ length pre + 32 =
      omega (arith, length-append pre (word off), length-word off) in
    let l2 : length (pre ++ word off ++ words os) ≡ length pre + 32 + 32 * length rs =
      omega (arith, length-append (pre ++ word off) (words os), l1, length-words os, lo) in
    let l3 : length (pre ++ word off ++ words os ++ mid)
        ≡ length pre + 32 + 32 * length rs + length mid =
      omega (arith, length-append (pre ++ word off ++ words os) mid, l2) in
    let l4 : length (mid ++ result_layout r) ≡ length mid + size =
      omega (arith, length-append mid (result_layout r), length-result_layout r) in
    bind_ok _ _ r _
      (decode_result_tuple-layout r arr pre
        (words os ++ (mid ++ (result_layout r ++ results_layout rs)))
        (pre ++ word off ++ words os ++ mid) (results_layout rs) i off e1 h e2
        (omega (arith, l3, o)) small)
      (bind_ok _ _ rs _
        (decode_result_tuples-layout rs arr (pre ++ word off) (mid ++ result_layout r) (i + 1)
          (off + size) e3 (omega (arith, l1, h)) (omega (arith, l1, l4, o)) small)
        refl)

pub decode_result_bytes-layout :
    (rs : List MulticallResult)
    → length rs ≤ 10000
    → length (array_layout (length rs) (result_offsets rs) (results_layout rs)) ≤ max_alloc
    → decode_result_bytes (array_layout (length rs) (result_offsets rs) (results_layout rs)) ≡ ok rs
unfolding decode_result_bytes result_offsets array_layout
decode_result_bytes-layout rs few small =
    let n : ℕ = length rs in
    let os : List ℕ = result_offsets rs in
    let arr : Text = word n ++ (words os ++ results_layout rs) in
    let t : Text = word 32 ++ word n ++ words os ++ results_layout rs in
    let e : t ≡ word 32 ++ arr = simp append_assoc in
    let lo : length os ≡ n =
      length-running_offsets (n * 32) (result_sizes rs) ∙ length-result_sizes rs in
    let la : length arr ≡ 32 + 32 * n + length (results_layout rs) =
      omega (arith, length-array n os (results_layout rs), lo) in
    let l : length t ≡ 32 + length arr =
      omega (arith, ap length e, length-append (word 32) arr, length-word 32) in
    pass _ _ _ (le→ltb_false (length t) 64 (omega arith)) (
      rw (slot-at t [] arr 0 32 e refl (omega arith)) (
        pass _ _ _ (rw (slt-true 32 (length t) (omega arith) (omega arith))) (
          bind_ok _ _ arr _ (slice_from-at t (word 32) arr 32 e (sym (length-word 32))) (
            pass _ _ _ (le→ltb_false (length arr) 32 (omega arith)) (
              rw (first_slot n (words os ++ results_layout rs) (omega arith)) (
                pass _ _ _ (le→ltb_false 10000 n few) (
                  pass _ _ _ (le→ltb_false (length arr) (32 + n * 32) (omega arith)) (
                    decode_result_tuples-layout rs arr (word n) [] 0 (n * 32) refl
                      (sym (length-word n)) (omega (arith, length-word n)) (omega arith)))))))))
