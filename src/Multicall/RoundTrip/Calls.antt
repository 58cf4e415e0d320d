-- ===== src/Multicall/RoundTrip/Calls.antt =====
-- decodeAggregate3Calls inverts encodeAggregate3.
use sabre.Common.{
  ℕ, ◌==◌, length-replicate, get_or, ◌+◌, ◌-◌, ◌*◌, ◌≤◌, ◌≡◌, refl, ap, sym, ◌∙◌, not, [], ◌∷◌,
  ◌++◌, arith, length, take, drop, Text, length-append, take-append, append_assoc, append-nil,
}
use sabre.Multicall.Word.{read_uint256, word, ceil32, length-word, le-ceil32, read_uint256-word}
use sabre.Multicall.Encode.{Call3}
use sabre.Multicall.Layout.{flag, bool_word, padded, zeros}
use sabre.Multicall.Layout.Calls.{call_layout}
use sabre.Multicall.Decode.{ok, max_alloc, call_data_of, decode_tuple}
use sabre.Multicall.RoundTrip.{
  bind_ok, pass, drop-at, slot-at, slice-at, slice_from-at, make_copy-ok, add64-small, slt-false,
  flag-at,
}

module _ (c : Call3) (rest : Text) (address : length c.target ≡ 20) where
  abbrev size : ℕ
  size = length c.call_data

  abbrev head : Text
  head = zeros 12 ++ c.target ++ bool_word c.allow_failure

  abbrev tail : Text
  tail = zeros (ceil32 size - size) ++ rest

  length-head : length head ≡ 64
  unfolding bool_word
  length-head = omega (
    arith,
    length-append (zeros 12 ++ c.target) (bool_word c.allow_failure),
    length-append (zeros 12) c.target,
  )

  -- The tuple with its slots bracketed to the right.
  tuple_lem : call_layout c ++ rest ≡ head ++ (word 96 ++ (word size ++ (c.call_data ++ tail)))
  unfolding call_layout padded
  tuple_lem = simp append_assoc

  length-tuple : length (call_layout c ++ rest) ≡ 128 + size + length tail
  length-tuple = omega (
    arith,
    ap length tuple_lem,
    length-head,
    length-append head (word 96 ++ (word size ++ (c.call_data ++ tail))),
    length-append (word 96) (word size ++ (c.call_data ++ tail)),
    length-append (word size) (c.call_data ++ tail),
    length-append c.call_data tail,
    length-word 96,
    length-word size,
  )

  call_data_of-layout :
      length (call_layout c ++ rest) ≤ max_alloc
      → call_data_of (call_layout c ++ rest) ≡ ok c.call_data
  unfolding call_data_of
  call_data_of-layout small =
      let t : Text = call_layout c ++ rest in
      let t2 : t ≡ (head ++ word 96) ++ (word size ++ (c.call_data ++ tail)) =
        tuple_lem ∙ simp append_assoc in
      let t3 : t ≡ (head ++ word 96 ++ word size) ++ (c.call_data ++ tail) =
        tuple_lem ∙ simp append_assoc in
      let l2 : length (head ++ word 96) ≡ 96 =
        omega (arith, length-append head (word 96), length-head, length-word 96) in
      let l3 : length (head ++ word 96 ++ word size) ≡ 128 =
        omega (arith, length-append (head ++ word 96) (word size), l2, length-word size) in
      let len_read : read_uint256 (word size) ≡ size =
        ap read_uint256 (sym (append-nil (word size)))
        ∙ read_uint256-word size [] (omega (arith, length-tuple)) in
      rw
        (
          slot-at t head (word size ++ (c.call_data ++ tail)) 64 96 tuple_lem (sym length-head)
              (omega arith),
          add64-small 96 32 (omega arith),
        )
        (pass _ _ _ (slt-false (length t) 128 (omega (arith, length-tuple)) (omega arith)) (
          bind_ok _ _ (word size) _
            (slice-at t (head ++ word 96) (word size) (c.call_data ++ tail) 96 128 t2 (sym l2)
              (omega (arith, length-word size)))
            (rw (len_read, add64-small 128 size (omega (arith, length-tuple)))
              (pass _ _ _
                (slt-false (length t) (128 + size) (omega (arith, length-tuple)) (omega arith))
                (make_copy-ok size _ (omega (arith, length-tuple))
                  ∙ slice-at t (head ++ word 96 ++ word size) c.call_data tail 128 (128 + size) t3
                      (sym l3) refl)))))

  -- The fields that stand at fixed places of the tuple.
  target-layout : take 20 (drop 12 (call_layout c ++ rest)) ≡ c.target
  target-layout =
      let others : Text =
        bool_word c.allow_failure ++ (word 96 ++ (word size ++ (c.call_data ++ tail))) in
      let e : call_layout c ++ rest ≡ zeros 12 ++ (c.target ++ others) =
        tuple_lem ∙ simp append_assoc in
      ap (take 20) (drop-at _ (zeros 12) (c.target ++ others) 12 e refl)
      ∙ take-append c.target others 20 (sym address)

  allow_failure-layout : not (get_or (call_layout c ++ rest) 63 0 == 0) ≡ c.allow_failure
  allow_failure-layout =
      let others : Text = word 96 ++ (word size ++ (c.call_data ++ tail)) in
      let front : Text = zeros 12 ++ c.target ++ zeros 31 in
      let e : call_layout c ++ rest ≡ front ++ (flag c.allow_failure ∷ others) =
        tuple_lem ∙ unfold bool_word in simp append_assoc in
      flag-at _ front others c.allow_failure 63 e (
        omega (
          arith,
          length-append (zeros 12 ++ c.target) (zeros 31),
          length-append (zeros 12) c.target,
        ))

-- Round `i` of the loop reads the call whose offset stands in slot `i` of the table.
pub decode_tuple-layout :
    (c : Call3) (arr xs ys front rest : Text) (i off : ℕ)
    → arr ≡ xs ++ (word off ++ ys)
    → 32 + i * 32 ≡ length xs
    → arr ≡ front ++ (call_layout c ++ rest)
    → 32 + off ≡ length front
    → length c.target ≡ 20
    → length arr ≤ max_alloc
    → decode_tuple arr i ≡ ok c
unfolding decode_tuple
decode_tuple-layout c arr xs ys front rest i off e h e' h' address small =
    let t : Text = call_layout c ++ rest in
    let total : length arr ≡ length front + length t = ap length e' ∙ length-append front t in
    let block : length t ≡ 128 + length c.call_data + length (tail c rest address) =
      length-tuple c rest address in
    rw
      (
        slot-at arr xs ys (32 + i * 32) off e h (omega arith),
        add64-small 32 off (omega arith),
        add64-small (32 + off) 96 (omega arith),
      )
      (pass _ _ _
        (rw (
          slt-false (32 + off) 0 (omega arith) (omega arith),
          slt-false (length arr) (32 + off + 96) (omega arith) (omega arith),
        ))
        (bind_ok _ _ t _ (slice_from-at arr front t (32 + off) e' h') (
          bind_ok _ _ c.call_data _ (call_data_of-layout c rest address (omega arith)) (λ j.
            ok (record {
              target = target-layout c rest address j;
              allow_failure = allow_failure-layout c rest address j;
              call_data = c.call_data;
            })))))

pub length-call_layout :
    (c : Call3) → length c.target ≡ 20 → length (call_layout c) ≡ 128 + ceil32 (length c.call_data)
length-call_layout c address = omega (
  arith,
  length-tuple c [] address,
  length-append (call_layout c) [],
  length-append (zeros (ceil32 (length c.call_data) - length c.call_data)) [],
  length-replicate {A = ℕ} (ceil32 (length c.call_data) - length c.call_data) 0,
  le-ceil32 (length c.call_data),
)
