-- ===== src/Multicall/Layout/Calls.antt =====
-- internal/backend/multicall.go: encodeAggregate3 writes the ABI layout of its calls.
use sabre.Common.{
  ℕ, suc, ◌+◌, ◌*◌, ◌≡◌, refl, ap, ◌∙◌, List, [], ◌∷◌, ◌++◌, arith, length, Text, append_assoc,
  append-nil,
}
use sabre.Multicall.Word.{ceil32, copy_at, word, copy_at-zeros}
use sabre.Multicall.Encode.{
  Call3, aggregate3_selector, Cursor, running_offsets, call_sizes, write_call, write_calls,
  write_offsets, write_uint256, encode_aggregate3,
}
use sabre.Multicall.Layout.{
  zeros, bool_word, padded, words, array_layout, at, total_size, write_uint256-at, write_bool-at,
  write_target-at, write_data-at, write_offsets-at, running_offsets_end, length-running_offsets,
}

-- (address, bool, bytes)
unfoldable pub call_layout : Call3 → Text
call_layout c =
    zeros 12
    ++ c.target
    ++ bool_word c.allow_failure
    ++ word 96
    ++ word (length c.call_data)
    ++ padded c.call_data

unfoldable pub calls_layout : List Call3 → Text
calls_layout [] = []
calls_layout (c ∷ cs) = call_layout c ++ calls_layout cs

-- Every target of the calls is an address.
abbrev pub AreAddresses : List Call3 → Type 0
AreAddresses [] = Unit {0}
AreAddresses (c ∷ cs) = (length c.target ≡ 20) × AreAddresses cs

write_call-at :
    (c : Call3) (pre : Text) (n k : ℕ)
    → length c.target ≡ 20
    → n ≡ 128 + ceil32 (length c.call_data) + k
    → write_call c (at pre n) ≡ at (pre ++ call_layout c) k
unfolding write_call call_layout
write_call-at c pre n k t h =
    let size : ℕ = ceil32 (length c.call_data) in
    let p1 : Text = pre ++ (zeros 12 ++ c.target) in
    let p2 : Text = p1 ++ bool_word c.allow_failure in
    let p3 : Text = p2 ++ word 96 in
    let p4 : Text = p3 ++ word (length c.call_data) in
    rw
      (
        write_target-at c.target pre n (96 + size + k) t (omega arith),
        write_bool-at c.allow_failure p1 (96 + size + k) (64 + size + k) (omega arith),
        write_uint256-at 96 p2 (64 + size + k) (32 + size + k) (omega arith),
        write_uint256-at (length c.call_data) p3 (32 + size + k) (size + k) (omega arith),
        write_data-at c.call_data p4 (size + k) k refl,
      )
      (ap (λ (u : Text). at u k) (simp append_assoc))

write_calls-at :
    (cs : List Call3) (pre : Text) (n k : ℕ)
    → AreAddresses cs
    → n ≡ total_size (call_sizes cs) + k
    → write_calls cs (at pre n) ≡ at (pre ++ calls_layout cs) k
unfolding write_calls calls_layout call_sizes total_size
write_calls-at [] pre n k v h = let e : n ≡ k = omega arith in rw (append-nil pre) (ap (at pre) e)
write_calls-at (c ∷ cs) pre n k v h =
    ap (write_calls cs) (write_call-at c pre n (total_size (call_sizes cs) + k) v.0 (omega arith))
    ∙ write_calls-at cs (pre ++ call_layout c) (total_size (call_sizes cs) + k) k v.1 refl
    ∙ ap (λ (t : Text). at t k) (append_assoc pre (call_layout c) (calls_layout cs))

pub length-call_sizes : (cs : List Call3) → length (call_sizes cs) ≡ length cs
unfolding call_sizes
length-call_sizes [] = refl
length-call_sizes (c ∷ cs) = ap suc (length-call_sizes cs)

start-at :
    (n k : ℕ)
    → n ≡ 4 + k
    → record { buf = copy_at 0 aggregate3_selector (zeros n); pos = 4 } ≡ at aggregate3_selector k
unfolding at
start-at n k h =
    let e : copy_at 0 aggregate3_selector (zeros n) ≡ aggregate3_selector ++ zeros k =
      copy_at-zeros aggregate3_selector n k h in
    λ i. record { buf = e i; pos = 4 }

-- The whole buffer is written: nothing is left behind the cursor.
buf-at : (t : Text) → (at t 0).buf ≡ t
unfolding at
buf-at t = append-nil t

unfoldable pub call_offsets : List Call3 → List ℕ
call_offsets calls = (running_offsets (length calls * 32) (call_sizes calls)).0

-- The encoder fills its buffer with the selector and the ABI encoding of the array: the offset of
-- the array, its length, the offset of each tuple, and the tuples.
pub encode_aggregate3-layout :
    (calls : List Call3)
    → AreAddresses calls
    → encode_aggregate3 calls
      ≡ aggregate3_selector ++ array_layout (length calls) (call_offsets calls) (calls_layout calls)
unfolding encode_aggregate3 array_layout call_offsets
encode_aggregate3-layout calls v =
    let n : ℕ = length calls in
    let sizes : List ℕ = call_sizes calls in
    let offs : List ℕ = call_offsets calls in
    let rest : ℕ = total_size sizes in
    let l : length offs ≡ n = length-running_offsets (n * 32) sizes ∙ length-call_sizes calls in
    let p0 : Text = aggregate3_selector ++ word 32 in
    let p1 : Text = p0 ++ word n in
    let finish : Cursor → Cursor = λ c. write_calls calls (write_offsets offs c) in
    ap (λ (c : Cursor). (finish (write_uint256 n (write_uint256 32 c))).buf)
      (start-at (4 + 32 + 32 + (running_offsets (n * 32) sizes).1) (64 + (32 * length offs + rest))
        (omega (arith, running_offsets_end (n * 32) sizes)))
    ∙ ap (λ (c : Cursor). (finish (write_uint256 n c)).buf)
        (write_uint256-at 32 aggregate3_selector (64 + (32 * length offs + rest))
          (32 + (32 * length offs + rest)) (omega arith))
    ∙ ap (λ (c : Cursor). (finish c).buf)
        (write_uint256-at n p0 (32 + (32 * length offs + rest)) (32 * length offs + rest) refl)
    ∙ ap (λ (c : Cursor). (write_calls calls c).buf)
        (write_offsets-at offs p1 (32 * length offs + rest) rest refl)
    ∙ ap (λ (c : Cursor). c.buf) (write_calls-at calls (p1 ++ words offs) rest 0 v (omega arith))
    ∙ buf-at (p1 ++ words offs ++ calls_layout calls)
    ∙ simp append_assoc
