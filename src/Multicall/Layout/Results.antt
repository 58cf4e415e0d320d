-- ===== src/Multicall/Layout/Results.antt =====
-- internal/backend/multicall.go: encodeAggregate3Result writes the ABI layout of its results.
use sabre.Common.{
  ℕ, suc, ◌+◌, ◌*◌, ◌≡◌, refl, ap, ◌∙◌, List, [], ◌∷◌, ◌++◌, arith, length, Text, append_assoc,
  append-nil,
}
use sabre.Multicall.Word.{ceil32, word}
use sabre.Multicall.Encode.{
  MulticallResult, Cursor, running_offsets, result_sizes, write_result, write_results,
  write_offsets, write_uint256, encode_aggregate3_result,
}
use sabre.Multicall.Layout.{
  zeros, bool_word, padded, words, array_layout, at, total_size, write_uint256-at, write_bool-at,
  write_data-at, write_offsets-at, running_offsets_end, length-running_offsets,
}

-- (bool, bytes)
unfoldable pub result_layout : MulticallResult → Text
result_layout r =
    bool_word r.success ++ word 64 ++ word (length r.return_data) ++ padded r.return_data

unfoldable pub results_layout : List MulticallResult → Text
results_layout [] = []
results_layout (r ∷ rs) = result_layout r ++ results_layout rs

write_result-at :
    (r : MulticallResult) (pre : Text) (n k : ℕ)
    → n ≡ 96 + ceil32 (length r.return_data) + k
    → write_result r (at pre n) ≡ at (pre ++ result_layout r) k
unfolding write_result result_layout
write_result-at r pre n k h =
    let size : ℕ = ceil32 (length r.return_data) in
    let p1 : Text = pre ++ bool_word r.success in
    let p2 : Text = p1 ++ word 64 in
    let p3 : Text = p2 ++ word (length r.return_data) in
    rw
      (
        write_bool-at r.success pre n (64 + size + k) (omega arith),
        write_uint256-at 64 p1 (64 + size + k) (32 + size + k) (omega arith),
        write_uint256-at (length r.return_data) p2 (32 + size + k) (size + k) (omega arith),
        write_data-at r.return_data p3 (size + k) k refl,
      )
      (ap (λ (u : Text). at u k) (simp append_assoc))

write_results-at :
    (rs : List MulticallResult) (pre : Text) (n k : ℕ)
    → n ≡ total_size (result_sizes rs) + k
    → write_results rs (at pre n) ≡ at (pre ++ results_layout rs) k
unfolding write_results results_layout result_sizes total_size
write_results-at [] pre n k h = let e : n ≡ k = omega arith in rw (append-nil pre) (ap (at pre) e)
write_results-at (r ∷ rs) pre n k h =
    ap (write_results rs) (write_result-at r pre n (total_size (result_sizes rs) + k) (omega arith))
    ∙ write_results-at rs (pre ++ result_layout r) (total_size (result_sizes rs) + k) k refl
    ∙ ap (λ (t : Text). at t k) (append_assoc pre (result_layout r) (results_layout rs))

pub length-result_sizes : (rs : List MulticallResult) → length (result_sizes rs) ≡ length rs
unfolding result_sizes
length-result_sizes [] = refl
length-result_sizes (r ∷ rs) = ap suc (length-result_sizes rs)

-- The whole buffer is written: nothing is left behind the cursor.
buf-at : (t : Text) → (at t 0).buf ≡ t
unfolding at
buf-at t = append-nil t

start-at : (n k : ℕ) → n ≡ k → record { buf = zeros n; pos = 0 } ≡ at [] k
unfolding at
start-at n k h = λ i. record { buf = zeros (h i); pos = 0 }

unfoldable pub result_offsets : List MulticallResult → List ℕ
result_offsets results = (running_offsets (length results * 32) (result_sizes results)).0

-- The encoder fills its buffer with the ABI encoding of the array of results: the offset of the
-- array, its length, the offset of each tuple, and the tuples.
pub encode_aggregate3_result-layout :
    (results : List MulticallResult)
    → encode_aggregate3_result results
      ≡ array_layout (length results) (result_offsets results) (results_layout results)
unfolding encode_aggregate3_result array_layout result_offsets
encode_aggregate3_result-layout results =
    let n : ℕ = length results in
    let sizes : List ℕ = result_sizes results in
    let offs : List ℕ = result_offsets results in
    let rest : ℕ = total_size sizes in
    let l : length offs ≡ n = length-running_offsets (n * 32) sizes ∙ length-result_sizes results in
    let p1 : Text = word 32 ++ word n in
    let finish : Cursor → Cursor = λ c. write_results results (write_offsets offs c) in
    ap (λ (c : Cursor). (finish (write_uint256 n (write_uint256 32 c))).buf)
      (start-at (32 + 32 + (running_offsets (n * 32) sizes).1) (64 + (32 * length offs + rest))
        (omega (arith, running_offsets_end (n * 32) sizes)))
    ∙ ap (λ (c : Cursor). (finish (write_uint256 n c)).buf)
        (write_uint256-at 32 [] (64 + (32 * length offs + rest)) (32 + (32 * length offs + rest))
          (omega arith))
    ∙ ap (λ (c : Cursor). (finish c).buf)
        (write_uint256-at n (word 32) (32 + (32 * length offs + rest)) (32 * length offs + rest)
          refl)
    ∙ ap (λ (c : Cursor). (write_results results c).buf)
        (write_offsets-at offs p1 (32 * length offs + rest) rest refl)
    ∙ ap (λ (c : Cursor). c.buf) (write_results-at results (p1 ++ words offs) rest 0 (omega arith))
    ∙ buf-at (p1 ++ words offs ++ results_layout results)
    ∙ simp append_assoc
