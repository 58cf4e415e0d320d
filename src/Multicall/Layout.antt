-- ===== src/Multicall/Layout.antt =====
-- internal/backend/multicall.go: the ABI layout of an aggregate3 call and of its result, written
-- out slot by slot, and the proof that the encoders fill their buffer with exactly it.
pub mod Calls
pub mod Results
pub mod Bytes
use sabre.Common.{
  ℕ, zero, suc, ◌+◌, ◌-◌, ◌*◌, ◌≤◌, ◌≡◌, refl, ap, sym, ◌∙◌, Bool, true, false, List, [], ◌∷◌, ◌++◌,
  arith, if◌then◌else◌, length, replicate, Text, length-append, length-replicate, append_assoc,
  append-nil,
}
use sabre.Multicall.Word.{
  be_bytes, ceil32, copy_at, word, length-word, length-be_bytes, le-ceil32, copy_at-gap,
  copy_at-append,
}
use sabre.Multicall.Encode.{
  Call3, MulticallResult, aggregate3_selector, Cursor, write_uint256, write_bool, write_target,
  write_data, write_offsets, running_offsets, call_sizes, write_call, write_calls,
  encode_aggregate3, result_sizes, write_result, write_results, encode_aggregate3_result,
}

abbrev pub zeros : ℕ → Text
zeros n = replicate n 0

unfoldable pub flag : Bool → ℕ
flag true = 1
flag false = 0

unfoldable pub bool_word : Bool → Text
unfolding flag
bool_word b = zeros 31 ++ flag b ∷ []

unfoldable pub padded : Text → Text
padded d = d ++ zeros (ceil32 (length d) - length d)

unfoldable pub words : List ℕ → Text
words [] = []
words (o ∷ os) = word o ++ words os

unfoldable pub array_layout : ℕ → List ℕ → Text → Text
array_layout n offsets body = word 32 ++ word n ++ words offsets ++ body

-- The buffer after `pre` was written and `k` bytes are left.
at : Text → ℕ → Cursor
at pre k = record { buf = pre ++ zeros k; pos = length pre }

zeros-append : (m n : ℕ) → zeros m ++ zeros n ≡ zeros (m + n)
zeros-append zero n = ap (λ (k : ℕ). zeros k) (omega arith)
zeros-append (suc m) n =
    let e : suc m + n ≡ suc (m + n) = omega arith in rw e (ap (◌∷◌ 0) (zeros-append m n))

-- One write of `src`, `d` bytes behind the cursor, in a block in which `e` bytes follow it.
write-at :
    (pre src : Text) (d e n k : ℕ)
    → n ≡ d + length src + (e + k)
    → copy_at (length pre + d) src (pre ++ zeros n)
      ≡ pre ++ (zeros d ++ (src ++ zeros e)) ++ zeros k
write-at pre src d e n k h =
    copy_at-append pre src (zeros n) (length pre + d) d refl
    ∙ ap (◌++◌ pre) (copy_at-gap d src n (e + k) h)
    ∙ simp (append_assoc, zeros-append)

-- A step that writes a block of `size` bytes and moves behind it.
at-block :
    (pre block buf : Text) (pos size k : ℕ)
    → buf ≡ pre ++ block ++ zeros k
    → length block ≡ size
    → pos ≡ length pre + size
    → record { buf = buf; pos = pos } ≡ at (pre ++ block) k
unfolding at
at-block pre block buf pos size k b l p =
    let q : pos ≡ length (pre ++ block) = omega (arith, length-append pre block) in
    λ i. record { buf = b i; pos = q i }

write_uint256-at :
    (v : ℕ) (pre : Text) (n k : ℕ) → n ≡ 32 + k → write_uint256 v (at pre n) ≡ at (pre ++ word v) k
unfolding write_uint256 at word
write_uint256-at v pre n k h =
    at-block pre (word v) _ _ 32 k
      (write-at pre (be_bytes 8 v) 24 0 n k (omega (arith, length-be_bytes 8 v)) ∙ simp append-nil)
      (length-word v) refl

length-bool_word : (b : Bool) → length (bool_word b) ≡ 32
unfolding bool_word
length-bool_word b = refl

write_bool-at :
    (b : Bool) (pre : Text) (n k : ℕ)
    → n ≡ 32 + k
    → write_bool b (at pre n) ≡ at (pre ++ bool_word b) k
unfolding write_bool at bool_word flag
write_bool-at true pre n k h =
    at-block pre (bool_word true) _ _ 32 k
      (write-at pre (1 ∷ []) 31 0 n k (omega arith) ∙ simp append-nil) refl refl
write_bool-at false pre n k h =
    at-block pre (bool_word false) _ _ 32 k
      (ap (λ (m : ℕ). pre ++ zeros m) h
        ∙ ap (◌++◌ pre) (sym (zeros-append 32 k))
        ∙ sym (append_assoc pre (zeros 32) (zeros k)))
      refl refl

write_target-at :
    (t pre : Text) (n k : ℕ)
    → length t ≡ 20
    → n ≡ 32 + k
    → write_target t (at pre n) ≡ at (pre ++ (zeros 12 ++ t)) k
unfolding write_target at
write_target-at t pre n k l h =
    at-block pre (zeros 12 ++ t) _ _ 32 k (write-at pre t 12 0 n k (omega arith) ∙ simp append-nil)
      (omega (arith, length-append (zeros 12) t)) refl

length-padded : (d : Text) → length (padded d) ≡ ceil32 (length d)
unfolding padded
length-padded d =
    let gap : ℕ = ceil32 (length d) - length d in
    omega (arith, length-append d (zeros gap), length-replicate {A = ℕ} gap 0, le-ceil32 (length d))

write_data-at :
    (d pre : Text) (n k : ℕ)
    → n ≡ ceil32 (length d) + k
    → write_data d (at pre n) ≡ at (pre ++ padded d) k
unfolding write_data at padded
write_data-at d pre n k h =
    at-block pre (padded d) _ _ (ceil32 (length d)) k
      (ap (λ (p : ℕ). copy_at p d (pre ++ zeros n)) (omega arith)
        ∙ write-at pre d 0 (ceil32 (length d) - length d) n k (omega (arith, le-ceil32 (length d))))
      (length-padded d) refl

pub length-words : (os : List ℕ) → length (words os) ≡ 32 * length os
unfolding words
length-words [] = refl
length-words (o ∷ os) =
    omega (arith, length-append (word o) (words os), length-word o, length-words os)

write_offsets-at :
    (os : List ℕ) (pre : Text) (n k : ℕ)
    → n ≡ 32 * length os + k
    → write_offsets os (at pre n) ≡ at (pre ++ words os) k
unfolding write_offsets words
write_offsets-at [] pre n k h = let e : n ≡ k = omega arith in rw (append-nil pre) (ap (at pre) e)
write_offsets-at (o ∷ os) pre n k h =
    ap (write_offsets os) (write_uint256-at o pre n (32 * length os + k) (omega arith))
    ∙ write_offsets-at os (pre ++ word o) (32 * length os + k) k refl
    ∙ ap (λ (t : Text). at t k) (append_assoc pre (word o) (words os))

unfoldable pub total_size : List ℕ → ℕ
total_size [] = 0
total_size (s ∷ ss) = s + total_size ss

pub running_offsets_end : (r : ℕ) (ss : List ℕ) → (running_offsets r ss).1 ≡ r + total_size ss
unfolding running_offsets total_size
running_offsets_end r [] = omega arith
running_offsets_end r (s ∷ ss) = omega (arith, running_offsets_end (r + s) ss)

pub length-running_offsets : (r : ℕ) (ss : List ℕ) → length (running_offsets r ss).0 ≡ length ss
unfolding running_offsets
length-running_offsets r [] = refl
length-running_offsets r (s ∷ ss) = ap suc (length-running_offsets (r + s) ss)
