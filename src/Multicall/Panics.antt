-- ===== src/Multicall/Panics.antt =====
-- internal/backend/multicall.go: the words that the decoders' bounds checks let through although
-- they are past the data. The checks convert a uint64 to an int; a word with the sign bit becomes
-- negative and passes, and the slice expression behind the check panics.
use sabre.Common.{
  ℕ, ◌+◌, ◌-◌, ◌^◌, ◌≤◌, ◌<◌, ◌≡◌, true, false, ◌++◌, arith, length, take, Text, text_eq_refl,
  le→ltb_false, lt→ltb,
}
use sabre.Multicall.Word.{slt, add64, sign_bit, word_mod, read_uint256}
use sabre.Multicall.Encode.{aggregate3_selector}
use sabre.Multicall.Decode.{
  panic, slice_from, decode_args, decode_aggregate3_calls, decode_result_bytes,
}

slt_wrapped : (n off : ℕ) → n < 2 ^ 62 → sign_bit + n < off → off < word_mod → slt n off ≡ false
unfolding slt
slt_wrapped n off h k w = ground arith

back_wrapped :
    (n off : ℕ)
    → 32 ≤ n
    → n < 2 ^ 62
    → sign_bit + n < off
    → off < word_mod
    → slt (add64 n (2 ^ 64 - off)) 32 ≡ false
unfolding slt add64
back_wrapped n off m h k w = ground arith

slice_from-panic : (t : Text) (lo : ℕ) → length t < lo → slice_from t lo ≡ panic
unfolding slice_from
slice_from-panic t lo h = rw (lt→ltb (length t) lo h)

-- Call data that begins with the selector and whose array offset, as a uint64, is above
-- 2 ^ 63 + the length of the arguments makes decodeAggregate3Calls panic instead of refusing.
pub decode_aggregate3_calls-panic :
    (args : Text)
    → 32 ≤ length args
    → length args < 2 ^ 62
    → sign_bit + length args < read_uint256 (take 32 args)
    → read_uint256 (take 32 args) < word_mod
    → decode_aggregate3_calls (aggregate3_selector ++ args) ≡ panic
unfolding decode_aggregate3_calls decode_args
decode_aggregate3_calls-panic args long short far w =
    let off : ℕ = read_uint256 (take 32 args) in
    rw (
      text_eq_refl aggregate3_selector,
      le→ltb_false (length (aggregate3_selector ++ args)) 4 (omega arith),
      le→ltb_false (length args) 32 long,
      slt_wrapped (length args) off short far w,
      back_wrapped (length args) off long short far w,
      slice_from-panic args off (omega arith),
    )

slt_negative_left : (n off : ℕ) → n < sign_bit → sign_bit ≤ off → off < word_mod → slt off n ≡ true
unfolding slt
slt_negative_left n off h k w = ground arith

-- An upstream result of at least 64 bytes whose array offset, as a uint64, is 2 ^ 63 or more makes
-- decodeAggregate3Result panic instead of returning an error.
pub decode_result_bytes-panic :
    (bytes : Text)
    → 64 ≤ length bytes
    → length bytes < sign_bit
    → sign_bit ≤ read_uint256 (take 32 bytes)
    → read_uint256 (take 32 bytes) < word_mod
    → decode_result_bytes bytes ≡ panic
unfolding decode_result_bytes
decode_result_bytes-panic bytes long short far w =
    let off : ℕ = read_uint256 (take 32 bytes) in
    rw (
      le→ltb_false (length bytes) 64 long,
      slt_negative_left (length bytes) off short far w,
      slice_from-panic bytes off (omega arith),
    )
