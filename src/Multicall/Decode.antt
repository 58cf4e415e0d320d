-- ===== src/Multicall/Decode.antt =====
-- internal/backend/multicall.go: decodeAggregate3Calls and decodeAggregate3Result, with the panics
-- of Go's slice expressions and of make. Lengths of byte slices are below 2 ^ 63, so only a word
-- that is read from the data can have the sign bit.
use sabre.Common.{
  ℕ, zero, suc, ◌+◌, ◌-◌, ◌*◌, ◌^◌, Bool, true, false, not, ◌||◌, List, [], ◌∷◌, Option, none, some,
  ltb, ◌==◌, if◌then◌else◌, length, take, drop, get_or, Text, text_eq, trim_0x, hex_decode,
}
use sabre.Multicall.Word.{slt, add64, read_uint256}
use sabre.Multicall.Encode.{Call3, MulticallResult, aggregate3_selector}

-- A function that returns a value, refuses (ok = false, or err ≠ nil), or panics.
pub data Outcome {ℓ} (A : Type ℓ) : Type ℓ where
  ok : A → Outcome A
  refused : Outcome A
  panic : Outcome A

infixl 5 ◌>>=◌ ◌>>◌
abbrev pub ◌>>=◌ {ℓ κ} : {A : Type ℓ} {B : Type κ} → Outcome A → (A → Outcome B) → Outcome B
ok a >>= f = f a
refused >>= f = refused
panic >>= f = panic

abbrev pub ◌>>◌ {ℓ} : {B : Type ℓ} → Outcome (Unit {0}) → Outcome B → Outcome B
m >> k = m >>= λ _. k

-- if cond { return nil, false }
abbrev pub refuse_if : Bool → Outcome (Unit {0})
refuse_if true = refused
refuse_if false = ok tt

-- data[lo:hi]; a bound with the sign bit is past every capacity
unfoldable pub slice : Text → ℕ → ℕ → Outcome Text
slice s lo hi = if ltb hi lo || ltb (length s) hi then panic else ok (take (hi - lo) (drop lo s))

-- data[lo:]
unfoldable pub slice_from : Text → ℕ → Outcome Text
slice_from s lo = if ltb (length s) lo then panic else ok (drop lo s)

-- The largest allocation of the runtime on a 64-bit machine; make panics above it.
abbrev pub max_alloc : ℕ
max_alloc = 2 ^ 48

-- make([]byte, n), filled from a slice of length n
unfoldable pub make_copy : ℕ → Outcome Text → Outcome Text
make_copy n src = if ltb max_alloc n then panic else src

-- The bytes part of a tuple: an offset slot at `at`, then the length slot and the bytes.
unfoldable pub call_data_of : Text → Outcome Text
call_data_of tuple = do
  let cd_off = read_uint256 (take 32 (drop 64 tuple))
  refuse_if (slt (length tuple) (add64 cd_off 32))
  len_slot ← slice tuple cd_off (add64 cd_off 32)
  let cd_len = read_uint256 len_slot
  let cd_start = add64 cd_off 32
  refuse_if (slt (length tuple) (add64 cd_start cd_len))
  make_copy cd_len (slice tuple cd_start (add64 cd_start cd_len))

unfoldable pub decode_tuple : Text → ℕ → Outcome Call3
decode_tuple arr i = do
  let tuple_off = read_uint256 (take 32 (drop (32 + i * 32) arr))
  let abs = add64 32 tuple_off
  refuse_if (slt abs 0 || slt (length arr) (add64 abs 96))
  tuple ← slice_from arr abs
  let allow_failure = not (get_or tuple 63 0 == 0)
  call_data ← call_data_of tuple
  ok (record {
    target = take 20 (drop 12 tuple);
    allow_failure = allow_failure;
    call_data = call_data;
  })

-- for i := uint64(0); i < n; i++, with `k` rounds left
unfoldable pub decode_tuples : Text → ℕ → ℕ → Outcome (List Call3)
decode_tuples arr i zero = ok []
decode_tuples arr i (suc k) = do
  c ← decode_tuple arr i
  cs ← decode_tuples arr (i + 1) k
  ok (c ∷ cs)

unfoldable pub decode_args : Text → Outcome (List Call3)
decode_args args = do
  refuse_if (ltb (length args) 32)
  let array_off = read_uint256 (take 32 args)
  refuse_if (slt (length args) array_off || slt (add64 (length args) (2 ^ 64 - array_off)) 32)
  arr ← slice_from args array_off
  let n = read_uint256 (take 32 arr)
  refuse_if (n == 0 || ltb 10000 n)
  refuse_if (ltb (length arr) (32 + n * 32))
  decode_tuples arr 0 n

unfoldable pub decode_aggregate3_calls : Text → Outcome (List Call3)
decode_aggregate3_calls bytes = do
  refuse_if (ltb (length bytes) 4 || not (text_eq (take 4 bytes) aggregate3_selector))
  decode_args (drop 4 bytes)

unfoldable pub decode_result_tuple : Text → ℕ → Outcome MulticallResult
decode_result_tuple arr i = do
  let tuple_offset = read_uint256 (take 32 (drop (32 + i * 32) arr))
  let abs_offset = add64 32 tuple_offset
  refuse_if (not (slt abs_offset (length arr)))
  tuple ← slice_from arr abs_offset
  refuse_if (ltb (length tuple) 64)
  let success = not (get_or tuple 31 0 == 0)
  let offset = read_uint256 (take 32 (drop 32 tuple))
  refuse_if (slt (length tuple) (add64 offset 32))
  len_slot ← slice tuple offset (add64 offset 32)
  let return_len = read_uint256 len_slot
  let start = add64 offset 32
  let stop = add64 start return_len
  refuse_if (slt (length tuple) stop)
  return_data ← make_copy return_len (slice tuple start stop)
  ok (record { success = success; return_data = return_data })

unfoldable pub decode_result_tuples : Text → ℕ → ℕ → Outcome (List MulticallResult)
decode_result_tuples arr i zero = ok []
decode_result_tuples arr i (suc k) = do
  r ← decode_result_tuple arr i
  rs ← decode_result_tuples arr (i + 1) k
  ok (r ∷ rs)

unfoldable pub decode_result_bytes : Text → Outcome (List MulticallResult)
decode_result_bytes bytes = do
  refuse_if (ltb (length bytes) 64)
  let array_offset = read_uint256 (take 32 bytes)
  refuse_if (not (slt array_offset (length bytes)))
  arr ← slice_from bytes array_offset
  refuse_if (ltb (length arr) 32)
  let n = read_uint256 (take 32 arr)
  refuse_if (ltb 10000 n)
  refuse_if (ltb (length arr) (32 + n * 32))
  decode_result_tuples arr 0 n

unfoldable pub or_refused {ℓ} : {A : Type ℓ} → Option A → Outcome A
or_refused none = refused
or_refused (some a) = ok a

unfoldable pub decode_aggregate3_result : Text → Outcome (List MulticallResult)
decode_aggregate3_result result_hex = do
  bytes ← or_refused (hex_decode (trim_0x result_hex))
  decode_result_bytes bytes
