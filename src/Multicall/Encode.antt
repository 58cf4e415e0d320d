-- ===== src/Multicall/Encode.antt =====
-- internal/backend/multicall.go: encodeAggregate3 and encodeAggregate3Result. The buffer is
-- allocated at its final size and filled through a cursor, as the source does.
use sabre.Common.{ℕ, ◌+◌, ◌*◌, Bool, List, [], ◌∷◌, if◌then◌else◌, length, replicate, Text}
use sabre.Multicall.Word.{be_bytes, ceil32, copy_at}

-- A target address is 20 bytes.
pub record Call3 : Type 0 where
  pub target : Text
  pub allow_failure : Bool
  pub call_data : Text

pub record MulticallResult : Type 0 where
  pub success : Bool
  pub return_data : Text

abbrev pub aggregate3_selector : Text
aggregate3_selector = 0x82 ∷ 0xad ∷ 0x56 ∷ 0xcb ∷ []

-- `buf` and `pos` of the source.
pub record Cursor : Type 0 where
  pub buf : Text
  pub pos : ℕ

-- writeUint256(buf[pos:], v); pos += 32
unfoldable pub write_uint256 : ℕ → Cursor → Cursor
write_uint256 v c = record { buf = copy_at (c.pos + 24) (be_bytes 8 v) c.buf; pos = c.pos + 32 }

-- if b { buf[pos+31] = 1 }; pos += 32
unfoldable pub write_bool : Bool → Cursor → Cursor
write_bool b c = record {
  buf = if b then copy_at (c.pos + 31) (1 ∷ []) c.buf else c.buf;
  pos = c.pos + 32;
}

-- copy(buf[pos+12:pos+32], target[:]); pos += 32
unfoldable pub write_target : Text → Cursor → Cursor
write_target t c = record { buf = copy_at (c.pos + 12) t c.buf; pos = c.pos + 32 }

-- copy(buf[pos:], data); pos += ceil32(len(data))
unfoldable pub write_data : Text → Cursor → Cursor
write_data d c = record { buf = copy_at c.pos d c.buf; pos = c.pos + ceil32 (length d) }

unfoldable pub write_offsets : List ℕ → Cursor → Cursor
write_offsets [] c = c
write_offsets (o ∷ os) c = write_offsets os (write_uint256 o c)

-- The loop over the sizes: the offset of each element, and the offset behind the last.
unfoldable pub running_offsets : ℕ → List ℕ → List ℕ × ℕ
running_offsets running [] = ([], running)
running_offsets running (size ∷ sizes) =
    let rest = running_offsets (running + size) sizes in (running ∷ rest.0, rest.1)

unfoldable pub call_sizes : List Call3 → List ℕ
call_sizes [] = []
call_sizes (c ∷ cs) = (128 + ceil32 (length c.call_data)) ∷ call_sizes cs

unfoldable pub write_call : Call3 → Cursor → Cursor
write_call c w = write_data c.call_data (
    write_uint256 (length c.call_data)
      (write_uint256 96 (write_bool c.allow_failure (write_target c.target w))))

unfoldable pub write_calls : List Call3 → Cursor → Cursor
write_calls [] w = w
write_calls (c ∷ cs) w = write_calls cs (write_call c w)

unfoldable pub encode_aggregate3 : List Call3 → Text
encode_aggregate3 calls =
    let n = length calls in
    let offsets = running_offsets (n * 32) (call_sizes calls) in
    let total = 4 + 32 + 32 + offsets.1 in
    let start : Cursor = record {
      buf = copy_at 0 aggregate3_selector (replicate total 0);
      pos = 4;
    } in
    let written : Cursor =
      write_calls calls (write_offsets offsets.0 (write_uint256 n (write_uint256 32 start))) in
    written.buf

unfoldable pub result_sizes : List MulticallResult → List ℕ
result_sizes [] = []
result_sizes (r ∷ rs) = (96 + ceil32 (length r.return_data)) ∷ result_sizes rs

unfoldable pub write_result : MulticallResult → Cursor → Cursor
write_result r w =
    write_data r.return_data
      (write_uint256 (length r.return_data) (write_uint256 64 (write_bool r.success w)))

unfoldable pub write_results : List MulticallResult → Cursor → Cursor
write_results [] w = w
write_results (r ∷ rs) w = write_results rs (write_result r w)

unfoldable pub encode_aggregate3_result : List MulticallResult → Text
encode_aggregate3_result results =
    let n = length results in
    let offsets = running_offsets (n * 32) (result_sizes results) in
    let total = 32 + 32 + offsets.1 in
    let start : Cursor = record { buf = replicate total 0; pos = 0 } in
    let written : Cursor =
      write_results results (write_offsets offsets.0 (write_uint256 n (write_uint256 32 start))) in
    written.buf
