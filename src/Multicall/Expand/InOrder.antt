-- ===== src/Multicall/Expand/InOrder.antt =====
-- internal/backend/multicall.go: each result of a multicall reaches the request of its call.
use sabre.Common.{
  ℕ, suc, zero, ◌+◌, ◌≤◌, ◌<◌, ◌≡◌, refl, sym, ap, ◌∙◌, true, false, List, [], ◌∷◌, ◌++◌, map,
  append_assoc, some, arith, ◌==◌, length, length-map, length-append, get_elem?, Text, codes,
  hex_encode,
}
use sabre.Config.{MulticallConfig}
use sabre.Json.{unmarshal_string}
use sabre.Rpc.{BatchRequest, BatchResponse, has_error}
use sabre.Multicall.Encode.{Call3, MulticallResult, encode_aggregate3, encode_aggregate3_result}
use sabre.Multicall.Decode.{ok, max_alloc}
use sabre.Multicall.RoundTrip.ResultText.{AreBytes, decode-encode_aggregate3_result}
use sabre.Multicall.Params.{decode_multicall}
use sabre.Multicall.Aggregate.{EligibleCall, call3_of, entries_from, synthetic_request}
use sabre.Multicall.Aggregate.Groups.{length-entries_from}
use sabre.Multicall.Aggregate.Synthetic.{decode_multicall-synthetic_request}
use sabre.Multicall.Expand.{
  entry_response, result_at, expand_entries, expand_decoded, expand_result, expand_found,
}

-- The response to an eth_call with the result of its call.
abbrev pub answer : (Call3 → MulticallResult) → EligibleCall → BatchResponse
answer execute c =
    entry_response
      (record { original_id = c.request.id; original_params = c.request.params; index = 0 })
      (execute (call3_of c))

abbrev pub executed : (Call3 → MulticallResult) → List EligibleCall → List MulticallResult
executed execute chunk = map execute (map call3_of chunk)

get_elem?-at :
    (xs ys : List MulticallResult) (r : MulticallResult) (i : ℕ)
    → i ≡ length xs
    → get_elem? (xs ++ r ∷ ys) i ≡ some r
get_elem?-at [] ys r zero e = refl
get_elem?-at [] ys r (suc i) e = absurd (omega arith)
get_elem?-at (x ∷ xs) ys r zero e = absurd (omega arith)
get_elem?-at (x ∷ xs) ys r (suc i) e = get_elem?-at xs ys r i (omega arith)

expand_entries-executed :
    (execute : Call3 → MulticallResult) (pre : List MulticallResult) (j : ℕ)
    (chunk : List EligibleCall)
    → j ≡ length pre
    → expand_entries (pre ++ executed execute chunk) (entries_from j chunk)
      ≡ ok (map (answer execute) chunk)
unfolding expand_entries entries_from result_at entry_response
expand_entries-executed execute pre j [] e = refl
expand_entries-executed execute pre j (c ∷ cs) e =
    let r : MulticallResult = execute (call3_of c) in
    let all : List MulticallResult = pre ++ r ∷ executed execute cs in
    let here : result_at all j ≡ ok r =
      rw (get_elem?-at pre (executed execute cs) r j e, result_at) refl in
    let shift : pre ++ (r ∷ []) ++ executed execute cs ≡ all =
      append_assoc pre (r ∷ []) (executed execute cs) in
    let rest : expand_entries all (entries_from (j + 1) cs) ≡ ok (map (answer execute) cs) =
      sym (ap (λ (rs : List MulticallResult). expand_entries rs (entries_from (j + 1) cs)) shift)
      ∙ expand_entries-executed execute (pre ++ r ∷ []) (j + 1) cs
          (omega (arith, e, length-append pre (r ∷ []))) in
    rw (here, rest) refl

-- The response holds, behind "0x", the encoding of these results.
abbrev pub IsResultOf : List MulticallResult → BatchResponse → Type 0
IsResultOf results r =
    has_error r ≡ false
    × unmarshal_string r.result ≡ some (codes "0x" ++ hex_encode (encode_aggregate3_result results))

-- A server that executes a multicall: where the parameters of a request decode to calls, its response
-- holds the encoded results of these calls.
abbrev pub Executes : (Call3 → MulticallResult) → (BatchRequest → BatchResponse) → Type 0
Executes execute serve =
    (req : BatchRequest) (calls : List Call3)
    → decode_multicall req.method req.params ≡ ok calls
    → IsResultOf (map execute calls) (serve req)

-- A group of 1 to 10000 calls, whose encoded calls and results can be allocated and whose return values
-- are bytes, sent to a server that executes multicalls: the expansion of the server's response to the
-- synthetic request gives each request of the group, in order and under its own id, the response with the
-- result of executing its own call.
pub expand_found-synthetic_request :
    (describe : Text → Text) (execute : Call3 → MulticallResult)
    (serve : BatchRequest → BatchResponse) (cfg : MulticallConfig) (n : ℕ) (tag : Text)
    (chunk : List EligibleCall)
    → Executes execute serve
    → 0 < length chunk
    → length chunk ≤ 10000
    → length (encode_aggregate3 (map call3_of chunk)) ≤ max_alloc
    → AreBytes (executed execute chunk)
    → length (encode_aggregate3_result (executed execute chunk)) ≤ max_alloc
    → expand_found describe
        (entries_from 0 chunk)
        (some (serve (synthetic_request cfg n tag chunk)))
      ≡ ok (map (answer execute) chunk)
unfolding expand_found expand_result
expand_found-synthetic_request describe execute serve cfg n tag chunk runs nonempty few small bytes
      fits =
    let req = synthetic_request cfg n tag chunk in
    let results = executed execute chunk in
    let calls = length-map call3_of chunk in
    let size = length-map execute (map call3_of chunk) in
    let response =
      runs req (map call3_of chunk)
        (decode_multicall-synthetic_request cfg n tag chunk nonempty few small) in
    let read = decode-encode_aggregate3_result results (omega (arith, size, calls)) bytes fits in
    let same : (length results == length (entries_from 0 chunk)) ≡ true =
      ground (arith, size, calls, length-entries_from 0 chunk) in
    rw (response.0, response.1, read, expand_decoded, same)
      (expand_entries-executed execute [] 0 chunk refl)
