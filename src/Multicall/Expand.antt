-- ===== src/Multicall/Expand.antt =====
-- internal/backend/multicall.go: expandMulticallResponses. The text of the decoder's error is a
-- parameter, a function of the result that it refuses.
pub mod Ids
pub mod Delivered
pub mod InOrder
use sabre.Common.{
  ℕ, ◌+◌, Bool, true, false, not, List, [], ◌∷◌, ◌++◌, Option, none, some, ◌==◌, if◌then◌else◌,
  length, get_elem?, Text, codes, text_eq, hex_encode, decimal,
}
use sabre.Json.{Json, Fields, Raw, absent, json, unmarshal_string}
use sabre.Rpc.{BatchRequest, BatchResponse, has_error, rpc_error}
use sabre.Multicall.Encode.{MulticallResult}
use sabre.Multicall.Decode.{Outcome, ok, refused, panic, ◌>>=◌, decode_aggregate3_result}
use sabre.Multicall.Aggregate.{MulticallEntry, MulticallGroup, MulticallMapping}

-- respByID[id]: of repeated ids the last response counts
unfoldable pub resp_by_id : Text → List BatchResponse → Option BatchResponse
resp_by_id id [] = none
resp_by_id id (r ∷ rs) = elim (resp_by_id id rs) [
  | some s ↦ some s
  | none ↦ if text_eq r.id id then some r else none
]

-- The loop over the requests passed through; one without a response is left out.
unfoldable pub passed_through : List BatchResponse → List BatchRequest → List BatchResponse
passed_through responses [] = []
passed_through responses (req ∷ reqs) =
    let rest = passed_through responses reqs in
    elim (resp_by_id req.id responses) [ none ↦ rest | some r ↦ r ∷ rest ]

abbrev pub error_response : Raw → Text → BatchResponse
error_response error id = record {
  jsonrpc = codes "2.0";
  id = id;
  result = absent;
  error = error;
  internal_err = false;
}

-- The same error for each entry.
unfoldable pub fail_entries : Raw → List MulticallEntry → List BatchResponse
fail_entries error [] = []
fail_entries error (e ∷ es) = error_response error e.original_id ∷ fail_entries error es

abbrev pub reverted : Text → Raw
reverted return_data = json (
    Json.obj (
      Fields.field (codes "code") (Json.num (codes "3")) (
        Fields.field (codes "data") (Json.str (codes "0x" ++ hex_encode return_data))
          (Fields.field (codes "message") (Json.str (codes "execution reverted")) Fields.end))))

unfoldable pub entry_response : MulticallEntry → MulticallResult → BatchResponse
entry_response e r =
    if r.success
    then record {
      jsonrpc = codes "2.0";
      id = e.original_id;
      result = json (Json.str (codes "0x" ++ hex_encode r.return_data));
      error = absent;
      internal_err = false;
    }
    else error_response (reverted r.return_data) e.original_id

-- results[entry.Index]
unfoldable pub result_at : List MulticallResult → ℕ → Outcome MulticallResult
result_at results i = elim (get_elem? results i) [ none ↦ panic | some r ↦ ok r ]

unfoldable pub expand_entries :
    List MulticallResult → List MulticallEntry → Outcome (List BatchResponse)
unfolding result_at entry_response
expand_entries results [] = ok []
expand_entries results (e ∷ es) = do
  r ← result_at results e.index
  rest ← expand_entries results es
  ok (entry_response e r ∷ rest)

abbrev pub mismatch : ℕ → ℕ → Text
mismatch got expected =
    codes "multicall result count mismatch: got "
    ++ (decimal got ++ (codes ", expected " ++ decimal expected))

abbrev pub internal_error : Text → Raw
internal_error message = rpc_error (codes "-32603") message

unfoldable pub expand_decoded :
    Text → List MulticallEntry → Outcome (List MulticallResult) → Outcome (List BatchResponse)
unfolding expand_entries fail_entries
expand_decoded why entries (ok results) =
    if not (length results == length entries)
    then ok (fail_entries (internal_error (mismatch (length results) (length entries))) entries)
    else expand_entries results entries
expand_decoded why entries refused =
    ok (fail_entries (internal_error (codes "multicall decode error: " ++ why)) entries)
expand_decoded why entries panic = panic

module _ (describe : Text → Text) where
  unfoldable pub expand_result : List MulticallEntry → Option Text → Outcome (List BatchResponse)
  unfolding expand_decoded
  expand_result entries none =
      ok (fail_entries (internal_error (codes "multicall result not a hex string")) entries)
  expand_result entries (some hex) =
      expand_decoded (describe hex) entries (decode_aggregate3_result hex)

  unfoldable pub expand_found :
      List MulticallEntry → Option BatchResponse → Outcome (List BatchResponse)
  unfolding expand_result
  expand_found entries none =
      ok (fail_entries (internal_error (codes "multicall response missing")) entries)
  expand_found entries (some r) =
      if has_error r
      then ok (fail_entries r.error entries)
      else expand_result entries (unmarshal_string r.result)

  -- The loop over the groups.
  unfoldable pub expand_groups :
      List BatchResponse → List MulticallGroup → Outcome (List BatchResponse)
  unfolding expand_found
  expand_groups responses [] = ok []
  expand_groups responses (g ∷ gs) = do
    here ← expand_found g.entries (resp_by_id g.synthetic_id responses)
    rest ← expand_groups responses gs
    ok (here ++ rest)

  -- expandMulticallResponses
  unfoldable pub expand_multicall_responses :
      List BatchResponse → MulticallMapping → Outcome (List BatchResponse)
  unfolding expand_groups
  expand_multicall_responses responses m = do
    rest ← expand_groups responses m.groups
    ok (passed_through responses m.passthrough ++ rest)
