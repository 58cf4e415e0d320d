-- ===== src/Cache/Plan.antt =====
-- internal/backend/cache.go: multicalls that are served in part. Times are those of a clock, as in the
-- lookups.
pub mod Merged
pub mod Completed
use sabre.Common.{
  ℕ, ◌+◌, ◌*◌, Bool, true, false, not, ◌&&◌, ◌||◌, List, [], ◌∷◌, ◌++◌, Option, none, some, ltb,
  ◌==◌, if◌then◌else◌, length, set, get_or, Text, codes, is_empty,
}
use sabre.Json.{Json, Raw, absent, struct_field, string_field, unmarshal_object}
use sabre.Multicall.Encode.{Call3, MulticallResult, encode_aggregate3, encode_aggregate3_result}
use sabre.Multicall.Decode.{Outcome, ok, refused, panic, ◌>>=◌, decode_aggregate3_result}
use sabre.Multicall.Params.{
  ParsedEthCall, parse_eth_call_params, is_immutable_selector, decode_multicall,
}
use sabre.Multicall.Aggregate.{call_params}
use sabre.Cache.Reply.{rpc_result, build_multicall_body}
use sabre.Cache.SubCalls.{probe_call, cache_sub_call}
use sabre.Cache.Store.{Tiers, Store}

pub record MulticallPlan : Type 0 where
  pub id : Raw
  pub calls : List Call3
  pub results : List MulticallResult
  pub miss_indices : List ℕ
  pub reduced_body : Raw

-- The zero value of an entry of make([]multicallResult, n).
abbrev pub no_result : MulticallResult
no_result = record { success = false; return_data = [] }

abbrev no_call : Call3
no_call = record { target = []; allow_failure = false; call_data = [] }

-- plan.results, plan.missIndices and miss, from some call on
pub record Probed : Type 0 where
  pub results : List MulticallResult
  pub miss_indices : List ℕ
  pub miss : List Call3

unfoldable pub add_probed : ℕ → Call3 → Option MulticallResult → Probed → Probed
add_probed i c none p = record {
  results = no_result ∷ p.results;
  miss_indices = i ∷ p.miss_indices;
  miss = c ∷ p.miss;
}
add_probed i c (some r) p = record {
  results = r ∷ p.results;
  miss_indices = p.miss_indices;
  miss = p.miss;
}

-- env.Error != nil || env.Result == ""; none is also the error of Unmarshal
unfoldable pub reply_text : Raw → Option Text
reply_text response = elim (unmarshal_object response) [
  | none ↦ none
  | some fs ↦ elim (struct_field (codes "error") fs) [
    | absent ↦ elim (string_field (codes "result") fs) [
      | none ↦ none
      | some t ↦ if is_empty t then none else some t
    ]
    | _ ↦ none
  ]
]

unfoldable pub plan_of : Raw → List Call3 → ParsedEthCall → Probed → Option MulticallPlan
plan_of id calls parsed p =
    if length p.miss == 0 || length p.miss == length calls
    then none
    else some (record {
      id = id;
      calls = calls;
      results = p.results;
      miss_indices = p.miss_indices;
      reduced_body =
          build_multicall_body id
            (call_params parsed.params.to parsed.block_tag (encode_aggregate3 p.miss));
    })

module _ (T : Tiers) (sha256 : Text → Text) (compact : Json → Text) where
  -- The probe of one call, which skips the cache for a call that is no immutable read.
  unfoldable pub plan_probe :
      (ℕ → ℕ) → ℕ → Text → Call3 → Store T → Option MulticallResult × Store T
  plan_probe clock i chain c s =
      if is_immutable_selector c.call_data
      then probe_call T sha256 compact clock (2 * i) chain c s
      else (none, s)

  -- The loop of PlanMulticall, at call `i`.
  unfoldable pub plan_calls : (ℕ → ℕ) → ℕ → Text → List Call3 → Store T → Probed × Store T
  unfolding plan_probe add_probed
  plan_calls clock i chain [] s = (record { results = []; miss_indices = []; miss = [] }, s)
  plan_calls clock i chain (c ∷ cs) s =
      let p = plan_probe clock i chain c s in
      let rest = plan_calls clock (i + 1) chain cs p.1 in (add_probed i c p.0 rest.0, rest.1)

  -- PlanMulticall
  unfoldable pub plan_multicall :
      (ℕ → ℕ) → Text → Text → Raw → Raw → Store T → Outcome (Option MulticallPlan × Store T)
  unfolding plan_calls plan_of
  plan_multicall clock chain method params id s =
      if not s.cfg.enabled then ok (none, s) else elim (decode_multicall method params) [
        | panic ↦ panic
        | refused ↦ ok (none, s)
        | ok calls ↦ elim (parse_eth_call_params params) [
          | none ↦ ok (none, s)
          | some parsed ↦
              let p = plan_calls clock 0 chain calls s in ok (plan_of id calls parsed p.0, p.1)
        ]
      ]

  -- The loop of CompleteMulticall: plan.results and the store.
  unfoldable pub merge_misses :
      (ℕ → ℕ)
      → ℕ
      → Text
      → List Call3
      → List ℕ
      → List MulticallResult
      → List MulticallResult × Store T
      → List MulticallResult × Store T
  merge_misses clock j chain calls (idx ∷ is) (r ∷ rs) (results, s) =
      merge_misses clock (j + 1) chain calls is rs (
        set results idx r,
        cache_sub_call T sha256 compact (clock j) chain (get_or calls idx no_call) r s,
      )
  merge_misses clock j chain calls _ _ acc = acc

  unfoldable pub complete_decoded :
      (ℕ → ℕ)
      → Text
      → MulticallPlan
      → Outcome (List MulticallResult)
      → Store T
      → Outcome (Option Raw × Store T)
  unfolding merge_misses
  complete_decoded clock chain plan panic s = panic
  complete_decoded clock chain plan refused s = ok (none, s)
  complete_decoded clock chain plan (ok miss_results) s =
      let merged =
        merge_misses clock 0 chain plan.calls plan.miss_indices miss_results (plan.results, s) in
      if not (length miss_results == length plan.miss_indices)
      then ok (none, s)
      else ok (some (rpc_result plan.id (encode_aggregate3_result merged.0)), merged.1)

  -- CompleteMulticall
  unfoldable pub complete_multicall :
      (ℕ → ℕ) → Text → MulticallPlan → Raw → Store T → Outcome (Option Raw × Store T)
  unfolding complete_decoded
  complete_multicall clock chain plan response s = elim (reply_text response) [
    | none ↦ ok (none, s)
    | some hex ↦ complete_decoded clock chain plan (decode_aggregate3_result hex) s
  ]
