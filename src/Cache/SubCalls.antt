-- ===== src/Cache/SubCalls.antt =====
-- internal/backend/cache.go: immutable reads in the cache, on their own and inside a multicall. The times
-- of the reads and writes of the store are a parameter: `clock i` is the time at the i-th of them.
pub mod Stored
use sabre.Common.{
  ℕ, ◌+◌, Bool, true, false, not, List, [], ◌∷◌, Option, none, some, ◌==◌, if◌then◌else◌, length,
  Text, codes, text_eq, is_empty,
}
use sabre.Json.{Raw, absent, json, struct_field, string_of, unmarshal_object}
use sabre.Multicall.Encode.{Call3, MulticallResult}
use sabre.Multicall.Decode.{Outcome, ok, refused, panic, decode_aggregate3_result}
use sabre.Multicall.Params.{is_immutable_selector, hex_to_bytes}
use sabre.Json.{Json}
use sabre.Cache.Keys.{sub_call_key, sub_call_neg_key}
use sabre.Cache.Store.{Tiers, Store, get, put_immortal, put_negative}

-- env.Result, with "" for none
unfoldable pub result_text : Raw → Option Text
result_text response = elim (unmarshal_object response) [
  | none ↦ none
  | some fs ↦ elim (string_of (struct_field (codes "result") fs)) [
    | none ↦ none
    | some t ↦ if is_empty t then none else some t
  ]
]

-- json.Unmarshal(r.Error, &e) == nil && e.Code == 3
unfoldable pub is_code_3 : Raw → Bool
is_code_3 (json (Json.num literal)) = text_eq literal (codes "3")
is_code_3 _ = false

unfoldable pub is_revert : Raw → Bool
unfolding is_code_3
is_revert error = elim (unmarshal_object error) [
  | none ↦ false
  | some fs ↦ is_code_3 (struct_field (codes "code") fs)
]

module _ (T : Tiers) (sha256 : Text → Text) (compact : Json → Text) where
  unfoldable pub from_negative : Option Text × Store T → Option MulticallResult × Store T
  from_negative (some body, s) = (some (record { success = false; return_data = [] }), s)
  from_negative (none, s) = (none, s)

  unfoldable pub from_positive :
      (Store T → Option Text × Store T) → Option Text × Store T → Option MulticallResult × Store T
  unfolding from_negative
  from_positive negative (some body, s) = (some (record { success = true; return_data = body }), s)
  from_positive negative (none, s) = from_negative (negative s)

  -- What the cache knows of an immutable read: Get of its key, and then negativeCached.
  unfoldable pub probe_call :
      (ℕ → ℕ) → ℕ → Text → Call3 → Store T → Option MulticallResult × Store T
  unfolding from_positive
  probe_call clock i chain c s =
      from_positive
        (get T (clock (i + 1)) (sub_call_neg_key sha256 compact chain c.target c.call_data))
        (get T (clock i) (sub_call_key sha256 compact chain c.target c.call_data) s)

  unfoldable pub serve_next :
      Option MulticallResult × Store T
      → Option (List MulticallResult) × Store T
      → Option (List MulticallResult) × Store T
  serve_next (none, s) rest = (none, s)
  serve_next (some r, s) (none, s') = (none, s')
  serve_next (some r, s) (some rs, s') = (some (r ∷ rs), s')

  -- The loop of serveMulticall.
  unfoldable pub serve_calls :
      (ℕ → ℕ) → ℕ → Text → List Call3 → Store T → Option (List MulticallResult) × Store T
  unfolding probe_call serve_next
  serve_calls clock i chain [] s = (some [], s)
  serve_calls clock i chain (c ∷ cs) s =
      let p = probe_call clock i chain c s in
      let rest = serve_calls clock (i + 2) chain cs p.1 in
      if not (is_immutable_selector c.call_data) then (none, s) else serve_next p rest

  -- The result of one sub-call.
  unfoldable pub cache_sub_call : ℕ → Text → Call3 → MulticallResult → Store T → Store T
  cache_sub_call now chain c r s =
      if not (is_immutable_selector c.call_data)
      then s
      else if r.success
      then put_immortal T (sub_call_key sha256 compact chain c.target c.call_data) r.return_data
          chain s
      else put_negative T now (sub_call_neg_key sha256 compact chain c.target c.call_data) chain s

  unfoldable pub cache_sub_calls :
      (ℕ → ℕ) → ℕ → Text → List Call3 → List MulticallResult → Store T → Store T
  unfolding cache_sub_call
  cache_sub_calls clock i chain (c ∷ cs) (r ∷ rs) s =
      cache_sub_calls clock (i + 1) chain cs rs (cache_sub_call (clock i) chain c r s)
  cache_sub_calls clock i chain _ _ s = s

  unfoldable pub cache_decoded :
      (ℕ → ℕ) → Text → List Call3 → Outcome (List MulticallResult) → Store T → Outcome (Store T)
  unfolding cache_sub_calls
  cache_decoded clock chain calls panic s = panic
  cache_decoded clock chain calls refused s = ok s
  cache_decoded clock chain calls (ok results) s =
      if not (length results == length calls)
      then ok s
      else ok (cache_sub_calls clock 0 chain calls results s)

  -- cacheMulticallSubcalls
  unfoldable pub cache_multicall_subcalls :
      (ℕ → ℕ) → Text → List Call3 → Raw → Store T → Outcome (Store T)
  unfolding cache_decoded
  cache_multicall_subcalls clock chain calls response s = elim (result_text response) [
    | none ↦ ok s
    | some hex ↦ cache_decoded clock chain calls (decode_aggregate3_result hex) s
  ]

  -- r.Result of cacheImmutableCall: a string, nil, or an error of Unmarshal
  unfoldable pub cache_call_result : ℕ → Text → Text → Text → Raw → Raw → Store T → Store T
  cache_call_result now chain target call_data (json (Json.str result)) error s =
      put_immortal T (sub_call_key sha256 compact chain target call_data) (hex_to_bytes result)
        chain s
  cache_call_result now chain target call_data (json Json.null) error s =
      if is_revert error
      then put_negative T now (sub_call_neg_key sha256 compact chain target call_data) chain s
      else s
  cache_call_result now chain target call_data absent error s =
      if is_revert error
      then put_negative T now (sub_call_neg_key sha256 compact chain target call_data) chain s
      else s
  cache_call_result now chain target call_data _ error s = s

  -- cacheImmutableCall
  unfoldable pub cache_immutable_call : ℕ → Text → Text → Text → Raw → Store T → Store T
  unfolding cache_call_result
  cache_immutable_call now chain target call_data response s = elim (unmarshal_object response) [
    | none ↦ s
    | some fs ↦
        cache_call_result now chain target call_data (struct_field (codes "result") fs)
          (struct_field (codes "error") fs) s
  ]
