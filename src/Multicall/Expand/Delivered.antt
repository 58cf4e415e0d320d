-- ===== src/Multicall/Expand/Delivered.antt =====
-- internal/backend/multicall.go: from aggregateEthCalls to expandMulticallResponses, each request of a
-- batch is answered exactly once.
use sabre.Common.{
  ℕ, ◌+◌, ◌≤◌, ◌<◌, ◌≡◌, ◌≢◌, refl, ap, subst, ◌∙◌, Bool, true, false, not, List, [], ◌∷◌, ◌++◌,
  Option, none, some, arith, ◌==◌, if◌then◌else◌, length, get_elem?, Text, All,
}
use sabre.Config.{MulticallConfig}
use sabre.Json.{Raw, unmarshal_string}
use sabre.Rpc.{BatchRequest, BatchResponse, has_error, request_ids, response_ids, count}
use sabre.Multicall.Encode.{MulticallResult}
use sabre.Multicall.Decode.{Outcome, ok, refused, panic, ◌>>=◌, decode_aggregate3_result}
use sabre.Multicall.Aggregate.{
  MulticallEntry, MulticallGroup, MulticallMapping, Aggregated, aggregate_eth_calls,
}
use sabre.Multicall.Aggregate.Covered.{
  entry_ids, group_ids, mapped_ids, synthetic_ids, aggregate_eth_calls-IsCovered,
}
use sabre.Multicall.Aggregate.Groups.{AreEntries, IsGroup, aggregate_eth_calls-IsGroup}
use sabre.Multicall.Expand.Ids.{
  Returns, fail_entries-ids, entry_response-id, Returns-cons, Returns-append, get_elem?-lt,
  resp_by_id-All, AreAnswered, passed_through-ids,
}
use sabre.Multicall.Expand.{
  resp_by_id, passed_through, fail_entries, entry_response, result_at, expand_entries,
  expand_decoded, expand_result, expand_found, expand_groups, internal_error, mismatch,
  expand_multicall_responses,
}

-- Entries numbered from `j`, with a result for each.
expand_entries-Returns :
    (tag : Text) (results : List MulticallResult) (j : ℕ) (es : List MulticallEntry)
    → AreEntries tag j es
    → j + length es ≤ length results
    → Returns (entry_ids es) (expand_entries results es)
unfolding expand_entries result_at
expand_entries-Returns tag results j [] h k = refl
expand_entries-Returns tag results j (e ∷ es) h k =
    go (get_elem? results e.index) (get_elem?-lt results e.index (omega (arith, h.0.0)))
      (expand_entries-Returns tag results (j + 1) es h.1 (omega arith))
  where
    go :
        (o : Option MulticallResult)
        → o ≢ none
        → Returns (entry_ids es) (expand_entries results es)
        → Returns (e.original_id ∷ entry_ids es) (
            (elim o as (λ _. Outcome MulticallResult) [ none ↦ panic | some r ↦ ok r ]) >>= λ r.
            expand_entries results es >>= λ rs. ok (entry_response e r ∷ rs))
    go none n rest = absurd (n refl)
    go (some r) n rest =
        Returns-cons (entry_response e r) e.original_id (entry_ids es) (expand_entries results es)
          (entry_response-id e r) rest

-- The decoder does not panic on the result of a response.
abbrev pub IsReadable : BatchResponse → Type 0
IsReadable r = elim (unmarshal_string r.result) [
  | none ↦ Unit {0}
  | some hex ↦ decode_aggregate3_result hex ≢ panic
]

expand_decoded-Returns :
    (why : Text) (n : ℕ) (g : MulticallGroup) (d : Outcome (List MulticallResult))
    → IsGroup n g
    → d ≢ panic
    → Returns (entry_ids g.entries) (expand_decoded why g.entries d)
unfolding expand_decoded
expand_decoded-Returns why n g panic h p = absurd (p refl)
expand_decoded-Returns why n g refused h p = fail_entries-ids _ g.entries
expand_decoded-Returns why n g (ok results) h p =
    go (length results == length g.entries)
      (internal_error (mismatch (length results) (length g.entries))) (λ e. ground arith)
  where
    go :
        (same : Bool) (error : Raw)
        → (same ≡ true → length results ≡ length g.entries)
        → Returns (entry_ids g.entries) (
            if not same
            then ok (fail_entries error g.entries)
            else expand_entries results g.entries)
    go false error e = fail_entries-ids error g.entries
    go true error e =
        expand_entries-Returns g.block_tag results 0 g.entries h.2 (omega (arith, e refl))

-- Each id is answered as often as it is asked.
abbrev pub Balanced : Text → List BatchRequest → Outcome (List BatchResponse) → Type 0
Balanced t requests (ok out) = count t (response_ids out) ≡ count t (request_ids requests)
Balanced t requests refused = ⊥
Balanced t requests panic = ⊥

module _ (describe : Text → Text) where
  expand_found-Returns :
      (n : ℕ) (g : MulticallGroup) (o : Option BatchResponse)
      → IsGroup n g
      → ((r : BatchResponse) → o ≡ some r → IsReadable r)
      → Returns (entry_ids g.entries) (expand_found describe g.entries o)
  unfolding expand_found expand_result
  expand_found-Returns n g none h k = fail_entries-ids _ g.entries
  expand_found-Returns n g (some r) h k = go (has_error r) (unmarshal_string r.result) (k r refl)
    where
      go :
          (error : Bool) (result : Option Text)
          → (elim result as (λ _. Type 0) [
            | none ↦ Unit {0}
            | some hex ↦ decode_aggregate3_result hex ≢ panic
          ])
          → Returns (entry_ids g.entries) (
              if error
              then ok (fail_entries r.error g.entries)
              else expand_result describe g.entries result)
      go true result p = fail_entries-ids r.error g.entries
      go false none p = fail_entries-ids _ g.entries
      go false (some hex) p =
          expand_decoded-Returns (describe hex) n g (decode_aggregate3_result hex) h p

  expand_groups-Returns :
      (n : ℕ) (responses : List BatchResponse) (gs : List MulticallGroup)
      → All (IsGroup n) gs
      → All IsReadable responses
      → Returns (group_ids gs) (expand_groups describe responses gs)
  unfolding expand_groups
  expand_groups-Returns n responses [] h k = refl
  expand_groups-Returns n responses (g ∷ gs) h k =
      Returns-append (entry_ids g.entries) (group_ids gs) _ _
        (expand_found-Returns n g (resp_by_id g.synthetic_id responses) h.0
          (λ r e. (resp_by_id-All IsReadable g.synthetic_id responses r k e).0))
        (expand_groups-Returns n responses gs h.1 k)

  -- For groups as aggregateEthCalls makes them, where each request passed through has a response and the
  -- decoder panics on no result: the expansion returns, and the ids of what it returns are those of the
  -- requests passed through and then those of the groups' entries, in the order of the mapping.
  pub expand_multicall_responses-Returns :
      (n : ℕ) (responses : List BatchResponse) (m : MulticallMapping)
      → All (IsGroup n) m.groups
      → AreAnswered responses m.passthrough
      → All IsReadable responses
      → Returns (mapped_ids m) (expand_multicall_responses describe responses m)
  unfolding expand_multicall_responses
  expand_multicall_responses-Returns n responses m h a k =
      go (expand_groups describe responses m.groups)
        (expand_groups-Returns n responses m.groups h k)
    where
      passed : List BatchResponse
      passed = passed_through responses m.passthrough

      go :
          (rest : Outcome (List BatchResponse))
          → Returns (group_ids m.groups) rest
          → Returns (mapped_ids m) (rest >>= λ rs. ok (passed ++ rs))
      go (ok rs) e =
          Returns-append (request_ids m.passthrough) (group_ids m.groups) (ok passed) (ok rs)
            (passed_through-ids responses m.passthrough a) e
      go refused e = elim e [ ]
      go panic e = elim e [ ]

  -- Where a multicall holds at least one call: a batch that aggregateEthCalls rewrites, sent to a server
  -- whose responses answer each request that was passed through and hold no result on which the decoder
  -- panics (they may lack a group's response, or hold an error or any other result for it): the expansion
  -- returns, and it answers each id exactly as often as the batch asks it, so no request is lost and none
  -- is answered twice.
  pub expand-aggregate_eth_calls :
      (cfg : MulticallConfig) (counter : ℕ) (requests : List BatchRequest) (m : MulticallMapping)
      (responses : List BatchResponse) (t : Text)
      → 0 < cfg.max_calls
      → (aggregate_eth_calls cfg counter requests).mapping ≡ some m
      → AreAnswered responses m.passthrough
      → All IsReadable responses
      → Balanced t requests (expand_multicall_responses describe responses m)
  expand-aggregate_eth_calls cfg counter requests m responses t pos e a k =
      go (expand_multicall_responses describe responses m) (
        expand_multicall_responses-Returns cfg.max_calls responses m
          (aggregate_eth_calls-IsGroup cfg counter requests m pos e) a k)
    where
      result : Aggregated
      result = aggregate_eth_calls cfg counter requests

      covered :
          (o : Option MulticallMapping)
          → o ≡ some m
          → (elim o as (λ _. Type 0) [
            | none ↦ result.requests ≡ requests
            | some m' ↦
                (count t (mapped_ids m') ≡ count t (request_ids requests))
                × (count t (request_ids result.requests)
                    ≡ count t (request_ids m'.passthrough) + count t (synthetic_ids m'.groups))
          ])
          → count t (mapped_ids m) ≡ count t (request_ids requests)
      covered none eq h = absurd (ground arith)
      covered (some m') eq h =
          let same : m' ≡ m = cc in
          subst (λ (x : MulticallMapping). count t (mapped_ids x) ≡ count t (request_ids requests))
            same h.0

      go :
          (out : Outcome (List BatchResponse))
          → Returns (mapped_ids m) out
          → Balanced t requests out
      go (ok out) ids =
          ap (count t) ids
          ∙ covered result.mapping e (aggregate_eth_calls-IsCovered cfg counter requests t pos)
      go refused ids = elim ids [ ]
      go panic ids = elim ids [ ]
