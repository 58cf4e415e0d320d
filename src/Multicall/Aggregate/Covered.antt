-- ===== src/Multicall/Aggregate/Covered.antt =====
-- internal/backend/multicall.go: aggregateEthCalls keeps track of every request of the batch.
use sabre.Common.{
  ℕ, ◌+◌, ◌<◌, ◌%◌, ◌≡◌, refl, ap, ◌∙◌, Bool, true, false, List, [], ◌∷◌, ◌++◌, map, map-append,
  none, some, arith, ltb, if◌then◌else◌, length, Text,
}
use sabre.Config.{MulticallConfig}
use sabre.Rpc.{BatchRequest, count, count-append, request_ids}
use sabre.Multicall.Word.{word_mod}
use sabre.Multicall.Aggregate.{
  EligibleCall, MulticallEntry, MulticallGroup, MulticallMapping, split, TagGroups, group_calls,
  chunks, entries_from, Aggregation, add_passthrough, add_group, add_chunk, add_chunks, add_groups,
  Aggregated, aggregate_all, aggregate_eth_calls, synthetic_request, synthetic_id,
}
use sabre.Multicall.Aggregate.Grouping.{
  call_ids, tag_ids, chunk_ids, count-split, count-group_calls, flatten-chunks, chunk_ids-flatten,
}

abbrev pub entry_ids : List MulticallEntry → List Text
entry_ids entries = map (λ (e : MulticallEntry). e.original_id) entries

abbrev pub group_ids : List MulticallGroup → List Text
group_ids [] = []
group_ids (g ∷ gs) = entry_ids g.entries ++ group_ids gs

abbrev pub synthetic_ids : List MulticallGroup → List Text
synthetic_ids groups = map (λ (g : MulticallGroup). g.synthetic_id) groups

-- The ids that a mapping keeps, with their multiplicity.
abbrev pub mapped_ids : MulticallMapping → List Text
mapped_ids m = request_ids m.passthrough ++ group_ids m.groups

group_ids-append :
    (t : Text) (gs hs : List MulticallGroup)
    → count t (group_ids (gs ++ hs)) ≡ count t (group_ids gs) + count t (group_ids hs)
unfolding count
group_ids-append t [] hs = omega arith
group_ids-append t (g ∷ gs) hs = omega (
  arith,
  group_ids-append t gs hs,
  count-append t (entry_ids g.entries) (group_ids (gs ++ hs)),
  count-append t (entry_ids g.entries) (group_ids gs),
)

entry_ids-entries_from :
    (j : ℕ) (cs : List EligibleCall) → entry_ids (entries_from j cs) ≡ call_ids cs
unfolding entries_from
entry_ids-entries_from j [] = refl
entry_ids-entries_from j (c ∷ cs) = ap (◌∷◌ c.request.id) (entry_ids-entries_from (j + 1) cs)

count-request_ids-append :
    (t : Text) (xs ys : List BatchRequest)
    → count t (request_ids (xs ++ ys)) ≡ count t (request_ids xs) + count t (request_ids ys)
count-request_ids-append t xs ys =
    ap (count t) (map-append (λ (r : BatchRequest). r.id) xs ys)
    ∙ count-append t (request_ids xs) (request_ids ys)

count-synthetic_ids-append :
    (t : Text) (gs hs : List MulticallGroup)
    → count t (synthetic_ids (gs ++ hs)) ≡ count t (synthetic_ids gs) + count t (synthetic_ids hs)
count-synthetic_ids-append t gs hs =
    ap (count t) (map-append (λ (g : MulticallGroup). g.synthetic_id) gs hs)
    ∙ count-append t (synthetic_ids gs) (synthetic_ids hs)

-- How often an id stands in the mapping.
abbrev mapped : Text → Aggregation → ℕ
mapped t a = count t (request_ids a.mapping.passthrough) + count t (group_ids a.mapping.groups)

-- The requests sent are the ones passed through and one for each group.
abbrev IsSent : Text → Aggregation → Type 0
IsSent t a =
    count t (request_ids a.out)
    ≡ count t (request_ids a.mapping.passthrough) + count t (synthetic_ids a.mapping.groups)

-- A step that records the requests with the given ids.
abbrev Adds : Text → ℕ → Aggregation → Aggregation → Type 0
Adds t n a b = (mapped t b ≡ n + mapped t a) × (IsSent t a → IsSent t b)

add_passthrough-Adds :
    (t : Text) (req : BatchRequest) (a : Aggregation)
    → Adds t (count t (request_ids (req ∷ []))) a (add_passthrough req a)
unfolding add_passthrough
add_passthrough-Adds t req a =
    let e = count-request_ids-append t a.mapping.passthrough (req ∷ []) in
    let f = count-request_ids-append t a.out (req ∷ []) in
    (omega (arith, e), λ h. omega (arith, e, f, h))

add_group-Adds :
    (cfg : MulticallConfig) (t tag : Text) (chunk : List EligibleCall) (a : Aggregation)
    → Adds t (count t (call_ids chunk)) a (add_group cfg tag chunk a)
unfolding add_group synthetic_request count
add_group-Adds cfg t tag chunk a =
    let n = (a.counter + 1) % word_mod in
    let req = synthetic_request cfg n tag chunk in
    let g : MulticallGroup = record {
      synthetic_id = synthetic_id n;
      block_tag = tag;
      entries = entries_from 0 chunk;
    } in
    let ids = ap (count t) (entry_ids-entries_from 0 chunk) in
    let out = count-request_ids-append t a.out (req ∷ []) in
    let kept = group_ids-append t a.mapping.groups (g ∷ []) in
    let synthetic = count-synthetic_ids-append t a.mapping.groups (g ∷ []) in
    let one = count-append t (entry_ids g.entries) [] in
    (omega (arith, kept, one, ids), λ h. omega (arith, out, synthetic, h))

add_chunk-Adds :
    (cfg : MulticallConfig) (t tag : Text) (chunk : List EligibleCall) (a : Aggregation)
    → Adds t (count t (call_ids chunk)) a (add_chunk cfg tag chunk a)
unfolding add_chunk
add_chunk-Adds cfg t tag [] a = add_group-Adds cfg t tag [] a
add_chunk-Adds cfg t tag (c ∷ []) a = add_passthrough-Adds t c.request a
add_chunk-Adds cfg t tag (c ∷ d ∷ cs) a = add_group-Adds cfg t tag (c ∷ d ∷ cs) a

add_chunks-Adds :
    (cfg : MulticallConfig) (t tag : Text) (cs : List (List EligibleCall)) (a : Aggregation)
    → Adds t (count t (chunk_ids cs)) a (add_chunks cfg tag cs a)
unfolding add_chunks count
add_chunks-Adds cfg t tag [] a = (omega arith, λ h. h)
add_chunks-Adds cfg t tag (c ∷ cs) a =
    let first = add_chunk-Adds cfg t tag c a in
    let rest = add_chunks-Adds cfg t tag cs (add_chunk cfg tag c a) in
    (
      omega (arith, first.0, rest.0, count-append t (call_ids c) (chunk_ids cs)),
      λ h. rest.1 (first.1 h),
    )

add_groups-Adds :
    (cfg : MulticallConfig) (t : Text) (groups : TagGroups) (a : Aggregation)
    → 0 < cfg.max_calls
    → Adds t (count t (tag_ids groups)) a (add_groups cfg groups a)
unfolding add_groups count
add_groups-Adds cfg t [] a pos = (omega arith, λ h. h)
add_groups-Adds cfg t ((tag, calls) ∷ groups) a pos =
    let cs = chunks (length calls) cfg.max_calls calls in
    let ids : chunk_ids cs ≡ call_ids calls =
      chunk_ids-flatten cs ∙ ap call_ids (flatten-chunks cfg.max_calls calls pos) in
    let first = add_chunks-Adds cfg t tag cs a in
    let rest = add_groups-Adds cfg t groups (add_chunks cfg tag cs a) pos in
    (
      omega (
        arith,
        first.0,
        rest.0,
        ap (count t) ids,
        count-append t (call_ids calls) (tag_ids groups),
      ),
      λ h. rest.1 (first.1 h),
    )

abbrev start_of : ℕ → List BatchRequest → Aggregation
start_of counter passed = record {
  out = passed;
  mapping = record { groups = []; passthrough = passed };
  counter = counter;
}

aggregate_all-Adds :
    (cfg : MulticallConfig) (counter : ℕ) (t : Text) (passed : List BatchRequest)
    (calls : List EligibleCall)
    → 0 < cfg.max_calls
    → Adds t
        (count t (call_ids calls))
        (start_of counter passed)
        (aggregate_all cfg counter passed calls)
unfolding aggregate_all count
aggregate_all-Adds cfg counter t passed calls pos =
    let all = add_groups-Adds cfg t (group_calls calls []) (start_of counter passed) pos in
    let grouped = count-group_calls t calls [] in (omega (arith, all.0, grouped), all.1)

-- What the caller gets: with no mapping, its own requests; with one, every id of the batch stands in it
-- as often as in the batch, and the requests sent are the ones passed through and one for each group.
abbrev pub IsCovered : Text → List BatchRequest → Aggregated → Type 0
IsCovered t requests r = elim r.mapping [
  | none ↦ r.requests ≡ requests
  | some m ↦
      (count t (mapped_ids m) ≡ count t (request_ids requests))
      × (count t (request_ids r.requests)
          ≡ count t (request_ids m.passthrough) + count t (synthetic_ids m.groups))
]

-- Where a multicall holds at least one call: without a mapping the requests sent are the batch; with one,
-- each id stands in the mapping (passed through or in a group) exactly as often as in the batch, and in
-- what is sent as often as among the requests passed through and the ids of the groups together.
pub aggregate_eth_calls-IsCovered :
    (cfg : MulticallConfig) (counter : ℕ) (requests : List BatchRequest) (t : Text)
    → 0 < cfg.max_calls
    → IsCovered t requests (aggregate_eth_calls cfg counter requests)
unfolding aggregate_eth_calls count
aggregate_eth_calls-IsCovered cfg counter requests t pos = go (ltb (length (split requests).1) 2)
  where
    passed : List BatchRequest
    passed = (split requests).0

    calls : List EligibleCall
    calls = (split requests).1

    go :
        (few : Bool)
        → IsCovered t requests (
            if few
            then record { requests = requests; mapping = none; counter = counter }
            else record {
              requests = (aggregate_all cfg counter passed calls).out;
              mapping = some (aggregate_all cfg counter passed calls).mapping;
              counter = (aggregate_all cfg counter passed calls).counter;
            })
    go true = refl
    go false =
        let all = aggregate_all-Adds cfg counter t passed calls pos in
        let m = (aggregate_all cfg counter passed calls).mapping in
        let halves = count-append t (request_ids m.passthrough) (group_ids m.groups) in
        let both = count-split t requests in
        (omega (arith, all.0, halves, both), all.1 (omega arith))
