-- ===== src/Multicall/Aggregate/Groups.antt =====
-- internal/backend/multicall.go: the groups that aggregateEthCalls makes.
use sabre.Common.{
  ℕ, zero, suc, ◌+◌, ◌≤◌, ◌<◌, ◌≡◌, refl, sym, ap, subst, ◌∙◌, Bool, true, false, List, [], ◌∷◌,
  ◌++◌, Option, none, some, arith, ltb, if◌then◌else◌, length, drop, Text, text_eq, text_eq_iff,
  All, append-All, take-All, drop-All,
}
use sabre.Config.{MulticallConfig}
use sabre.Json.{Raw}
use sabre.Rpc.{BatchRequest}
use sabre.Multicall.Params.{ParsedEthCall, parse_eth_call_params}
use sabre.Multicall.Aggregate.{
  EligibleCall, MulticallEntry, MulticallGroup, MulticallMapping, eligible_parsed, eligible,
  split_one, split, TagGroups, add_call, group_calls, chunks, entries_from, Aggregation,
  add_passthrough, add_group, add_chunk, add_chunks, add_groups, Aggregated, aggregate_all,
  aggregate_eth_calls,
}
use sabre.Multicall.Aggregate.Grouping.{
  eligible-parsed, eligible-request, AreSized, chunks-AreSized,
}

-- The block tag of the parameters of a call.
abbrev tag_of : Raw → Option Text
tag_of params = elim (parse_eth_call_params params) [ none ↦ none | some p ↦ some p.block_tag ]

abbrev IsCall : EligibleCall → Type 0
IsCall c = tag_of c.request.params ≡ some c.block_tag

abbrev IsCallAt : Text → EligibleCall → Type 0
IsCallAt tag c = tag_of c.request.params ≡ some tag

eligible-IsCall :
    (req : BatchRequest) (call : EligibleCall) → eligible req ≡ some call → IsCall call
unfolding eligible_parsed
eligible-IsCall req call e =
    let found = eligible-parsed req call e in
    let p : ParsedEthCall = found.0 in
    let parsed : parse_eth_call_params req.params ≡ some p = found.1.0 in
    let taken : eligible_parsed req p ≡ some call = found.1.1 in
    let same : call.request ≡ req = eligible-request req call e in
    let tag : call.block_tag ≡ p.block_tag = grind arith in rw (same, tag, tag_of, parsed) refl

split-IsCall : (reqs : List BatchRequest) → All IsCall (split reqs).1
unfolding split split_one
split-IsCall [] = tt
split-IsCall (req ∷ reqs) = go (eligible req) (eligible-IsCall req) (split-IsCall reqs)
  where
    go :
        (o : Option EligibleCall)
        → ((call : EligibleCall) → o ≡ some call → IsCall call)
        → All IsCall (split reqs).1
        → All IsCall (split_one req o (split reqs)).1
    go none h rest = rest
    go (some call) h rest = (h call refl, rest)

-- Every call of a group is pinned to the tag of the group.
abbrev AreTagged : TagGroups → Type 0
AreTagged [] = Unit
AreTagged ((tag, calls) ∷ groups) = All (IsCallAt tag) calls × AreTagged groups

add_call-AreTagged :
    (e : EligibleCall) (groups : TagGroups)
    → IsCall e
    → AreTagged groups
    → AreTagged (add_call e groups)
unfolding add_call
add_call-AreTagged e [] h k = ((h, tt), tt)
add_call-AreTagged e ((tag, calls) ∷ groups) h k =
    go (text_eq tag e.block_tag) refl (add_call-AreTagged e groups h k.1)
  where
    go :
        (same : Bool)
        → text_eq tag e.block_tag ≡ same
        → AreTagged (add_call e groups)
        → AreTagged
            (if same then (tag, calls ++ e ∷ []) ∷ groups else (tag, calls) ∷ add_call e groups)
    go true s rest =
        let eq : tag ≡ e.block_tag = (text_eq_iff tag e.block_tag).0 s in
        let here : IsCallAt tag e = h ∙ ap (λ (t : Text). some t) (sym eq) in
        (append-All (IsCallAt tag) calls (e ∷ []) k.0 (here, tt), k.1)
    go false s rest = (k.0, rest)

group_calls-AreTagged :
    (calls : List EligibleCall) (groups : TagGroups)
    → All IsCall calls
    → AreTagged groups
    → AreTagged (group_calls calls groups)
unfolding group_calls
group_calls-AreTagged [] groups h k = k
group_calls-AreTagged (e ∷ es) groups h k =
    group_calls-AreTagged es (add_call e groups) h.1 (add_call-AreTagged e groups h.0 k)

chunks-IsCallAt :
    (tag : Text) (fuel n : ℕ) (calls : List EligibleCall)
    → All (IsCallAt tag) calls
    → All (All (IsCallAt tag)) (chunks fuel n calls)
unfolding chunks
chunks-IsCallAt tag zero n calls h = tt
chunks-IsCallAt tag (suc fuel) n [] h = tt
chunks-IsCallAt tag (suc fuel) n (e ∷ es) h = (
  take-All (IsCallAt tag) n (e ∷ es) h,
  chunks-IsCallAt tag fuel n (drop n (e ∷ es)) (drop-All (IsCallAt tag) n (e ∷ es) h),
)

-- The entries are numbered from `j`, and the parameters of each name the block tag of the group.
abbrev pub AreEntries : Text → ℕ → List MulticallEntry → Type 0
AreEntries tag j [] = Unit
AreEntries tag j (e ∷ es) =
    (e.index ≡ j × tag_of e.original_params ≡ some tag) × AreEntries tag (j + 1) es

abbrev pub IsGroup : ℕ → MulticallGroup → Type 0
IsGroup n g = 2 ≤ length g.entries × length g.entries ≤ n × AreEntries g.block_tag 0 g.entries

entries_from-AreEntries :
    (tag : Text) (j : ℕ) (calls : List EligibleCall)
    → All (IsCallAt tag) calls
    → AreEntries tag j (entries_from j calls)
unfolding entries_from
entries_from-AreEntries tag j [] h = tt
entries_from-AreEntries tag j (c ∷ cs) h = ((refl, h.0), entries_from-AreEntries tag (j + 1) cs h.1)

pub length-entries_from :
    (j : ℕ) (calls : List EligibleCall) → length (entries_from j calls) ≡ length calls
unfolding entries_from
length-entries_from j [] = refl
length-entries_from j (c ∷ cs) = ap suc (length-entries_from (j + 1) cs)

module _ (cfg : MulticallConfig) where
  abbrev AreGroups : Aggregation → Type 0
  AreGroups a = All (IsGroup cfg.max_calls) a.mapping.groups

  add_chunk-AreGroups :
      (tag : Text) (chunk : List EligibleCall) (a : Aggregation)
      → 0 < length chunk
      → length chunk ≤ cfg.max_calls
      → All (IsCallAt tag) chunk
      → AreGroups a
      → AreGroups (add_chunk cfg tag chunk a)
  unfolding add_chunk add_passthrough add_group
  add_chunk-AreGroups tag [] a nonempty few h k = absurd (omega arith)
  add_chunk-AreGroups tag (c ∷ []) a nonempty few h k = k
  add_chunk-AreGroups tag (c ∷ d ∷ cs) a nonempty few h k =
      let calls = c ∷ d ∷ cs in
      let same = length-entries_from 0 calls in
      append-All (IsGroup cfg.max_calls) a.mapping.groups _ k
        ((omega (arith, same), omega (arith, same), entries_from-AreEntries tag 0 calls h), tt)

  add_chunks-AreGroups :
      (tag : Text) (cs : List (List EligibleCall)) (a : Aggregation)
      → AreSized cfg.max_calls cs
      → All (All (IsCallAt tag)) cs
      → AreGroups a
      → AreGroups (add_chunks cfg tag cs a)
  unfolding add_chunks
  add_chunks-AreGroups tag [] a sized h k = k
  add_chunks-AreGroups tag (c ∷ cs) a sized h k =
      add_chunks-AreGroups tag cs (add_chunk cfg tag c a) sized.1 h.1
        (add_chunk-AreGroups tag c a sized.0.0 sized.0.1 h.0 k)

  add_groups-AreGroups :
      (groups : TagGroups) (a : Aggregation)
      → 0 < cfg.max_calls
      → AreTagged groups
      → AreGroups a
      → AreGroups (add_groups cfg groups a)
  unfolding add_groups
  add_groups-AreGroups [] a pos h k = k
  add_groups-AreGroups ((tag, calls) ∷ groups) a pos h k =
      let n = cfg.max_calls in
      add_groups-AreGroups groups (add_chunks cfg tag (chunks (length calls) n calls) a) pos h.1 (
        add_chunks-AreGroups tag (chunks (length calls) n calls) a (chunks-AreSized n calls pos)
          (chunks-IsCallAt tag (length calls) n calls h.0) k)

-- Where a multicall holds at least one call, each group has at least two entries and at most that many,
-- they are numbered by their position from 0, and the parameters of each parse to an eth_call at the block
-- tag of the group.
pub aggregate_eth_calls-IsGroup :
    (cfg : MulticallConfig) (counter : ℕ) (requests : List BatchRequest) (m : MulticallMapping)
    → 0 < cfg.max_calls
    → (aggregate_eth_calls cfg counter requests).mapping ≡ some m
    → All (IsGroup cfg.max_calls) m.groups
unfolding aggregate_eth_calls aggregate_all
aggregate_eth_calls-IsGroup cfg counter requests m pos e = go (ltb (length (split requests).1) 2) e
  where
    passed : List BatchRequest
    passed = (split requests).0

    all : Aggregation
    all = aggregate_all cfg counter passed (split requests).1

    groups-ok : AreGroups cfg all
    groups-ok =
        add_groups-AreGroups cfg (group_calls (split requests).1 [])
          (record {
            out = passed;
            mapping = record { groups = []; passthrough = passed };
            counter = counter;
          })
          pos (group_calls-AreTagged (split requests).1 [] (split-IsCall requests) tt) tt

    chosen : Bool → Aggregated
    chosen few =
        if few
        then record { requests = requests; mapping = none; counter = counter }
        else record { requests = all.out; mapping = some all.mapping; counter = all.counter }

    go : (few : Bool) → (chosen few).mapping ≡ some m → All (IsGroup cfg.max_calls) m.groups
    go true h = absurd (ground arith)
    go false h =
        let same : all.mapping ≡ m = cc in
        subst (λ (x : MulticallMapping). All (IsGroup cfg.max_calls) x.groups) same groups-ok
