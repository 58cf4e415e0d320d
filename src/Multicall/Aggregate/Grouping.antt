-- ===== src/Multicall/Aggregate/Grouping.antt =====
-- internal/backend/multicall.go: the loops of aggregateEthCalls that pick the calls, group them and cut
-- the groups lose no request.
use sabre.Common.{
  ℕ, zero, suc, ◌+◌, ◌≤◌, ◌<◌, ◌≡◌, refl, sym, ap, ◌∙◌, Bool, true, false, not, List, [], ◌∷◌, ◌++◌,
  map, map-append, Option, none, some, arith, if◌then◌else◌, length, take, drop, length-drop,
  length-take, Text, text_eq, codes,
}
use sabre.Rpc.{BatchRequest, count, count-append, request_ids}
use sabre.Multicall.Params.{ParsedEthCall, parse_eth_call_params}
use sabre.Multicall.Aggregate.{
  EligibleCall, eligible_parsed, eligible, split_one, split, TagGroups, add_call, group_calls,
  chunks,
}

abbrev pub call_ids : List EligibleCall → List Text
call_ids calls = map (λ (c : EligibleCall). c.request.id) calls

abbrev pub tag_ids : TagGroups → List Text
tag_ids [] = []
tag_ids ((tag, calls) ∷ groups) = call_ids calls ++ tag_ids groups

abbrev pub chunk_ids : List (List EligibleCall) → List Text
chunk_ids [] = []
chunk_ids (c ∷ cs) = call_ids c ++ chunk_ids cs

eligible_parsed-request :
    (req : BatchRequest) (p : ParsedEthCall) (call : EligibleCall)
    → eligible_parsed req p ≡ some call
    → call.request ≡ req
unfolding eligible_parsed
eligible_parsed-request req p call e = grind arith

-- An eligible request has parameters of an eth_call, and these are eligible.
pub eligible-parsed :
    (req : BatchRequest) (call : EligibleCall)
    → eligible req ≡ some call
    → (p : ParsedEthCall) × (parse_eth_call_params req.params ≡ some p
        × eligible_parsed req p ≡ some call)
unfolding eligible
eligible-parsed req call e =
    go (text_eq req.method (codes "eth_call")) (parse_eth_call_params req.params) refl e
  where
    go :
        (is_call : Bool) (parsed : Option ParsedEthCall)
        → parse_eth_call_params req.params ≡ parsed
        → (if not is_call
            then none
            else elim parsed [ none ↦ none | some p ↦ eligible_parsed req p ])
          ≡ some call
        → (p : ParsedEthCall) × (parse_eth_call_params req.params ≡ some p
            × eligible_parsed req p ≡ some call)
    go false parsed h e = absurd (ground arith)
    go true none h e = absurd (ground arith)
    go true (some p) h e = (p, (h, e))

-- The first loop: an eligible call keeps its request.
pub eligible-request :
    (req : BatchRequest) (call : EligibleCall) → eligible req ≡ some call → call.request ≡ req
eligible-request req call e =
    let found = eligible-parsed req call e in eligible_parsed-request req found.0 call found.1.1

count-split_one :
    (t : Text) (req : BatchRequest) (o : Option EligibleCall)
    (s : List BatchRequest × List EligibleCall)
    → ((call : EligibleCall) → o ≡ some call → call.request ≡ req)
    → count t (request_ids (split_one req o s).0) + count t (call_ids (split_one req o s).1)
      ≡ (if text_eq req.id t then 1 else 0) + (count t (request_ids s.0) + count t (call_ids s.1))
unfolding split_one count
count-split_one t req none s h = omega arith
count-split_one t req (some call) s h = rw (h call refl) (omega arith)

pub count-split :
    (t : Text) (reqs : List BatchRequest)
    → count t (request_ids (split reqs).0) + count t (call_ids (split reqs).1)
      ≡ count t (request_ids reqs)
unfolding split count
count-split t [] = refl
count-split t (req ∷ reqs) =
    count-split_one t req (eligible req) (split reqs) (eligible-request req)
    ∙ ap (λ (n : ℕ). (if text_eq req.id t then 1 else 0) + n) (count-split t reqs)

pub count-call_ids-append :
    (t : Text) (xs ys : List EligibleCall)
    → count t (call_ids (xs ++ ys)) ≡ count t (call_ids xs) + count t (call_ids ys)
count-call_ids-append t xs ys =
    ap (count t) (map-append (λ (c : EligibleCall). c.request.id) xs ys)
    ∙ count-append t (call_ids xs) (call_ids ys)

count-add_call :
    (t : Text) (e : EligibleCall) (groups : TagGroups)
    → count t (tag_ids (add_call e groups)) ≡ count t (call_ids (e ∷ [])) + count t (tag_ids groups)
unfolding add_call count
count-add_call t e [] = omega arith
count-add_call t e ((tag, calls) ∷ groups) = grind (
  arith,
  count-append t (call_ids (calls ++ e ∷ [])) (tag_ids groups),
  count-append t (call_ids calls) (tag_ids groups),
  count-call_ids-append t calls (e ∷ []),
  count-append t (call_ids calls) (tag_ids (add_call e groups)),
  count-add_call t e groups,
)

pub count-group_calls :
    (t : Text) (calls : List EligibleCall) (groups : TagGroups)
    → count t (tag_ids (group_calls calls groups))
      ≡ count t (call_ids calls) + count t (tag_ids groups)
unfolding group_calls count
count-group_calls t [] groups = omega arith
count-group_calls t (e ∷ es) groups =
    omega (arith, count-group_calls t es (add_call e groups), count-add_call t e groups)

-- The loop over the chunks ends, and the chunks are the calls in their order.
abbrev pub flatten : List (List EligibleCall) → List EligibleCall
flatten [] = []
flatten (c ∷ cs) = c ++ flatten cs

take-drop : (n : ℕ) (xs : List EligibleCall) → take n xs ++ drop n xs ≡ xs
take-drop zero xs = refl
take-drop (suc n) [] = refl
take-drop (suc n) (x ∷ xs) = ap (◌∷◌ x) (take-drop n xs)

flatten-chunks_fuel :
    (fuel n : ℕ) (calls : List EligibleCall)
    → 0 < n
    → length calls ≤ fuel
    → flatten (chunks fuel n calls) ≡ calls
unfolding chunks
flatten-chunks_fuel zero n [] pos h = refl
flatten-chunks_fuel zero n (e ∷ es) pos h = absurd (omega arith)
flatten-chunks_fuel (suc fuel) n [] pos h = refl
flatten-chunks_fuel (suc fuel) n (e ∷ es) pos h =
    ap (λ (rest : List EligibleCall). take n (e ∷ es) ++ rest)
      (flatten-chunks_fuel fuel n (drop n (e ∷ es)) pos (omega (arith, length-drop n (e ∷ es))))
    ∙ take-drop n (e ∷ es)

-- Cut at any positive size, the calls of a group come back in their order: the loop ends, and it has
-- passed all of them.
pub flatten-chunks :
    (n : ℕ) (calls : List EligibleCall) → 0 < n → flatten (chunks (length calls) n calls) ≡ calls
flatten-chunks n calls pos = flatten-chunks_fuel (length calls) n calls pos (omega arith)

pub chunk_ids-flatten : (cs : List (List EligibleCall)) → chunk_ids cs ≡ call_ids (flatten cs)
chunk_ids-flatten [] = refl
chunk_ids-flatten (c ∷ cs) =
    ap (λ (ids : List Text). call_ids c ++ ids) (chunk_ids-flatten cs)
    ∙ sym (map-append (λ (c : EligibleCall). c.request.id) c (flatten cs))

-- A chunk is not empty and not above the size.
abbrev pub AreSized : ℕ → List (List EligibleCall) → Type 0
AreSized n [] = Unit {0}
AreSized n (c ∷ cs) = (0 < length c × length c ≤ n) × AreSized n cs

chunks_fuel-AreSized :
    (fuel n : ℕ) (calls : List EligibleCall) → 0 < n → AreSized n (chunks fuel n calls)
unfolding chunks
chunks_fuel-AreSized zero n calls pos = tt
chunks_fuel-AreSized (suc fuel) n [] pos = tt
chunks_fuel-AreSized (suc fuel) n (e ∷ es) pos = (
  (omega (arith, length-take n (e ∷ es)), omega (arith, length-take n (e ∷ es))),
  chunks_fuel-AreSized fuel n (drop n (e ∷ es)) pos,
)

pub chunks-AreSized :
    (n : ℕ) (calls : List EligibleCall) → 0 < n → AreSized n (chunks (length calls) n calls)
chunks-AreSized n calls pos = chunks_fuel-AreSized (length calls) n calls pos
