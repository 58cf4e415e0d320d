-- ===== src/Multicall/Expand/Ids.antt =====
-- internal/backend/multicall.go: the ids of the responses that expandMulticallResponses returns.
use sabre.Common.{
  ℕ, zero, suc, ◌<◌, ◌≡◌, ◌≢◌, refl, sym, ap, ap₂, subst, ◌∙◌, Bool, true, false, List, [], ◌∷◌,
  ◌++◌, map-append, Option, none, some, arith, if◌then◌else◌, length, get_elem?, Text, text_eq,
  text_eq_iff, All,
}
use sabre.Json.{Raw}
use sabre.Rpc.{BatchRequest, BatchResponse, request_ids, response_ids}
use sabre.Multicall.Encode.{MulticallResult}
use sabre.Multicall.Decode.{Outcome, ok, refused, panic, ◌>>=◌}
use sabre.Multicall.Aggregate.{MulticallEntry}
use sabre.Multicall.Aggregate.Covered.{entry_ids}
use sabre.Multicall.Expand.{resp_by_id, passed_through, fail_entries, entry_response}

-- The function returns responses with exactly these ids, in this order.
abbrev pub Returns : List Text → Outcome (List BatchResponse) → Type 0
Returns ids (ok out) = response_ids out ≡ ids
Returns ids refused = ⊥
Returns ids panic = ⊥

pub fail_entries-ids :
    (error : Raw) (es : List MulticallEntry) → response_ids (fail_entries error es) ≡ entry_ids es
unfolding fail_entries
fail_entries-ids error [] = refl
fail_entries-ids error (e ∷ es) = ap (◌∷◌ e.original_id) (fail_entries-ids error es)

pub entry_response-id :
    (e : MulticallEntry) (r : MulticallResult) → (entry_response e r).id ≡ e.original_id
unfolding entry_response
entry_response-id e r = ground arith

pub Returns-cons :
    (x : BatchResponse) (id : Text) (ids : List Text) (rest : Outcome (List BatchResponse))
    → x.id ≡ id
    → Returns ids rest
    → Returns (id ∷ ids) (rest >>= λ out. ok (x ∷ out))
Returns-cons x id ids (ok out) e h = ap₂ (λ (y : Text) (ys : List Text). y ∷ ys) e h
Returns-cons x id ids refused e h = elim h [ ]
Returns-cons x id ids panic e h = elim h [ ]

pub Returns-append :
    (xs ys : List Text) (m n : Outcome (List BatchResponse))
    → Returns xs m
    → Returns ys n
    → Returns (xs ++ ys) (m >>= λ here. n >>= λ rest. ok (here ++ rest))
Returns-append xs ys (ok here) (ok rest) h k =
    map-append (λ (r : BatchResponse). r.id) here rest ∙ ap₂ (λ (a b : List Text). a ++ b) h k
Returns-append xs ys (ok here) refused h k = elim k [ ]
Returns-append xs ys (ok here) panic h k = elim k [ ]
Returns-append xs ys refused n h k = elim h [ ]
Returns-append xs ys panic n h k = elim h [ ]

pub get_elem?-lt : (rs : List MulticallResult) (i : ℕ) → i < length rs → get_elem? rs i ≢ none
get_elem?-lt [] i h = elim h [ ]
get_elem?-lt (r ∷ rs) zero h = λ e. absurd (ground arith)
get_elem?-lt (r ∷ rs) (suc i) h = get_elem?-lt rs i (omega arith)

-- Of the responses with an id.
pub resp_by_id-All {ℓ} :
    (P : BatchResponse → Type ℓ) (id : Text) (rs : List BatchResponse) (r : BatchResponse)
    → All P rs
    → resp_by_id id rs ≡ some r
    → P r × r.id ≡ id
unfolding resp_by_id
resp_by_id-All P id [] r h e = absurd (ground arith)
resp_by_id-All P id (x ∷ xs) r h e =
    go (resp_by_id id xs) (text_eq x.id id) refl (λ eq. resp_by_id-All P id xs r h.1 eq) e
  where
    go :
        (later : Option BatchResponse) (here : Bool)
        → text_eq x.id id ≡ here
        → (later ≡ some r → P r × r.id ≡ id)
        → (elim later as (λ _. Option BatchResponse) [
          | some s ↦ some s
          | none ↦ if here then some x else none
        ])
          ≡ some r
        → P r × r.id ≡ id
    go (some s) here t rec eq = rec eq
    go none true t rec eq =
        let same : x ≡ r = cc in
        (subst P same h.0, ap (λ (b : BatchResponse). b.id) (sym same) ∙ (text_eq_iff x.id id).0 t)
    go none false t rec eq = absurd (ground arith)

-- Every request has a response with its id.
abbrev pub AreAnswered : List BatchResponse → List BatchRequest → Type 0
AreAnswered responses reqs = All (λ (r : BatchRequest). resp_by_id r.id responses ≢ none) reqs

abbrev AreAny : List BatchResponse → Type 0
AreAny rs = All (λ (r : BatchResponse). Unit {0}) rs

any_responses : (rs : List BatchResponse) → AreAny rs
any_responses [] = tt
any_responses (r ∷ rs) = (tt, any_responses rs)

pub passed_through-ids :
    (responses : List BatchResponse) (reqs : List BatchRequest)
    → AreAnswered responses reqs
    → response_ids (passed_through responses reqs) ≡ request_ids reqs
unfolding passed_through
passed_through-ids responses [] h = refl
passed_through-ids responses (req ∷ reqs) h =
    go (resp_by_id req.id responses) refl h.0 (passed_through-ids responses reqs h.1)
  where
    rest : List BatchResponse
    rest = passed_through responses reqs

    go :
        (o : Option BatchResponse)
        → resp_by_id req.id responses ≡ o
        → o ≢ none
        → response_ids rest ≡ request_ids reqs
        → response_ids (elim o as (λ _. List BatchResponse) [ none ↦ rest | some r ↦ r ∷ rest ])
          ≡ req.id ∷ request_ids reqs
    go none eq n e = absurd (n refl)
    go (some r) eq n e =
        let found =
          resp_by_id-All (λ (b : BatchResponse). Unit {0}) req.id responses r
            (any_responses responses) eq in
        ap₂ (λ (y : Text) (ys : List Text). y ∷ ys) found.1 e
