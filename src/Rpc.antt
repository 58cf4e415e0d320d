-- ===== src/Rpc.antt =====
-- internal/backend/batch.go: JSON-RPC requests and responses. An id is its raw bytes, a json.RawMessage
-- of parameters, a result or an error is the value that it denotes.
use sabre.Common.{
  ℕ, ◌+◌, ◌≡◌, Bool, List, [], ◌∷◌, ◌++◌, arith, if◌then◌else◌, Text, text_eq, codes, map,
}
use sabre.Json.{Json, Fields, Raw, json}
use sabre.Head.{is_some, non_null}

pub record BatchRequest : Type 0 where
  pub jsonrpc : Text
  pub id : Text
  pub method : Text
  pub params : Raw

pub record BatchResponse : Type 0 where
  pub jsonrpc : Text
  pub id : Text
  pub result : Raw
  pub error : Raw
  -- InternalErr is not nil
  pub internal_err : Bool

-- HasError
unfoldable pub has_error : BatchResponse → Bool
unfolding non_null
has_error r = is_some (non_null r.error)

-- rawJSON of a map with a code and a message
abbrev pub rpc_error : Text → Text → Raw
rpc_error code message = json (
    Json.obj (
      Fields.field (codes "code") (Json.num code)
        (Fields.field (codes "message") (Json.str message) Fields.end)))

-- How often a text stands in a list.
unfoldable pub count : Text → List Text → ℕ
count t [] = 0
count t (x ∷ xs) = (if text_eq x t then 1 else 0) + count t xs

pub count-append : (t : Text) (xs ys : List Text) → count t (xs ++ ys) ≡ count t xs + count t ys
unfolding count
count-append t [] ys = omega arith
count-append t (x ∷ xs) ys = omega (arith, count-append t xs ys)

abbrev pub request_ids : List BatchRequest → List Text
request_ids reqs = map (λ (r : BatchRequest). r.id) reqs

abbrev pub response_ids : List BatchResponse → List Text
response_ids resps = map (λ (r : BatchResponse). r.id) resps
