-- ===== src/Cache/Reply.antt =====
-- internal/backend/cache.go: the responses that the cache writes. A body is the value that its bytes
-- denote; the members of a Go map are written in the order of their keys.
pub mod Members
pub mod Rewritten
use sabre.Common.{
  ℕ, Bool, true, false, ◌&&◌, ◌||◌, [], ◌∷◌, ◌++◌, Option, none, some, ltb, ◌==◌, if◌then◌else◌,
  Text, codes, text_eq, hex_encode,
}
use sabre.Json.{Json, Items, Fields, Raw, absent, malformed, json}
use sabre.Multicall.Decode.{Outcome, ok, refused, panic}

-- rpcResult, with fmt.Sprintf("0x%x", b); a missing id is written as null, and an id that is no JSON
-- value makes Marshal fail, whose body is empty.
unfoldable pub rpc_result : Raw → Text → Raw
rpc_result absent b = json (
    Json.obj (
      Fields.field (codes "jsonrpc") (Json.str (codes "2.0")) (
        Fields.field (codes "id") Json.null
          (Fields.field (codes "result") (Json.str (codes "0x" ++ hex_encode b)) Fields.end))))
rpc_result malformed b = absent
rpc_result (json id) b = json (
    Json.obj (
      Fields.field (codes "jsonrpc") (Json.str (codes "2.0")) (
        Fields.field (codes "id") id
          (Fields.field (codes "result") (Json.str (codes "0x" ++ hex_encode b)) Fields.end))))

abbrev revert_error : Json
revert_error = Json.obj (
    Fields.field (codes "code") (Json.num (codes "3"))
      (Fields.field (codes "message") (Json.str (codes "execution reverted")) Fields.end))

-- rpcRevertResponse
unfoldable pub rpc_revert_response : Raw → Raw
rpc_revert_response malformed = absent
rpc_revert_response absent = json (
    Json.obj (
      Fields.field (codes "jsonrpc") (Json.str (codes "2.0")) (
        Fields.field (codes "id") Json.null
          (Fields.field (codes "error") revert_error Fields.end))))
rpc_revert_response (json id) = json (
    Json.obj (
      Fields.field (codes "jsonrpc") (Json.str (codes "2.0"))
        (Fields.field (codes "id") id (Fields.field (codes "error") revert_error Fields.end))))

-- buildMulticallBody, around its params
unfoldable pub build_multicall_body : Raw → Raw → Raw
build_multicall_body (json id) (json params) = json (
    Json.obj (
      Fields.field (codes "jsonrpc") (Json.str (codes "2.0")) (
        Fields.field (codes "id") id (
          Fields.field (codes "method") (Json.str (codes "eth_call"))
            (Fields.field (codes "params") params Fields.end)))))
build_multicall_body absent (json params) = json (
    Json.obj (
      Fields.field (codes "jsonrpc") (Json.str (codes "2.0")) (
        Fields.field (codes "id") Json.null (
          Fields.field (codes "method") (Json.str (codes "eth_call"))
            (Fields.field (codes "params") params Fields.end)))))
build_multicall_body _ _ = absent

-- The order of Go's strings.
unfoldable pub text_lt : Text → Text → Bool
text_lt [] [] = false
text_lt [] (y ∷ ys) = true
text_lt (x ∷ xs) [] = false
text_lt (x ∷ xs) (y ∷ ys) = ltb x y || (x == y && text_lt xs ys)

-- fields[name] = v
unfoldable pub put_field : Text → Json → Fields → Fields
unfolding text_lt
put_field name v Fields.end = Fields.field name v Fields.end
put_field name v (Fields.field k w fs) =
    let rest = put_field name v fs in
    if text_eq k name
    then Fields.field name v fs
    else if text_lt name k
    then Fields.field name v (Fields.field k w fs)
    else Fields.field k w rest

-- Unmarshal of an object into a map, of which `m` is filled so far.
unfoldable pub to_map : Fields → Fields → Fields
unfolding put_field
to_map Fields.end m = m
to_map (Fields.field k v fs) m = to_map fs (put_field k v m)

unfoldable pub stamp : Raw → Fields → Raw → Raw
unfolding put_field
stamp response fs absent = json (Json.obj (put_field (codes "id") Json.null fs))
stamp response fs malformed = response
stamp response fs (json id) = json (Json.obj (put_field (codes "id") id fs))

-- RewriteResponseID; null unmarshals into the nil map, and the assignment to it panics
unfoldable pub rewrite_response_id : Raw → Raw → Outcome Raw
unfolding stamp to_map
rewrite_response_id (json (Json.obj fs)) id =
    ok (stamp (json (Json.obj fs)) (to_map fs Fields.end) id)
rewrite_response_id (json Json.null) id = panic
rewrite_response_id response id = ok response
