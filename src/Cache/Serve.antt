-- ===== src/Cache/Serve.antt =====
-- internal/backend/cache.go: Lookup and Store. Times are those of a clock, as for the immutable reads.
use sabre.Common.{ℕ, false, not, List, Option, none, some, if◌then◌else◌, Text}
use sabre.Json.{Raw}
use sabre.Head.{or_empty}
use sabre.Multicall.Word.{slt}
use sabre.Multicall.Encode.{Call3, MulticallResult, encode_aggregate3_result}
use sabre.Multicall.Decode.{Outcome, ok, refused, panic, ◌>>=◌}
use sabre.Multicall.Params.{decode_immutable_call, decode_multicall}
use sabre.Json.{Json}
use sabre.Cache.Keys.{canonical_key}
use sabre.Cache.Ttl.{ttl_of, answer_ttl}
use sabre.Cache.Reply.{rpc_result, rpc_revert_response, rewrite_response_id}
use sabre.Cache.Store.{Tiers, Store, get, put}
use sabre.Cache.SubCalls.{probe_call, serve_calls, cache_multicall_subcalls, cache_immutable_call}

module _ (T : Tiers) (sha256 : Text → Text) (compact : Json → Text) (parse : Text → Raw) where
  unfoldable pub served_all : Raw → Option (List MulticallResult) × Store T → Option Raw × Store T
  served_all id (none, s) = (none, s)
  served_all id (some rs, s) = (some (rpc_result id (encode_aggregate3_result rs)), s)

  -- serveMulticall
  unfoldable pub serve_multicall :
      (ℕ → ℕ) → Text → Raw → List Call3 → Store T → Option Raw × Store T
  unfolding serve_calls served_all
  serve_multicall clock chain id calls s =
      served_all id (serve_calls T sha256 compact clock 0 chain calls s)

  unfoldable pub served_call : Raw → Option MulticallResult × Store T → Option Raw × Store T
  served_call id (none, s) = (none, s)
  served_call id (some r, s) =
      (some (if r.success then rpc_result id r.return_data else rpc_revert_response id), s)

  unfoldable pub rewritten : Raw → Option Text × Store T → Outcome (Option Raw × Store T)
  rewritten id (none, s) = ok (none, s)
  rewritten id (some body, s) = rewrite_response_id (parse body) id >>= λ r. ok (some r, s)

  -- The keyed cache; the key of parameters that CanonicalKey refuses is "".
  unfoldable pub lookup_keyed :
      ℕ → Text → Text → Raw → Raw → Store T → Outcome (Option Raw × Store T)
  unfolding rewritten
  lookup_keyed now chain method params id s =
      if not (slt 0 (ttl_of method params s.cfg))
      then ok (none, s)
      else rewritten id (get T now (or_empty (canonical_key sha256 compact chain method params)) s)

  -- Lookup; it parses the parameters once for both probes
  unfoldable pub lookup :
      (ℕ → ℕ) → Text → Text → Raw → Raw → Store T → Outcome (Option Raw × Store T)
  unfolding serve_multicall served_call lookup_keyed
  lookup clock chain method params id s =
      if not s.cfg.enabled then ok (none, s) else elim (decode_multicall method params) [
        | panic ↦ panic
        | ok calls ↦ ok (serve_multicall clock chain id calls s)
        | refused ↦ elim (decode_immutable_call method params) [
          | none ↦ lookup_keyed (clock 0) chain method params id s
          | some call ↦ ok (
              served_call id (
                probe_call T sha256 compact clock 0 chain
                  (record { target = call.0; allow_failure = false; call_data = call.1 }) s))
        ]
      ]

  unfoldable pub store_keyed : (ℕ → ℕ) → Text → Text → Raw → Text → Store T → Store T
  store_keyed clock chain method params response s =
      let kept = answer_ttl method params (parse response) s.cfg in
      if not (slt 0 kept.ttl)
      then s
      else put T (clock 0) (clock 1) (or_empty (canonical_key sha256 compact chain method params))
          response kept.ttl chain kept.block_num kept.block_hash s

  -- Store
  unfoldable pub store : (ℕ → ℕ) → Text → Text → Raw → Text → Store T → Outcome (Store T)
  unfolding cache_multicall_subcalls cache_immutable_call store_keyed
  store clock chain method params response s =
      if not s.cfg.enabled then ok s else elim (decode_multicall method params) [
        | panic ↦ panic
        | ok calls ↦ cache_multicall_subcalls T sha256 compact clock chain calls (parse response) s
        | refused ↦ elim (decode_immutable_call method params) [
          | none ↦ ok (store_keyed clock chain method params response s)
          | some call ↦ ok (
              cache_immutable_call T sha256 compact (clock 0) chain call.0 call.1 (parse response)
                s)
        ]
      ]
