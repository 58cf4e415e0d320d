-- ===== src/Cache/SubCalls/Stored.antt =====
-- internal/backend/cache.go: what the cache knows of an immutable read after its answer was stored.
use sabre.Common.{ℕ, ◌+◌, ◌≤◌, ◌≡◌, refl, ap, true, List, Option, none, some, arith, Text, codes}
use sabre.Json.{Json, Fields, Raw, json, unmarshal_object, struct_field}
use sabre.Multicall.Encode.{Call3, MulticallResult}
use sabre.Multicall.Params.{hex_to_bytes}
use sabre.Cache.Keys.{sub_call_key, sub_call_neg_key}
use sabre.Cache.Store.{Tiers, IsTiers, IsAscii, Store, max_int64, millis, get, put_immortal}
use sabre.Cache.Store.History.{Op, AllSpare, apply_all}
use sabre.Cache.Store.Immortal.{immortal_survives}
use sabre.Cache.SubCalls.{from_positive, probe_call, cache_call_result, cache_immutable_call}

module _ (T : Tiers) (sha256 : Text → Text) (compact : Json → Text) where
  from_positive-hit :
      (negative : Store T → Option Text × Store T) (r : Option Text × Store T) (body : Text)
      → r.0 ≡ some body
      → (from_positive T sha256 compact negative r).0
        ≡ some (record { success = true; return_data = body })
  unfolding from_positive
  from_positive-hit negative (none, s) body e = absurd (ground arith)
  from_positive-hit negative (some b, s) body e = let same : b ≡ body = cc in ap hit same
    where
      hit : Text → Option MulticallResult
      hit x = some (record { success = true; return_data = x })

  -- In an enabled store, for a chain whose name is ASCII: an upstream response to an immutable read whose
  -- result is a string is known from then on as a success with the bytes of that string, at any time whose
  -- milliseconds are an int64 and after any sequence of Get, Put, PutImmortal, putNegative and
  -- UpdateLatestBlock that does not write the key of that read. This holds for the result "0x" too, with no
  -- bytes.
  pub probe_call-cache_immutable_call :
      (laws : IsTiers T) (ops : List Op) (clock : ℕ → ℕ) (i now : ℕ) (chain : Text) (c : Call3)
      (response : Raw) (fs : Fields) (result : Text) (s : Store T)
      → unmarshal_object response ≡ some fs
      → struct_field (codes "result") fs ≡ json (Json.str result)
      → s.cfg.enabled ≡ true
      → IsAscii chain
      → AllSpare (sub_call_key sha256 compact chain c.target c.call_data) ops
      → millis (clock i) ≤ max_int64
      → (probe_call T sha256 compact clock i chain c (
          apply_all T ops
            (cache_immutable_call T sha256 compact now chain c.target c.call_data response s))).0
        ≡ some (record { success = true; return_data = hex_to_bytes result })
  unfolding probe_call cache_immutable_call put_immortal
  probe_call-cache_immutable_call laws ops clock i now chain c response fs result s o r on ascii
        spared fresh =
      let key = sub_call_key sha256 compact chain c.target c.call_data in
      let body = hex_to_bytes result in
      let stored : cache_immutable_call T sha256 compact now chain c.target c.call_data response s
          ≡ put_immortal T key body chain s =
        rw (o, r, cache_immutable_call, cache_call_result) refl in
      rw stored (
        from_positive-hit
          (get T (clock (i + 1)) (sub_call_neg_key sha256 compact chain c.target c.call_data))
          (get T (clock i) key (apply_all T ops (put_immortal T key body chain s))) body
          (immortal_survives T laws key body chain ops (clock i) s on ascii spared fresh))
