-- ===== src/Cache/Plan/Completed.antt =====
-- internal/backend/cache.go: PlanMulticall and CompleteMulticall together.
use sabre.Common.{
  ℕ, ◌≡◌, ap, subst, Bool, true, false, not, List, map, Option, none, some, arith, if◌then◌else◌,
  Text,
}
use sabre.Json.{Json, Raw}
use sabre.Multicall.Encode.{Call3, MulticallResult, encode_aggregate3_result}
use sabre.Multicall.Decode.{Outcome, ok, refused, panic, decode_aggregate3_result}
use sabre.Multicall.Params.{ParsedEthCall, parse_eth_call_params, decode_multicall}
use sabre.Cache.Reply.{rpc_result}
use sabre.Cache.Store.{Tiers, Store}
use sabre.Cache.Plan.{
  MulticallPlan, Probed, reply_text, plan_calls, plan_of, plan_multicall, complete_multicall,
}
use sabre.Cache.Plan.Merged.{
  missed, answered, known, plan_calls-known, length-known, IsPlan, plan_of-IsPlan, Completes,
  complete_decoded-answered,
}

module _ (T : Tiers) (sha256 : Text → Text) (compact : Json → Text) where
  plan_multicall-IsPlan :
      (clock : ℕ → ℕ) (chain method : Text) (params id : Raw) (s t : Store T) (plan : MulticallPlan)
      (calls : List Call3)
      → decode_multicall method params ≡ ok calls
      → plan_multicall T sha256 compact clock chain method params id s ≡ ok (some plan, t)
      → IsPlan id (known T sha256 compact clock 0 chain calls s) plan
  unfolding plan_multicall
  plan_multicall-IsPlan clock chain method params id s t plan calls d e =
      go s.cfg.enabled (decode_multicall method params) (parse_eth_call_params params) d e
    where
      go :
          (on : Bool) (o : Outcome (List Call3)) (parsed : Option ParsedEthCall)
          → o ≡ ok calls
          → (if not on
              then ok (none, s)
              else elim o as (λ _. Outcome (Option MulticallPlan × Store T)) [
                | panic ↦ panic
                | refused ↦ ok (none, s)
                | ok cs ↦ elim parsed [
                  | none ↦ ok (none, s)
                  | some parsed ↦
                      let p = plan_calls T sha256 compact clock 0 chain cs s in
                      ok (plan_of id cs parsed p.0, p.1)
                ]
              ])
            ≡ ok (some plan, t)
          → IsPlan id (known T sha256 compact clock 0 chain calls s) plan
      go false o parsed q h = absurd (ground arith)
      go true panic parsed q h = absurd (ground arith)
      go true refused parsed q h = absurd (ground arith)
      go true (ok cs) none q h = absurd (ground arith)
      go true (ok cs) (some parsed) q h =
          let same : cs ≡ calls = cc in
          let p = plan_calls T sha256 compact clock 0 chain cs s in
          let planned : plan_of id cs parsed p.0 ≡ some plan = cc in
          let probed = plan_calls-known T sha256 compact clock 0 chain cs s in
          subst (λ (xs : List Call3). IsPlan id (known T sha256 compact clock 0 chain xs s) plan)
            same
            (plan_of-IsPlan id cs parsed p.0 (known T sha256 compact clock 0 chain cs s) plan
              (ap (λ (x : Probed). x.results) probed) (ap (λ (x : Probed). x.miss_indices) probed)
              planned)

  -- A multicall that PlanMulticall plans, whose reply from upstream is a result text that decodes to what
  -- executing the calls that the cache does not know gives: CompleteMulticall, in any state of the store,
  -- answers with the encoding of one result for each call of the multicall in its order, the known result
  -- where the cache had one when the plan was made, and else the result of executing that call.
  pub complete-plan_multicall :
      (clock clock' : ℕ → ℕ) (chain method : Text) (params id response : Raw) (s t u : Store T)
      (plan : MulticallPlan) (calls : List Call3) (execute : Call3 → MulticallResult) (hex : Text)
      → decode_multicall method params ≡ ok calls
      → plan_multicall T sha256 compact clock chain method params id s ≡ ok (some plan, t)
      → reply_text response ≡ some hex
      → decode_aggregate3_result hex
        ≡ ok (map execute (missed calls (known T sha256 compact clock 0 chain calls s)))
      → Completes T
          (rpc_result id (
            encode_aggregate3_result
              (answered execute calls (known T sha256 compact clock 0 chain calls s))))
          (complete_multicall T sha256 compact clock' chain plan response u)
  unfolding complete_multicall
  complete-plan_multicall clock clock' chain method params id response s t u plan calls execute hex
        d e r f =
      rw (r, f, complete_multicall)
        (complete_decoded-answered T sha256 compact clock' chain plan calls
          (known T sha256 compact clock 0 chain calls s) execute id u
          (plan_multicall-IsPlan clock chain method params id s t plan calls d e)
          (length-known T sha256 compact clock 0 chain calls s))
