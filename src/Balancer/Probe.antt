-- ===== src/Balancer/Probe.antt =====
-- internal/backend/balancer.go: probe, from the outcome of its request on. The pool is that of the
-- backend's chain, and i the backend's place in it.
pub mod Like
pub mod Runs
use sabre.Common.{
  ℕ, Bool, true, false, ◌||◌, List, [], ◌∷◌, Option, none, some, ltb, leb, if◌then◌else◌, Text,
}
use sabre.Float.{FloatOps}
use sabre.Json.{Raw}
use sabre.Head.{head_from_response}
use sabre.Backend.{Backend, observe_head}
use sabre.Balancer.Member.{Member}
use sabre.Balancer.Latency.{modify, update_latency}
use sabre.Balancer.Health.{mark_down, mark_pass}
use sabre.Cache.Store.{Tiers, Store, check_reorg}

-- The request failed, or was answered with a status after a time with a body.
pub data Outcome : Type 0 where
  failed : Outcome
  answered : ℕ → ℕ → Raw → Outcome

module _ (Fl : FloatOps) (T : Tiers) where
  open Fl use {F}

  unfoldable pub observe : Option ℕ → ℕ → List (Member Fl) → List (Member Fl)
  unfolding modify
  observe none i ms = ms
  observe (some head) i ms = modify Fl i (λ (b : Backend). observe_head b head) ms

  unfoldable pub check_cache : Raw → Text → Option (Store T) → Option (Store T)
  check_cache body chain none = none
  check_cache body chain (some s) = some (check_reorg T body chain s)

  -- probe
  unfoldable pub probe :
      (samples : ℕ) (gamma : F) (fails_to_down passes_to_up : ℕ) (chain : Text) (i : ℕ)
      → Outcome
      → List (Member Fl)
      → Option (Store T)
      → List (Member Fl) × Option (Store T)
  unfolding modify observe check_cache
  probe samples gamma fails_to_down passes_to_up chain i failed ms cache =
      (modify Fl i (mark_down fails_to_down) ms, cache)
  probe samples gamma fails_to_down passes_to_up chain i (answered status time body) ms cache =
      if ltb status 200 || leb 300 status
      then (modify Fl i (mark_down fails_to_down) ms, cache)
      else (
        modify Fl i (mark_pass passes_to_up)
            (observe (head_from_response body) i (update_latency Fl samples gamma i time ms)),
        check_cache body chain cache,
      )
