-- ===== src/Balancer/Probe/Runs.antt =====
-- internal/backend/balancer.go: what a run of probes does to the rotation of a chain's backends.
use sabre.Common.{ℕ, List, [], ◌∷◌, Option, Text}
use sabre.Float.{FloatOps}
use sabre.Backend.{Backend}
use sabre.Balancer.Member.{Member}
use sabre.Cache.Store.{Tiers, Store}
use sabre.Balancer.Probe.{Outcome, probe}

module _ (Fl : FloatOps) (T : Tiers) (samples : ℕ) (gamma : Fl.F) (fails_to_down passes_to_up : ℕ)
    (chain : Text) where
  -- Probes of backend `i` in a row.
  unfoldable pub probe_all :
      ℕ → List Outcome → List (Member Fl) × Option (Store T) → List (Member Fl) × Option (Store T)
  probe_all i [] s = s
  probe_all i (o ∷ os) s =
      probe_all i os (probe Fl T samples gamma fails_to_down passes_to_up chain i o s.0 s.1)
