-- ===== src/Examples/Pool.antt =====
-- The balancer and the backends at concrete inputs.
use sabre.Common.{some, ◌≤◌, ◌≡◌, refl, false, List, [], ◌∷◌, arith, leb, codes, if◌then◌else◌}
use sabre.Backend.Observe.{Thread, ready, AreSettled, run, run-settled}
use sabre.Balancer.Pick.{pick_at_least}
use sabre.Balancer.Pick.Guarantee.{Promise, pick_at_least-Promise}
use sabre.Balancer.Latency.{update_latency}
use sabre.Balancer.Latency.Bounds.{IsWellFormed, IsOrdered, update_latency-IsWellFormed}
use sabre.Balancer.Health.{mark_pass}
use sabre.Balancer.Health.Streaks.{failures, failures-after_pass}
use sabre.Json.{malformed}
use sabre.Balancer.Probe.{Outcome, failed, answered}
use sabre.Examples.Instances.{tenths, bucket, node, pool}

pick_at_least-Promise_example :
    Promise tenths bucket false
      (codes "http")
      8
      pool
      (pick_at_least tenths bucket false (codes "http") 8 pool 42 3).0
pick_at_least-Promise_example =
    pick_at_least-Promise tenths bucket (λ l s. omega arith) false (codes "http") 8 pool 42 3

tenths-IsOrdered : IsOrdered tenths 3 (some 2)
tenths-IsOrdered = record {
  floor_self = refl;
  floor_one = refl;
  power_total = λ a b _ _ pos _ p. ground arith;
}

update_latency-IsWellFormed_example :
    IsWellFormed tenths 3 (some 2) (update_latency tenths 3 (some 2) 0 15 pool)
update_latency-IsWellFormed_example =
    update_latency-IsWellFormed tenths 3 (some 2) tenths-IsOrdered 15 0 pool (omega arith)
      (omega arith, omega arith, refl, (omega arith, omega arith, refl, tt))

failures-after_pass_example :
    (failures 2 3 (mark_pass 2 (node (codes "a") 7))).health_up
    ≡ (if leb 2 3 then false else (mark_pass 2 (node (codes "a") 7)).health_up)
failures-after_pass_example =
    failures-after_pass 2 2 2 (node (codes "a") 7) (omega arith) (omega arith)

-- Two goroutines of which the second overtakes the first.
abbrev two_observers : List Thread
two_observers = ready 5 ∷ ready 9 ∷ []

run-settled_example :
    (4 ≤ (run (0 ∷ 1 ∷ 1 ∷ 0 ∷ 0 ∷ 0 ∷ []) two_observers 4).1)
    × AreSettled
        (run (0 ∷ 1 ∷ 1 ∷ 0 ∷ 0 ∷ 0 ∷ []) two_observers 4).1
        (run (0 ∷ 1 ∷ 1 ∷ 0 ∷ 0 ∷ 0 ∷ []) two_observers 4).0
run-settled_example = run-settled (0 ∷ 1 ∷ 1 ∷ 0 ∷ 0 ∷ 0 ∷ []) two_observers 4 (tt, (tt, tt))

-- One response in time, and two failures.
abbrev first_probe : Outcome
first_probe = answered 200 15 malformed

abbrev failing_probes : List Outcome
failing_probes = failed ∷ answered 503 15 malformed ∷ []
