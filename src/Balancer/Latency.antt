-- ===== src/Balancer/Latency.antt =====
-- internal/backend/balancer.go: UpdateLatency and weigh. A time.Duration is its 64-bit pattern.
pub mod Bounds
use sabre.Common.{
  ℕ, zero, suc, ◌+◌, ◌-◌, ◌/◌, ◌%◌, ◌^◌, Bool, true, false, not, ◌&&◌, ◌||◌, List, [], ◌∷◌, ◌++◌,
  map, ltb, leb, ◌==◌, if◌then◌else◌, length, drop,
}
use sabre.Multicall.Word.{slt, add64, sign_bit, word_mod}
use sabre.Float.{FloatOps}
use sabre.Backend.{Backend}
use sabre.Balancer.Member.{Member}
use sabre.Balancer.Pick.{max_duration}

-- Signed division by a positive int, which rounds towards zero.
unfoldable pub div64 : ℕ → ℕ → ℕ
div64 a n = if ltb a sign_bit then a / n else (word_mod - (word_mod - a) / n) % word_mod

unfoldable pub total_latency : ℕ → List ℕ → ℕ
unfolding add64
total_latency total [] = total
total_latency total (l ∷ ls) = total_latency (add64 total l) ls

unfoldable pub push_sample : ℕ → ℕ → List ℕ → List ℕ
push_sample samples latency history =
    (if leb samples (length history) then drop 1 history else history) ++ latency ∷ []

unfoldable pub average : List ℕ → ℕ
unfolding div64 total_latency
average history = div64 (total_latency 0 history) (length history)

-- The part of UpdateLatency that writes the backend.
unfoldable pub record_latency : ℕ → ℕ → Backend → Backend
unfolding push_sample average
record_latency samples latency b =
    let history = push_sample samples latency b.latency_history in
    record b {
      latency_history = history;
      avg_latency = average history;
      request_count = add64 b.request_count 1;
    }

-- A backend whose latency counts: up, and measured.
unfoldable pub is_measured : Backend → Bool
is_measured b = b.health_up && slt 0 b.avg_latency

module _ (Fl : FloatOps) where
  open Fl use {F, one_f, min_weight, div, pow_neg, of_int, lt}

  unfoldable pub fastest_latency : ℕ → List (Member Fl) → ℕ
  unfolding is_measured
  fastest_latency fastest [] = fastest
  fastest_latency fastest (m ∷ ms) =
      fastest_latency
        (if is_measured m.backend && slt m.backend.avg_latency fastest
          then m.backend.avg_latency
          else fastest)
        ms

  -- max(0.1, (latency / fastest) ^ -gamma)
  unfoldable pub floor_weight : F → F
  floor_weight w = if lt w min_weight then min_weight else w

  unfoldable pub weight_of : F → ℕ → Backend → F
  unfolding is_measured floor_weight
  weight_of gamma fastest b =
      if is_measured b
      then floor_weight (pow_neg (div (of_int b.avg_latency) (of_int fastest)) gamma)
      else one_f

  unfoldable pub weigh : F → List (Member Fl) → List (Member Fl)
  unfolding fastest_latency weight_of
  weigh gamma ms =
      let fastest = fastest_latency max_duration ms in
      if fastest == max_duration
      then map (λ (m : Member Fl). record m { weight = one_f }) ms
      else map (λ (m : Member Fl). record m { weight = weight_of gamma fastest m.backend }) ms

  unfoldable pub modify : ℕ → (Backend → Backend) → List (Member Fl) → List (Member Fl)
  modify i f [] = []
  modify zero f (m ∷ ms) = record m { backend = f m.backend } ∷ ms
  modify (suc i) f (m ∷ ms) = m ∷ modify i f ms

  -- UpdateLatency, of backend `i` of its chain's members
  unfoldable pub update_latency : ℕ → F → ℕ → ℕ → List (Member Fl) → List (Member Fl)
  unfolding record_latency modify weigh
  update_latency samples gamma i latency ms =
      weigh gamma (modify i (record_latency samples latency) ms)
