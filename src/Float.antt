-- ===== src/Float.antt =====
-- The floating-point numbers that internal/backend/balancer.go and config.go compute with. The
-- machine's float64 is a parameter: its operations here, and what is documented of them where a
-- theorem needs it.
use sabre.Common.{ℕ, Bool}

pub record FloatOps : Type 1 where
  pub F : Type 0
  pub zero_f : F
  pub one_f : F
  -- 0.1 and 0.9
  pub min_weight : F
  pub default_gamma : F
  pub add : F → F → F
  pub mul : F → F → F
  pub div : F → F → F
  -- math.Pow(x, -gamma)
  pub pow_neg : F → F → F
  pub of_int : ℕ → F
  pub lt : F → F → Bool
  pub le : F → F → Bool
