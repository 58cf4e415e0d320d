-- ===== src/Balancer/Health.antt =====
-- internal/backend/balancer.go: what a health probe does to its backend's state. The streaks are
-- 32-bit ints.
pub mod Streaks
use sabre.Common.{ℕ, ◌+◌, ◌%◌, ◌^◌, Bool, true, false, leb, if◌then◌else◌}
use sabre.Backend.{Backend}

abbrev pub int32_mod : ℕ
int32_mod = 2 ^ 32

-- a >= int32(b)
unfoldable pub reaches : ℕ → ℕ → Bool
reaches a b = leb ((b + 2 ^ 31) % int32_mod) ((a + 2 ^ 31) % int32_mod)

-- markDown
unfoldable pub mark_down : ℕ → Backend → Backend
unfolding reaches
mark_down fails_to_down b =
    let streak = (b.fail_streak + 1) % int32_mod in
    record b {
      fail_streak = streak;
      pass_streak = 0;
      health_up = if reaches streak fails_to_down then false else b.health_up;
    }

-- The end of probe, after a response with a 2xx status.
unfoldable pub mark_pass : ℕ → Backend → Backend
unfolding reaches
mark_pass passes_to_up b =
    let streak = (b.pass_streak + 1) % int32_mod in
    record b {
      pass_streak = streak;
      fail_streak = 0;
      health_up = if reaches streak passes_to_up then true else b.health_up;
    }
