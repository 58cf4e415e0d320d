-- ===== src/Balancer/Health/Streaks.antt =====
-- internal/backend/balancer.go: how many probes in a row move a backend out of rotation and back.
use sabre.Common.{
  ℕ, zero, suc, ◌+◌, ◌%◌, ◌^◌, ◌<◌, ◌≡◌, ap, ◌∙◌, true, false, arith, leb, if◌then◌else◌,
}
use sabre.Backend.{Backend}
use sabre.Balancer.Health.{int32_mod, reaches, mark_down, mark_pass}

reaches_small : (a b : ℕ) → a < 2 ^ 31 → b < 2 ^ 31 → reaches a b ≡ leb b a
unfolding reaches
reaches_small a b ha hb = ground arith

-- `n` probes in a row that fail.
unfoldable pub failures : ℕ → ℕ → Backend → Backend
failures fails_to_down zero b = b
failures fails_to_down (suc n) b = failures fails_to_down n (mark_down fails_to_down b)

-- `n` probes in a row that pass.
unfoldable pub passes : ℕ → ℕ → Backend → Backend
passes passes_to_up zero b = b
passes passes_to_up (suc n) b = passes passes_to_up n (mark_pass passes_to_up b)

failures-health_up :
    (fails n : ℕ) (b : Backend)
    → fails < 2 ^ 31
    → b.fail_streak + suc n < 2 ^ 31
    → (failures fails (suc n) b).health_up
      ≡ (if leb fails (b.fail_streak + suc n) then false else b.health_up)
unfolding failures mark_down
failures-health_up fails zero b hf hn =
    let e : (b.fail_streak + 1) % int32_mod ≡ b.fail_streak + 1 = omega arith in
    rw (e, reaches_small (b.fail_streak + 1) fails (omega arith) hf)
failures-health_up fails (suc n) b hf hn =
    let e : (b.fail_streak + 1) % int32_mod ≡ b.fail_streak + 1 = omega arith in
    let ih = failures-health_up fails n (mark_down fails b) hf (omega arith) in
    let r = reaches_small (b.fail_streak + 1) fails (omega arith) hf in ground (arith, ih, r, e)

passes-health_up :
    (up n : ℕ) (b : Backend)
    → up < 2 ^ 31
    → b.pass_streak + suc n < 2 ^ 31
    → (passes up (suc n) b).health_up
      ≡ (if leb up (b.pass_streak + suc n) then true else b.health_up)
unfolding passes mark_pass
passes-health_up up zero b hf hn =
    let e : (b.pass_streak + 1) % int32_mod ≡ b.pass_streak + 1 = omega arith in
    rw (e, reaches_small (b.pass_streak + 1) up (omega arith) hf)
passes-health_up up (suc n) b hf hn =
    let e : (b.pass_streak + 1) % int32_mod ≡ b.pass_streak + 1 = omega arith in
    let ih = passes-health_up up n (mark_pass up b) hf (omega arith) in
    let r = reaches_small (b.pass_streak + 1) up (omega arith) hf in ground (arith, ih, r, e)

-- With fails_to_down below 2 ^ 31, after a probe that passes, n + 1 failures in a row (fewer than
-- 2 ^ 31) leave HealthUp as the pass left it while n + 1 is below fails_to_down, and have it false
-- from there on.
pub failures-after_pass :
    (up fails n : ℕ) (b : Backend)
    → fails < 2 ^ 31
    → suc n < 2 ^ 31
    → (failures fails (suc n) (mark_pass up b)).health_up
      ≡ (if leb fails (suc n) then false else (mark_pass up b).health_up)
unfolding mark_pass
failures-after_pass up fails n b hf hn =
    failures-health_up fails n (mark_pass up b) hf (omega arith)
    ∙ ap (λ (k : ℕ). if leb fails k then false else (mark_pass up b).health_up) (omega arith)

-- With passes_to_up below 2 ^ 31, after a probe that fails, n + 1 passes in a row (fewer than 2 ^ 31)
-- leave HealthUp as the failure left it while n + 1 is below passes_to_up, and have it true from
-- there on.
pub passes-after_failure :
    (fails up n : ℕ) (b : Backend)
    → up < 2 ^ 31
    → suc n < 2 ^ 31
    → (passes up (suc n) (mark_down fails b)).health_up
      ≡ (if leb up (suc n) then true else (mark_down fails b).health_up)
unfolding mark_down
passes-after_failure fails up n b hf hn =
    passes-health_up up n (mark_down fails b) hf (omega arith)
    ∙ ap (λ (k : ℕ). if leb up k then true else (mark_down fails b).health_up) (omega arith)
