-- ===== src/Balancer/Probe/Like.antt =====
-- internal/backend/balancer.go: what of a backend decides about its rotation, and which steps of probe
-- leave it alone.
use sabre.Common.{
  ℕ, zero, suc, ◌^◌, ◌<◌, ◌≡◌, ◌≢◌, refl, ap, ◌∙◌, Bool, true, false, not, ◌&&◌, List, [], ◌∷◌, map,
  Option, none, some, arith, ltb, leb, ◌==◌, if◌then◌else◌, get_elem?, Bool-cases, inl, inr,
}
use sabre.Float.{FloatOps}
use sabre.Backend.{Backend, observe_head}
use sabre.Balancer.Member.{Member}
use sabre.Balancer.Pick.{max_duration}
use sabre.Balancer.Latency.{modify, record_latency, weigh, fastest_latency, update_latency}
use sabre.Balancer.Health.{mark_down, mark_pass}
use sabre.Balancer.Health.Streaks.{failures, passes, failures-after_pass, passes-after_failure}
use sabre.Cache.Store.{Tiers}
use sabre.Balancer.Probe.{Outcome, failed, answered, observe}

-- A response came, with a 2xx status.
unfoldable pub is_passing : Outcome → Bool
is_passing failed = false
is_passing (answered status time body) = leb 200 status && ltb status 300

-- All probes end in the same way.
abbrev pub AreAll : Bool → List Outcome → Type 0
AreAll p [] = Unit {0}
AreAll p (o ∷ os) = (is_passing o ≡ p) × AreAll p os

-- Two backends agree in what decides about their rotation.
abbrev pub Same : Backend → Backend → Type 0
Same c b =
    (c.health_up ≡ b.health_up) × (c.fail_streak ≡ b.fail_streak) × (c.pass_streak ≡ b.pass_streak)

pub mark_down-Same :
    (fails : ℕ) (c b : Backend) → Same c b → Same (mark_down fails c) (mark_down fails b)
unfolding mark_down
mark_down-Same fails c b h = rw (h.0, h.1) (refl, refl, refl)

pub mark_pass-Same : (up : ℕ) (c b : Backend) → Same c b → Same (mark_pass up c) (mark_pass up b)
unfolding mark_pass
mark_pass-Same up c b h = rw (h.0, h.2) (refl, refl, refl)

-- The backend after a probe that passes or fails.
abbrev pub after : (fails up : ℕ) → Bool → Backend → Backend
after fails up true b = mark_pass up b
after fails up false b = mark_down fails b

-- The backend after a run of probes that all pass or all fail.
abbrev pub after_run : (fails up : ℕ) → Bool → ℕ → Backend → Backend
after_run fails up true n b = passes up n b
after_run fails up false n b = failures fails n b

pub after_run-suc :
    (fails up : ℕ) (p : Bool) (n : ℕ) (b : Backend)
    → after_run fails up p (suc n) b ≡ after_run fails up p n (after fails up p b)
unfolding passes failures
after_run-suc fails up true n b = refl
after_run-suc fails up false n b = refl

pub after_run-zero : (fails up : ℕ) (p : Bool) (b : Backend) → after_run fails up p 0 b ≡ b
unfolding passes failures
after_run-zero fails up true b = refl
after_run-zero fails up false b = refl

-- How many probes of a kind move the backend.
abbrev pub limit : (fails up : ℕ) → Bool → ℕ
limit fails up true = up
limit fails up false = fails

-- A run of the other kind.
pub after_run-health_up :
    (fails up : ℕ) (p : Bool) (n : ℕ) (b : Backend)
    → fails < 2 ^ 31
    → up < 2 ^ 31
    → suc n < 2 ^ 31
    → (after_run fails up (not p) (suc n) (after fails up p b)).health_up
      ≡ (if leb (limit fails up (not p)) (suc n) then not p else (after fails up p b).health_up)
after_run-health_up fails up true n b hf hu hn = failures-after_pass up fails n b hf hn
after_run-health_up fails up false n b hf hu hn = passes-after_failure fails up n b hu hn

module _ (Fl : FloatOps) where
  open Fl use {F}

  -- What is read of a member decides like the backend.
  abbrev pub IsLike : Backend → Option (Member Fl) → Type 0
  IsLike b none = ⊥
  IsLike b (some m) = Same m.backend b

  -- HealthUp of the backend at a place of the pool.
  abbrev pub up_at : ℕ → List (Member Fl) → Option Bool
  up_at i [] = none
  up_at zero (m ∷ ms) = some m.backend.health_up
  up_at (suc i) (m ∷ ms) = up_at i ms

  pub up_at-IsLike :
      (i : ℕ) (ms : List (Member Fl)) (b : Backend)
      → IsLike b (get_elem? ms i)
      → up_at i ms ≡ some b.health_up
  up_at-IsLike i [] b h = elim h [ ]
  up_at-IsLike zero (m ∷ ms) b h = ap (λ (u : Bool). some u) h.0
  up_at-IsLike (suc i) (m ∷ ms) b h = up_at-IsLike i ms b h

  pub IsLike-self :
      (i : ℕ) (ms : List (Member Fl)) (m : Member Fl)
      → get_elem? ms i ≡ some m
      → IsLike m.backend (get_elem? ms i)
  IsLike-self i ms m e = rw e (refl, refl, refl)

  pub modify-at :
      (f g : Backend → Backend) (i : ℕ) (ms : List (Member Fl)) (b : Backend)
      → ((c : Backend) → Same c b → Same (f c) (g b))
      → IsLike b (get_elem? ms i)
      → IsLike (g b) (get_elem? (modify Fl i f ms) i)
  unfolding modify
  modify-at f g i [] b h l = elim l [ ]
  modify-at f g zero (m ∷ ms) b h l = h m.backend l
  modify-at f g (suc i) (m ∷ ms) b h l = modify-at f g i ms b h l

  pub modify-else :
      (f : Backend → Backend) (i j : ℕ) (ms : List (Member Fl)) (b : Backend)
      → j ≢ i
      → IsLike b (get_elem? ms j)
      → IsLike b (get_elem? (modify Fl i f ms) j)
  unfolding modify
  modify-else f i j [] b n l = elim l [ ]
  modify-else f zero zero (m ∷ ms) b n l = absurd (n refl)
  modify-else f zero (suc j) (m ∷ ms) b n l = l
  modify-else f (suc i) zero (m ∷ ms) b n l = l
  modify-else f (suc i) (suc j) (m ∷ ms) b n l = modify-else f i j ms b (λ e. n (ap suc e)) l

  -- A change that leaves the health alone.
  modify-anywhere :
      (f : Backend → Backend) (i j : ℕ) (ms : List (Member Fl)) (b : Backend)
      → ((c : Backend) → Same (f c) c)
      → IsLike b (get_elem? ms j)
      → IsLike b (get_elem? (modify Fl i f ms) j)
  unfolding modify
  modify-anywhere f i j [] b h l = elim l [ ]
  modify-anywhere f zero zero (m ∷ ms) b h l =
      let s = h m.backend in (s.0 ∙ l.0, s.1 ∙ l.1, s.2 ∙ l.2)
  modify-anywhere f zero (suc j) (m ∷ ms) b h l = l
  modify-anywhere f (suc i) zero (m ∷ ms) b h l = l
  modify-anywhere f (suc i) (suc j) (m ∷ ms) b h l = modify-anywhere f i j ms b h l

  reweigh-IsLike :
      (f : Member Fl → F) (j : ℕ) (ms : List (Member Fl)) (b : Backend)
      → IsLike b (get_elem? ms j)
      → IsLike b (get_elem? (map (λ (m : Member Fl). record m { weight = f m }) ms) j)
  reweigh-IsLike f j [] b l = elim l [ ]
  reweigh-IsLike f zero (m ∷ ms) b l = l
  reweigh-IsLike f (suc j) (m ∷ ms) b l = reweigh-IsLike f j ms b l

  pub update_latency-IsLike :
      (samples : ℕ) (gamma : F) (latency i j : ℕ) (ms : List (Member Fl)) (b : Backend)
      → IsLike b (get_elem? ms j)
      → IsLike b (get_elem? (update_latency Fl samples gamma i latency ms) j)
  unfolding update_latency weigh record_latency
  update_latency-IsLike samples gamma latency i j ms b l =
      let next : List (Member Fl) = modify Fl i (record_latency samples latency) ms in
      let kept =
        modify-anywhere (record_latency samples latency) i j ms b (λ c. (refl, refl, refl)) l in
      elim (Bool-cases (fastest_latency Fl max_duration next == max_duration)) [
        | inl e ↦ rw e (reweigh-IsLike _ j next b kept)
        | inr e ↦ rw e (reweigh-IsLike _ j next b kept)
      ]

  module _ (T : Tiers) where
    pub observe-IsLike :
        (o : Option ℕ) (i j : ℕ) (ms : List (Member Fl)) (b : Backend)
        → IsLike b (get_elem? ms j)
        → IsLike b (get_elem? (observe Fl T o i ms) j)
    unfolding observe observe_head
    observe-IsLike none i j ms b l = l
    observe-IsLike (some head) i j ms b l =
        modify-anywhere (λ (c : Backend). observe_head c head) i j ms b
          (λ c. (ground arith, ground arith, ground arith)) l
