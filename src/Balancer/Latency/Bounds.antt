-- ===== src/Balancer/Latency/Bounds.antt =====
-- internal/backend/balancer.go: the latency history stays within its number of samples, the average
-- within its samples, and the weights above their floor.
use sabre.Common.{
  Bool, refl, inl, inr, ltb, ◌&&◌, ◌++◌, if◌then◌else◌, lt→ltb, ℕ, zero, suc, ◌+◌, ◌*◌, ◌/◌, ◌%◌,
  ◌<◌, ◌≤◌, ◌≡◌, ◌∙◌, true, false, List, [], ◌∷◌, map, arith, leb, ◌==◌, length, drop,
  length-append, length-drop, Bool-cases,
}
use sabre.Multicall.Word.{slt, add64, sign_bit, word_mod}
use sabre.Float.{FloatOps}
use sabre.Backend.{Backend}
use sabre.Balancer.Member.{Member}
use sabre.Balancer.Pick.{max_duration}
use sabre.Balancer.Latency.{
  div64, total_latency, push_sample, average, record_latency, is_measured, floor_weight, weight_of,
  weigh, modify, update_latency, fastest_latency,
}

push_sample-bounded :
    (samples latency : ℕ) (history : List ℕ)
    → 0 < samples
    → length history ≤ samples
    → length (push_sample samples latency history) ≤ samples
unfolding push_sample
push_sample-bounded samples latency history pos h =
    elim (Bool-cases (leb samples (length history))) [
      | inl e ↦ rw e (
          let l = length-drop 1 history in
          let k = length-append (drop 1 history) (latency ∷ []) in ground arith)
      | inr e ↦ rw e (let k = length-append history (latency ∷ []) in ground arith)
    ]

-- All samples lie between two bounds.
abbrev pub Within : ℕ → ℕ → List ℕ → Type 0
Within lo hi [] = Unit {0}
Within lo hi (l ∷ ls) = (lo ≤ l) × (l ≤ hi) × Within lo hi ls

abbrev sum : List ℕ → ℕ
sum [] = 0
sum (l ∷ ls) = l + sum ls

sum_bounds :
    (lo hi : ℕ) (ls : List ℕ)
    → Within lo hi ls
    → (lo * length ls ≤ sum ls) × (sum ls ≤ hi * length ls)
sum_bounds lo hi [] w = omega arith
sum_bounds lo hi (l ∷ ls) w = let ih = sum_bounds lo hi ls w.2 in (grind arith, grind arith)

total_latency-sum :
    (total : ℕ) (ls : List ℕ) → total + sum ls < sign_bit → total_latency total ls ≡ total + sum ls
unfolding total_latency add64
total_latency-sum total [] h = omega arith
total_latency-sum total (l ∷ ls) h =
    let e : (total + l) % word_mod ≡ total + l = omega arith in
    rw e (total_latency-sum (total + l) ls (omega arith) ∙ omega arith)

div_bounds : (lo hi n s : ℕ) → 0 < n → lo * n ≤ s → s ≤ hi * n → (lo ≤ s / n) × (s / n ≤ hi)
div_bounds lo hi n s pos l h = (grind arith, grind arith)

-- The average of a history that is not empty, and whose sum is below 2 ^ 63, lies between any
-- bounds of its samples.
pub average_bounds :
    (lo hi : ℕ) (history : List ℕ)
    → 0 < length history
    → sum history < sign_bit
    → Within lo hi history
    → (lo ≤ average history) × (average history ≤ hi)
unfolding average div64
average_bounds lo hi history pos small w =
    let e : total_latency 0 history ≡ sum history =
      total_latency-sum 0 history (omega arith) ∙ omega arith in
    let b = sum_bounds lo hi history w in
    rw (e, lt→ltb (sum history) sign_bit small)
      (div_bounds lo hi (length history) (sum history) pos b.0 b.1)

total_latency-lt : (total : ℕ) (ls : List ℕ) → total < word_mod → total_latency total ls < word_mod
unfolding total_latency add64
total_latency-lt total [] h = h
total_latency-lt total (l ∷ ls) h = total_latency-lt ((total + l) % word_mod) ls (omega arith)

div64-lt : (a n : ℕ) → a < word_mod → div64 a (suc n) < word_mod
unfolding div64
div64-lt a n h = elim (Bool-cases (ltb a sign_bit)) [
  | inl e ↦ rw e (let le : a / suc n ≤ a = grind arith in omega arith)
  | inr e ↦ rw e (omega arith)
]

average-lt :
    (samples latency : ℕ) (history : List ℕ)
    → average (push_sample samples latency history) < word_mod
unfolding average push_sample
average-lt samples latency history =
    snoc (if leb samples (length history) then drop 1 history else history)
  where
    snoc :
        (ls : List ℕ)
        → div64 (total_latency 0 (ls ++ latency ∷ [])) (length (ls ++ latency ∷ [])) < word_mod
    snoc ls =
        let n : length (ls ++ latency ∷ []) ≡ suc (length ls) =
          length-append ls (latency ∷ []) ∙ omega arith in
        rw n (
          div64-lt (total_latency 0 (ls ++ latency ∷ [])) (length ls)
            (total_latency-lt 0 (ls ++ latency ∷ []) (omega arith)))

-- A measured latency is a positive int64.
is_measured-IsPositive :
    (b : Backend)
    → b.avg_latency < word_mod
    → is_measured b ≡ true
    → (0 < b.avg_latency) × (b.avg_latency < sign_bit)
unfolding is_measured slt
is_measured-IsPositive b h e = (ground arith, ground arith)

module _ (Fl : FloatOps) (samples : ℕ) (gamma : Fl.F) where
  open Fl use {F, one_f, min_weight, div, pow_neg, of_int, lt, le}

  -- The history is within its bound, the average an int64, and the weight not below the floor.
  abbrev pub IsWellFormed : List (Member Fl) → Type 0
  IsWellFormed [] = Unit {0}
  IsWellFormed (m ∷ ms) =
      (length m.backend.latency_history ≤ samples)
      × (m.backend.avg_latency < word_mod)
      × (le min_weight m.weight ≡ true)
      × IsWellFormed ms

  -- What the source relies on of float64: 0.1 <= 0.1, 0.1 <= 1.0, and the power of the ratio of two
  -- positive int64s is at least 0.1 where it is not below: such a ratio is a positive number, and its
  -- power no NaN as long as gamma is none.
  pub record IsOrdered : Type 0 where
    pub floor_self : le min_weight min_weight ≡ true
    pub floor_one : le min_weight one_f ≡ true
    pub power_total :
        (a b : ℕ)
        → 0 < a
        → a < sign_bit
        → 0 < b
        → b < sign_bit
        → lt (pow_neg (div (of_int a) (of_int b)) gamma) min_weight ≡ false
        → le min_weight (pow_neg (div (of_int a) (of_int b)) gamma) ≡ true

  fastest_latency-IsPositive :
      (fastest : ℕ) (ms : List (Member Fl))
      → (0 < fastest) × (fastest < sign_bit)
      → IsWellFormed ms
      → (0 < fastest_latency Fl fastest ms) × (fastest_latency Fl fastest ms < sign_bit)
  unfolding fastest_latency
  fastest_latency-IsPositive fastest [] h v = h
  fastest_latency-IsPositive fastest (m ∷ ms) h v =
      fastest_latency-IsPositive
        (if is_measured m.backend && slt m.backend.avg_latency fastest
          then m.backend.avg_latency
          else fastest)
        ms
        (faster (is_measured m.backend && slt m.backend.avg_latency fastest)
          (λ e. is_measured-IsPositive m.backend v.1 (ground arith)))
        v.3
    where
      faster :
          (b : Bool)
          → (b ≡ true → (0 < m.backend.avg_latency) × (m.backend.avg_latency < sign_bit))
          → (0 < (if b then m.backend.avg_latency else fastest))
            × ((if b then m.backend.avg_latency else fastest) < sign_bit)
      faster true p = p refl
      faster false p = h

  module _ (ordered : IsOrdered) where
    weight_of_floor :
        (fastest : ℕ) (b : Backend)
        → (0 < fastest) × (fastest < sign_bit)
        → b.avg_latency < word_mod
        → le min_weight (weight_of Fl gamma fastest b) ≡ true
    unfolding weight_of floor_weight
    weight_of_floor fastest b f h = elim (Bool-cases (is_measured b)) [
      | inr e ↦ rw (e) ordered.floor_one
      | inl e ↦
          let p = is_measured-IsPositive b h e in
          let w = pow_neg (div (of_int b.avg_latency) (of_int fastest)) gamma in
          rw (e) (elim (Bool-cases (lt w min_weight)) [
            | inl d ↦ rw d ordered.floor_self
            | inr d ↦ rw d (ordered.power_total b.avg_latency fastest p.0 p.1 f.0 f.1 d)
          ])
    ]

    reweigh-IsWellFormed :
        (f : Backend → F) (ms : List (Member Fl))
        → ((b : Backend) → b.avg_latency < word_mod → le min_weight (f b) ≡ true)
        → IsWellFormed ms
        → IsWellFormed (map (λ (m : Member Fl). record m { weight = f m.backend }) ms)
    reweigh-IsWellFormed f [] h v = tt
    reweigh-IsWellFormed f (m ∷ ms) h v =
        (v.0, v.1, h m.backend v.1, reweigh-IsWellFormed f ms h v.3)

    weigh-IsWellFormed :
        (ms : List (Member Fl)) → IsWellFormed ms → IsWellFormed (weigh Fl gamma ms)
    unfolding weigh
    weigh-IsWellFormed ms v =
        elim (Bool-cases (fastest_latency Fl max_duration ms == max_duration)) [
          | inl e ↦ rw e (reweigh-IsWellFormed (λ _. one_f) ms (λ _ _. ordered.floor_one) v)
          | inr e ↦
              let f = fastest_latency-IsPositive max_duration ms (omega arith, omega arith) v in
              rw e (reweigh-IsWellFormed _ ms (λ b h. weight_of_floor _ b f h) v)
        ]

    modify-IsWellFormed :
        (latency i : ℕ) (ms : List (Member Fl))
        → 0 < samples
        → IsWellFormed ms
        → IsWellFormed (modify Fl i (record_latency samples latency) ms)
    unfolding modify record_latency
    modify-IsWellFormed latency i [] pos v = tt
    modify-IsWellFormed latency zero (m ∷ ms) pos v = (
      push_sample-bounded samples latency m.backend.latency_history pos v.0,
      average-lt samples latency m.backend.latency_history,
      v.2,
      v.3,
    )
    modify-IsWellFormed latency (suc i) (m ∷ ms) pos v =
        (v.0, v.1, v.2, modify-IsWellFormed latency i ms pos v.3)

    -- With a positive number of samples and a gamma that is no NaN, and float64 ordered as it is
    -- documented on the powers of positive ratios, UpdateLatency keeps every latency history within
    -- the number of samples, every average an int64 and every weight at 0.1 or more.
    pub update_latency-IsWellFormed :
        (latency i : ℕ) (ms : List (Member Fl))
        → 0 < samples
        → IsWellFormed ms
        → IsWellFormed (update_latency Fl samples gamma i latency ms)
    unfolding update_latency
    update_latency-IsWellFormed latency i ms pos v =
        weigh-IsWellFormed _ (modify-IsWellFormed latency i ms pos v)
