-- ===== src/Balancer/Pick.antt =====
-- internal/backend/balancer.go: PickAtLeast. The limiters (golang.org/x/time/rate) are a parameter;
-- a pick reads the members of one chain, moves the random seed and the limiters' state, and finds
-- out from `cancelled` whether the caller's context ends before a reserved delay has passed.
pub mod Sound
pub mod Answer
pub mod Guarantee
use sabre.Common.{
  ℕ, zero, suc, ◌+◌, ◌-◌, ◌^◌, ◌<◌, ◌≡◌, Bool, true, false, not, ◌&&◌, ◌||◌, List, [], ◌∷◌, ◌++◌,
  map, Option, none, some, ltb, leb, ◌==◌, if◌then◌else◌, length, get_or, Text, codes, text_eq,
}
use sabre.Float.{FloatOps}
use sabre.Backend.{Backend}
use sabre.Balancer.Member.{Member}
use sabre.Balancer.Random.{rand_n, rand_float}

abbrev pub is_nil {ℓ} : {A : Type ℓ} → Option A → Bool
is_nil none = true
is_nil (some a) = false

-- candidate
unfoldable pub candidate : Backend → Text → ℕ → Bool
candidate b scheme min_head =
    if not b.health_up
    then false
    else if text_eq scheme (codes "ws") && is_nil b.ws_url
    then false
    else if text_eq scheme (codes "http") && is_nil b.url
    then false
    else not (ltb 0 min_head && (ltb 0 b.head && ltb b.head min_head))

-- The largest time.Duration.
abbrev pub max_duration : ℕ
max_duration = 2 ^ 63 - 1

-- golang.org/x/time/rate: `States` holds all limiters, a limiter is a reference into it.
pub record LimiterOps : Type 1 where
  pub States : Type 0
  pub Reservation : Type 0
  pub allow : ℕ → States → Bool × States
  pub reserve : ℕ → States → Reservation × States
  pub delay : Reservation → ℕ
  pub is_ok : Reservation → Bool
  pub cancel : Reservation → States → States

pub data Picked : Type 0 where
  -- the index of the backend among the chain's
  picked : ℕ → Picked
  no_backends no_websocket no_http no_candidate context_done : Picked

module _ (Fl : FloatOps) (Lim : LimiterOps) where
  open Fl use {F, zero_f, add, mul, le}
  open Lim use {States, Reservation, allow, reserve, delay, is_ok, cancel}

  -- b.limiter == nil || b.limiter.Allow()
  unfoldable pub allowed : Option ℕ → States → Bool × States
  allowed none s = (true, s)
  allowed (some l) s = allow l s

  unfoldable pub keep_ready :
      ℕ → F → Bool × States → (States → List (ℕ × F) × States) → List (ℕ × F) × States
  keep_ready i w (true, s) rest = let r = rest s in ((i, w) ∷ r.0, r.1)
  keep_ready i w (false, s) rest = rest s

  -- The first loop: the candidates that their limiters let through, with their weights.
  unfoldable pub ready_from : Text → ℕ → ℕ → List (Member Fl) → States → List (ℕ × F) × States
  unfolding allowed keep_ready
  ready_from scheme min_head i [] s = ([], s)
  ready_from scheme min_head i (m ∷ ms) s =
      let next : States → List (ℕ × F) × States = ready_from scheme min_head (i + 1) ms in
      elim (candidate m.backend scheme min_head) [
        | true ↦ keep_ready i m.weight (allowed m.backend.limiter s) next
        | false ↦ next s
      ]

  -- minDelay, minIdx and keep of the second loop; none for minIdx is -1.
  pub record Shortest : Type 0 where
    pub min_delay : ℕ
    pub min_idx : Option ℕ
    pub keep : Option Reservation

  -- if keep.OK() { keep.Cancel() }
  unfoldable pub cancel_kept : Option Reservation → States → States
  cancel_kept none s = s
  cancel_kept (some r) s = if is_ok r then cancel r s else s

  unfoldable pub compare_delay : ℕ → Shortest → Reservation × States → Shortest × States
  unfolding cancel_kept
  compare_delay i best (r, s) =
      if ltb (delay r) best.min_delay
      then (
        record { min_delay = delay r; min_idx = some i; keep = some r },
        cancel_kept best.keep s,
      )
      else (best, cancel r s)

  -- The second loop: the candidate whose limiter frees it first.
  unfoldable pub shortest_from :
      Text → ℕ → ℕ → List (Member Fl) → Shortest → States → Shortest × States
  unfolding compare_delay
  shortest_from scheme min_head i [] best s = (best, s)
  shortest_from scheme min_head i (m ∷ ms) best s = elim (candidate m.backend scheme min_head) [
    | false ↦ shortest_from scheme min_head (i + 1) ms best s
    | true ↦ elim m.backend.limiter [
      | none ↦ (record { min_delay = 0; min_idx = some i; keep = best.keep }, s)
      | some l ↦
          let next = compare_delay i best (reserve l s) in
          shortest_from scheme min_head (i + 1) ms next.0 next.1
    ]
  ]

  -- The errors where no backend serves the scheme.
  unfoldable pub none_enabled : Text → Picked
  none_enabled scheme =
      if text_eq scheme (codes "ws")
      then no_websocket
      else if text_eq scheme (codes "http")
      then no_http
      else no_candidate

  unfoldable pub total_weight : F → List (ℕ × F) → F
  total_weight acc [] = acc
  total_weight acc ((i, w) ∷ ready) = total_weight (add acc w) ready

  -- The weighted walk; `last` is the index returned if rounding lets the walk run off the end.
  unfoldable pub walk : F → F → ℕ → List (ℕ × F) → ℕ
  walk r current last [] = last
  walk r current last ((i, w) ∷ ready) =
      if le r (add current w) then i else walk r (add current w) i ready

  unfoldable pub choose_weighted : ℕ → ℕ → F → List (ℕ × F) → ℕ × ℕ
  unfolding walk
  choose_weighted seed first total ready =
      if le total zero_f
      then (let draw = rand_n seed (length ready) in
          (get_or (map (λ (p : ℕ × F). p.0) ready) draw.0 first, draw.1))
      else (let draw = rand_float Fl seed in (walk (mul draw.0 total) zero_f first ready, draw.1))

  -- The choice among ready backends, with the seed that it leaves.
  unfoldable pub choose : ℕ → ℕ × F → List (ℕ × F) → ℕ × ℕ
  unfolding choose_weighted total_weight
  choose seed (i, w) [] = (i, seed)
  choose seed (i, w) (p ∷ ready) =
      choose_weighted seed i (total_weight zero_f ((i, w) ∷ p ∷ ready)) ((i, w) ∷ p ∷ ready)

  -- What one call does before it falls back: a result, or none for minIdx = -1.
  pub record Step : Type 0 where
    pub result : Option Picked
    pub seed : ℕ
    pub states : States

  unfoldable pub wait_for : Bool → ℕ → Shortest × States → Step
  unfolding cancel_kept
  wait_for cancelled seed (best, s) = elim best.min_idx [
    | none ↦ record { result = none; seed = seed; states = s }
    | some i ↦
        if ltb 0 best.min_delay && cancelled
        then record { result = some context_done; seed = seed; states = cancel_kept best.keep s }
        else record { result = some (picked i); seed = seed; states = s }
  ]

  unfoldable pub pick_ready : Bool → ℕ → Text → ℕ → List (Member Fl) → List (ℕ × F) × States → Step
  unfolding choose wait_for shortest_from
  pick_ready cancelled seed scheme min_head ms (p ∷ ready, s) =
      let c = choose seed p ready in record { result = some (picked c.0); seed = c.1; states = s }
  pick_ready cancelled seed scheme min_head ms ([], s) = wait_for cancelled seed (
      shortest_from scheme min_head 0 ms
        (record { min_delay = max_duration; min_idx = none; keep = none }) s)

  unfoldable pub pick_once : Bool → Text → ℕ → List (Member Fl) → ℕ → States → Step
  unfolding pick_ready ready_from
  pick_once cancelled scheme min_head ms seed s =
      pick_ready cancelled seed scheme min_head ms (ready_from scheme min_head 0 ms s)

  -- The recursive call has minHead = 0, and so makes no further one.
  unfoldable pub or_fall_back : Bool → Text → ℕ → List (Member Fl) → Step → Picked × ℕ × States
  unfolding pick_once none_enabled
  or_fall_back cancelled scheme min_head ms step = elim step.result [
    | some p ↦ (p, step.seed, step.states)
    | none ↦ elim (ltb 0 min_head) [
      | false ↦ (none_enabled scheme, step.seed, step.states)
      | true ↦
          let again = pick_once cancelled scheme 0 ms step.seed step.states in
          elim again.result [
            | some p ↦ (p, again.seed, again.states)
            | none ↦ (none_enabled scheme, again.seed, again.states)
          ]
    ]
  ]

  -- PickAtLeast
  unfoldable pub pick_at_least :
      Bool → Text → ℕ → List (Member Fl) → ℕ → States → Picked × ℕ × States
  unfolding pick_once or_fall_back
  pick_at_least cancelled scheme min_head [] seed s = (no_backends, seed, s)
  pick_at_least cancelled scheme min_head (m ∷ ms) seed s =
      or_fall_back cancelled scheme min_head (m ∷ ms)
        (pick_once cancelled scheme min_head (m ∷ ms) seed s)

  -- Pick
  unfoldable pub pick : Bool → Text → List (Member Fl) → ℕ → States → Picked × ℕ × States
  unfolding pick_at_least
  pick cancelled scheme ms seed s = pick_at_least cancelled scheme 0 ms seed s
