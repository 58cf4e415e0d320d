-- ===== src/Balancer/Pick/Guarantee.antt =====
-- internal/backend/balancer.go: PickAtLeast returns an eligible backend whenever there is one.
use sabre.Common.{
  ℕ, ◌≡◌, refl, ap, sym, ◌∙◌, ◌⊎◌, inl, inr, Bool, true, false, ◌&&◌, List, [], ◌∷◌, Option, none,
  some, arith, ltb, get_elem?, Text, Bool-cases,
}
use sabre.Float.{FloatOps}
use sabre.Balancer.Member.{Member}
use sabre.Balancer.Pick.{
  max_duration, is_nil, LimiterOps, Picked, picked, no_backends, no_websocket, no_http,
  no_candidate, context_done, ready_from, Shortest, shortest_from, none_enabled, Step, wait_for,
  pick_ready, pick_once, or_fall_back, pick_at_least,
}
use sabre.Balancer.Pick.Sound.{Served, Ready, ready_from-Ready, choose-Served}
use sabre.Balancer.Pick.Answer.{
  has_candidate, HasFiniteDelays, Best, shortest_from-Best, shortest_from-held,
}

module _ (Fl : FloatOps) (Lim : LimiterOps) where
  open Fl use {F}
  open Lim use {States, Reservation, reserve, delay}

  -- What a pass over the backends may end with.
  abbrev Answer : Bool → Text → ℕ → List (Member Fl) → Option Picked → Type 0
  Answer cancelled scheme min_head ms none = has_candidate Fl Lim scheme min_head ms ≡ false
  Answer cancelled scheme min_head ms (some (picked i)) = Served Fl Lim ms scheme min_head i
  Answer cancelled scheme min_head ms (some context_done) = cancelled ≡ true
  Answer cancelled scheme min_head ms (some no_backends) = ⊥
  Answer cancelled scheme min_head ms (some no_websocket) = ⊥
  Answer cancelled scheme min_head ms (some no_http) = ⊥
  Answer cancelled scheme min_head ms (some no_candidate) = ⊥

  module _ (finite : HasFiniteDelays Fl Lim) (cancelled : Bool) (scheme : Text) where
    wait_for-Answer :
        (min_head : ℕ) (ms : List (Member Fl)) (seed : ℕ) (idx : Option ℕ) (best : Shortest Fl Lim)
        (s : States)
        → best.min_idx ≡ idx
        → Best Fl Lim ms scheme min_head idx
        → (has_candidate Fl Lim scheme min_head ms ≡ true → is_nil idx ≡ false)
        → Answer cancelled scheme min_head ms (wait_for Fl Lim cancelled seed (best, s)).result
    unfolding wait_for
    wait_for-Answer min_head ms seed none best s e b h =
        rw (e, wait_for)
          (elim (Bool-cases (has_candidate Fl Lim scheme min_head ms)) [
            | inl c ↦ cc (h c)
            | inr c ↦ c
          ])
    wait_for-Answer min_head ms seed (some i) best s e b h =
        elim (Bool-cases (ltb 0 best.min_delay && cancelled)) [
          | inl c ↦ rw (e, wait_for, c) (ground arith)
          | inr c ↦ rw (e, wait_for, c) b
        ]

    pick_ready-Answer :
        (min_head : ℕ) (ms : List (Member Fl)) (seed : ℕ) (ready : List (ℕ × F)) (s : States)
        → Ready Fl Lim ms scheme min_head ready
        → Answer cancelled scheme min_head ms
            (pick_ready Fl Lim cancelled seed scheme min_head ms (ready, s)).result
    unfolding pick_ready
    pick_ready-Answer min_head ms seed (p ∷ ready) s q =
        choose-Served Fl Lim ms scheme min_head seed p ready q
    pick_ready-Answer min_head ms seed [] s q =
        let start : Shortest Fl Lim = record {
          min_delay = max_duration;
          min_idx = none;
          keep = none;
        } in
        let out = shortest_from Fl Lim scheme min_head 0 ms start s in
        wait_for-Answer min_head ms seed out.0.min_idx out.0 out.1 refl
          (shortest_from-Best Fl Lim ms scheme min_head ms 0 start s
            (λ k. ap (get_elem? ms) (omega arith)) tt)
          (λ c. shortest_from-held Fl Lim finite scheme min_head ms 0 start s (inr refl) (inr c))

    pick_once-Answer :
        (min_head : ℕ) (ms : List (Member Fl)) (seed : ℕ) (s : States)
        → Answer cancelled scheme min_head ms
            (pick_once Fl Lim cancelled scheme min_head ms seed s).result
    unfolding pick_once
    pick_once-Answer min_head ms seed s =
        let r = ready_from Fl Lim scheme min_head 0 ms s in
        pick_ready-Answer min_head ms seed r.0 r.1
          (ready_from-Ready Fl Lim ms scheme min_head ms 0 s (λ k. ap (get_elem? ms) (omega arith)))

  -- What PickAtLeast promises: a backend that is eligible at the head asked for, or, if there is no
  -- such backend, one that is eligible at any head; an error only if the caller's context ended
  -- or no healthy backend serves the scheme.
  abbrev pub Promise : Bool → Text → ℕ → List (Member Fl) → Picked → Type 0
  Promise cancelled scheme min_head ms (picked i) =
      Served Fl Lim ms scheme min_head i
      ⊎ ((has_candidate Fl Lim scheme min_head ms ≡ false) × Served Fl Lim ms scheme 0 i)
  Promise cancelled scheme min_head ms context_done = cancelled ≡ true
  Promise cancelled scheme min_head ms no_backends = has_candidate Fl Lim scheme 0 ms ≡ false
  Promise cancelled scheme min_head ms no_websocket = has_candidate Fl Lim scheme 0 ms ≡ false
  Promise cancelled scheme min_head ms no_http = has_candidate Fl Lim scheme 0 ms ≡ false
  Promise cancelled scheme min_head ms no_candidate = has_candidate Fl Lim scheme 0 ms ≡ false

  module _ (finite : HasFiniteDelays Fl Lim) (cancelled : Bool) (scheme : Text) (min_head : ℕ) where
    none_enabled-Promise :
        (ms : List (Member Fl))
        → has_candidate Fl Lim scheme 0 ms ≡ false
        → Promise cancelled scheme min_head ms (none_enabled Fl Lim scheme)
    unfolding none_enabled
    none_enabled-Promise ms h = ground arith

    first-Promise :
        (ms : List (Member Fl)) (p : Picked)
        → Answer cancelled scheme min_head ms (some p)
        → Promise cancelled scheme min_head ms p
    first-Promise ms (picked i) h = inl h
    first-Promise ms context_done h = h
    first-Promise ms no_backends h = absurd h
    first-Promise ms no_websocket h = absurd h
    first-Promise ms no_http h = absurd h
    first-Promise ms no_candidate h = absurd h

    second-Promise :
        (ms : List (Member Fl)) (p : Picked)
        → has_candidate Fl Lim scheme min_head ms ≡ false
        → Answer cancelled scheme 0 ms (some p)
        → Promise cancelled scheme min_head ms p
    second-Promise ms (picked i) c h = inr (c, h)
    second-Promise ms context_done c h = h
    second-Promise ms no_backends c h = absurd h
    second-Promise ms no_websocket c h = absurd h
    second-Promise ms no_http c h = absurd h
    second-Promise ms no_candidate c h = absurd h

    again-Promise :
        (ms : List (Member Fl)) (seed : ℕ) (s : States) (o : Option Picked)
        → (pick_once Fl Lim cancelled scheme 0 ms seed s).result ≡ o
        → Answer cancelled scheme 0 ms o
        → has_candidate Fl Lim scheme min_head ms ≡ false
        → Promise cancelled scheme min_head ms
            (or_fall_back Fl Lim cancelled scheme min_head ms
              (record { result = none; seed = seed; states = s })).0
    unfolding or_fall_back
    again-Promise ms seed s none e a c = elim (Bool-cases (ltb 0 min_head)) [
      | inl h ↦ rw (h, or_fall_back, e) (none_enabled-Promise ms a)
      | inr h ↦ rw (h, or_fall_back) (none_enabled-Promise ms a)
    ]
    again-Promise ms seed s (some p) e a c = elim (Bool-cases (ltb 0 min_head)) [
      | inl h ↦ rw (h, or_fall_back, e) (second-Promise ms p c a)
      | inr h ↦
          let zero_head : min_head ≡ 0 = ground arith in
          rw (h, or_fall_back)
            (none_enabled-Promise ms
              (ap (λ (n : ℕ). has_candidate Fl Lim scheme n ms) (sym zero_head) ∙ c))
    ]

    or_fall_back-Promise :
        (ms : List (Member Fl)) (step : Step Fl Lim) (o : Option Picked)
        → step.result ≡ o
        → Answer cancelled scheme min_head ms o
        → Promise cancelled scheme min_head ms
            (or_fall_back Fl Lim cancelled scheme min_head ms step).0
    unfolding or_fall_back
    or_fall_back-Promise ms step (some p) e a = rw (e, or_fall_back) (first-Promise ms p a)
    or_fall_back-Promise ms step none e c =
        let same : step ≡ record { result = none; seed = step.seed; states = step.states } =
          λ i. record { result = e i; seed = step.seed; states = step.states } in
        rw same (
          again-Promise ms step.seed step.states _ refl
            (pick_once-Answer finite cancelled scheme 0 ms step.seed step.states) c)

    -- Given limiters with finite delays, whatever the weights, the random seed and the limiters'
    -- state: PickAtLeast returns the index of a backend of the chain that is healthy, serves the
    -- scheme and is not known to trail the head asked for, or, if there is none, of one that is
    -- healthy and serves the scheme. It fails only if the caller's context ended or no backend of
    -- the chain is healthy and serves the scheme.
    pub pick_at_least-Promise :
        (ms : List (Member Fl)) (seed : ℕ) (s : States)
        → Promise cancelled scheme min_head ms
            (pick_at_least Fl Lim cancelled scheme min_head ms seed s).0
    unfolding pick_at_least
    pick_at_least-Promise [] seed s = refl
    pick_at_least-Promise (m ∷ ms) seed s =
        or_fall_back-Promise (m ∷ ms) _ _ refl
          (pick_once-Answer finite cancelled scheme min_head (m ∷ ms) seed s)
