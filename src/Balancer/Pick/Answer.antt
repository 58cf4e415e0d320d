-- ===== src/Balancer/Pick/Answer.antt =====
-- internal/backend/balancer.go: what PickAtLeast answers. The limiters are assumed to do what
-- golang.org/x/time/rate documents of a limiter with a burst of one and a positive rate: a
-- reservation's delay is finite.
use sabre.Common.{
  ℕ, ◌+◌, ◌<◌, ◌≡◌, ◌⊎◌, inl, inr, Bool, true, false, ◌||◌, List, [], ◌∷◌, Option, none, some,
  arith, ltb, Text, Bool-cases, Option-cases,
}
use sabre.Float.{FloatOps}
use sabre.Balancer.Member.{Member}
use sabre.Balancer.Pick.{
  candidate, max_duration, is_nil, LimiterOps, Shortest, compare_delay, shortest_from,
}
use sabre.Balancer.Pick.Sound.{Served, Rest, Rest-head, Rest-tail}

module _ (Fl : FloatOps) (Lim : LimiterOps) where
  open Fl use {F}
  open Lim use {States, Reservation, reserve, delay}

  -- Some backend is healthy, serves the scheme and is not known to trail the head.
  abbrev pub has_candidate : Text → ℕ → List (Member Fl) → Bool
  has_candidate scheme min_head [] = false
  has_candidate scheme min_head (m ∷ ms) =
      candidate m.backend scheme min_head || has_candidate scheme min_head ms

  abbrev pub HasFiniteDelays : Type 0
  HasFiniteDelays = (l : ℕ) (s : States) → delay (reserve l s).0 < max_duration

  module _ (all : List (Member Fl)) (scheme : Text) (min_head : ℕ) where
    abbrev pub Best : Option ℕ → Type 0
    Best none = Unit {0}
    Best (some i) = Served Fl Lim all scheme min_head i

    compare_delay-Best :
        (i : ℕ) (best : Shortest Fl Lim) (r : Reservation × States)
        → Served Fl Lim all scheme min_head i
        → Best best.min_idx
        → Best (compare_delay Fl Lim i best r).0.min_idx
    unfolding compare_delay
    compare_delay-Best i best (r, s) h b = elim (Bool-cases (ltb (delay r) best.min_delay)) [
      | inl e ↦ rw e h
      | inr e ↦ rw e b
    ]

    pub shortest_from-Best :
        (ms : List (Member Fl)) (i : ℕ) (best : Shortest Fl Lim) (s : States)
        → Rest Fl Lim all i ms
        → Best best.min_idx
        → Best (shortest_from Fl Lim scheme min_head i ms best s).0.min_idx
    unfolding shortest_from
    shortest_from-Best [] i best s h b = b
    shortest_from-Best (m ∷ ms) i best s h b =
        let tail = Rest-tail Fl Lim all scheme min_head i m ms h in
        elim (Bool-cases (candidate m.backend scheme min_head)) [
          | inr e ↦ rw (e, shortest_from) (shortest_from-Best ms (i + 1) best s tail b)
          | inl e ↦
              let here = Rest-head Fl Lim all scheme min_head i m ms h e in
              elim (Option-cases m.backend.limiter) [
                | inl n ↦ rw (e, n, shortest_from) here
                | inr (l, n) ↦
                    rw (e, n, shortest_from)
                      (shortest_from-Best ms (i + 1) _ _ tail
                        (compare_delay-Best i best (reserve l s) here b))
              ]
        ]

  -- With finite delays the second loop ends without an index only if there was no candidate.
  module _ (finite : HasFiniteDelays) (scheme : Text) (min_head : ℕ) where
    -- Either an index is held, or nothing is and any delay is shorter.
    abbrev pub IsOpen : Shortest Fl Lim → Type 0
    IsOpen best = (is_nil best.min_idx ≡ false) ⊎ (best.min_delay ≡ max_duration)

    compare_delay-held :
        (i l : ℕ) (best : Shortest Fl Lim) (s : States)
        → IsOpen best
        → is_nil (compare_delay Fl Lim i best (reserve l s)).0.min_idx ≡ false
    unfolding compare_delay
    compare_delay-held i l best s (inl h) =
        elim (Bool-cases (ltb (delay (reserve l s).0) best.min_delay)) [
          | inl e ↦ rw e
          | inr e ↦ rw e h
        ]
    compare_delay-held i l best s (inr h) = ground (arith, finite l s)

    pub shortest_from-held :
        (ms : List (Member Fl)) (i : ℕ) (best : Shortest Fl Lim) (s : States)
        → IsOpen best
        → (is_nil best.min_idx ≡ false) ⊎ (has_candidate scheme min_head ms ≡ true)
        → is_nil (shortest_from Fl Lim scheme min_head i ms best s).0.min_idx ≡ false
    unfolding shortest_from
    shortest_from-held [] i best s o (inl h) = h
    shortest_from-held [] i best s o (inr h) = cc
    shortest_from-held (m ∷ ms) i best s o h =
        elim (Bool-cases (candidate m.backend scheme min_head)) [
          | inr e ↦ rw (e, shortest_from) (shortest_from-held ms (i + 1) best s o (rw e at h))
          | inl e ↦ elim (Option-cases m.backend.limiter) [
            | inl n ↦ rw (e, n, shortest_from)
            | inr (l, n) ↦
                rw (e, n, shortest_from)
                  (let held = compare_delay-held i l best s o in
                    shortest_from-held ms (i + 1) _ _ (inl held) (inl held))
          ]
        ]
