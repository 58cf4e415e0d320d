-- ===== src/Backend/Observe.antt =====
-- internal/backend/backend.go: ObserveHead's compare-and-swap loop, run by several goroutines at
-- once. A schedule names the goroutine that makes each step.
use sabre.Common.{
  ℕ, zero, suc, ◌<◌, ◌≤◌, ◌≡◌, List, [], ◌∷◌, arith, leb, ◌==◌, if◌then◌else◌, Bool-cases, inl, inr,
  leb→le, leb_false→lt,
}

-- Before cur := b.Head.Load(), behind it, and returned.
pub data Thread : Type 0 where
  ready : ℕ → Thread
  loaded : ℕ → ℕ → Thread
  finished : ℕ → Thread

-- One step of a goroutine at the head h.
unfoldable pub thread_step : Thread → ℕ → Thread × ℕ
thread_step (ready n) h = (loaded n h, h)
thread_step (loaded n cur) h =
    if leb n cur then (finished n, h) else if cur == h then (finished n, n) else (ready n, h)
thread_step (finished n) h = (finished n, h)

unfoldable pub step_at : ℕ → List Thread → ℕ → List Thread × ℕ
unfolding thread_step
step_at i [] h = ([], h)
step_at zero (t ∷ ts) h = ((thread_step t h).0 ∷ ts, (thread_step t h).1)
step_at (suc i) (t ∷ ts) h = (t ∷ (step_at i ts h).0, (step_at i ts h).1)

unfoldable pub run : List ℕ → List Thread → ℕ → List Thread × ℕ
unfolding step_at
run [] ts h = (ts, h)
run (i ∷ is) ts h = run is (step_at i ts h).0 (step_at i ts h).1

-- What has been read or recorded is not above the head.
abbrev IsSettledOne : ℕ → Thread → Type 0
IsSettledOne h (ready n) = Unit {0}
IsSettledOne h (loaded n cur) = cur ≤ h
IsSettledOne h (finished n) = n ≤ h

abbrev pub AreSettled : ℕ → List Thread → Type 0
AreSettled h [] = Unit {0}
AreSettled h (t ∷ ts) = IsSettledOne h t × AreSettled h ts

IsSettledOne-mono : (h k : ℕ) (t : Thread) → h ≤ k → IsSettledOne h t → IsSettledOne k t
IsSettledOne-mono h k (ready n) u v = tt
IsSettledOne-mono h k (loaded n cur) u v = omega arith
IsSettledOne-mono h k (finished n) u v = omega arith

AreSettled-mono : (h k : ℕ) (ts : List Thread) → h ≤ k → AreSettled h ts → AreSettled k ts
AreSettled-mono h k [] u v = tt
AreSettled-mono h k (t ∷ ts) u v = (IsSettledOne-mono h k t u v.0, AreSettled-mono h k ts u v.1)

thread_step-settled :
    (t : Thread) (h : ℕ)
    → IsSettledOne h t
    → (h ≤ (thread_step t h).1) × IsSettledOne (thread_step t h).1 (thread_step t h).0
unfolding thread_step
thread_step-settled (ready n) h v = (omega arith, omega arith)
thread_step-settled (loaded n cur) h v = elim (Bool-cases (leb n cur)) [
  | inl e ↦ rw e (let le : n ≤ cur = leb→le n cur e in (omega arith, omega arith))
  | inr e ↦
      let lt : cur < n = leb_false→lt n cur e in
      rw e (elim (Bool-cases (cur == h)) [
        | inl f ↦ let same : cur ≡ h = ground arith in rw f (omega arith, omega arith)
        | inr f ↦ rw f (omega arith, tt)
      ])
]
thread_step-settled (finished n) h v = (omega arith, v)

step_at-settled :
    (i : ℕ) (ts : List Thread) (h : ℕ)
    → AreSettled h ts
    → (h ≤ (step_at i ts h).1) × AreSettled (step_at i ts h).1 (step_at i ts h).0
unfolding step_at
step_at-settled i [] h v = (omega arith, tt)
step_at-settled zero (t ∷ ts) h v =
    let one = thread_step-settled t h v.0 in
    (one.0, (one.1, AreSettled-mono h (thread_step t h).1 ts one.0 v.1))
step_at-settled (suc i) (t ∷ ts) h v =
    let rest = step_at-settled i ts h v.1 in
    (rest.0, (IsSettledOne-mono h (step_at i ts h).1 t rest.0 v.0, rest.1))

-- However the steps of concurrent ObserveHead calls interleave, the head never falls, and a call
-- that has returned leaves the head at no less than what it observed.
pub run-settled :
    (schedule : List ℕ) (ts : List Thread) (h : ℕ)
    → AreSettled h ts
    → (h ≤ (run schedule ts h).1) × AreSettled (run schedule ts h).1 (run schedule ts h).0
unfolding run
run-settled [] ts h v = (omega arith, v)
run-settled (i ∷ is) ts h v =
    let one = step_at-settled i ts h v in
    let rest = run-settled is (step_at i ts h).0 (step_at i ts h).1 one.1 in
    (omega (arith, one.0, rest.0), rest.1)
