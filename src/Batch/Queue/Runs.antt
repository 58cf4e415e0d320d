-- ===== src/Batch/Queue/Runs.antt =====
-- internal/backend/batch.go: any interleaving of callers, timers, snapshots and flushes.
use sabre.Common.{
  ℕ, ◌+◌, ◌<◌, ◌≡◌, refl, subst, ◌∙◌, List, [], ◌∷◌, Option, none, some, arith, ◌==◌, if◌then◌else◌,
  get_elem?,
}
use sabre.Multicall.Decode.{Outcome, ok, refused, panic, ◌>>=◌}
use sabre.Batch.Queue.{
  Phase, waiting, claimed, taken, Batch, Queue, claim_batch, take_batch, wake_in, take_in,
  flush_heap, flush_all, Event, add, wake, take, flush, step, steps,
}
use sabre.Batch.Queue.Open.{IsQueue}
use sabre.Batch.Queue.Added.{Keeps, add_request-Keeps}
use sabre.Batch.Queue.Kept.{KeepsHeap, claimed-IsQueue, taken-IsQueue, flush_heap-Keeps}
use sabre.Batch.Queue.Standing.{standing, Gains, add_request-Gains, flush_heap-Gains, standing-same}

abbrev pub no_batches : Queue
no_batches = record { batches = []; heap = [] }

-- How many requests a caller adds.
unfoldable pub asks : ℕ → Event → ℕ
asks t (add url req caller) = if caller == t then 1 else 0
asks t (wake i) = 0
asks t (take i) = 0
asks t flush = 0

unfoldable pub asked : ℕ → List Event → ℕ
unfolding asks
asked t [] = 0
asked t (e ∷ es) = asks t e + asked t es

-- Without a panic, in a queue as it should be, in which caller `t` stands `n` times.
abbrev pub Collected : ℕ → ℕ → ℕ → Outcome Queue → Type 0
Collected max t n (ok q) = IsQueue max q × standing t q.heap ≡ n
Collected max t n refused = ⊥
Collected max t n panic = ⊥

both :
    (max t n k : ℕ) (q : Queue) (o : Outcome Queue)
    → n + standing t q.heap ≡ k
    → Keeps max o
    → Gains t n q o
    → Collected max t k o
both max t n k q (ok r) e h g = (h, g ∙ e)
both max t n k q refused e h g = elim h [ ]
both max t n k q panic e h g = elim h [ ]

wake_in-Collected :
    (max t i : ℕ) (b : Batch) (q : Queue) (p : Phase)
    → IsQueue max q
    → get_elem? q.heap i ≡ some b
    → Collected max t (standing t q.heap) (ok (wake_in p i b q))
unfolding wake_in claim_batch
wake_in-Collected max t i b q waiting inv at = (
  claimed-IsQueue max i b q inv at,
  standing-same t q.heap i b (record b { phase = claimed }) at refl,
)
wake_in-Collected max t i b q claimed inv at = (inv, refl)
wake_in-Collected max t i b q (taken es) inv at = (inv, refl)

take_in-Collected :
    (max t i : ℕ) (b : Batch) (q : Queue) (p : Phase)
    → IsQueue max q
    → get_elem? q.heap i ≡ some b
    → b.phase ≡ p
    → Collected max t (standing t q.heap) (ok (take_in p i b q))
unfolding take_in take_batch
take_in-Collected max t i b q waiting inv at e = (inv, refl)
take_in-Collected max t i b q claimed inv at e = (
  taken-IsQueue max i b q inv at e,
  standing-same t q.heap i b (record b { phase = taken b.entries }) at refl,
)
take_in-Collected max t i b q (taken es) inv at e = (inv, refl)

flush_all-Keeps : (max : ℕ) (q : Queue) → IsQueue max q → Keeps max (flush_all q)
unfolding flush_all
flush_all-Keeps max q inv =
    go (flush_heap q.batches q.heap)
      (flush_heap-Keeps max q.batches q.heap inv.open_batches inv.sound)
  where
    go :
        (o : Outcome (List Batch))
        → KeepsHeap max o
        → Keeps max (o >>= λ h. ok (record { batches = []; heap = h }))
    go (ok h) k = record { open_batches = tt; sound = k }
    go refused k = elim k [ ]
    go panic k = elim k [ ]

pub step-Collected :
    (max t : ℕ) (e : Event) (q : Queue)
    → 0 < max
    → IsQueue max q
    → Collected max t (asks t e + standing t q.heap) (step max e q)
unfolding step asks
step-Collected max t (add url req caller) q pos inv =
    both max t _ _ q _ refl (add_request-Keeps max url req caller q pos inv)
      (add_request-Gains t max url req caller q)
step-Collected max t (wake i) q pos inv = go (get_elem? q.heap i) refl
  where
    go :
        (o : Option Batch)
        → get_elem? q.heap i ≡ o
        → Collected max t
            (0 + standing t q.heap)
            (elim o as (λ _. Outcome Queue) [ none ↦ ok q | some b ↦ ok (wake_in b.phase i b q) ])
    go none at = (inv, omega arith)
    go (some b) at =
        let h = wake_in-Collected max t i b q b.phase inv at in (h.0, omega (arith, h.1))
step-Collected max t (take i) q pos inv = go (get_elem? q.heap i) refl
  where
    go :
        (o : Option Batch)
        → get_elem? q.heap i ≡ o
        → Collected max t
            (0 + standing t q.heap)
            (elim o as (λ _. Outcome Queue) [ none ↦ ok q | some b ↦ ok (take_in b.phase i b q) ])
    go none at = (inv, omega arith)
    go (some b) at =
        let h = take_in-Collected max t i b q b.phase inv at refl in (h.0, omega (arith, h.1))
step-Collected max t flush q pos inv =
    both max t 0 _ q (flush_all q) refl (flush_all-Keeps max q inv)
      (flush_heap-Gains t q.batches q.heap q refl)

steps-from :
    (max t : ℕ) (es : List Event) (q : Queue)
    → 0 < max
    → IsQueue max q
    → Collected max t (asked t es + standing t q.heap) (steps max es q)
unfolding steps asked
steps-from max t [] q pos inv = (inv, omega arith)
steps-from max t (e ∷ es) q pos inv =
    go (step max e q) (step-Collected max t e q pos inv) (λ r. steps-from max t es r pos)
  where
    more : (o : Outcome Queue) (m n : ℕ) → m ≡ n → Collected max t m o → Collected max t n o
    more o m n e h = subst (λ (k : ℕ). Collected max t k o) e h

    go :
        (o : Outcome Queue)
        → Collected max t (asks t e + standing t q.heap) o
        → ((r : Queue)
            → IsQueue max r
            → Collected max t (asked t es + standing t r.heap) (steps max es r))
        → Collected max t (asks t e + asked t es + standing t q.heap) (o >>= steps max es)
    go (ok r) h rec =
        more (steps max es r) (asked t es + standing t r.heap)
          (asks t e + asked t es + standing t q.heap) (omega (arith, h.1)) (rec r h.0)
    go refused h rec = elim h [ ]
    go panic h rec = elim h [ ]

-- From a processor without batches, with room for at least one request in a batch, any sequence of added
-- requests, woken and claimed batches, snapshots and flushes ends without a panic (no dispatch channel is
-- closed twice); then each url has at most one batch in the map, which is not dispatched, not claimed and
-- not full, no batch is above the maximum, every snapshot holds all entries of its batch, so that none
-- joins after it, and each caller stands in the batches exactly as often as it added a request.
pub steps-Collected :
    (max t : ℕ) (es : List Event) → 0 < max → Collected max t (asked t es) (steps max es no_batches)
unfolding standing
steps-Collected max t es pos =
    go (steps max es no_batches)
      (steps-from max t es no_batches pos (record { open_batches = tt; sound = tt }))
  where
    go : (o : Outcome Queue) → Collected max t (asked t es + 0) o → Collected max t (asked t es) o
    go (ok q) h = (h.0, omega (arith, h.1))
    go refused h = elim h [ ]
    go panic h = elim h [ ]
