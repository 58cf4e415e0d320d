-- ===== src/Batch/Queue/Live.antt =====
-- internal/backend/batch.go: what stands in a batch when its goroutine claims it is what its snapshot holds.
use sabre.Common.{
  ℕ, ◌<◌, ◌≡◌, refl, sym, subst, Bool, true, false, List, [], ◌∷◌, ◌++◌, Option, none, some,
  get_elem?, get_elem?-All,
}
use sabre.Multicall.Decode.{Outcome, ok, refused, panic, ◌>>=◌}
use sabre.Batch.Queue.{
  BatchEntry, Phase, waiting, claimed, taken, Batch, Queue, claim_batch, take_batch, wake_in,
  take_in, Event, wake, take, step, steps,
}
use sabre.Batch.Queue.Open.{IsQueue, IsSound, IsSnapshot, get-set_at}
use sabre.Batch.Queue.Kept.{claimed-IsQueue}
use sabre.Batch.Queue.Frozen.{IsPast, IsFrozen, StaysFrozen, step-StaysFrozen}
use sabre.Batch.Queue.Runs.{Collected, step-Collected}

-- Batch `i` has a snapshot with these entries, and holds them.
abbrev pub IsTaken : ℕ → List BatchEntry → Outcome Queue → Type 0
IsTaken i es (ok q) = IsFrozen true es (get_elem? q.heap i)
IsTaken i es refused = ⊥
IsTaken i es panic = ⊥

-- The step ends in a queue as it should be, where batch `i` is frozen.
abbrev Holds : Bool → ℕ → ℕ → List BatchEntry → Outcome Queue → Type 0
Holds done max i es (ok q) = IsQueue max q × IsFrozen done es (get_elem? q.heap i)
Holds done max i es refused = ⊥
Holds done max i es panic = ⊥

both :
    (done : Bool) (max t n i : ℕ) (es : List BatchEntry) (o : Outcome Queue)
    → Collected max t n o
    → StaysFrozen done es i o
    → Holds done max i es o
both done max t n i es (ok q) h f = (h.0, f)
both done max t n i es refused h f = elim h [ ]
both done max t n i es panic h f = elim h [ ]

step-Holds :
    (done : Bool) (max i : ℕ) (es : List BatchEntry) (e : Event) (q : Queue)
    → 0 < max
    → IsQueue max q
    → IsFrozen done es (get_elem? q.heap i)
    → Holds done max i es (step max e q)
step-Holds done max i es e q pos inv f =
    both done max 0 _ i es (step max e q) (step-Collected max 0 e q pos inv)
      (step-StaysFrozen done es max i e q pos inv f)

-- The claim of batch `i`, or one before, freezes it.
wake-Holds :
    (max i : ℕ) (b : Batch) (q : Queue) (p : Phase)
    → IsQueue max q
    → get_elem? q.heap i ≡ some b
    → b.phase ≡ p
    → Holds false max i b.entries (ok (wake_in p i b q))
unfolding wake_in claim_batch
wake-Holds max i b q waiting inv at e = (
  claimed-IsQueue max i b q inv at,
  subst (IsFrozen false b.entries) (sym (get-set_at q.heap i b (record b { phase = claimed }) at))
      (refl, tt),
)
wake-Holds max i b q claimed inv at e = (
  inv,
  subst (IsFrozen false b.entries) (sym at)
      (refl, subst (λ (x : Phase). IsPast false x b.entries) (sym e) tt),
)
wake-Holds max i b q (taken xs) inv at e = (
  inv,
  subst (IsFrozen false b.entries) (sym at) (
    refl,
    subst (λ (x : Phase). IsPast false x b.entries) (sym e)
        (subst (λ (p : Phase). IsSnapshot p b.entries) e
          (get_elem?-All (IsSound max) q.heap i b inv.sound at).1),
  ),
)

-- The snapshot of a frozen batch.
take-IsTaken :
    (i : ℕ) (es : List BatchEntry) (b : Batch) (q : Queue) (p : Phase)
    → get_elem? q.heap i ≡ some b
    → b.phase ≡ p
    → b.entries ≡ es × IsPast false p es
    → IsTaken i es (ok (take_in p i b q))
unfolding take_in take_batch
take-IsTaken i es b q waiting at e f = absurd f.1
take-IsTaken i es b q claimed at e f =
    subst (IsFrozen true es) (sym (get-set_at q.heap i b (record b { phase = taken b.entries }) at))
      (f.0, f.0)
take-IsTaken i es b q (taken xs) at e f =
    subst (IsFrozen true es) (sym at) (f.0, subst (λ (x : Phase). IsPast true x es) (sym e) f.1)

take-Holds :
    (max i : ℕ) (es : List BatchEntry) (q : Queue)
    → 0 < max
    → IsQueue max q
    → IsFrozen false es (get_elem? q.heap i)
    → Holds true max i es (step max (take i) q)
unfolding step
take-Holds max i es q pos inv f =
    go _ (get_elem? q.heap i) refl f (step-Collected max 0 (take i) q pos inv)
  where
    ends :
        (n : ℕ) (r : Queue)
        → Collected max 0 n (ok r)
        → IsTaken i es (ok r)
        → Holds true max i es (ok r)
    ends n r h t = (h.0, t)

    go :
        (n : ℕ) (o : Option Batch)
        → get_elem? q.heap i ≡ o
        → IsFrozen false es o
        → Collected max 0 n
            (elim o as (λ _. Outcome Queue) [ none ↦ ok q | some b ↦ ok (take_in b.phase i b q) ])
        → Holds true max i es
            (elim o as (λ _. Outcome Queue) [ none ↦ ok q | some b ↦ ok (take_in b.phase i b q) ])
    go n none at f h = elim f [ ]
    go n (some b) at f h = ends n _ h (take-IsTaken i es b q b.phase at refl f)

-- The rest of a run, behind a step that ends with the batch frozen.
rest-IsTaken :
    (done : Bool) (max i : ℕ) (es : List BatchEntry) (more : List Event) (o : Outcome Queue)
    → Holds done max i es o
    → ((r : Queue)
        → IsQueue max r
        → IsFrozen done es (get_elem? r.heap i)
        → IsTaken i es (steps max more r))
    → IsTaken i es (o >>= steps max more)
rest-IsTaken done max i es more (ok r) h rec = rec r h.0 h.1
rest-IsTaken done max i es more refused h rec = elim h [ ]
rest-IsTaken done max i es more panic h rec = elim h [ ]

later-IsTaken :
    (max i : ℕ) (es : List BatchEntry) (later : List Event) (q : Queue)
    → 0 < max
    → IsQueue max q
    → IsFrozen true es (get_elem? q.heap i)
    → IsTaken i es (steps max later q)
unfolding steps
later-IsTaken max i es [] q pos inv f = f
later-IsTaken max i es (e ∷ later) q pos inv f =
    rest-IsTaken true max i es later (step max e q) (step-Holds true max i es e q pos inv f)
      (λ r. later-IsTaken max i es later r pos)

between-IsTaken :
    (max i : ℕ) (es : List BatchEntry) (between later : List Event) (q : Queue)
    → 0 < max
    → IsQueue max q
    → IsFrozen false es (get_elem? q.heap i)
    → IsTaken i es (steps max (between ++ take i ∷ later) q)
unfolding steps
between-IsTaken max i es [] later q pos inv f =
    rest-IsTaken true max i es later (step max (take i) q) (take-Holds max i es q pos inv f)
      (λ r. later-IsTaken max i es later r pos)
between-IsTaken max i es (e ∷ between) later q pos inv f =
    rest-IsTaken false max i es (between ++ take i ∷ later) (step max e q)
      (step-Holds false max i es e q pos inv f) (λ r. between-IsTaken max i es between later r pos)

-- In a queue as every run from an empty processor leaves it, with room for at least one request in a
-- batch, the goroutine of a batch that exists wakes; then anything happens (requests come in, other
-- batches are claimed, taken, dispatched and flushed) until the goroutine takes its snapshot, and
-- anything after that. The run ends without a panic, and both the batch and its snapshot hold exactly
-- the entries that the batch had when the goroutine woke.
pub steps-IsTaken :
    (max i : ℕ) (b : Batch) (between later : List Event) (q : Queue)
    → 0 < max
    → IsQueue max q
    → get_elem? q.heap i ≡ some b
    → IsTaken i b.entries (steps max (wake i ∷ between ++ take i ∷ later) q)
unfolding steps step
steps-IsTaken max i b between later q pos inv at =
    let woken : IsTaken i b.entries
        (steps max (between ++ take i ∷ later) (wake_in b.phase i b q)) =
      rest-IsTaken false max i b.entries (between ++ take i ∷ later) (ok (wake_in b.phase i b q))
        (wake-Holds max i b q b.phase inv at refl)
        (λ r. between-IsTaken max i b.entries between later r pos) in
    rw (at, step) woken
