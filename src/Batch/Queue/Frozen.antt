-- ===== src/Batch/Queue/Frozen.antt =====
-- internal/backend/batch.go: a batch that is claimed takes no more requests, whatever happens besides.
use sabre.Common.{
  ℕ, zero, suc, ◌<◌, ◌≡◌, refl, sym, subst, Bool, true, false, List, [], ◌∷◌, ◌++◌, Option, none,
  some, leb, if◌then◌else◌, length, get_elem?, set, Text,
}
use sabre.Rpc.{BatchRequest}
use sabre.Multicall.Decode.{Outcome, ok, refused, panic, ◌>>=◌}
use sabre.Batch.Queue.{
  BatchEntry, Phase, waiting, claimed, taken, Batch, Queue, range_scans, request_copy, find_batch,
  close_dispatch, closed_at, dispatch_if, join_batch, fresh_batch, with_batch, join, add_solo,
  add_request, claim_batch, take_batch, flush_one, flush_heap, flush_all, wake_in, take_in, Event,
  add, wake, take, flush, step,
}
use sabre.Batch.Queue.Open.{IsOpen, IsQueue, find-IsOpen}
use sabre.Batch.Queue.Added.{at_end}

-- The goroutine is behind its claim, or, where `done`, behind its snapshot; a snapshot has these
-- entries.
abbrev pub IsPast : Bool → Phase → List BatchEntry → Type 0
IsPast done waiting es = ⊥
IsPast false claimed es = Unit {0}
IsPast true claimed es = ⊥
IsPast done (taken xs) es = xs ≡ es

module _ (done : Bool) (es : List BatchEntry) where
  -- A batch that is claimed, or has its snapshot, with these entries.
  abbrev pub IsFrozen : Option Batch → Type 0
  IsFrozen none = ⊥
  IsFrozen (some b) = b.entries ≡ es × IsPast done b.phase es

  -- Where the step ends, batch `i` is frozen.
  abbrev pub StaysFrozen : ℕ → Outcome Queue → Type 0
  StaysFrozen i (ok q) = IsFrozen (get_elem? q.heap i)
  StaysFrozen i refused = Unit {0}
  StaysFrozen i panic = Unit {0}

  set-IsFrozen :
      (heap : List Batch) (i k : ℕ) (b c : Batch)
      → get_elem? heap k ≡ some b
      → (IsFrozen (some b) → IsFrozen (some c))
      → IsFrozen (get_elem? heap i)
      → IsFrozen (get_elem? (set heap k c) i)
  set-IsFrozen [] i k b c at h f = f
  set-IsFrozen (x ∷ xs) zero zero b c at h f =
      let same : x ≡ b = cc in h (subst (λ (y : Batch). IsFrozen (some y)) same f)
  set-IsFrozen (x ∷ xs) zero (suc k) b c at h f = f
  set-IsFrozen (x ∷ xs) (suc i) zero b c at h f = f
  set-IsFrozen (x ∷ xs) (suc i) (suc k) b c at h f = set-IsFrozen xs i k b c at h f

  waiting-IsFrozen : (b : Batch) → b.phase ≡ waiting → IsFrozen (some b) → ⊥
  waiting-IsFrozen b e f = subst (λ (p : Phase). IsPast done p es) e f.1

  append-IsFrozen :
      (heap : List Batch) (b : Batch) (i : ℕ)
      → IsFrozen (get_elem? heap i)
      → IsFrozen (get_elem? (heap ++ b ∷ []) i)
  append-IsFrozen [] b i f = elim f [ ]
  append-IsFrozen (x ∷ xs) b zero f = f
  append-IsFrozen (x ∷ xs) b (suc i) f = append-IsFrozen xs b i f

  -- A request joins a batch that is waiting.
  grown-StaysFrozen :
      (full : Bool) (i k : ℕ) (url : Text) (b c : Batch) (q : Queue)
      → get_elem? q.heap k ≡ some b
      → b.phase ≡ waiting
      → IsFrozen (get_elem? q.heap i)
      → StaysFrozen i (dispatch_if full url k c q)
  unfolding dispatch_if closed_at close_dispatch
  grown-StaysFrozen false i k url b c q at w f =
      set-IsFrozen q.heap i k b c at (λ g. absurd (waiting-IsFrozen b w g)) f
  grown-StaysFrozen true i k url b c q at w f = closing c.closed
    where
      closing :
          (shut : Bool)
          → StaysFrozen i
              (closed_at url k q (if shut then panic else ok (record c { closed = true })))
      closing true = tt
      closing false =
          set-IsFrozen q.heap i k b (record c { closed = true }) at
            (λ g. absurd (waiting-IsFrozen b w g)) f

  join_batch-StaysFrozen :
      (max i k : ℕ) (url : Text) (e : BatchEntry) (q : Queue) (o : Option Batch)
      → get_elem? q.heap k ≡ o
      → IsOpen max url o
      → IsFrozen (get_elem? q.heap i)
      → StaysFrozen i (join_batch max url e q k o)
  unfolding join_batch
  join_batch-StaysFrozen max i k url e q none at w f = elim w [ ]
  join_batch-StaysFrozen max i k url e q (some b) at w f =
      grown-StaysFrozen (leb max (length (b.entries ++ e ∷ []))) i k url b
        (record b { entries = b.entries ++ e ∷ [] }) q at w.1 f

  join-StaysFrozen :
      (max i : ℕ) (url : Text) (e : BatchEntry) (q : Queue) (o : Option ℕ)
      → 0 < max
      → IsQueue max q
      → find_batch url q.batches ≡ o
      → IsFrozen (get_elem? q.heap i)
      → StaysFrozen i (join max url e q o)
  unfolding join with_batch
  join-StaysFrozen max i url e q none pos inv n f =
      let fresh = at_end q.heap (fresh_batch url) in
      join_batch-StaysFrozen max i (length q.heap) url e (with_batch url q)
        (get_elem? (with_batch url q).heap (length q.heap)) refl
        (subst (IsOpen max url) (sym fresh) (refl, refl, refl, pos))
        (append-IsFrozen q.heap (fresh_batch url) i f)
  join-StaysFrozen max i url e q (some k) pos inv n f =
      join_batch-StaysFrozen max i k url e q (get_elem? q.heap k) refl
        (find-IsOpen max q.heap url k q.batches inv.open_batches n) f

  add_request-StaysFrozen :
      (max i : ℕ) (url : Text) (req : BatchRequest) (caller : ℕ) (q : Queue)
      → 0 < max
      → IsQueue max q
      → IsFrozen (get_elem? q.heap i)
      → StaysFrozen i (add_request max url req caller q)
  unfolding add_request add_solo
  add_request-StaysFrozen max i url req caller q pos inv f =
      go (range_scans (request_copy req).method)
    where
      e : BatchEntry
      e = record { caller = caller; req = request_copy req }

      go :
          (solo : Bool)
          → StaysFrozen i
              (if solo then ok (add_solo url e q) else join max url e q (find_batch url q.batches))
      go true = append-IsFrozen q.heap _ i f
      go false = join-StaysFrozen max i url e q (find_batch url q.batches) pos inv refl f

  flush_heap-StaysFrozen :
      (i : ℕ) (m : List (Text × ℕ)) (heap : List Batch)
      → IsFrozen (get_elem? heap i)
      → StaysFrozen i (flush_heap m heap >>= λ h. ok (record { batches = []; heap = h }))
  unfolding flush_heap flush_one close_dispatch
  flush_heap-StaysFrozen i [] heap f = f
  flush_heap-StaysFrozen i ((url, k) ∷ m) heap f =
      go (get_elem? heap k) refl (λ h. flush_heap-StaysFrozen i m h)
    where
      rest : List Batch → Outcome Queue
      rest h = flush_heap m h >>= λ h. ok (record { batches = []; heap = h })

      closing :
          (shut : Bool) (c : Batch)
          → StaysFrozen i (rest (set heap k c))
          → StaysFrozen i (
              (((if shut then panic else ok c) >>= λ c. ok (set heap k c)) >>= λ h. flush_heap m h)
              >>= λ h. ok (record { batches = []; heap = h }))
      closing true c g = tt
      closing false c g = g

      go :
          (x : Option Batch)
          → get_elem? heap k ≡ x
          → ((h : List Batch) → IsFrozen (get_elem? h i) → StaysFrozen i (rest h))
          → StaysFrozen i (
              (flush_one k x heap >>= λ h. flush_heap m h) >>= λ h.
              ok (record { batches = []; heap = h }))
      go none at rec = tt
      go (some b) at rec =
          let c : Batch = record b { closed = true } in
          closing b.closed c (rec (set heap k c) (set-IsFrozen heap i k b c at (λ g. g) f))

  wake_in-StaysFrozen :
      (i k : ℕ) (b : Batch) (q : Queue) (p : Phase)
      → get_elem? q.heap k ≡ some b
      → b.phase ≡ p
      → IsFrozen (get_elem? q.heap i)
      → StaysFrozen i (ok (wake_in p k b q))
  unfolding wake_in claim_batch
  wake_in-StaysFrozen i k b q waiting at e f =
      set-IsFrozen q.heap i k b (record b { phase = claimed }) at
        (λ g. absurd (waiting-IsFrozen b e g)) f
  wake_in-StaysFrozen i k b q claimed at e f = f
  wake_in-StaysFrozen i k b q (taken xs) at e f = f

  take_in-StaysFrozen :
      (i k : ℕ) (b : Batch) (q : Queue) (p : Phase)
      → get_elem? q.heap k ≡ some b
      → IsFrozen (get_elem? q.heap i)
      → StaysFrozen i (ok (take_in p k b q))
  unfolding take_in take_batch
  take_in-StaysFrozen i k b q waiting at f = f
  take_in-StaysFrozen i k b q claimed at f =
      set-IsFrozen q.heap i k b (record b { phase = taken b.entries }) at (λ g. (g.0, g.0)) f
  take_in-StaysFrozen i k b q (taken xs) at f = f

  -- Every step leaves a frozen batch frozen.
  pub step-StaysFrozen :
      (max i : ℕ) (e : Event) (q : Queue)
      → 0 < max
      → IsQueue max q
      → IsFrozen (get_elem? q.heap i)
      → StaysFrozen i (step max e q)
  unfolding step flush_all
  step-StaysFrozen max i (add url req caller) q pos inv f =
      add_request-StaysFrozen max i url req caller q pos inv f
  step-StaysFrozen max i flush q pos inv f = flush_heap-StaysFrozen i q.batches q.heap f
  step-StaysFrozen max i (wake k) q pos inv f = go (get_elem? q.heap k) refl
    where
      go :
          (o : Option Batch)
          → get_elem? q.heap k ≡ o
          → StaysFrozen i
              (elim o as (λ _. Outcome Queue) [ none ↦ ok q | some b ↦ ok (wake_in b.phase k b q) ])
      go none at = f
      go (some b) at = wake_in-StaysFrozen i k b q b.phase at refl f
  step-StaysFrozen max i (take k) q pos inv f = go (get_elem? q.heap k) refl
    where
      go :
          (o : Option Batch)
          → get_elem? q.heap k ≡ o
          → StaysFrozen i
              (elim o as (λ _. Outcome Queue) [ none ↦ ok q | some b ↦ ok (take_in b.phase k b q) ])
      go none at = f
      go (some b) at = take_in-StaysFrozen i k b q b.phase at f
