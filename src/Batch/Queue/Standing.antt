-- ===== src/Batch/Queue/Standing.antt =====
-- internal/backend/batch.go: how often the requests of a caller stand in the batches.
use sabre.Common.{
  ℕ, zero, suc, ◌+◌, ◌≡◌, refl, ap, subst, ◌∙◌, Bool, true, false, List, [], ◌∷◌, ◌++◌, Option,
  none, some, arith, leb, ◌==◌, if◌then◌else◌, length, get_elem?, set, Text,
}
use sabre.Rpc.{BatchRequest}
use sabre.Multicall.Decode.{Outcome, ok, refused, panic, ◌>>=◌}
use sabre.Batch.Queue.{
  BatchEntry, waiting, Batch, Queue, range_scans, request_copy, find_batch, close_dispatch,
  closed_at, dispatch_if, join_batch, fresh_batch, with_batch, join, add_solo, add_request,
  flush_one, flush_heap,
}

module _ (t : ℕ) where
  unfoldable pub in_entries : List BatchEntry → ℕ
  in_entries [] = 0
  in_entries (e ∷ es) = (if e.caller == t then 1 else 0) + in_entries es

  -- The requests of caller `t` in all batches that were made.
  unfoldable pub standing : List Batch → ℕ
  unfolding in_entries
  standing [] = 0
  standing (b ∷ bs) = in_entries b.entries + standing bs

  in_entries-append :
      (xs ys : List BatchEntry) → in_entries (xs ++ ys) ≡ in_entries xs + in_entries ys
  unfolding in_entries
  in_entries-append [] ys = omega arith
  in_entries-append (x ∷ xs) ys = omega (arith, in_entries-append xs ys)

  standing-append : (xs ys : List Batch) → standing (xs ++ ys) ≡ standing xs + standing ys
  unfolding standing
  standing-append [] ys = omega arith
  standing-append (x ∷ xs) ys = omega (arith, standing-append xs ys)

  standing-set :
      (heap : List Batch) (i : ℕ) (b c : Batch)
      → get_elem? heap i ≡ some b
      → standing (set heap i c) + in_entries b.entries ≡ standing heap + in_entries c.entries
  unfolding standing
  standing-set [] i b c e = absurd (ground arith)
  standing-set (x ∷ xs) zero b c e =
      let same : x ≡ b = cc in omega (arith, ap (λ (y : Batch). in_entries y.entries) same)
  standing-set (x ∷ xs) (suc i) b c e = omega (arith, standing-set xs i b c e)

  -- Where the step ends, this many requests of the caller came in.
  abbrev pub Gains : ℕ → Queue → Outcome Queue → Type 0
  Gains n q (ok r) = standing r.heap ≡ n + standing q.heap
  Gains n q refused = Unit {0}
  Gains n q panic = Unit {0}

  dispatch_if-Gains :
      (full : Bool) (i : ℕ) (url : Text) (e : BatchEntry) (b : Batch) (q : Queue)
      → get_elem? q.heap i ≡ some b
      → Gains
          (in_entries (e ∷ []))
          q
          (dispatch_if full url i (record b { entries = b.entries ++ e ∷ [] }) q)
  unfolding dispatch_if close_dispatch closed_at
  dispatch_if-Gains false i url e b q at =
      let c : Batch = record b { entries = b.entries ++ e ∷ [] } in
      omega (arith, standing-set q.heap i b c at, in_entries-append b.entries (e ∷ []))
  dispatch_if-Gains true i url e b q at = closing b.closed
    where
      c : Batch
      c = record b { entries = b.entries ++ e ∷ []; closed = true }

      closing :
          (shut : Bool)
          → Gains (in_entries (e ∷ [])) q (closed_at url i q (if shut then panic else ok c))
      closing true = tt
      closing false =
          omega (arith, standing-set q.heap i b c at, in_entries-append b.entries (e ∷ []))

  join_batch-Gains :
      (max : ℕ) (url : Text) (e : BatchEntry) (q : Queue) (i : ℕ) (o : Option Batch)
      → get_elem? q.heap i ≡ o
      → Gains (in_entries (e ∷ [])) q (join_batch max url e q i o)
  unfolding join_batch
  join_batch-Gains max url e q i none at = tt
  join_batch-Gains max url e q i (some b) at =
      dispatch_if-Gains (leb max (length (b.entries ++ e ∷ []))) i url e b q at

  join-Gains :
      (max : ℕ) (url : Text) (e : BatchEntry) (q : Queue) (o : Option ℕ)
      → Gains (in_entries (e ∷ [])) q (join max url e q o)
  unfolding join with_batch standing in_entries
  join-Gains max url e q none =
      Gains-from (with_batch url q)
        (join_batch max url e (with_batch url q) (length q.heap)
          (get_elem? (with_batch url q).heap (length q.heap)))
        (omega (arith, standing-append q.heap (fresh_batch url ∷ [])))
        (join_batch-Gains max url e (with_batch url q) (length q.heap)
          (get_elem? (with_batch url q).heap (length q.heap)) refl)
    where
      Gains-from :
          (p : Queue) (o : Outcome Queue)
          → standing p.heap ≡ standing q.heap
          → Gains (in_entries (e ∷ [])) p o
          → Gains (in_entries (e ∷ [])) q o
      Gains-from p (ok r) s g = omega (arith, s, g)
      Gains-from p refused s g = tt
      Gains-from p panic s g = tt
  join-Gains max url e q (some i) = join_batch-Gains max url e q i (get_elem? q.heap i) refl

  pub add_request-Gains :
      (max : ℕ) (url : Text) (req : BatchRequest) (caller : ℕ) (q : Queue)
      → Gains (if caller == t then 1 else 0) q (add_request max url req caller q)
  unfolding add_request add_solo in_entries standing
  add_request-Gains max url req caller q = go (range_scans (request_copy req).method)
    where
      e : BatchEntry
      e = record { caller = caller; req = request_copy req }

      one : in_entries (e ∷ []) ≡ (if caller == t then 1 else 0)
      one = omega arith

      go :
          (solo : Bool)
          → Gains
              (if caller == t then 1 else 0)
              q
              (if solo then ok (add_solo url e q) else join max url e q (find_batch url q.batches))
      go true = omega (
        arith,
        standing-append q.heap
            ((record { backend_url = url; entries = e ∷ []; closed = true; phase = waiting }) ∷ []),
      )
      go false =
          subst (λ (n : ℕ). Gains n q (join max url e q (find_batch url q.batches))) one
            (join-Gains max url e q (find_batch url q.batches))

  -- A batch that changes without its entries.
  pub standing-same :
      (heap : List Batch) (i : ℕ) (b c : Batch)
      → get_elem? heap i ≡ some b
      → c.entries ≡ b.entries
      → standing (set heap i c) ≡ standing heap
  standing-same heap i b c at e = omega (arith, standing-set heap i b c at, ap in_entries e)

  pub flush_heap-Gains :
      (m : List (Text × ℕ)) (heap : List Batch) (q : Queue)
      → standing heap ≡ standing q.heap
      → Gains 0 q (flush_heap m heap >>= λ h. ok (record { batches = []; heap = h }))
  unfolding flush_heap flush_one close_dispatch
  flush_heap-Gains [] heap q e = omega (arith, e)
  flush_heap-Gains ((url, i) ∷ m) heap q e =
      go (get_elem? heap i) refl (λ h. flush_heap-Gains m h q)
    where
      rest : List Batch → Outcome Queue
      rest h = flush_heap m h >>= λ h. ok (record { batches = []; heap = h })

      closing :
          (shut : Bool) (c : Batch)
          → Gains 0 q (rest (set heap i c))
          → Gains 0 q (
              (((if shut then panic else ok c) >>= λ c. ok (set heap i c)) >>= λ h. flush_heap m h)
              >>= λ h. ok (record { batches = []; heap = h }))
      closing true c g = tt
      closing false c g = g

      go :
          (x : Option Batch)
          → get_elem? heap i ≡ x
          → ((h : List Batch) → standing h ≡ standing q.heap → Gains 0 q (rest h))
          → Gains 0 q (
              (flush_one i x heap >>= λ h. flush_heap m h) >>= λ h.
              ok (record { batches = []; heap = h }))
      go none at rec = tt
      go (some b) at rec =
          let c : Batch = record b { closed = true } in
          closing b.closed c (rec (set heap i c) (standing-same heap i b c at refl ∙ e))
