-- ===== src/Batch/Queue/Kept.antt =====
-- internal/backend/batch.go: the claim of a batch, its snapshot and FlushAll keep the open batches and the
-- snapshots.
use sabre.Common.{
  ℕ, ◌≡◌, ◌⊎◌, inl, inr, refl, sym, subst, ◌∙◌, true, false, List, [], ◌∷◌, Option, none, some,
  arith, ==_iff, if◌then◌else◌, get_elem?, set, Text, All, set-All, get_elem?-All, Bool-cases,
}
use sabre.Multicall.Decode.{Outcome, ok, refused, panic, ◌>>=◌}
use sabre.Batch.Queue.{
  waiting, claimed, taken, Batch, Queue, find_batch, delete_batch, close_dispatch, is_batch,
  claim_batch, take_batch, flush_one, flush_heap,
}
use sabre.Batch.Queue.Open.{
  IsOpen, IsSound, AreOpen, IsQueue, Among, Lacks-Among, AreOpen-set, AreOpen-delete, Among-find,
}

pub claimed-IsQueue :
    (max i : ℕ) (b : Batch) (q : Queue)
    → IsQueue max q
    → get_elem? q.heap i ≡ some b
    → IsQueue max (claim_batch i b q)
unfolding claim_batch is_batch
claimed-IsQueue max i b q inv at =
    go (find_batch b.backend_url q.batches) refl
      (Bool-cases (is_batch (find_batch b.backend_url q.batches) i))
  where
    url : Text
    url = b.backend_url

    c : Batch
    c = record b { phase = claimed }

    sound : All (IsSound max) (set q.heap i c)
    sound =
        set-All (IsSound max) q.heap i c
          ((get_elem?-All (IsSound max) q.heap i b inv.sound at).0, tt) inv.sound

    go :
        (o : Option ℕ)
        → find_batch url q.batches ≡ o
        → (is_batch o i ≡ true) ⊎ (is_batch o i ≡ false)
        → IsQueue max (record {
          batches = if is_batch o i then delete_batch url q.batches else q.batches;
          heap = set q.heap i c;
        })
    go o f (inl y) =
        let gone = AreOpen-delete max q.heap url q.batches inv.open_batches in
        let kept : IsQueue max
            (record { batches = delete_batch url q.batches; heap = set q.heap i c }) =
          record {
            open_batches =
                AreOpen-set max q.heap i b c (delete_batch url q.batches) at
                  (λ k a p.
                    absurd (Lacks-Among url k i (delete_batch url q.batches) gone.1 a (sym p.2)))
                  gone.0;
            sound = sound;
          } in
        rw y kept
    go o f (inr n) =
        let absent : (k : Text) → Among k i q.batches → IsOpen max k (some b) → ⊥ = λ k a p.
          let there : find_batch url q.batches ≡ some i =
            subst (λ (l : Text). find_batch l q.batches ≡ some i) (sym p.2)
              (Among-find max q.heap k i q.batches inv.open_batches a) in
          let y : is_batch o i ≡ true =
            subst (λ (x : Option ℕ). is_batch x i ≡ true) (sym there ∙ f) ((==_iff i i).1 refl) in
          absurd (ground arith) in
        let kept : IsQueue max (record { batches = q.batches; heap = set q.heap i c }) = record {
          open_batches =
              AreOpen-set max q.heap i b c q.batches at (λ k a p. absurd (absent k a p))
                inv.open_batches;
          sound = sound;
        } in
        rw n kept

pub taken-IsQueue :
    (max i : ℕ) (b : Batch) (q : Queue)
    → IsQueue max q
    → get_elem? q.heap i ≡ some b
    → b.phase ≡ claimed
    → IsQueue max (take_batch i b q)
unfolding take_batch
taken-IsQueue max i b q inv at e =
    let c : Batch = record b { phase = taken b.entries } in
    record {
      open_batches =
          AreOpen-set max q.heap i b c q.batches at
            (λ k a p. let z : claimed ≡ waiting = sym e ∙ p.1 in absurd (ground arith))
            inv.open_batches;
      sound =
          set-All (IsSound max) q.heap i c
            ((get_elem?-All (IsSound max) q.heap i b inv.sound at).0, refl) inv.sound;
    }

-- The heap that a flush leaves.
abbrev pub KeepsHeap : ℕ → Outcome (List Batch) → Type 0
KeepsHeap max (ok heap) = All (IsSound max) heap
KeepsHeap max refused = ⊥
KeepsHeap max panic = ⊥

pub flush_heap-Keeps :
    (max : ℕ) (m : List (Text × ℕ)) (heap : List Batch)
    → AreOpen max heap m
    → All (IsSound max) heap
    → KeepsHeap max (flush_heap m heap)
unfolding flush_heap flush_one close_dispatch
flush_heap-Keeps max [] heap o sound = sound
flush_heap-Keeps max ((url, i) ∷ m) heap o sound =
    go (get_elem? heap i) refl o.0 (λ h. flush_heap-Keeps max m h)
  where
    go :
        (x : Option Batch)
        → get_elem? heap i ≡ x
        → IsOpen max url x
        → ((h : List Batch)
            → AreOpen max h m
            → All (IsSound max) h
            → KeepsHeap max (flush_heap m h))
        → KeepsHeap max (flush_one i x heap >>= λ h. flush_heap m h)
    go none at p rec = elim p [ ]
    go (some b) at p rec =
        let c : Batch = record b { closed = true } in
        let before = get_elem?-All (IsSound max) heap i b sound at in
        let kept : KeepsHeap max (flush_heap m (set heap i c)) =
          rec (set heap i c)
            (AreOpen-set max heap i b c m at
              (λ k a r. absurd (Lacks-Among url k i m o.1 a (sym r.2 ∙ p.2))) o.2)
            (set-All (IsSound max) heap i c before sound) in
        rw p.0 kept
