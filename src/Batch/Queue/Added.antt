-- ===== src/Batch/Queue/Added.antt =====
-- internal/backend/batch.go: AddRequest keeps the open batches and the snapshots.
use sabre.Common.{
  ℕ, ◌≤◌, ◌<◌, ◌≡◌, refl, sym, subst, ◌∙◌, Bool, true, false, List, [], ◌∷◌, ◌++◌, Option, none,
  some, arith, leb, leb_false→lt, if◌then◌else◌, length, length-append, get_elem?, set, Text,
  append-All, set-All,
}
use sabre.Rpc.{BatchRequest}
use sabre.Multicall.Decode.{Outcome, ok, refused, panic}
use sabre.Batch.Queue.{
  BatchEntry, Phase, waiting, Batch, Queue, range_scans, request_copy, find_batch, delete_batch,
  close_dispatch, closed_at, dispatch_if, join_batch, fresh_batch, with_batch, join, add_solo,
  add_request,
}
use sabre.Batch.Queue.Open.{
  IsOpen, IsSnapshot, IsSound, IsQueue, Lacks-Among, AreOpen-set, AreOpen-delete, AreOpen-append,
  find-IsOpen, find-Lacks,
}

-- The step ends without a panic, in a queue as it should be.
abbrev pub Keeps : ℕ → Outcome Queue → Type 0
Keeps max (ok q) = IsQueue max q
Keeps max refused = ⊥
Keeps max panic = ⊥

-- A batch that is still waiting has no snapshot.
waiting-IsSound : (max : ℕ) (b : Batch) → b.phase ≡ waiting → length b.entries ≤ max → IsSound max b
waiting-IsSound max b e h = (h, subst (λ (p : Phase). IsSnapshot p b.entries) (sym e) tt)

grown-Keeps :
    (max i : ℕ) (url : Text) (e : BatchEntry) (b : Batch) (q : Queue) (full : Bool)
    → IsQueue max q
    → get_elem? q.heap i ≡ some b
    → IsOpen max url (some b)
    → (full ≡ false → length (b.entries ++ e ∷ []) < max)
    → Keeps max (dispatch_if full url i (record b { entries = b.entries ++ e ∷ [] }) q)
unfolding dispatch_if close_dispatch closed_at
grown-Keeps max i url e b q true inv at o room =
    let gone = AreOpen-delete max q.heap url q.batches inv.open_batches in
    let c : Batch = record b { entries = b.entries ++ e ∷ []; closed = true } in
    let fits : length (b.entries ++ e ∷ []) ≤ max =
      omega (arith, length-append b.entries (e ∷ []), o.3) in
    let kept : IsQueue max
        (record { batches = delete_batch url q.batches; heap = set q.heap i c }) =
      record {
        open_batches =
            AreOpen-set max q.heap i b c (delete_batch url q.batches) at
              (λ k a p.
                absurd (Lacks-Among url k i (delete_batch url q.batches) gone.1 a (sym p.2 ∙ o.2)))
              gone.0;
        sound = set-All (IsSound max) q.heap i c (waiting-IsSound max c o.1 fits) inv.sound;
      } in
    rw o.0 kept
grown-Keeps max i url e b q false inv at o room =
    let c : Batch = record b { entries = b.entries ++ e ∷ [] } in
    let fits : length c.entries ≤ max = omega (arith, room refl) in
    record {
      open_batches =
          AreOpen-set max q.heap i b c q.batches at (λ k a p. (p.0, p.1, p.2, room refl))
            inv.open_batches;
      sound = set-All (IsSound max) q.heap i c (waiting-IsSound max c o.1 fits) inv.sound;
    }

join_batch-Keeps :
    (max i : ℕ) (url : Text) (e : BatchEntry) (q : Queue) (o : Option Batch)
    → IsQueue max q
    → get_elem? q.heap i ≡ o
    → IsOpen max url o
    → Keeps max (join_batch max url e q i o)
unfolding join_batch
join_batch-Keeps max i url e q none inv at o = elim o [ ]
join_batch-Keeps max i url e q (some b) inv at o =
    grown-Keeps max i url e b q (leb max (length (b.entries ++ e ∷ []))) inv at o
      (λ h. leb_false→lt max (length (b.entries ++ e ∷ [])) h)

pub at_end : (heap : List Batch) (b : Batch) → get_elem? (heap ++ b ∷ []) (length heap) ≡ some b
at_end [] b = refl
at_end (x ∷ xs) b = at_end xs b

with_batch-IsQueue :
    (max : ℕ) (url : Text) (q : Queue)
    → 0 < max
    → IsQueue max q
    → find_batch url q.batches ≡ none
    → IsQueue max (with_batch url q)
unfolding with_batch
with_batch-IsQueue max url q pos inv none_yet = record {
  open_batches = (
    subst (IsOpen max url) (sym (at_end q.heap (fresh_batch url))) (refl, refl, refl, pos),
    find-Lacks url q.batches none_yet,
    AreOpen-append max q.heap (fresh_batch url) q.batches inv.open_batches,
  );
  sound = append-All (IsSound max) q.heap (fresh_batch url ∷ []) inv.sound ((omega arith, tt), tt);
}

join-Keeps :
    (max : ℕ) (url : Text) (e : BatchEntry) (q : Queue) (o : Option ℕ)
    → 0 < max
    → IsQueue max q
    → find_batch url q.batches ≡ o
    → Keeps max (join max url e q o)
unfolding join with_batch
join-Keeps max url e q none pos inv f =
    let more = with_batch-IsQueue max url q pos inv f in
    join_batch-Keeps max (length q.heap) url e (with_batch url q)
      (get_elem? (with_batch url q).heap (length q.heap)) more refl more.open_batches.0
join-Keeps max url e q (some i) pos inv f =
    join_batch-Keeps max i url e q (get_elem? q.heap i) inv refl
      (find-IsOpen max q.heap url i q.batches inv.open_batches f)

pub add_request-Keeps :
    (max : ℕ) (url : Text) (req : BatchRequest) (caller : ℕ) (q : Queue)
    → 0 < max
    → IsQueue max q
    → Keeps max (add_request max url req caller q)
unfolding add_request add_solo
add_request-Keeps max url req caller q pos inv = go (range_scans (request_copy req).method)
  where
    e : BatchEntry
    e = record { caller = caller; req = request_copy req }

    go :
        (solo : Bool)
        → Keeps max
            (if solo then ok (add_solo url e q) else join max url e q (find_batch url q.batches))
    go true = record {
      open_batches = AreOpen-append max q.heap _ q.batches inv.open_batches;
      sound = append-All (IsSound max) q.heap _ inv.sound ((omega arith, tt), tt);
    }
    go false = join-Keeps max url e q (find_batch url q.batches) pos inv refl
