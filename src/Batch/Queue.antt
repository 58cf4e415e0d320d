-- ===== src/Batch/Queue.antt =====
-- internal/backend/batch.go: how requests are collected into batches. A *Batch is its position in a heap, in
-- the order of allocation, since the map of open batches and the goroutine of the batch share it. A caller's
-- context and channel are its number. Sections under bp.mu, and those under the batch's own lock, are one step.
pub mod Open
pub mod Added
pub mod Kept
pub mod Standing
pub mod Runs
pub mod Frozen
pub mod Live
use sabre.Common.{
  ℕ, ◌+◌, ◌≡◌, Bool, true, false, ◌||◌, List, [], ◌∷◌, ◌++◌, Option, none, some, leb, ◌==◌,
  if◌then◌else◌, length, get_elem?, set, Text, codes, text_eq, is_empty,
}
use sabre.Json.{Json, Items, Raw, absent, json}
use sabre.Rpc.{BatchRequest}
use sabre.Multicall.Decode.{Outcome, ok, refused, panic, ◌>>=◌}

pub record BatchEntry : Type 0 where
  pub caller : ℕ
  pub req : BatchRequest

-- Where the goroutine of a batch is: in its select, between the two locks, or behind the snapshot.
pub data Phase : Type 0 where
  waiting : Phase
  claimed : Phase
  taken : List BatchEntry → Phase

-- Batch; `closed` is the dispatch channel
pub record Batch : Type 0 where
  pub backend_url : Text
  pub entries : List BatchEntry
  pub closed : Bool
  pub phase : Phase

-- bp.batches and the batches that were made
pub record Queue : Type 0 where
  pub batches : List (Text × ℕ)
  pub heap : List Batch

unfoldable pub range_scans : Text → Bool
range_scans method =
    text_eq method (codes "eth_getLogs")
    || text_eq method (codes "trace_filter")
    || text_eq method (codes "trace_block")
    || text_eq method (codes "trace_replayBlockTransactions")
    || text_eq method (codes "trace_replayTransaction")
    || text_eq method (codes "trace_transaction")
    || text_eq method (codes "debug_traceBlockByNumber")
    || text_eq method (codes "debug_traceBlockByHash")
    || text_eq method (codes "debug_traceTransaction")

unfoldable pub params_copy : Raw → Raw
params_copy absent = json (Json.arr Items.nil)
params_copy params = params

-- reqCopy
unfoldable pub request_copy : BatchRequest → BatchRequest
unfolding params_copy
request_copy req = record {
  jsonrpc = req.jsonrpc;
  id = if is_empty req.id then codes "null" else req.id;
  method = req.method;
  params = params_copy req.params;
}

unfoldable pub find_batch : Text → List (Text × ℕ) → Option ℕ
find_batch url [] = none
find_batch url ((k, i) ∷ m) = let rest = find_batch url m in if text_eq k url then some i else rest

unfoldable pub delete_batch : Text → List (Text × ℕ) → List (Text × ℕ)
delete_batch url [] = []
delete_batch url ((k, i) ∷ m) =
    let rest = delete_batch url m in if text_eq k url then rest else (k, i) ∷ rest

-- close(batch.dispatch), which panics on a closed channel
unfoldable pub close_dispatch : Batch → Outcome Batch
close_dispatch b = if b.closed then panic else ok (record b { closed = true })

unfoldable pub closed_at : Text → ℕ → Queue → Outcome Batch → Outcome Queue
closed_at url i q (ok b) =
    ok (record { batches = delete_batch url q.batches; heap = set q.heap i b })
closed_at url i q refused = panic
closed_at url i q panic = panic

-- Behind the append: dispatch the batch where it is full.
unfoldable pub dispatch_if : Bool → Text → ℕ → Batch → Queue → Outcome Queue
unfolding closed_at close_dispatch
dispatch_if true url i b q = closed_at url i q (close_dispatch b)
dispatch_if false url i b q = ok (record q { heap = set q.heap i b })

unfoldable pub join_batch : ℕ → Text → BatchEntry → Queue → ℕ → Option Batch → Outcome Queue
unfolding dispatch_if
join_batch max url e q i none = panic
join_batch max url e q i (some b) =
    let grown = record b { entries = b.entries ++ e ∷ [] } in
    dispatch_if (leb max (length grown.entries)) url i grown q

abbrev pub fresh_batch : Text → Batch
fresh_batch url = record { backend_url = url; entries = []; closed = false; phase = waiting }

unfoldable pub with_batch : Text → Queue → Queue
with_batch url q = record {
  batches = (url, length q.heap) ∷ q.batches;
  heap = q.heap ++ fresh_batch url ∷ [];
}

unfoldable pub join : ℕ → Text → BatchEntry → Queue → Option ℕ → Outcome Queue
unfolding join_batch with_batch
join max url e q none =
    join_batch max url e (with_batch url q) (length q.heap)
      (get_elem? (with_batch url q).heap (length q.heap))
join max url e q (some i) = join_batch max url e q i (get_elem? q.heap i)

-- The solo batch of a range scan.
unfoldable pub add_solo : Text → BatchEntry → Queue → Queue
add_solo url e q = record q {
  heap =
      q.heap
      ++ (record { backend_url = url; entries = e ∷ []; closed = true; phase = waiting }) ∷ [];
}

-- AddRequest
unfoldable pub add_request : ℕ → Text → BatchRequest → ℕ → Queue → Outcome Queue
unfolding join add_solo request_copy
add_request max url req caller q =
    let copy = request_copy req in
    let e : BatchEntry = record { caller = caller; req = copy } in
    if range_scans copy.method
    then ok (add_solo url e q)
    else join max url e q (find_batch url q.batches)

unfoldable pub is_batch : Option ℕ → ℕ → Bool
is_batch none i = false
is_batch (some j) i = j == i

unfoldable pub claim_batch : ℕ → Batch → Queue → Queue
unfolding is_batch delete_batch
claim_batch i b q = record {
  batches =
      if is_batch (find_batch b.backend_url q.batches) i
      then delete_batch b.backend_url q.batches
      else q.batches;
  heap = set q.heap i (record b { phase = claimed });
}

unfoldable pub take_batch : ℕ → Batch → Queue → Queue
take_batch i b q = record q { heap = set q.heap i (record b { phase = taken b.entries }) }

unfoldable pub flush_one : ℕ → Option Batch → List Batch → Outcome (List Batch)
unfolding close_dispatch
flush_one i none heap = panic
flush_one i (some b) heap = close_dispatch b >>= λ c. ok (set heap i c)

unfoldable pub flush_heap : List (Text × ℕ) → List Batch → Outcome (List Batch)
unfolding flush_one
flush_heap [] heap = ok heap
flush_heap ((url, i) ∷ m) heap = flush_one i (get_elem? heap i) heap >>= λ h. flush_heap m h

-- FlushAll
unfoldable pub flush_all : Queue → Outcome Queue
unfolding flush_heap
flush_all q = flush_heap q.batches q.heap >>= λ h. ok (record { batches = []; heap = h })

-- What happens to the processor: a caller adds a request, the goroutine of a batch wakes (its timer may
-- fire at any time) and claims it, it takes its snapshot, or all is flushed.
pub data Event : Type 0 where
  add : Text → BatchRequest → ℕ → Event
  wake : ℕ → Event
  take : ℕ → Event
  flush : Event

unfoldable pub wake_in : Phase → ℕ → Batch → Queue → Queue
unfolding claim_batch
wake_in waiting i b q = claim_batch i b q
wake_in claimed i b q = q
wake_in (taken es) i b q = q

unfoldable pub take_in : Phase → ℕ → Batch → Queue → Queue
unfolding take_batch
take_in waiting i b q = q
take_in claimed i b q = take_batch i b q
take_in (taken es) i b q = q

unfoldable pub step : ℕ → Event → Queue → Outcome Queue
unfolding add_request wake_in take_in flush_all
step max (add url req caller) q = add_request max url req caller q
step max (wake i) q = elim (get_elem? q.heap i) [
  | none ↦ ok q
  | some b ↦ ok (wake_in b.phase i b q)
]
step max (take i) q = elim (get_elem? q.heap i) [
  | none ↦ ok q
  | some b ↦ ok (take_in b.phase i b q)
]
step max flush q = flush_all q

-- Any interleaving.
unfoldable pub steps : ℕ → List Event → Queue → Outcome Queue
unfolding step
steps max [] q = ok q
steps max (e ∷ es) q = step max e q >>= steps max es
