-- ===== src/Examples/Collecting.antt =====
-- The collection of batches at concrete inputs.
use sabre.Common.{ℕ, refl, false, List, [], ◌∷◌, ◌++◌, none, arith, Text, codes}
use sabre.Json.{absent}
use sabre.Rpc.{BatchRequest}
use sabre.Batch.Queue.{Batch, Queue, waiting, Event, add, wake, take, flush, steps}
use sabre.Batch.Queue.Runs.{no_batches, asked, Collected, steps-Collected}
use sabre.Batch.Send.{Attempt, answered, send_batch, IsOutcome, send_batch-IsOutcome}
use sabre.Batch.Queue.Live.{IsTaken, steps-IsTaken}

abbrev chain_id : Text → BatchRequest
chain_id id = record {
  jsonrpc = codes "2.0";
  id = id;
  method = codes "eth_chainId";
  params = absent;
}

abbrev traffic : List Event
traffic =
    add (codes "http://a") (chain_id (codes "1")) 1
    ∷ wake 0
    ∷ add (codes "http://a") (chain_id (codes "2")) 2
    ∷ add (codes "http://a") (chain_id (codes "3")) 1
    ∷ take 0
    ∷ flush
    ∷ []

steps-Collected_example : Collected 2 1 (asked 1 traffic) (steps 2 traffic no_batches)
steps-Collected_example = steps-Collected 2 1 traffic (omega arith)

abbrev pending : Batch
pending = record {
  backend_url = codes "http://a";
  entries = (record { caller = 1; req = chain_id (codes "1") }) ∷ [];
  closed = false;
  phase = waiting;
}

abbrev one_pending : Queue
one_pending = record { batches = (codes "http://a", 0) ∷ []; heap = pending ∷ [] }

-- The same caller comes again, for the same url, between the claim and the snapshot and after it.
steps-IsTaken_example : IsTaken 0 pending.entries (
    steps 2
      (wake 0 ∷ (add (codes "http://a") (chain_id (codes "2")) 1 ∷ flush ∷ []) ++ take 0 ∷ traffic)
      one_pending)
steps-IsTaken_example =
    steps-IsTaken 2 0 pending (add (codes "http://a") (chain_id (codes "2")) 1 ∷ flush ∷ []) traffic
      one_pending (omega arith)
      (record {
        open_batches = ((refl, refl, refl, omega arith), tt, tt);
        sound = ((omega arith, tt), tt);
      })
      refl

-- Every attempt is answered with status 503.
abbrev unavailable : ℕ → Attempt
unavailable i = record { left_waiting = false; left_sending = false; reply = answered 503 [] }

send_batch-IsOutcome_example :
    IsOutcome
      (λ b. none)
      (λ b. none)
      2
      unavailable
      (send_batch (λ b. none) (λ b. none) 2 unavailable)
send_batch-IsOutcome_example = send_batch-IsOutcome (λ b. none) (λ b. none) 2 unavailable
