-- ===== src/Batch/Send.antt =====
-- internal/backend/batch.go: sendBatch. What happens at each attempt is a parameter, and so is the decoding
-- of a body, once as a list of responses and once as a single one. The length of the wait before an attempt
-- is not modelled (its shift overflows from the 39th retry on, where rand.Int64N panics).
use sabre.Common.{
  ℕ, zero, suc, ◌+◌, ◌≤◌, ◌≡◌, refl, subst, Bool, true, not, ◌&&◌, ◌||◌, List, [], ◌∷◌, Option,
  none, some, arith, ltb, ◌==◌, if◌then◌else◌, Text, codes,
}
use sabre.Head.{contains}
use sabre.Rpc.{BatchResponse}
use sabre.Batch.Retry.{is_retryable_http_status}

-- An error of client.Do: whether errors.Is finds io.EOF or io.ErrUnexpectedEOF in it, Timeout() of the
-- net.Error that errors.As finds, and its text.
pub record DoError : Type 0 where
  pub is_eof : Bool
  pub net_timeout : Option Bool
  pub message : Text

unfoldable pub is_transient_message : Text → Bool
is_transient_message msg =
    contains (codes "connection reset") msg
    || contains (codes "connection refused") msg
    || contains (codes "broken pipe") msg

-- isTransientError
unfoldable pub is_transient_error : DoError → Bool
unfolding is_transient_message
is_transient_error err =
    if err.is_eof
    then true
    else elim err.net_timeout [ some timeout ↦ timeout | none ↦ is_transient_message err.message ]

pub data Reply : Type 0 where
  no_request : Reply
  not_sent : DoError → Reply
  not_read : Reply
  answered : ℕ → Text → Reply

-- An attempt: whether the callers left during the wait in front of it, and by the time of an error, and
-- what came of the request.
pub record Attempt : Type 0 where
  pub left_waiting : Bool
  pub left_sending : Bool
  pub reply : Reply

pub data SendError : Type 0 where
  callers_left : SendError
  bad_request : SendError
  send_failed : SendError
  read_failed : SendError
  status_failed : ℕ → SendError
  bad_body : SendError

pub data Sent : Type 0 where
  responses : List BatchResponse → Sent
  failed : SendError → Sent

-- The body of the loop ends it, or goes on with lastErr.
pub data Verdict : Type 0 where
  stop : Sent → Verdict
  retry : SendError → Verdict

module _ (decode_list : Text → Option (List BatchResponse))
    (decode_one : Text → Option BatchResponse) where
  unfoldable pub decoded : Text → Sent
  decoded body = elim (decode_list body) [
    | some rs ↦ responses rs
    | none ↦ elim (decode_one body) [ some r ↦ responses (r ∷ []) | none ↦ failed bad_body ]
  ]

  unfoldable pub judged : Bool → Reply → Verdict
  unfolding decoded
  judged left no_request = stop (failed bad_request)
  judged left (not_sent err) =
      if not left && is_transient_error err then retry send_failed else stop (failed send_failed)
  judged left not_read = retry read_failed
  judged left (answered status body) =
      if is_retryable_http_status status
      then retry (status_failed status)
      else if not (status == 200)
      then stop (failed (status_failed status))
      else stop (decoded body)

  -- The body of the loop, at an attempt.
  unfoldable pub attempt_once : ℕ → Attempt → Verdict
  unfolding judged
  attempt_once attempt a =
      if ltb 0 attempt && a.left_waiting
      then stop (failed callers_left)
      else judged a.left_sending a.reply

  unfoldable pub go_on : Verdict → (SendError → Sent × ℕ) → ℕ → Sent × ℕ
  go_on (stop sent) next attempt = (sent, attempt + 1)
  go_on (retry err) next attempt = next err

  -- The loop, with `k` attempts left; also the number of attempts that were begun.
  unfoldable pub attempts : ℕ → ℕ → (ℕ → Attempt) → SendError → Sent × ℕ
  unfolding attempt_once go_on
  attempts zero attempt env last_err = (failed last_err, attempt)
  attempts (suc k) attempt env last_err =
      go_on (attempt_once attempt (env attempt)) (λ err. attempts k (attempt + 1) env err) attempt

  -- sendBatch; there is a first attempt, so that the error given here for the nil lastErr is never the result
  unfoldable pub send_batch : ℕ → (ℕ → Attempt) → Sent × ℕ
  unfolding attempts
  send_batch max_retries env = attempts (max_retries + 1) 0 env bad_request

  -- The attempts before this one were all retried.
  abbrev pub AllRetried : (ℕ → Attempt) → ℕ → Type 0
  AllRetried env zero = Unit {0}
  AllRetried env (suc i) =
      AllRetried env i × ((err : SendError) × (attempt_once i (env i) ≡ retry err))

  -- The last attempt was not retried, or it was the last of all.
  abbrev pub EndsAt : ℕ → ℕ → Sent → Verdict → Type 0
  EndsAt max_retries last sent (stop outcome) = sent ≡ outcome
  EndsAt max_retries last sent (retry err) = last ≡ max_retries × sent ≡ failed err

  abbrev pub IsOutcome : ℕ → (ℕ → Attempt) → Sent × ℕ → Type 0
  IsOutcome max_retries env r =
      (last : ℕ) × (r.1 ≡ last + 1
        × last ≤ max_retries
        × AllRetried env last
        × EndsAt max_retries last r.0 (attempt_once last (env last)))

  attempts-IsOutcome :
      (max_retries k attempt : ℕ) (env : ℕ → Attempt) (last_err : SendError)
      → max_retries ≡ attempt + k
      → AllRetried env attempt
      → IsOutcome max_retries env (attempts (suc k) attempt env last_err)
  unfolding attempts go_on
  attempts-IsOutcome max_retries zero attempt env last_err room retried =
      go (attempt_once attempt (env attempt)) refl
    where
      go :
          (v : Verdict)
          → attempt_once attempt (env attempt) ≡ v
          → IsOutcome max_retries env (go_on v (λ err. (failed err, attempt + 1)) attempt)
      go (stop sent) e = (attempt, (refl, omega (arith, room), retried, rw e refl))
      go (retry err) e =
          (attempt, (refl, omega (arith, room), retried, rw e (omega (arith, room), refl)))
  attempts-IsOutcome max_retries (suc k) attempt env last_err room retried =
      go (attempt_once attempt (env attempt)) refl (λ err more.
        attempts-IsOutcome max_retries k (attempt + 1) env err (omega (arith, room)) more)
    where
      go :
          (v : Verdict)
          → attempt_once attempt (env attempt) ≡ v
          → ((err : SendError)
              → AllRetried env (attempt + 1)
              → IsOutcome max_retries env (attempts (suc k) (attempt + 1) env err))
          → IsOutcome max_retries env
              (go_on v (λ err. attempts (suc k) (attempt + 1) env err) attempt)
      go (stop sent) e rec = (attempt, (refl, omega (arith, room), retried, rw e refl))
      go (retry err) e rec =
          let more : AllRetried env (suc attempt) = (retried, (err, e)) in
          let next : suc attempt ≡ attempt + 1 = omega arith in
          rec err (subst (AllRetried env) next more)

  -- Whatever happens at the attempts, sendBatch ends: it begins at most maxRetries + 1 attempts, all but the
  -- last of them were retried, and its result is the outcome of the last one when that is not retried, and
  -- else the error of attempt maxRetries.
  pub send_batch-IsOutcome :
      (max_retries : ℕ) (env : ℕ → Attempt) → IsOutcome max_retries env (send_batch max_retries env)
  unfolding send_batch
  send_batch-IsOutcome max_retries env =
      let one_more : suc max_retries ≡ max_retries + 1 = omega arith in
      subst (λ (n : ℕ). IsOutcome max_retries env (attempts n 0 env bad_request)) one_more
        (attempts-IsOutcome max_retries max_retries 0 env bad_request (omega arith) tt)
