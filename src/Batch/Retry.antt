-- ===== src/Batch/Retry.antt =====
-- internal/backend/batch.go and internal/router/router.go: the HTTP statuses that are retried.
use sabre.Common.{ℕ, ◌≡◌, Bool, true, not, ◌&&◌, ◌||◌, arith, leb, ◌==◌, if◌then◌else◌}

-- isRetryableHTTPStatus of batch.go
unfoldable pub is_retryable_http_status : ℕ → Bool
is_retryable_http_status code =
    code == 429 || code == 408 || (leb 500 code && not (code == 501) && not (code == 505))

-- isRetryableStatus of router.go
unfoldable pub is_retryable_status : ℕ → Bool
is_retryable_status code =
    if code == 429 || code == 408
    then true
    else leb 500 code && (not (code == 501) && not (code == 505))

-- The batch processor and the router retry the same statuses.
pub retryable-agree : (code : ℕ) → is_retryable_http_status code ≡ is_retryable_status code
unfolding is_retryable_http_status is_retryable_status
retryable-agree code = ground arith
