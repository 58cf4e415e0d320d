-- ===== src/Backend.antt =====
-- internal/backend/backend.go: a backend, and what the program knows of its head block.
-- Fields that the program writes and never reads (times of the last request and probe, the last
-- error, the performance weight) are left out.
pub mod Observe
use sabre.Common.{
  ℕ, ◌+◌, ◌-◌, ◌%◌, ◌^◌, ◌&&◌, Bool, true, false, not, List, [], ◌∷◌, Option, none, some, ltb, leb,
  ◌==◌, if◌then◌else◌, Text,
}

pub record Backend : Type 0 where
  pub name : Text
  pub chain : Text
  pub url : Option Text
  pub ws_url : Option Text
  pub latency_history : List ℕ
  pub avg_latency : ℕ
  pub request_count : ℕ
  pub health_up : Bool
  -- 32-bit counters
  pub fail_streak : ℕ
  pub pass_streak : ℕ
  pub head : ℕ
  -- The limiter that the backend shares with those of its provider entry.
  pub limiter : Option ℕ

-- ObserveHead, where no other goroutine writes the head meanwhile
unfoldable pub observe_head : Backend → ℕ → Backend
observe_head b n = if leb n b.head then b else record b { head = n }

-- HeadBelow, where no other goroutine writes the head meanwhile
unfoldable pub head_below : Backend → ℕ → Backend
head_below b n =
    if n == 0 then b else if not (b.head == 0) && ltb b.head n then b else record b { head = n - 1 }
