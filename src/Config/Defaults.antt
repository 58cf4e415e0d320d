-- ===== src/Config/Defaults.antt =====
-- internal/backend/config.go: what the settings satisfy once the defaults are in.
use sabre.Common.{
  ℕ, ◌*◌, ◌%◌, ◌^◌, ◌<◌, ◌≤◌, ◌≡◌, refl, ◌⊎◌, inl, inr, Bool, true, false, ◌||◌, List, [], ◌∷◌,
  Option, none, some, arith, Text, Bool-cases,
}
use sabre.Multicall.Word.{slt, word_mod}
use sabre.Config.{
  millisecond, or_default, millis_or_default, HealthConfig, health_section, BatchConfig,
  batch_section, CacheConfig, reorg_depth, block_time, check_backends,
}

-- A positive int64.
abbrev pub IsPositive : ℕ → Type 0
IsPositive x = slt 0 x ≡ true

-- A number of milliseconds that is negative, zero or below 2 ^ 43 (about 278 years).
abbrev pub IsMillis : ℕ → Type 0
IsMillis x = (x < 2 ^ 43) ⊎ ((2 ^ 63 ≤ x) × (x < word_mod))

abbrev pub IsInt : ℕ → Type 0
IsInt x = x < word_mod

or_default-IsPositive : (x d : ℕ) → IsPositive d → IsPositive (or_default x d)
unfolding or_default
or_default-IsPositive x d h = elim (Bool-cases (slt 0 x)) [ inl e ↦ rw e e | inr e ↦ rw e h ]

millis-IsPositive :
    (x : ℕ) → IsMillis x → slt 0 x ≡ true → IsPositive ((x * millisecond) % word_mod)
unfolding slt
millis-IsPositive x (inl h) p = ground arith
millis-IsPositive x (inr h) p = ground arith

millis_or_default-IsPositive :
    (x d : ℕ) → IsMillis x → IsPositive d → IsPositive (millis_or_default x d)
unfolding millis_or_default
millis_or_default-IsPositive x d m h = elim (Bool-cases (slt 0 x)) [
  | inl e ↦ rw e (millis-IsPositive x m e)
  | inr e ↦ rw e h
]

abbrev pub HealthIsMillis : Option HealthConfig → Type 0
HealthIsMillis none = Unit {0}
HealthIsMillis (some hc) = IsMillis hc.ttl_check × IsMillis hc.timeout

-- Whatever the [health] section says, or without one, the probe interval, the probe timeout and
-- both thresholds are positive, given that its times are negative or below 2 ^ 43 milliseconds.
pub health_section-IsPositive :
    (section : Option HealthConfig)
    → HealthIsMillis section
    → IsPositive (health_section section).ttl_check
      × IsPositive (health_section section).timeout
      × IsPositive (health_section section).fails_to_down
      × IsPositive (health_section section).passes_to_up
unfolding health_section slt
health_section-IsPositive none m = (refl, refl, refl, refl)
health_section-IsPositive (some hc) m = (
  millis_or_default-IsPositive hc.ttl_check _ m.0 refl,
  millis_or_default-IsPositive hc.timeout _ m.1 refl,
  or_default-IsPositive hc.fails_to_down 2 refl,
  or_default-IsPositive hc.passes_to_up 2 refl,
)

abbrev pub BatchIsMillis : Option BatchConfig → Type 0
BatchIsMillis none = Unit {0}
BatchIsMillis (some bc) = IsMillis bc.max_batch_wait_time

-- Without a [batch] section, or with one whose wait is negative or below 2 ^ 43 milliseconds, the
-- batch size, the wait, the number of workers and the number of retries are positive: no setting of
-- max_retries turns retries off.
pub batch_section-IsPositive :
    (section : Option BatchConfig)
    → BatchIsMillis section
    → IsPositive (batch_section section).max_batch_size
      × IsPositive (batch_section section).max_batch_wait_time
      × IsPositive (batch_section section).max_batch_workers
      × IsPositive (batch_section section).max_retries
unfolding batch_section slt
batch_section-IsPositive none m = (refl, refl, refl, refl)
batch_section-IsPositive (some bc) m = (
  or_default-IsPositive bc.max_batch_size 10 refl,
  millis_or_default-IsPositive bc.max_batch_wait_time _ m refl,
  or_default-IsPositive bc.max_batch_workers 4 refl,
  or_default-IsPositive bc.max_retries 2 refl,
)

-- What ParseConfig promises of each backend, given as its chain and whether it has a WebSocket URL.
abbrev pub AreServable : CacheConfig → List (Text × Bool) → Type 0
AreServable c [] = Unit {0}
AreServable c ((chain, streamed) ∷ bs) =
    ((c.enabled || streamed) ≡ true → IsPositive (reorg_depth c chain))
    × (streamed ≡ true → IsPositive (block_time c chain))
    × AreServable c bs

abbrev pub any_streamed : List (Text × Bool) → Bool
any_streamed [] = false
any_streamed ((chain, streamed) ∷ bs) = streamed || any_streamed bs

check_backends_lem :
    (c : CacheConfig) (bs : List (Text × Bool)) (seen has : Bool)
    → check_backends c bs seen ≡ some has
    → AreServable c bs × (has ≡ (any_streamed bs || seen))
unfolding check_backends
check_backends_lem c [] seen has h = (tt, ground arith)
check_backends_lem c ((chain, true) ∷ bs) seen has h =
    ground (arith, check_backends_lem c bs true has)
check_backends_lem c ((chain, false) ∷ bs) seen has h =
    ground (arith, check_backends_lem c bs seen has)

-- A configuration that passes the final checks has a positive reorg depth for the chain of every
-- backend that is cached or streamed, and a positive block time for the chain of every streamed
-- one; HasWebSocket says exactly whether some backend is streamed.
pub check_backends-AreServable :
    (c : CacheConfig) (bs : List (Text × Bool)) (has : Bool)
    → check_backends c bs false ≡ some has
    → AreServable c bs × (has ≡ (any_streamed bs || false))
check_backends-AreServable c bs has h = check_backends_lem c bs false has h
