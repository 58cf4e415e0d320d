-- ===== src/Balancer/Random.antt =====
-- internal/backend/balancer.go: the xorshift generator behind randN and randFloat. `seed` is the
-- counter that AddUint64 steps.
use Prim.Native.Nat.{bit_xor}
use sabre.Common.{ℕ, ◌+◌, ◌*◌, ◌-◌, ◌/◌, ◌%◌, ◌^◌, ◌<◌, arith, leb, if◌then◌else◌}
use sabre.Multicall.Word.{word_mod}
use sabre.Float.{FloatOps}

-- atomic.AddUint64(&lb.seed, 0x9e3779b97f4a7c15)
unfoldable pub next_seed : ℕ → ℕ
next_seed seed = (seed + 0x9e3779b97f4a7c15) % word_mod

unfoldable pub scramble : ℕ → ℕ
scramble x =
    let x1 = bit_xor x (x / 2 ^ 12) in
    let x2 = bit_xor x1 ((x1 * 2 ^ 25) % word_mod) in
    let x3 = bit_xor x2 (x2 / 2 ^ 27) in (x3 * 0x2545F4914F6CDD1D) % word_mod

-- randN, with the seed that it leaves
unfoldable pub rand_n : ℕ → ℕ → ℕ × ℕ
unfolding next_seed scramble
rand_n seed n = if leb n 1 then (0, seed) else (scramble (next_seed seed) % n, next_seed seed)

-- Whatever the seed, the index that randN draws for a list of n is an index of the list.
pub rand_n-lt : (seed n : ℕ) → 0 < n → (rand_n seed n).0 < n
unfolding rand_n
rand_n-lt seed n h = ground arith

module _ (Fl : FloatOps) where
  open Fl use {F, div, of_int}

  -- randFloat, with the seed that it leaves
  unfoldable pub rand_float : ℕ → F × ℕ
  unfolding next_seed scramble
  rand_float seed = (div (of_int (scramble (next_seed seed))) (of_int (2 ^ 64 - 1)), next_seed seed)
