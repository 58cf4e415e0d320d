-- ===== src/Cache/Tracker/Validity.antt =====
-- internal/backend/cache.go: which cached hashes IsBlockHashValid accepts after UpdateLatestBlock.
use sabre.Common.{
  ℕ, ◌+◌, ◌-◌, ◌*◌, ◌%◌, ◌<◌, ◌≤◌, ◌≡◌, refl, ap, ◌∙◌, true, false, ◌||◌, some, arith, ltb, leb,
  ◌==◌, length, Text, text_eq, is_empty, Bool-cases, inl, inr, max,
}
use sabre.Multicall.Word.{word_mod}
use sabre.Cache.Heights.{find, put, find-put, find-delete_below}
use sabre.Cache.Tracker.{ChainState, window, cleanup, record_block, track, is_block_hash_valid}

record_block-latest :
    (n : ℕ) (hash : Text) (c : ChainState)
    → (record_block n hash c).latest_block ≡ max c.latest_block n
unfolding record_block
record_block-latest n hash c = ground arith

record_block-hashes :
    (n : ℕ) (hash : Text) (c : ChainState)
    → (record_block n hash c).block_hashes ≡ put n hash c.block_hashes
unfolding record_block
record_block-hashes n hash c = ground arith

cleanup-latest : (depth : ℕ) (c : ChainState) → (cleanup depth c).latest_block ≡ c.latest_block
unfolding cleanup
cleanup-latest depth c =
    elim (Bool-cases
      (leb (length c.block_hashes) (window depth) || ltb c.latest_block (window depth))) [
        | inl e ↦ rw e refl
        | inr e ↦ rw e refl
      ]

pub track-latest :
    (depth n : ℕ) (hash : Text) (c : ChainState)
    → (track depth n hash c).latest_block ≡ max c.latest_block n
unfolding track
track-latest depth n hash c =
    cleanup-latest depth (record_block n hash c) ∙ record_block-latest n hash c

-- Within the window, cleanup keeps a hash.
cleanup-find :
    (depth n : ℕ) (c : ChainState)
    → 2 * depth < word_mod
    → c.latest_block ≤ n + 2 * depth
    → find n (cleanup depth c).block_hashes ≡ find n c.block_hashes
unfolding cleanup window
cleanup-find depth n c small near =
    let w : (2 * depth) % word_mod ≡ 2 * depth = omega arith in
    let cut : ℕ = c.latest_block - 2 * depth in
    let above : ltb n (c.latest_block - 2 * depth) ≡ false = ground arith in
    rw w
      (elim (Bool-cases
        (leb (length c.block_hashes) (2 * depth) || ltb c.latest_block (2 * depth))) [
          | inl e ↦ rw e refl
          | inr e ↦
              rw e (find-delete_below (c.latest_block - 2 * depth) n c.block_hashes ∙ rw above refl)
        ])

pub track-find :
    (depth n : ℕ) (hash : Text) (c : ChainState)
    → 2 * depth < word_mod
    → c.latest_block ≤ n + 2 * depth
    → find n (track depth n hash c).block_hashes ≡ some hash
unfolding track
track-find depth n hash c small near =
    let same : (n == n) ≡ true = ground arith in
    cleanup-find depth n (record_block n hash c) small
      (rw (record_block-latest n hash c) (omega arith))
    ∙ ap (find n) (record_block-hashes n hash c)
    ∙ find-put n n hash c.block_hashes
    ∙ rw same refl

-- Once UpdateLatestBlock has recorded a block that lies within the window behind the tip, given
-- that twice the reorg depth is a uint64, IsBlockHashValid accepts at that number the entries with
-- that block's hash and those without a hash, and no others.
pub track-validity :
    (depth n : ℕ) (hash entry_hash : Text) (c : ChainState)
    → 2 * depth < word_mod
    → c.latest_block ≤ n + 2 * depth
    → is_block_hash_valid depth (track depth n hash c) entry_hash n
      ≡ (is_empty entry_hash || text_eq hash entry_hash)
unfolding is_block_hash_valid
track-validity depth n hash entry_hash c small near =
    rw (track-find depth n hash c small near)
      (elim (Bool-cases (is_empty entry_hash)) [ inl e ↦ rw e refl | inr e ↦ rw e refl ])

record_block-latest_hash :
    (n : ℕ) (hash : Text) (c : ChainState)
    → n ≤ c.latest_block
    → (record_block n hash c).latest_hash ≡ c.latest_hash
unfolding record_block
record_block-latest_hash n hash c below = ground arith

cleanup-latest_hash : (depth : ℕ) (c : ChainState) → (cleanup depth c).latest_hash ≡ c.latest_hash
unfolding cleanup
cleanup-latest_hash depth c =
    elim (Bool-cases
      (leb (length c.block_hashes) (window depth) || ltb c.latest_block (window depth))) [
        | inl e ↦ rw e refl
        | inr e ↦ rw e refl
      ]

-- When the number that UpdateLatestBlock is given is that of the tip, the latest hash is not empty and
-- the given hash is another one, given that twice the reorg depth is a uint64, the latest hash stays
-- the one it was, and right after the update IsBlockHashValid rejects that hash at the tip's number.
pub track-stale_tip :
    (depth n : ℕ) (hash : Text) (c : ChainState)
    → 2 * depth < word_mod
    → c.latest_block ≡ n
    → is_empty c.latest_hash ≡ false
    → text_eq hash c.latest_hash ≡ false
    → ((track depth n hash c).latest_hash ≡ c.latest_hash)
      × (is_block_hash_valid depth (track depth n hash c) c.latest_hash n ≡ false)
unfolding track
track-stale_tip depth n hash c small tip named other = (
  cleanup-latest_hash depth (record_block n hash c)
      ∙ record_block-latest_hash n hash c (omega arith),
  track-validity depth n hash c.latest_hash c small (omega arith) ∙ rw (named, other) refl,
)
