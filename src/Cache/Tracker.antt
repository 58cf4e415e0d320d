-- ===== src/Cache/Tracker.antt =====
-- internal/backend/cache.go: the block tracker behind UpdateLatestBlock and IsBlockHashValid, for
-- one chain. Block numbers are uint64s.
pub mod Validity
pub mod Window
use sabre.Common.{
  ℕ, zero, suc, ◌+◌, ◌-◌, ◌*◌, ◌%◌, ◌^◌, Bool, true, false, not, ◌&&◌, ◌||◌, List, [], ◌∷◌, Option,
  none, some, ltb, leb, ◌==◌, if◌then◌else◌, length, Text, text_eq, is_empty,
}
use sabre.Multicall.Word.{word_mod}
use sabre.Json.{Raw}
use sabre.Head.{extract_parent_hash}
use sabre.Cache.Heights.{Heights, find, put, delete_below}

-- s.blockHashes[chain], s.latestBlocks[chain] and s.latestHashes[chain]; a missing key reads as the
-- zero value, and so does `unseen`.
pub record ChainState : Type 0 where
  pub block_hashes : Heights
  pub latest_block : ℕ
  pub latest_hash : Text

abbrev pub unseen : ChainState
unseen = record { block_hashes = []; latest_block = 0; latest_hash = [] }

-- a - b on uint64s
unfoldable pub sub64 : ℕ → ℕ → ℕ
sub64 a b = (a + word_mod - b) % word_mod

-- An entry for the number that has another hash.
unfoldable pub differs_at : ChainState → ℕ → Text → Bool
differs_at c n hash = elim (find n c.block_hashes) [ none ↦ false | some h ↦ not (text_eq h hash) ]

unfoldable pub parent_differs : Option Text → Text → Bool
parent_differs none parent = false
parent_differs (some h) parent = not (is_empty parent) && not (text_eq parent h)

-- The third test of detectReorg.
unfoldable pub parent_mismatch : ChainState → ℕ → Option Raw → Bool
unfolding parent_differs
parent_mismatch c n none = false
parent_mismatch c n (some block_data) =
    ltb 1 n && parent_differs (find (n - 1) c.block_hashes) (extract_parent_hash block_data)

-- detectReorg
unfoldable pub detect_reorg : ChainState → ℕ → Text → Option Raw → Bool
unfolding differs_at parent_mismatch
detect_reorg c n hash block_data =
    if differs_at c n hash
    then true
    else if ltb 0 n && (leb n c.latest_block && differs_at c n hash)
    then true
    else parent_mismatch c n block_data

-- 2 * s.cfg.ReorgDepth(chainID)
unfoldable pub window : ℕ → ℕ
window depth = (2 * depth) % word_mod

-- cleanupOldBlockHashes
unfoldable pub cleanup : ℕ → ChainState → ChainState
unfolding window
cleanup depth c =
    if leb (length c.block_hashes) (window depth) || ltb c.latest_block (window depth)
    then c
    else record c { block_hashes = delete_below (c.latest_block - window depth) c.block_hashes }

unfoldable pub record_block : ℕ → Text → ChainState → ChainState
record_block n hash c =
    let seen : ChainState = record c { block_hashes = put n hash c.block_hashes } in
    if ltb c.latest_block n then record seen { latest_block = n; latest_hash = hash } else seen

-- What UpdateLatestBlock does to the tracker, behind detectReorg and the purge.
unfoldable pub track : ℕ → ℕ → Text → ChainState → ChainState
unfolding cleanup record_block
track depth n hash c = cleanup depth (record_block n hash c)

-- IsBlockHashValid
unfoldable pub is_block_hash_valid : ℕ → ChainState → Text → ℕ → Bool
unfolding sub64
is_block_hash_valid depth c entry_hash entry_num =
    if is_empty entry_hash then true else elim (find entry_num c.block_hashes) [
      | some current ↦ text_eq current entry_hash
      | none ↦ not (ltb 0 c.latest_block && leb (sub64 c.latest_block entry_num) depth)
    ]
