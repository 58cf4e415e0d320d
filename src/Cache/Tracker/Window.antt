-- ===== src/Cache/Tracker/Window.antt =====
-- internal/backend/cache.go: the tracker keeps at most one hash for each block of its window.
use sabre.Common.{
  ◌⊎◌, ℕ, suc, ◌-◌, ◌*◌, ◌%◌, ◌<◌, ◌≤◌, ◌≡◌, subst, true, false, ◌||◌, arith, ltb, leb,
  if◌then◌else◌, length, Text, Bool-cases, inl, inr, ltb→lt, ltb_false→le, leb→le,
}
use sabre.Multicall.Word.{word_mod}
use sabre.Cache.Heights.{
  delete_below, IsMap, Between, put-IsMap, delete_below-IsMap, put-Between, Between-mono,
  Between-low, delete_below-Between, length-le-range,
}
use sabre.Cache.Tracker.{ChainState, unseen, window, cleanup, record_block, track}

-- One hash for a block number, no number past the tip, and no more hashes than the window and the
-- tip's own.
pub record IsTracked (depth : ℕ) (c : ChainState) : Type 0 where
  pub map : IsMap c.block_hashes
  pub below_tip : Between 0 c.latest_block c.block_hashes
  pub within : length c.block_hashes ≤ suc (2 * depth)

unseen-IsTracked : (depth : ℕ) → IsTracked depth unseen
unseen-IsTracked depth = record { map = tt; below_tip = tt; within = omega arith }

record_block-IsMap :
    (n : ℕ) (hash : Text) (c : ChainState)
    → IsMap c.block_hashes
    → IsMap (record_block n hash c).block_hashes
unfolding record_block
record_block-IsMap n hash c v = ground (arith, put-IsMap n hash c.block_hashes)

record_block-below_tip :
    (n : ℕ) (hash : Text) (c : ChainState)
    → Between 0 c.latest_block c.block_hashes
    → Between 0 (record_block n hash c).latest_block (record_block n hash c).block_hashes
unfolding record_block
record_block-below_tip n hash c b = elim (Bool-cases (ltb c.latest_block n)) [
  | inl e ↦ rw e (
      put-Between n 0 n hash c.block_hashes (omega arith) (omega arith) (
        Between-mono 0 c.latest_block n c.block_hashes (omega (arith, ltb→lt c.latest_block n e))
          b))
  | inr e ↦ rw e (
      put-Between n 0 c.latest_block hash c.block_hashes (omega arith)
        (ltb_false→le c.latest_block n e) b)
]

cleanup-IsTracked :
    (depth : ℕ) (c : ChainState)
    → 2 * depth < word_mod
    → IsMap c.block_hashes
    → Between 0 c.latest_block c.block_hashes
    → IsTracked depth (cleanup depth c)
unfolding cleanup window
cleanup-IsTracked depth c small m b =
    let w : (2 * depth) % word_mod ≡ 2 * depth = omega arith in
    rw w (
      go (Bool-cases (leb (length c.block_hashes) (2 * depth)))
        (Bool-cases (ltb c.latest_block (2 * depth))))
  where
    go :
        (leb (length c.block_hashes) (2 * depth) ≡ true)
          ⊎ (leb (length c.block_hashes) (2 * depth) ≡ false)
        → (ltb c.latest_block (2 * depth) ≡ true) ⊎ (ltb c.latest_block (2 * depth) ≡ false)
        → IsTracked depth (
            if leb (length c.block_hashes) (2 * depth) || ltb c.latest_block (2 * depth)
            then c
            else record c {
              block_hashes = delete_below (c.latest_block - 2 * depth) c.block_hashes;
            })
    go (inl e) _ = rw e (record { map = m; below_tip = b; within = omega (arith, leb→le _ _ e) })
    go (inr e) (inl f) =
        rw (e, f)
          (record {
            map = m;
            below_tip = b;
            within = omega (
              arith,
              length-le-range c.latest_block 0 c.block_hashes m
                  (subst (λ (t : ℕ). Between 0 t c.block_hashes) (omega arith) b),
              ltb→lt _ _ f,
            );
          })
    go (inr e) (inr f) =
        rw (e, f)
          (let cut : ℕ = c.latest_block - 2 * depth in
            let kept : Between cut c.latest_block (delete_below cut c.block_hashes) =
              delete_below-Between cut 0 c.latest_block c.block_hashes b in
            let m' : IsMap (delete_below cut c.block_hashes) =
              delete_below-IsMap cut c.block_hashes m in
            record {
              map = m';
              below_tip = Between-low cut c.latest_block (delete_below cut c.block_hashes) kept;
              within = length-le-range (2 * depth) cut _ m' (
                  subst (λ (t : ℕ). Between cut t (delete_below cut c.block_hashes))
                    (omega (arith, ltb_false→le _ _ f)) kept);
            })

-- UpdateLatestBlock keeps the tracker of a chain within its window, given that twice the reorg
-- depth is a uint64: block numbers are distinct and not past the tip, and there are at most
-- 2 * depth + 1 hashes.
pub track-IsTracked :
    (depth n : ℕ) (hash : Text) (c : ChainState)
    → 2 * depth < word_mod
    → IsTracked depth c
    → IsTracked depth (track depth n hash c)
unfolding track
track-IsTracked depth n hash c small t =
    cleanup-IsTracked depth (record_block n hash c) small (record_block-IsMap n hash c t.map)
      (record_block-below_tip n hash c t.below_tip)
