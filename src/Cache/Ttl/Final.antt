-- ===== src/Cache/Ttl/Final.antt =====
-- internal/backend/cache.go: the block that ResponseBlock names.
use sabre.Common.{
  ℕ, ◌≡◌, refl, not, ◌&&◌, List, [], ◌∷◌, Option, none, some, arith, ltb, ◌==◌, Text, is_empty,
  Bool-cases, inl, inr,
}
use sabre.Json.{Raw}
use sabre.Head.{quantity_from_raw, result_of}
use sabre.Cache.Ttl.{Included, included_of, logs_of, newest, block_of, response_block}

-- A number and a hash that are both there or both missing.
abbrev pub Paired : ℕ × Text → Type 0
Paired p = (p.0 == 0) ≡ is_empty p.1

newest-Paired : (ls : List Included) (best : ℕ × Text) → Paired best → Paired (newest ls best)
unfolding newest
newest-Paired [] best p = p
newest-Paired (l ∷ ls) best p =
    newest-Paired ls _
      (elim (Bool-cases
        (ltb best.0 (quantity_from_raw l.block_number) && not (is_empty l.block_hash))) [
          | inl e ↦ rw e (ground arith)
          | inr e ↦ rw e p
        ])

block_of-Paired : (o : Included) → Paired (block_of o)
unfolding block_of
block_of-Paired o = ground arith

-- ResponseBlock names a block number other than 0 exactly when it names a hash.
pub response_block-Paired : (response : Raw) → Paired (response_block response)
unfolding response_block
response_block-Paired response = logs (logs_of (result_of response))
  where
    object : (o : Option Included) → Paired (elim o [ none ↦ (0, []) | some i ↦ block_of i ])
    object none = refl
    object (some o) = block_of-Paired o

    logs :
        (o : Option (List Included))
        → Paired (elim o [
          | some ls ↦ newest ls (0, [])
          | none ↦ elim (included_of (result_of response)) [ none ↦ (0, []) | some i ↦ block_of i ]
        ])
    logs (some ls) = newest-Paired ls (0, []) refl
    logs none = object (included_of (result_of response))
