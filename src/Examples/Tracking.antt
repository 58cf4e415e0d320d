-- ===== src/Examples/Tracking.antt =====
-- The cache and its block tracker at concrete inputs.
use sabre.Common.{
  ◌≡◌, refl, false, ◌||◌, List, [], ◌∷◌, none, some, arith, if◌then◌else◌, codes, text_eq, is_empty,
}
use sabre.Multicall.Word.{slt}
use sabre.Config.{reorg_depth}
use sabre.Cache.Heights.{find}
use sabre.Cache.Tracker.{ChainState, unseen, track, is_block_hash_valid}
use sabre.Cache.Tracker.Window.{IsTracked, track-IsTracked}
use sabre.Cache.Tracker.Validity.{track-validity, track-stale_tip}
use sabre.Cache.Store.{
  Entry, Store, has_key, is_valid, read_entry, get, put, put_entry, expiry_of, put_immortal,
  purge_chain, update_latest_block,
}
use sabre.Cache.Store.Reads.{served, or_next, get-served}
use sabre.Cache.Store.Writes.{get-put}
use sabre.Cache.Store.Reorg.{drop_chain, purge_chain-peek, get-Orphaned}
use sabre.Cache.Store.History.{Op, get_op, put_op, update_op, apply_all}
use sabre.Cache.Store.Immortal.{immortal_survives}
use sabre.Examples.Instances.{tables, tables-IsTiers, empty_store}

-- The tip is block 5, with block 4 below it.
abbrev five : ChainState
five = record {
  block_hashes = (4, codes "0x44") ∷ (5, codes "0x55") ∷ [];
  latest_block = 5;
  latest_hash = codes "0x55";
}

track-IsTracked_example : IsTracked 2 (track 2 6 (codes "0x66") unseen)
track-IsTracked_example =
    track-IsTracked 2 6 (codes "0x66") unseen (omega arith)
      (record { map = tt; below_tip = tt; within = omega arith })

track-validity_example :
    is_block_hash_valid 2 (track 2 4 (codes "0x40") five) (codes "0x44") 4
    ≡ (is_empty (codes "0x44") || text_eq (codes "0x40") (codes "0x44"))
track-validity_example =
    track-validity 2 4 (codes "0x40") (codes "0x44") five (omega arith) (omega arith)

track-stale_tip_example :
    ((track 2 5 (codes "0x50") five).latest_hash ≡ five.latest_hash)
    × (is_block_hash_valid 2 (track 2 5 (codes "0x50") five) five.latest_hash 5 ≡ false)
unfolding text_eq
track-stale_tip_example = track-stale_tip 2 5 (codes "0x50") five (omega arith) refl refl refl

abbrev at_five : Entry
at_five = record {
  expiry = 9_000;
  body = codes "0x1";
  chain_id = codes "base";
  block_hash = codes "0x55";
  block_num = 5;
}

-- A store whose memory tier holds an entry of block 5, the tip.
abbrev one_entry : Store tables
one_entry = record empty_store {
  mem = (codes "k" ∷ [], λ k. if text_eq (codes "k") k then some at_five else none);
  chains = λ c. five;
}

get-served_example :
    (get tables 4_000_000_000 (codes "k") one_entry).0
    ≡ or_next tables
        (served tables 4_000_000_000 one_entry (some at_five))
        (served tables 4_000_000_000 one_entry (read_entry tables one_entry.db (codes "k")))
unfolding text_eq has_key
get-served_example = get-served tables 4_000_000_000 (codes "k") one_entry

get-put_example :
    (get tables 2_000_000_000 (codes "j") (
      put tables 1_000_000_000 1_000_000_000
        (codes "j")
        (codes "0x2")
        3_000_000_000
        (codes "base")
        5
        (codes "0x55")
        one_entry)).0
    ≡ some (codes "0x2")
unfolding slt expiry_of is_valid put_entry is_block_hash_valid reorg_depth text_eq find
get-put_example =
    get-put tables tables-IsTiers 1_000_000_000 1_000_000_000 2_000_000_000 (codes "j")
      (codes "0x2") 3_000_000_000 (codes "base") 5 (codes "0x55") one_entry refl refl (omega arith)
      refl

purge_chain-peek_example :
    tables.peek (purge_chain tables (codes "base") one_entry.mem) (codes "k")
    ≡ drop_chain tables (codes "base") (tables.peek one_entry.mem (codes "k"))
purge_chain-peek_example =
    purge_chain-peek tables tables-IsTiers (codes "base") (codes "k") one_entry.mem

get-Orphaned_example :
    (get tables 4_000_000_000
      (codes "k")
      (update_latest_block tables (codes "base") 5 (codes "0x50") none one_entry)).0
    ≡ none
unfolding reorg_depth text_eq slt has_key read_entry
get-Orphaned_example =
    get-Orphaned tables tables-IsTiers 4_000_000_000 (codes "k") (codes "base") 5 (codes "0x50")
      none one_entry (omega arith) (omega arith) (refl, refl, refl, refl) tt

-- A lookup, a reorg at the tip and another entry.
abbrev history : List Op
history =
    get_op 1_000_000 (codes "k")
    ∷ update_op (codes "base") 5 (codes "0x50") none
    ∷ put_op 2_000_000 2_000_000 (codes "j") (codes "0x2") 3_000_000_000 (codes "base") 0 []
    ∷ []

immortal_survives_example :
    (get tables 4_000_000_000 (codes "m") (
      apply_all tables history
        (put_immortal tables (codes "m") (codes "0x3") (codes "base") one_entry))).0
    ≡ some (codes "0x3")
unfolding text_eq
immortal_survives_example =
    immortal_survives tables tables-IsTiers (codes "m") (codes "0x3") (codes "base") history
      4_000_000_000 one_entry refl (omega arith, (omega arith, (omega arith, (omega arith, tt))))
      (tt, (tt, (refl, tt))) (omega arith)
