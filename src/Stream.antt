-- ===== src/Stream.antt =====
-- internal/backend/stream.go: which block headers the subscribers of a chain are sent.
pub mod News
use sabre.Common.{
  ℕ, ◌-◌, ◌*◌, ◌%◌, Bool, true, false, not, ◌&&◌, ◌||◌, List, [], ◌∷◌, Option, none, some, ltb,
  ◌==◌, if◌then◌else◌, length, Text, text_eq, is_empty,
}
use sabre.Multicall.Word.{word_mod}
use sabre.Json.{Raw}
use sabre.Head.{extract_block_info}
use sabre.Config.{CacheConfig, block_time}
use sabre.Cache.Heights.{Heights, find, put, delete_below}

unfoldable pub hash_at : Option Text → Text
hash_at none = []
hash_at (some h) = h

-- markDelivered, on the heights delivered for the chain
unfoldable pub mark_delivered : ℕ → ℕ → Text → Heights → Bool × Heights
unfolding hash_at
mark_delivered depth n hash heights =
    let marked = put n hash heights in
    if text_eq (hash_at (find n heights)) hash
    then (false, heights)
    else if ltb depth (length marked) && ltb depth n
    then (true, delete_below (n - depth) marked)
    else (true, marked)

-- handleBlockNotification, on the heights delivered for the chain: whether subscribers are notified
unfoldable pub handle_block_notification : ℕ → Raw → Heights → Bool × Heights
unfolding mark_delivered
handle_block_notification depth block_data heights =
    let found = extract_block_info block_data in
    if found.0 == 0 || is_empty found.1
    then (false, heights)
    else mark_delivered depth found.0 found.1 heights

-- staleAfter
unfoldable pub stale_after : CacheConfig → Text → ℕ
stale_after cfg chain = (2 * block_time cfg chain) % word_mod
