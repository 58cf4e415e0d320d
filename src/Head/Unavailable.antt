-- ===== src/Head/Unavailable.antt =====
-- internal/backend/head.go: the errors which say that a backend lacks the block asked for.
use sabre.Common.{
  Bool, false, ◌&&◌, ◌||◌, List, [], ◌∷◌, Option, none, some, ◌==◌, if◌then◌else◌, drop, Text,
  codes,
}
use sabre.Json.{Json, Raw, json, lower, raws, unmarshal_object, string_field}
use sabre.Head.{starts_with, contains, error_field}

unfoldable pub until_newline : Text → Text
until_newline [] = []
until_newline (c ∷ cs) = let rest = until_newline cs in if c == 10 then [] else c ∷ rest

-- block .* not found
unfoldable pub block_not_found : Text → Bool
unfolding starts_with contains until_newline
block_not_found [] = false
block_not_found (c ∷ cs) =
    (starts_with (codes "block ") (c ∷ cs)
      && contains (codes " not found") (until_newline (drop 6 (c ∷ cs))))
    || block_not_found cs

-- blockUnavailableRegex
unfoldable pub block_unavailable_message : Text → Bool
unfolding lower contains block_not_found
block_unavailable_message message =
    let s = lower message in
    contains (codes "header not found") s
    || contains (codes "missing trie node") s
    || contains (codes "unknown block") s
    || contains (codes "block not found") s
    || block_not_found s
    || contains (codes "state not available") s
    || contains (codes "cannot query unfinalized") s

unfoldable pub message_of : Raw → Option Text
unfolding unmarshal_object string_field
message_of err = elim (unmarshal_object err) [
  | none ↦ none
  | some fs ↦ string_field (codes "message") fs
]

-- blockUnavailableSingle
unfoldable pub block_unavailable_single : Raw → Bool
unfolding error_field message_of block_unavailable_message
block_unavailable_single response = elim (error_field response) [
  | none ↦ false
  | some err ↦ elim (message_of err) [ none ↦ false | some m ↦ block_unavailable_message m ]
]

unfoldable pub any_unavailable : List Raw → Bool
unfolding block_unavailable_single
any_unavailable [] = false
any_unavailable (r ∷ rs) = block_unavailable_single r || any_unavailable rs

-- BlockUnavailable: a body that begins with `[` is a batch
unfoldable pub block_unavailable : Raw → Bool
unfolding any_unavailable raws
block_unavailable (json (Json.arr items)) = any_unavailable (raws items)
block_unavailable response = block_unavailable_single response
