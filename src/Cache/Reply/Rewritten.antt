-- ===== src/Cache/Reply/Rewritten.antt =====
-- internal/backend/cache.go: what RewriteResponseID keeps of a response.
use sabre.Common.{◌≡◌, refl, ap, ◌∙◌, Option, none, some, if◌then◌else◌, Text, codes, text_eq}
use sabre.Json.{Json, Fields, Raw, json, map_entry}
use sabre.Multicall.Decode.{Outcome, ok}
use sabre.Cache.Reply.{to_map, stamp, rewrite_response_id}
use sabre.Cache.Reply.Members.{
  map_entry-above, map_entry-put_field, to_map-IsSorted, map_entry-to_map,
}

-- What a rewritten response holds under a name.
abbrev pub IsStamped : Fields → Json → Text → Outcome Raw → Type 0
IsStamped fs id name (ok (json (Json.obj out))) =
    map_entry name out ≡ (if text_eq (codes "id") name then some id else map_entry name fs)
IsStamped fs id name _ = ⊥

-- A response that is an object is rewritten to an object in which "id" is the given id, and every other
-- member is the one that the response has under that name, or missing where the response has none.
pub rewrite_response_id-IsStamped :
    (fs : Fields) (id : Json) (name : Text)
    → IsStamped fs id name (rewrite_response_id (json (Json.obj fs)) (json id))
unfolding rewrite_response_id stamp
rewrite_response_id-IsStamped fs id name =
    map_entry-put_field name (codes "id") id (to_map fs Fields.end)
      (to_map-IsSorted fs Fields.end tt)
    ∙ ap (λ (o : Option Json). if text_eq (codes "id") name then some id else o)
        (map_entry-to_map name fs Fields.end tt ∙ same (map_entry name fs))
  where
    same :
        (o : Option Json)
        → (elim o as (λ _. Option Json) [ some j ↦ some j | none ↦ map_entry name Fields.end ]) ≡ o
    same none = map_entry-above name Fields.end tt
    same (some j) = refl
