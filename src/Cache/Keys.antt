-- ===== src/Cache/Keys.antt =====
-- internal/backend/cache.go: the keys of the cache. crypto/sha256 is a parameter, and so is
-- encoding/json's compact form of a parsed value.
use sabre.Common.{[], ◌∷◌, ◌++◌, Option, none, some, Text, codes, hex_encode}
use sabre.Json.{Json, Raw, absent, malformed, json}

module _ (sha256 : Text → Text) (compact : Json → Text) where
  unfoldable pub sub_call_digest : Text → Text → Text → Text
  sub_call_digest chain target call_data =
      hex_encode (sha256 (chain ++ (0 ∷ []) ++ target ++ (0 ∷ []) ++ call_data))

  -- subCallKey
  unfoldable pub sub_call_key : Text → Text → Text → Text
  unfolding sub_call_digest
  sub_call_key chain target call_data = codes "sub:v2:" ++ sub_call_digest chain target call_data

  -- subCallNegKey
  unfoldable pub sub_call_neg_key : Text → Text → Text → Text
  unfolding sub_call_digest
  sub_call_neg_key chain target call_data =
      codes "sub:neg:v2:" ++ sub_call_digest chain target call_data

  unfoldable canonical_digest : Text → Text → Text → Text
  canonical_digest chain method params =
      codes "v3:" ++ hex_encode (sha256 (chain ++ (0 ∷ []) ++ method ++ (0 ∷ []) ++ params))

  -- CanonicalKey; none is its error
  unfoldable pub canonical_key : Text → Text → Raw → Option Text
  unfolding canonical_digest
  canonical_key chain method absent = some (canonical_digest chain method [])
  canonical_key chain method malformed = none
  canonical_key chain method (json params) = some (canonical_digest chain method (compact params))
