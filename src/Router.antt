-- ===== src/Router.antt =====
-- internal/router/router.go: the order of the responses of a batch. encoding/json is a parameter:
-- `id_of` is the raw id of a response, none where Unmarshal fails.
pub mod Order
pub mod Place
pub mod Slots
pub mod Permuted
use sabre.Common.{
  ℕ, zero, suc, Bool, true, false, not, ◌||◌, List, [], ◌∷◌, map, Option, none, some, ◌==◌,
  if◌then◌else◌, length, get_or, set, replicate, Text, text_eq, codes, is_empty,
}
use sabre.Batch.Wire.{trim_left, trim_right, is_space}

-- normalizeID
unfoldable pub normalize_id : Text → Text
unfolding trim_left trim_right
normalize_id id =
    let s = trim_right is_space (trim_left is_space id) in if is_empty s then codes "null" else s

-- pos[id]
unfoldable pub index_of : Text → List Text → Option ℕ
index_of id [] = none
index_of id (x ∷ xs) =
    if text_eq x id then some 0 else elim (index_of id xs) [ none ↦ none | some i ↦ some (suc i) ]

unfoldable pub has_id : Text → List Text → Bool
has_id id [] = false
has_id id (x ∷ xs) = text_eq x id || has_id id xs

-- Some id stands twice.
unfoldable pub has_duplicate : List Text → Bool
unfolding has_id
has_duplicate [] = false
has_duplicate (x ∷ xs) = has_id x xs || has_duplicate xs

abbrev pub is_set {ℓ} : {A : Type ℓ} → Option A → Bool
is_set none = false
is_set (some a) = true

module _ (R : Type 0) (id_of : R → Option Text) where
  -- The normalized id of a response.
  unfoldable pub response_id : R → Option Text
  unfolding normalize_id
  response_id r = elim (id_of r) [ none ↦ none | some id ↦ some (normalize_id id) ]

  unfoldable pub slot_of : List Text → Option Text → Option ℕ
  slot_of ids none = none
  slot_of ids (some id) = index_of id ids

  -- The last loop, over the slots of `ordered`; none is a return of the responses as they came.
  unfoldable pub place : List Text → List R → List (Option R) → Option (List (Option R))
  unfolding response_id slot_of
  place ids [] slots = some slots
  place ids (r ∷ rs) slots = elim (slot_of ids (response_id r)) [
    | none ↦ none
    | some i ↦
        let rest = place ids rs (set slots i (some r)) in
        if is_set (get_or slots i none) then none else rest
  ]

  unfoldable pub or_unordered : List R → Option (List (Option R)) → List (Option R)
  or_unordered responses none = map (λ (r : R). some r) responses
  or_unordered responses (some slots) = slots

  -- orderBatchResponses, with the ids of the requests; a slot that is none is nil.
  unfoldable pub order_batch_responses : List R → List Text → List (Option R)
  unfolding place or_unordered
  order_batch_responses responses request_ids =
      let ids = map normalize_id request_ids in
      if not (length responses == length request_ids) || has_duplicate ids
      then or_unordered responses none
      else or_unordered responses (place ids responses (replicate (length request_ids) none))
