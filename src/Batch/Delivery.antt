-- ===== src/Batch/Delivery.antt =====
-- internal/backend/batch.go: the end of processBatch, which hands the responses of a batch to its
-- callers. What a response holds besides its id is a parameter, and so is the error that a caller
-- gets who has no response. `sent` lists the sends on the
-- callers' channels, the last one first, with the entry's index.
pub mod Once
use sabre.Common.{
  ℕ, zero, suc, ◌+◌, ◌<◌, ◌≤◌, ◌≡◌, refl, sym, ap, ◌∙◌, Bool, true, false, not, ◌&&◌, ◌||◌, List,
  [], ◌∷◌, ◌++◌, Option, none, some, arith, ltb, leb, ◌==◌, if◌then◌else◌, length, get_or, set,
  replicate, Text, Bool-cases, inl, inr,
}
use sabre.Multicall.Word.{slt}
use sabre.Batch.Wire.{parse_wire_id}

module _ (Body : Type 0) where
  pub record Response : Type 0 where
    pub id : Text
    pub body : Body

  pub record Delivery : Type 0 where
    pub delivered : List Bool
    pub sent : List (ℕ × Response)

  -- The id of the caller's own request.
  unfoldable pub send : List Text → ℕ → Body → Delivery → Delivery
  send ids idx body d = record {
    delivered = set d.delivered idx true;
    sent = (idx, record { id = get_or ids idx []; body = body }) ∷ d.sent;
  }

  unfoldable pub deliver_one : List Text → Response → Delivery → Delivery
  unfolding send
  deliver_one ids resp d = elim (parse_wire_id resp.id) [
    | none ↦ d
    | some idx ↦
        if slt idx 0 || not (slt idx (length ids)) || get_or d.delivered idx false
        then d
        else send ids idx resp.body d
  ]

  unfoldable pub deliver_all : List Text → List Response → Delivery → Delivery
  unfolding deliver_one
  deliver_all ids [] d = d
  deliver_all ids (resp ∷ resps) d = deliver_all ids resps (deliver_one ids resp d)

  -- The last loop: from the entry i on, the entries with no response get the error.
  unfoldable pub answer_missing :
      List Text → Body → ℕ → List Bool → List (ℕ × Response) → List (ℕ × Response)
  answer_missing ids missing i [] sent = sent
  answer_missing ids missing i (true ∷ bs) sent = answer_missing ids missing (i + 1) bs sent
  answer_missing ids missing i (false ∷ bs) sent =
      answer_missing ids missing (i + 1) bs
        ((i, record { id = get_or ids i []; body = missing }) ∷ sent)

  -- if err != nil, every entry gets the error
  unfoldable pub answer_failure : List Text → Body → List (ℕ × Response)
  unfolding answer_missing
  answer_failure ids failure = answer_missing ids failure 0 (replicate (length ids) false) []

  -- From sendBatch's answer on; `none` is its error.
  unfoldable pub finish : List Text → Body → Body → Option (List Response) → List (ℕ × Response)
  unfolding answer_failure deliver_all answer_missing
  finish ids failure missing none = answer_failure ids failure
  finish ids failure missing (some responses) =
      let d : Delivery =
        deliver_all ids responses
          (record { delivered = replicate (length ids) false; sent = [] }) in
      answer_missing ids missing 0 d.delivered d.sent
