-- ===== src/Batch/Delivery/Once.antt =====
-- internal/backend/batch.go: processBatch answers every caller once, under the caller's own id.
use sabre.Common.{
  ℕ, zero, suc, ◌+◌, ◌<◌, ◌≡◌, refl, sym, ap, ◌∙◌, Bool, true, false, not, ◌&&◌, ◌||◌, List, [],
  ◌∷◌, Option, none, some, arith, ltb, ◌==◌, length, get_or, set, replicate, length-set,
  length-replicate, Text, Bool-cases, Option-cases, inl, inr,
}
use sabre.Multicall.Word.{slt, sign_bit, word_mod}
use sabre.Batch.Wire.{parse_wire_id, parse_wire_id-lt}
use sabre.Batch.Delivery.{
  Response, Delivery, send, deliver_one, deliver_all, answer_missing, answer_failure, finish,
}

abbrev pub one_if : Bool → ℕ
one_if true = 1
one_if false = 0

get_or-set :
    (bs : List Bool) (i j : ℕ)
    → i < length bs
    → get_or (set bs i true) j false ≡ (i == j || get_or bs j false)
get_or-set [] i j h = elim h [ ]
get_or-set (b ∷ bs) zero zero h = refl
get_or-set (b ∷ bs) zero (suc j) h = let e : (0 == suc j) ≡ false = ground arith in rw e refl
get_or-set (b ∷ bs) (suc i) zero h = let e : (suc i == 0) ≡ false = ground arith in rw e refl
get_or-set (b ∷ bs) (suc i) (suc j) h =
    let same : (suc i == suc j) ≡ (i == j) = ground arith in
    get_or-set bs i j (omega arith) ∙ ap (λ (x : Bool). x || get_or bs j false) (sym same)

get_or-replicate : (n j : ℕ) → get_or (replicate n false) j false ≡ false
get_or-replicate zero j = refl
get_or-replicate (suc n) zero = refl
get_or-replicate (suc n) (suc j) = get_or-replicate n j

module _ (Body : Type 0) where
  -- How many sends the entry j gets.
  unfoldable pub count : ℕ → List (ℕ × Response Body) → ℕ
  count j [] = 0
  count j ((i, r) ∷ sent) = one_if (i == j) + count j sent

  -- Every send carries the entry's own id.
  abbrev pub Stamped : List Text → List (ℕ × Response Body) → Type 0
  Stamped ids [] = Unit {0}
  Stamped ids ((i, r) ∷ sent) = (r.id ≡ get_or ids i []) × Stamped ids sent

  -- An entry that is marked as delivered has been sent one response, any other none.
  record Tally (ids : List Text) (d : Delivery Body) : Type 0 where
    entries : length d.delivered ≡ length ids
    once : (j : ℕ) → count j d.sent ≡ one_if (get_or d.delivered j false)
    stamped : Stamped ids d.sent

  one_if-or : (a b : Bool) → (a ≡ true → b ≡ false) → one_if (a || b) ≡ one_if a + one_if b
  one_if-or true true h = absurd (ground arith)
  one_if-or true false h = refl
  one_if-or false b h = omega arith

  send-Tally :
      (ids : List Text) (idx : ℕ) (body : Body) (d : Delivery Body)
      → idx < length ids
      → get_or d.delivered idx false ≡ false
      → Tally ids d
      → Tally ids (send Body ids idx body d)
  unfolding send count
  send-Tally ids idx body d below new t = record {
    entries = length-set d.delivered idx true ∙ t.entries;
    once = λ j.
        let mark : get_or (set d.delivered idx true) j false
            ≡ (idx == j || get_or d.delivered j false) =
          get_or-set d.delivered idx j (omega (arith, t.entries)) in
        let fresh : (idx == j) ≡ true → get_or d.delivered j false ≡ false = λ e.
          let same : idx ≡ j = ground arith in
          ap (λ (k : ℕ). get_or d.delivered k false) (sym same) ∙ new in
        omega (
          arith,
          t.once j,
          ap one_if mark,
          one_if-or (idx == j) (get_or d.delivered j false) fresh,
        );
    stamped = (refl, t.stamped);
  }

  or_false : (a b c : Bool) → (a || not b || c) ≡ false → (a ≡ false) × (b ≡ true) × (c ≡ false)
  or_false false true false e = (refl, refl, refl)
  or_false true b c e = ground arith
  or_false false false c e = ground arith
  or_false false true true e = ground arith

  in_range : (i n : ℕ) → i < word_mod → n < sign_bit → slt i 0 ≡ false → slt i n ≡ true → i < n
  unfolding slt
  in_range i n w small up below = ground arith

  deliver_one-Tally :
      (ids : List Text) (resp : Response Body) (d : Delivery Body)
      → length ids < sign_bit
      → Tally ids d
      → Tally ids (deliver_one Body ids resp d)
  unfolding deliver_one
  deliver_one-Tally ids resp d small t = elim (Option-cases (parse_wire_id resp.id)) [
    | inl e ↦ rw (e, deliver_one) t
    | inr (idx, e) ↦
        rw (e, deliver_one)
          (elim (Bool-cases
            (slt idx 0 || not (slt idx (length ids)) || get_or d.delivered idx false)) [
              | inl f ↦ rw f t
              | inr f ↦
                  let g : (slt idx 0 ≡ false)
                      × (slt idx (length ids) ≡ true)
                      × (get_or d.delivered idx false ≡ false) =
                    or_false (slt idx 0) (slt idx (length ids)) (get_or d.delivered idx false) f in
                  rw f (
                    send-Tally ids idx resp.body d
                      (in_range idx (length ids) (parse_wire_id-lt resp.id idx e) small g.0 g.1) g.2
                      t)
            ])
  ]

  deliver_all-Tally :
      (ids : List Text) (resps : List (Response Body)) (d : Delivery Body)
      → length ids < sign_bit
      → Tally ids d
      → Tally ids (deliver_all Body ids resps d)
  unfolding deliver_all
  deliver_all-Tally ids [] d small t = t
  deliver_all-Tally ids (resp ∷ resps) d small t =
      deliver_all-Tally ids resps (deliver_one Body ids resp d) small
        (deliver_one-Tally ids resp d small t)

  -- What the last loop sends to the entry j.
  owed : ℕ → List Bool → ℕ → ℕ
  owed i [] j = 0
  owed i (b ∷ bs) j = one_if (i == j && not b) + owed (i + 1) bs j

  count-answer_missing :
      (ids : List Text) (missing : Body) (i : ℕ) (bs : List Bool) (sent : List (ℕ × Response Body))
      (j : ℕ)
      → count j (answer_missing Body ids missing i bs sent) ≡ owed i bs j + count j sent
  unfolding answer_missing count owed
  count-answer_missing ids missing i [] sent j = omega arith
  count-answer_missing ids missing i (true ∷ bs) sent j =
      count-answer_missing ids missing (i + 1) bs sent j ∙ ground arith
  count-answer_missing ids missing i (false ∷ bs) sent j =
      count-answer_missing ids missing (i + 1) bs _ j ∙ ground arith

  owed_before : (i : ℕ) (bs : List Bool) (j : ℕ) → j < i → owed i bs j ≡ 0
  unfolding owed
  owed_before i [] j h = refl
  owed_before i (b ∷ bs) j h =
      let e : (i == j) ≡ false = ground arith in
      rw e (omega (arith, owed_before (i + 1) bs j (omega arith)))

  owed_lem :
      (i : ℕ) (bs : List Bool) (k : ℕ)
      → owed i bs (i + k) + one_if (get_or bs k false) ≡ one_if (ltb k (length bs))
  unfolding owed
  owed_lem i [] k = ground arith
  owed_lem i (b ∷ bs) zero =
      let same : (i == i + 0) ≡ true = ground arith in
      let gone : owed (i + 1) bs (i + 0) ≡ 0 = owed_before (i + 1) bs (i + 0) (omega arith) in
      rw (same, gone) (one_of b)
    where
      one_of : (b : Bool) → one_if (not b) + 0 + one_if b ≡ one_if (ltb 0 (suc (length bs)))
      one_of true = ground arith
      one_of false = ground arith
  owed_lem i (b ∷ bs) (suc k) =
      let differ : (i == i + suc k) ≡ false = ground arith in
      let shift : owed (i + 1) bs (i + suc k) ≡ owed (i + 1) bs (i + 1 + k) =
        ap (owed (i + 1) bs) (omega arith) in
      let step : ltb k (length bs) ≡ ltb (suc k) (suc (length bs)) = ground arith in
      let next : owed (i + 1) bs (i + 1 + k) + one_if (get_or bs k false)
          ≡ one_if (ltb k (length bs)) =
        owed_lem (i + 1) bs k in
      rw differ (omega (arith, shift, next, ap one_if step))

  answer_missing-Stamped :
      (ids : List Text) (missing : Body) (i : ℕ) (bs : List Bool) (sent : List (ℕ × Response Body))
      → Stamped ids sent
      → Stamped ids (answer_missing Body ids missing i bs sent)
  unfolding answer_missing
  answer_missing-Stamped ids missing i [] sent w = w
  answer_missing-Stamped ids missing i (true ∷ bs) sent w =
      answer_missing-Stamped ids missing (i + 1) bs sent w
  answer_missing-Stamped ids missing i (false ∷ bs) sent w =
      answer_missing-Stamped ids missing (i + 1) bs _ (refl, w)

  start-Tally :
      (ids : List Text) → Tally ids (record { delivered = replicate (length ids) false; sent = [] })
  unfolding count
  start-Tally ids = record {
    entries = length-replicate (length ids) false;
    once = λ j. ap one_if (sym (get_or-replicate (length ids) j));
    stamped = tt;
  }

  closing :
      (ids : List Text) (missing : Body) (d : Delivery Body) (j : ℕ)
      → Tally ids d
      → count j (answer_missing Body ids missing 0 d.delivered d.sent) ≡ one_if (ltb j (length ids))
  closing ids missing d j t =
      count-answer_missing ids missing 0 d.delivered d.sent j
      ∙ ap (λ (n : ℕ). owed 0 d.delivered j + n) (t.once j)
      ∙ ap (λ (k : ℕ). owed 0 d.delivered k + one_if (get_or d.delivered j false)) (omega arith)
      ∙ owed_lem 0 d.delivered j
      ∙ ap (λ (n : ℕ). one_if (ltb j n)) t.entries

  -- However the upstream answers a batch (with an error, with responses in any order, with some
  -- missing, repeated or under ids that are no entry's), each entry is sent one response and no
  -- response goes to an index that is no entry's. The batch has fewer than 2 ^ 63 entries.
  pub finish-once :
      (ids : List Text) (failure missing : Body) (answer : Option (List (Response Body))) (j : ℕ)
      → length ids < sign_bit
      → count j (finish Body ids failure missing answer) ≡ one_if (ltb j (length ids))
  unfolding finish answer_failure
  finish-once ids failure missing none j small = closing ids failure _ j (start-Tally ids)
  finish-once ids failure missing (some resps) j small =
      closing ids missing _ j (deliver_all-Tally ids resps _ small (start-Tally ids))

  -- Every response that a caller of a batch of fewer than 2 ^ 63 entries is sent carries the id of
  -- the caller's own request.
  pub finish-Stamped :
      (ids : List Text) (failure missing : Body) (answer : Option (List (Response Body)))
      → length ids < sign_bit
      → Stamped ids (finish Body ids failure missing answer)
  unfolding finish answer_failure
  finish-Stamped ids failure missing none small =
      answer_missing-Stamped ids failure 0 (replicate (length ids) false) [] tt
  finish-Stamped ids failure missing (some resps) small =
      let d : Delivery Body =
        deliver_all Body ids resps
          (record { delivered = replicate (length ids) false; sent = [] }) in
      answer_missing-Stamped ids missing 0 d.delivered d.sent
        (deliver_all-Tally ids resps _ small (start-Tally ids)).stamped
