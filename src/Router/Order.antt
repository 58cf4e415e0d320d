-- ===== src/Router/Order.antt =====
-- internal/router/router.go: the last loop of orderBatchResponses puts each response in the slot of the
-- request with its id.
use sabre.Common.{
  ℕ, zero, suc, ◌+◌, ◌-◌, ◌<◌, ◌≡◌, ◌⊎◌, inl, inr, refl, sym, subst, ap, ◌∙◌, false, List, [], ◌∷◌,
  Option, none, some, arith, length, get_or, set, replicate, length-set, Text, text_eq, text_eq_iff,
  Bool-cases, Option-cases,
}
use sabre.Router.{index_of, is_set, response_id, slot_of, place}

pub index_of-cons :
    (id x : Text) (xs : List Text) (i : ℕ)
    → index_of id (x ∷ xs) ≡ some i
    → ((x ≡ id) × (i ≡ 0)) ⊎ ((index_of id xs ≡ some (i - 1)) × (i ≡ suc (i - 1)))
unfolding index_of
index_of-cons id x xs i e = elim (Bool-cases (text_eq x id)) [
  | inl p ↦
      let z : some 0 ≡ some i = rw (index_of, p) at e in inl ((text_eq_iff x id).0 p, ground arith)
  | inr p ↦ inr (elim (Option-cases (index_of id xs)) [
    | inl q ↦ let z : none ≡ some i = rw (index_of, p, q) at e in absurd (ground arith)
    | inr (j, q) ↦
        let z : some (suc j) ≡ some i = rw (index_of, p, q) at e in
        let same : suc j ≡ i = ground arith in
        (q ∙ ap (λ (k : ℕ). some k) (omega arith), omega arith)
  ])
]

pub index_of-lt : (id : Text) (ids : List Text) (i : ℕ) → index_of id ids ≡ some i → i < length ids
unfolding index_of
index_of-lt id [] i e = ground arith
index_of-lt id (x ∷ xs) i e = elim (index_of-cons id x xs i e) [
  | inl (p, z) ↦ omega arith
  | inr (q, z) ↦ let h : i - 1 < length xs = index_of-lt id xs (i - 1) q in omega arith
]

module _ (R : Type 0) (id_of : R → Option Text) where
  -- A slot that is set holds a response with the id of its request.
  abbrev pub AreMatched : List Text → List (Option R) → Type 0
  AreMatched [] slots = Unit {0}
  AreMatched (id ∷ ids) [] = Unit {0}
  AreMatched (id ∷ ids) (none ∷ slots) = AreMatched ids slots
  AreMatched (id ∷ ids) (some r ∷ slots) = (response_id R id_of r ≡ some id) × AreMatched ids slots

  unfoldable pub count_set : List (Option R) → ℕ
  count_set [] = 0
  count_set (none ∷ slots) = count_set slots
  count_set (some r ∷ slots) = suc (count_set slots)

  count_set-set :
      (slots : List (Option R)) (i : ℕ) (r : R)
      → i < length slots
      → is_set (get_or slots i none) ≡ false
      → count_set (set slots i (some r)) ≡ suc (count_set slots)
  unfolding count_set
  count_set-set [] i r h e = elim h [ ]
  count_set-set (none ∷ slots) zero r h e = refl
  count_set-set (some x ∷ slots) zero r h e = ground arith
  count_set-set (none ∷ slots) (suc i) r h e = count_set-set slots i r (omega arith) e
  count_set-set (some x ∷ slots) (suc i) r h e = ap suc (count_set-set slots i r (omega arith) e)

  rest :
      (x : Text) (xs : List Text) (s : Option R) (slots : List (Option R))
      → AreMatched (x ∷ xs) (s ∷ slots)
      → AreMatched xs slots
  rest x xs none slots m = m
  rest x xs (some y) slots m = m.1

  keep_first :
      (x : Text) (xs : List Text) (s : Option R) (slots others : List (Option R))
      → AreMatched (x ∷ xs) (s ∷ slots)
      → AreMatched xs others
      → AreMatched (x ∷ xs) (s ∷ others)
  keep_first x xs none slots others m n = n
  keep_first x xs (some y) slots others m n = (m.0, n)

  AreMatched-set :
      (ids : List Text) (slots : List (Option R)) (i : ℕ) (r : R) (id : Text)
      → index_of id ids ≡ some i
      → response_id R id_of r ≡ some id
      → AreMatched ids slots
      → AreMatched ids (set slots i (some r))
  unfolding index_of
  AreMatched-set [] slots i r id e f m = tt
  AreMatched-set (x ∷ xs) [] i r id e f m = tt
  AreMatched-set (x ∷ xs) (s ∷ slots) i r id e f m = elim (index_of-cons id x xs i e) [
    | inl (p, z) ↦ rw z (f ∙ ap (λ (t : Text). some t) (sym p), rest x xs s slots m)
    | inr (q, z) ↦
        subst (λ (k : ℕ). AreMatched (x ∷ xs) (set (s ∷ slots) k (some r))) (sym z)
          (keep_first x xs s slots (set slots (i - 1) (some r)) m
            (AreMatched-set xs slots (i - 1) r id q f (rest x xs s slots m)))
  ]

  pub AreMatched-replicate : (ids : List Text) (n : ℕ) → AreMatched ids (replicate n none)
  AreMatched-replicate [] n = tt
  AreMatched-replicate (id ∷ ids) zero = tt
  AreMatched-replicate (id ∷ ids) (suc n) = AreMatched-replicate ids n

  pub count_set-replicate : (n : ℕ) → count_set (replicate n none) ≡ 0
  unfolding count_set
  count_set-replicate zero = refl
  count_set-replicate (suc n) = count_set-replicate n

  -- What the responses have been put into.
  pub record IsPlaced (ids : List Text) (placed : ℕ) (slots : List (Option R)) : Type 0 where
    pub size : length slots ≡ length ids
    pub filled : count_set slots ≡ placed
    pub matched : AreMatched ids slots

  pub place-IsPlaced :
      (ids : List Text) (rs : List R) (slots out : List (Option R)) (placed : ℕ)
      → place R id_of ids rs slots ≡ some out
      → IsPlaced ids placed slots
      → IsPlaced ids (placed + length rs) out
  unfolding place slot_of
  place-IsPlaced ids [] slots out placed e w =
      let same : slots ≡ out = ground arith in
      subst (λ (k : ℕ). IsPlaced ids k out) (omega arith)
        (subst (λ (o : List (Option R)). IsPlaced ids placed o) same w)
  place-IsPlaced ids (r ∷ rs) slots out placed e w = elim (Option-cases (response_id R id_of r)) [
    | inl q ↦ let z : none ≡ some out = rw (place, q) at e in absurd (ground arith)
    | inr (id, q) ↦ elim (Option-cases (index_of id ids)) [
      | inl p ↦ let z : none ≡ some out = rw (place, q, p) at e in absurd (ground arith)
      | inr (i, p) ↦ elim (Bool-cases (is_set (get_or slots i none))) [
        | inl b ↦ let z : none ≡ some out = rw (place, q, p, b) at e in absurd (ground arith)
        | inr b ↦
            let next : place R id_of ids rs (set slots i (some r)) ≡ some out =
              rw (place, q, p, b) at e in
            let below : i < length slots = omega (arith, index_of-lt id ids i p, w.size) in
            subst (λ (k : ℕ). IsPlaced ids k out) (omega arith)
              (place-IsPlaced ids rs (set slots i (some r)) out (suc placed) next (record {
                size = length-set slots i (some r) ∙ w.size;
                filled = count_set-set slots i r below b ∙ ap suc w.filled;
                matched = AreMatched-set ids slots i r id p q w.matched;
              }))
      ]
    ]
  ]
