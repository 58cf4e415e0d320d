-- ===== src/Router/Place.antt =====
-- internal/router/router.go: the ids and the slots that the last loop of orderBatchResponses looks at.
use sabre.Common.{
  ℕ, zero, suc, ◌-◌, ◌<◌, ◌≡◌, ◌≢◌, inl, inr, refl, ap, true, false, List, [], ◌∷◌, Option, none,
  some, arith, length, get_elem?, get_or, set, replicate, Text, text_eq, text_eq_iff, Bool-cases,
  Option-cases,
}
use sabre.Rpc.{count}
use sabre.Router.{index_of, has_id, has_duplicate, is_set}
use sabre.Router.Order.{index_of-cons}

-- No id stands twice.
abbrev pub AreDistinct : List Text → Type 0
AreDistinct [] = Unit {0}
AreDistinct (x ∷ xs) = (count x xs ≡ 0) × AreDistinct xs

has_id-count : (id : Text) (xs : List Text) → has_id id xs ≡ false → count id xs ≡ 0
unfolding has_id count
has_id-count id [] e = refl
has_id-count id (x ∷ xs) e =
    let ih : has_id id xs ≡ false = ground arith in
    let apart : text_eq x id ≡ false = ground arith in
    rw apart (omega (arith, has_id-count id xs ih))

has_id-some : (id : Text) (xs : List Text) → has_id id xs ≡ true → 0 < count id xs
unfolding has_id count
has_id-some id [] e = absurd (ground arith)
has_id-some id (x ∷ xs) e = elim (Bool-cases (text_eq x id)) [
  | inl p ↦ rw p (omega arith)
  | inr p ↦ let h : has_id id xs ≡ true = ground arith in rw p (omega (arith, has_id-some id xs h))
]

pub has_duplicate-AreDistinct : (xs : List Text) → has_duplicate xs ≡ false → AreDistinct xs
unfolding has_duplicate
has_duplicate-AreDistinct [] e = tt
has_duplicate-AreDistinct (x ∷ xs) e =
    let h : has_id x xs ≡ false = ground arith in
    let t : has_duplicate xs ≡ false = ground arith in
    (has_id-count x xs h, has_duplicate-AreDistinct xs t)

pub has_duplicate-repeats : (xs : List Text) → has_duplicate xs ≡ true → AreDistinct xs → ⊥
unfolding has_duplicate
has_duplicate-repeats [] e d = absurd (ground arith)
has_duplicate-repeats (x ∷ xs) e d = elim (Bool-cases (has_id x xs)) [
  | inl p ↦ let c = has_id-some x xs p in absurd (omega (arith, c, d.0))
  | inr p ↦ let t : has_duplicate xs ≡ true = ground arith in has_duplicate-repeats xs t d.1
]

pub index_of-at :
    (id : Text) (ids : List Text) (i : ℕ) → index_of id ids ≡ some i → get_elem? ids i ≡ some id
unfolding index_of
index_of-at id [] i e = absurd (ground arith)
index_of-at id (x ∷ xs) i e = elim (index_of-cons id x xs i e) [
  | inl (p, z) ↦ rw z (ap (λ (t : Text). some t) p)
  | inr (q, z) ↦ rw z (index_of-at id xs (i - 1) q)
]

pub index_of-count :
    (id : Text) (ids : List Text) (i : ℕ) → index_of id ids ≡ some i → 0 < count id ids
unfolding index_of count
index_of-count id [] i e = absurd (ground arith)
index_of-count id (x ∷ xs) i e = elim (index_of-cons id x xs i e) [
  | inl (p, z) ↦ rw ((text_eq_iff x id).1 p) (omega arith)
  | inr (q, z) ↦ omega (arith, index_of-count id xs (i - 1) q)
]

pub index_of-none : (id : Text) (ids : List Text) → index_of id ids ≡ none → count id ids ≡ 0
unfolding index_of count
index_of-none id [] e = refl
index_of-none id (x ∷ xs) e = elim (Bool-cases (text_eq x id)) [
  | inl p ↦ let z : some 0 ≡ none = rw (index_of, p) at e in absurd (ground arith)
  | inr p ↦ elim (Option-cases (index_of id xs)) [
    | inl q ↦ rw p (omega (arith, index_of-none id xs q))
    | inr (j, q) ↦ let z : some (suc j) ≡ none = rw (index_of, p, q) at e in absurd (ground arith)
  ]
]

module _ {R : Type 0} where
  -- A slot that is filled stays so, and is filled by a write.
  pub set-unset :
      (slots : List (Option R)) (i j : ℕ) (r : R)
      → is_set (get_or (set slots i (some r)) j none) ≡ false
      → is_set (get_or slots j none) ≡ false
  set-unset [] i j r e = e
  set-unset (x ∷ xs) zero zero r e = absurd (ground arith)
  set-unset (x ∷ xs) zero (suc j) r e = e
  set-unset (x ∷ xs) (suc i) zero r e = e
  set-unset (x ∷ xs) (suc i) (suc j) r e = set-unset xs i j r e

  pub set-is_set :
      (slots : List (Option R)) (i : ℕ) (r : R)
      → i < length slots
      → is_set (get_or (set slots i (some r)) i none) ≡ true
  set-is_set [] i r h = elim h [ ]
  set-is_set (x ∷ xs) zero r h = refl
  set-is_set (x ∷ xs) (suc i) r h = set-is_set xs i r (omega arith)

  pub set-other :
      (slots : List (Option R)) (i j : ℕ) (r : R)
      → i ≢ j
      → is_set (get_or slots j none) ≡ false
      → is_set (get_or (set slots i (some r)) j none) ≡ false
  set-other [] i j r n e = e
  set-other (x ∷ xs) zero zero r n e = absurd (n refl)
  set-other (x ∷ xs) zero (suc j) r n e = e
  set-other (x ∷ xs) (suc i) zero r n e = e
  set-other (x ∷ xs) (suc i) (suc j) r n e = set-other xs i j r (λ s. n (ap suc s)) e

pub replicate-unset :
    (R : Type 0) (n i : ℕ) → is_set (get_or (replicate {A = Option R} n none) i none) ≡ false
replicate-unset R zero i = refl
replicate-unset R (suc n) zero = refl
replicate-unset R (suc n) (suc i) = replicate-unset R n i
