-- ===== src/Router/Slots.antt =====
-- internal/router/router.go: the slots that the last loop of orderBatchResponses needs, and finds.
use sabre.Common.{
  ℕ, ◌+◌, ◌<◌, ◌≡◌, inl, inr, refl, sym, ap, subst, ◌∙◌, Bool, true, false, List, [], ◌∷◌, Option,
  none, some, arith, if◌then◌else◌, length, get_elem?, get_or, set, replicate, length-set, Text,
  text_eq, text_eq_iff, Bool-cases, Option-cases,
}
use sabre.Rpc.{count}
use sabre.Router.{index_of, is_set, response_id, slot_of, place}
use sabre.Router.Order.{index_of-lt}
use sabre.Router.Place.{
  index_of-at, index_of-count, index_of-none, set-unset, set-is_set, set-other, replicate-unset,
}

module _ (R : Type 0) (id_of : R → Option Text) where
  abbrev pub has_this_id : Option Text → Text → Bool
  has_this_id none t = false
  has_this_id (some u) t = text_eq u t

  -- How many responses have an id.
  unfoldable pub count_responses : Text → List R → ℕ
  count_responses t [] = 0
  count_responses t (r ∷ rs) =
      (if has_this_id (response_id R id_of r) t then 1 else 0) + count_responses t rs

  -- The id of a response is that of a request, and of no later response.
  abbrev pub IsOwn : List Text → Option Text → List R → Type 0
  IsOwn ids none rs = ⊥
  IsOwn ids (some t) rs = (0 < count t ids) × (count_responses t rs ≡ 0)

  -- Each response has an id, which is that of a request and of no other response.
  abbrev pub AreOwn : List Text → List R → Type 0
  AreOwn ids [] = Unit {0}
  AreOwn ids (r ∷ rs) = IsOwn ids (response_id R id_of r) rs × AreOwn ids rs

  -- The slot is there and not filled.
  abbrev pub IsFree : List (Option R) → Option ℕ → Type 0
  IsFree slots none = ⊥
  IsFree slots (some i) = is_set (get_or slots i none) ≡ false

  abbrev pub AreFree : List Text → List (Option R) → List R → Type 0
  AreFree ids slots [] = Unit {0}
  AreFree ids slots (r ∷ rs) =
      IsFree slots (slot_of R id_of ids (response_id R id_of r)) × AreFree ids slots rs

  AreFree-before :
      (ids : List Text) (slots : List (Option R)) (i : ℕ) (v : R) (rs : List R)
      → AreFree ids (set slots i (some v)) rs
      → AreFree ids slots rs
  AreFree-before ids slots i v [] f = tt
  AreFree-before ids slots i v (r ∷ rs) f =
      (one (slot_of R id_of ids (response_id R id_of r)) f.0, AreFree-before ids slots i v rs f.1)
    where
      one : (o : Option ℕ) → IsFree (set slots i (some v)) o → IsFree slots o
      one none h = h
      one (some j) h = set-unset slots i j v h

  -- Where the slot of an id is filled, no response with this id finds its own free.
  filled_once :
      (ids : List Text) (slots : List (Option R)) (i : ℕ) (t : Text) (rs : List R)
      → index_of t ids ≡ some i
      → is_set (get_or slots i none) ≡ true
      → AreFree ids slots rs
      → count_responses t rs ≡ 0
  unfolding count_responses slot_of
  filled_once ids slots i t [] at filled f = refl
  filled_once ids slots i t (r ∷ rs) at filled f =
      one (response_id R id_of r) f.0 (filled_once ids slots i t rs at filled f.1)
    where
      one :
          (o : Option Text)
          → IsFree slots (slot_of R id_of ids o)
          → count_responses t rs ≡ 0
          → (if has_this_id o t then 1 else 0) + count_responses t rs ≡ 0
      one none h n = omega (arith, n)
      one (some u) h n = elim (Bool-cases (text_eq u t)) [
        | inr e ↦ rw e (omega (arith, n))
        | inl e ↦
            let same : u ≡ t = (text_eq_iff u t).0 e in
            let z : is_set (get_or slots i none) ≡ false =
              subst (IsFree slots) (ap (λ (x : Text). index_of x ids) same ∙ at) h in
            absurd (ground arith)
      ]

  -- A write leaves the slots of other ids free.
  AreFree-after :
      (ids : List Text) (slots : List (Option R)) (i : ℕ) (t : Text) (v : R) (rs : List R)
      → index_of t ids ≡ some i
      → count_responses t rs ≡ 0
      → AreFree ids slots rs
      → AreFree ids (set slots i (some v)) rs
  unfolding count_responses slot_of
  AreFree-after ids slots i t v [] at n f = tt
  AreFree-after ids slots i t v (r ∷ rs) at n f =
      let d : has_this_id (response_id R id_of r) t ≡ false = ground arith in
      (one (response_id R id_of r) f.0 d, AreFree-after ids slots i t v rs at (omega arith) f.1)
    where
      other :
          (u : Text) (o : Option ℕ)
          → index_of u ids ≡ o
          → (text_eq u t ≡ false)
          → IsFree slots o
          → IsFree (set slots i (some v)) o
      other u none e d h = h
      other u (some j) e d h =
          set-other slots i j v
            (λ s.
              let a = index_of-at u ids j e in
              let b = index_of-at t ids i at in
              let c : some t ≡ some u = sym b ∙ ap (get_elem? ids) s ∙ a in
              let same : t ≡ u = cc in
              let y : text_eq u t ≡ true = (text_eq_iff u t).1 (sym same) in absurd (ground arith))
            h

      one :
          (o : Option Text)
          → IsFree slots (slot_of R id_of ids o)
          → has_this_id o t ≡ false
          → IsFree (set slots i (some v)) (slot_of R id_of ids o)
      one none h e = h
      one (some u) h e = other u (index_of u ids) refl e h

  -- The responses that find their slots have each an id of its own.
  pub place-AreOwn :
      (ids : List Text) (rs : List R) (slots out : List (Option R))
      → length slots ≡ length ids
      → place R id_of ids rs slots ≡ some out
      → AreOwn ids rs × AreFree ids slots rs
  unfolding place slot_of
  place-AreOwn ids [] slots out n e = (tt, tt)
  place-AreOwn ids (r ∷ rs) slots out n e = elim (Option-cases (response_id R id_of r)) [
    | inl q ↦ let z : none ≡ some out = rw (place, q) at e in absurd (ground arith)
    | inr (t, q) ↦ elim (Option-cases (index_of t ids)) [
      | inl p ↦ let z : none ≡ some out = rw (place, q, p) at e in absurd (ground arith)
      | inr (i, p) ↦ elim (Bool-cases (is_set (get_or slots i none))) [
        | inl b ↦ let z : none ≡ some out = rw (place, q, p, b) at e in absurd (ground arith)
        | inr b ↦
            let next : place R id_of ids rs (set slots i (some r)) ≡ some out =
              rw (place, q, p, b) at e in
            let ih =
              place-AreOwn ids rs (set slots i (some r)) out (length-set slots i (some r) ∙ n)
                next in
            let below : i < length slots = omega (arith, index_of-lt t ids i p, n) in
            let once =
              filled_once ids (set slots i (some r)) i t rs p (set-is_set slots i r below) ih.1 in
            let own : IsOwn ids (response_id R id_of r) rs =
              rw q (index_of-count t ids i p, once) in
            let free : IsFree slots (slot_of R id_of ids (response_id R id_of r)) =
              rw (q, slot_of, p) b in
            ((own, ih.0), (free, AreFree-before ids slots i r rs ih.1))
      ]
    ]
  ]

  -- Responses with an id of their own find their slots.
  pub AreOwn-place :
      (ids : List Text) (rs : List R) (slots : List (Option R))
      → AreOwn ids rs
      → AreFree ids slots rs
      → (out : List (Option R)) × (place R id_of ids rs slots ≡ some out)
  unfolding place slot_of
  AreOwn-place ids [] slots a f = (slots, refl)
  AreOwn-place ids (r ∷ rs) slots a f =
      one (response_id R id_of r) refl a.0 f.0
        (λ i g. AreOwn-place ids rs (set slots i (some r)) a.1 g)
    where
      Placed : List R → List (Option R) → Type 0
      Placed qs given = (out : List (Option R)) × (place R id_of ids qs given ≡ some out)

      next :
          (t : Text) (i : ℕ)
          → response_id R id_of r ≡ some t
          → index_of t ids ≡ some i
          → is_set (get_or slots i none) ≡ false
          → Placed rs (set slots i (some r))
          → Placed (r ∷ rs) slots
      next t i q p unset x = (x.0, rw (place, q, p, unset) x.1)

      found :
          (t : Text) (o : Option ℕ)
          → response_id R id_of r ≡ some t
          → index_of t ids ≡ o
          → count_responses t rs ≡ 0
          → IsFree slots o
          → ((i : ℕ) → AreFree ids (set slots i (some r)) rs → Placed rs (set slots i (some r)))
          → Placed (r ∷ rs) slots
      found t none q p n h rec = elim h [ ]
      found t (some i) q p n h rec =
          next t i q p h (rec i (AreFree-after ids slots i t r rs p n f.1))

      one :
          (o : Option Text)
          → response_id R id_of r ≡ o
          → IsOwn ids o rs
          → IsFree slots (slot_of R id_of ids o)
          → ((i : ℕ) → AreFree ids (set slots i (some r)) rs → Placed rs (set slots i (some r)))
          → Placed (r ∷ rs) slots
      one none q own h rec = elim own [ ]
      one (some t) q own h rec = found t (index_of t ids) q refl own.1 h rec

  -- Before the loop, all slots are free.
  pub AreOwn-AreFree :
      (ids : List Text) (n : ℕ) (rs : List R) → AreOwn ids rs → AreFree ids (replicate n none) rs
  unfolding slot_of
  AreOwn-AreFree ids n [] a = tt
  AreOwn-AreFree ids n (r ∷ rs) a = (one (response_id R id_of r) a.0, AreOwn-AreFree ids n rs a.1)
    where
      found :
          (t : Text) (o : Option ℕ)
          → index_of t ids ≡ o
          → 0 < count t ids
          → IsFree (replicate n none) o
      found t none e h = let z = index_of-none t ids e in absurd (omega (arith, z, h))
      found t (some i) e h = replicate-unset R n i

      one : (o : Option Text) → IsOwn ids o rs → IsFree (replicate n none) (slot_of R id_of ids o)
      one none h = h
      one (some t) h = found t (index_of t ids) refl h.0
