-- ===== src/Batch/Queue/Open.antt =====
-- internal/backend/batch.go: the map of the open batches, and how its operations keep them open.
use sabre.Common.{
  ℕ, zero, suc, ◌≤◌, ◌<◌, ◌≡◌, ◌≢◌, ◌⊎◌, inl, inr, refl, sym, ap, subst, ◌∙◌, Bool, true, false,
  List, [], ◌∷◌, ◌++◌, Option, none, some, arith, ◌==◌, if◌then◌else◌, length, Bool-cases, ==_iff,
  get_elem?, get_elem?-set_self, get_elem?-set_ne, set, Text, text_eq, text_eq_iff, All,
}
use sabre.Batch.Queue.{
  BatchEntry, Phase, waiting, claimed, taken, Batch, Queue, find_batch, delete_batch,
}

-- An open batch, as the map of the processor holds it.
abbrev pub IsOpen : ℕ → Text → Option Batch → Type 0
IsOpen max url none = ⊥
IsOpen max url (some b) =
    b.closed ≡ false × b.phase ≡ waiting × b.backend_url ≡ url × length b.entries < max

-- The snapshot of a batch holds all its entries.
abbrev pub IsSnapshot : Phase → List BatchEntry → Type 0
IsSnapshot waiting entries = Unit
IsSnapshot claimed entries = Unit
IsSnapshot (taken es) entries = es ≡ entries

abbrev pub IsSound : ℕ → Batch → Type 0
IsSound max b = length b.entries ≤ max × IsSnapshot b.phase b.entries

-- No key is the url.
abbrev pub Lacks : Text → List (Text × ℕ) → Type 0
Lacks url [] = Unit
Lacks url ((k, i) ∷ m) = text_eq k url ≡ false × Lacks url m

abbrev pub AreOpen : ℕ → List Batch → List (Text × ℕ) → Type 0
AreOpen max heap [] = Unit
AreOpen max heap ((url, i) ∷ m) =
    IsOpen max url (get_elem? heap i) × Lacks url m × AreOpen max heap m

-- Each url has at most one batch in the map, which is not dispatched, not claimed and not full; no batch is
-- above the maximum, and every snapshot is complete.
pub record IsQueue (max : ℕ) (q : Queue) : Type 0 where
  pub open_batches : AreOpen max q.heap q.batches
  pub sound : All (IsSound max) q.heap

abbrev pub Among : Text → ℕ → List (Text × ℕ) → Type 0
Among url i [] = ⊥
Among url i ((k, j) ∷ m) = (k ≡ url × j ≡ i) ⊎ Among url i m

pub Lacks-Among : (url k : Text) (i : ℕ) (m : List (Text × ℕ)) → Lacks url m → Among k i m → k ≢ url
Lacks-Among url k i [] h a = elim a [ ]
Lacks-Among url k i ((l, j) ∷ m) h (inl e) =
    λ p. let same : text_eq l url ≡ true = (text_eq_iff l url).1 (e.0 ∙ p) in absurd (ground arith)
Lacks-Among url k i ((l, j) ∷ m) h (inr a) = Lacks-Among url k i m h.1 a

get_elem?-some :
    (heap : List Batch) (i : ℕ) (b : Batch) → get_elem? heap i ≡ some b → i < length heap
get_elem?-some [] i b e = absurd (ground arith)
get_elem?-some (x ∷ xs) zero b e = omega arith
get_elem?-some (x ∷ xs) (suc i) b e = omega (arith, get_elem?-some xs i b e)

pub get-set_at :
    (heap : List Batch) (i : ℕ) (b c : Batch)
    → get_elem? heap i ≡ some b
    → get_elem? (set heap i c) i ≡ some c
get-set_at heap i b c e = get_elem?-set_self heap i c (get_elem?-some heap i b e)

-- One batch changes; where it is in the map, it stays open.
pub AreOpen-set :
    (max : ℕ) (heap : List Batch) (i : ℕ) (b c : Batch) (m : List (Text × ℕ))
    → get_elem? heap i ≡ some b
    → ((k : Text) → Among k i m → IsOpen max k (some b) → IsOpen max k (some c))
    → AreOpen max heap m
    → AreOpen max (set heap i c) m
AreOpen-set max heap i b c [] e h o = tt
AreOpen-set max heap i b c ((k, j) ∷ m) e h o =
    (here (Bool-cases (i == j)), o.1, AreOpen-set max heap i b c m e (λ l a. h l (inr a)) o.2)
  where
    here : ((i == j) ≡ true) ⊎ ((i == j) ≡ false) → IsOpen max k (get_elem? (set heap i c) j)
    here (inl s) =
        let same : i ≡ j = (==_iff i j).0 s in
        let before : IsOpen max k (some b) =
          subst (IsOpen max k) (ap (get_elem? heap) (sym same) ∙ e) o.0 in
        subst (λ (n : ℕ). IsOpen max k (get_elem? (set heap i c) n)) same
          (subst (IsOpen max k) (sym (get-set_at heap i b c e)) (h k (inl (refl, sym same)) before))
    here (inr n) =
        let apart : i ≢ j =
          λ s. let t : (i == j) ≡ true = (==_iff i j).1 s in absurd (ground arith) in
        subst (IsOpen max k) (sym (get_elem?-set_ne heap c apart)) o.0

Lacks-delete : (k url : Text) (m : List (Text × ℕ)) → Lacks k m → Lacks k (delete_batch url m)
unfolding delete_batch
Lacks-delete k url [] h = tt
Lacks-delete k url ((l, i) ∷ m) h = go (text_eq l url) (Lacks-delete k url m h.1)
  where
    rest : List (Text × ℕ)
    rest = delete_batch url m

    go : (b : Bool) → Lacks k rest → Lacks k (if b then rest else (l, i) ∷ rest)
    go true r = r
    go false r = (h.0, r)

pub AreOpen-delete :
    (max : ℕ) (heap : List Batch) (url : Text) (m : List (Text × ℕ))
    → AreOpen max heap m
    → AreOpen max heap (delete_batch url m) × Lacks url (delete_batch url m)
unfolding delete_batch
AreOpen-delete max heap url [] o = (tt, tt)
AreOpen-delete max heap url ((k, i) ∷ m) o =
    go (text_eq k url) refl (AreOpen-delete max heap url m o.2)
  where
    rest : List (Text × ℕ)
    rest = delete_batch url m

    go :
        (b : Bool)
        → text_eq k url ≡ b
        → AreOpen max heap rest × Lacks url rest
        → AreOpen max heap (if b then rest else (k, i) ∷ rest)
          × Lacks url (if b then rest else (k, i) ∷ rest)
    go true e h = h
    go false e h = ((o.0, Lacks-delete k url m o.1, h.0), (e, h.1))

IsOpen-append :
    (max : ℕ) (k : Text) (b : Batch) (heap : List Batch) (i : ℕ)
    → IsOpen max k (get_elem? heap i)
    → IsOpen max k (get_elem? (heap ++ b ∷ []) i)
IsOpen-append max k b [] i h = elim h [ ]
IsOpen-append max k b (x ∷ xs) zero h = h
IsOpen-append max k b (x ∷ xs) (suc i) h = IsOpen-append max k b xs i h

pub AreOpen-append :
    (max : ℕ) (heap : List Batch) (b : Batch) (m : List (Text × ℕ))
    → AreOpen max heap m
    → AreOpen max (heap ++ b ∷ []) m
AreOpen-append max heap b [] o = tt
AreOpen-append max heap b ((k, i) ∷ m) o =
    (IsOpen-append max k b heap i o.0, o.1, AreOpen-append max heap b m o.2)

pub find-IsOpen :
    (max : ℕ) (heap : List Batch) (url : Text) (i : ℕ) (m : List (Text × ℕ))
    → AreOpen max heap m
    → find_batch url m ≡ some i
    → IsOpen max url (get_elem? heap i)
unfolding find_batch
find-IsOpen max heap url i [] o e = absurd (ground arith)
find-IsOpen max heap url i ((k, j) ∷ m) o e =
    go (text_eq k url) refl (find-IsOpen max heap url i m o.2) e
  where
    go :
        (b : Bool)
        → text_eq k url ≡ b
        → (find_batch url m ≡ some i → IsOpen max url (get_elem? heap i))
        → (if b then some j else find_batch url m) ≡ some i
        → IsOpen max url (get_elem? heap i)
    go true t rec h =
        let same : j ≡ i = cc in
        subst (λ (n : ℕ). IsOpen max url (get_elem? heap n)) same
          (subst (λ (l : Text). IsOpen max l (get_elem? heap j)) ((text_eq_iff k url).0 t) o.0)
    go false t rec h = rec h

pub find-Lacks : (url : Text) (m : List (Text × ℕ)) → find_batch url m ≡ none → Lacks url m
unfolding find_batch
find-Lacks url [] e = tt
find-Lacks url ((k, j) ∷ m) e = go (text_eq k url) refl (find-Lacks url m) e
  where
    go :
        (b : Bool)
        → text_eq k url ≡ b
        → (find_batch url m ≡ none → Lacks url m)
        → (if b then some j else find_batch url m) ≡ none
        → text_eq k url ≡ false × Lacks url m
    go true t rec h = absurd (ground arith)
    go false t rec h = (t, rec h)

pub Among-find :
    (max : ℕ) (heap : List Batch) (url : Text) (i : ℕ) (m : List (Text × ℕ))
    → AreOpen max heap m
    → Among url i m
    → find_batch url m ≡ some i
unfolding find_batch
Among-find max heap url i [] o a = elim a [ ]
Among-find max heap url i ((k, j) ∷ m) o (inl e) = rw ((text_eq_iff k url).1 e.0, e.1) refl
Among-find max heap url i ((k, j) ∷ m) o (inr a) =
    let apart : url ≢ k = Lacks-Among k url i m o.1 a in
    go (text_eq k url) refl apart (Among-find max heap url i m o.2 a)
  where
    go :
        (b : Bool)
        → text_eq k url ≡ b
        → url ≢ k
        → find_batch url m ≡ some i
        → (if b then some j else find_batch url m) ≡ some i
    go true t n e = absurd (n (sym ((text_eq_iff k url).0 t)))
    go false t n e = e
