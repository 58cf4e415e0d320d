-- ===== src/Cache/Heights.antt =====
-- A Go map[uint64]string from block numbers to hashes, as cache.go and stream.go use it: at most
-- one entry for a number. The program ranges over such a map only to delete.
use sabre.Common.{
  subst, ℕ, zero, suc, ◌+◌, ◌≤◌, ◌≡◌, ◌≢◌, refl, List, [], ◌∷◌, Option, none, some, arith, ltb,
  ◌==◌, if◌then◌else◌, length, Text, Bool-cases, inl, inr,
}

abbrev pub Heights : Type 0
Heights = List (ℕ × Text)

unfoldable pub find : ℕ → Heights → Option Text
find n [] = none
find n ((m, h) ∷ hs) = if m == n then some h else find n hs

-- hs[n] = h
unfoldable pub put : ℕ → Text → Heights → Heights
put n h [] = (n, h) ∷ []
put n h ((m, g) ∷ hs) = if m == n then (n, h) ∷ hs else (m, g) ∷ put n h hs

-- for m := range hs { if m < cutoff { delete(hs, m) } }
unfoldable pub delete_below : ℕ → Heights → Heights
delete_below cutoff [] = []
delete_below cutoff ((m, h) ∷ hs) =
    let rest = delete_below cutoff hs in if ltb m cutoff then rest else (m, h) ∷ rest

pub find-put :
    (n k : ℕ) (h : Text) (hs : Heights)
    → find k (put n h hs) ≡ (if n == k then some h else find k hs)
unfolding find put
find-put n k h [] = refl
find-put n k h ((m, g) ∷ hs) = ground (arith, find-put n k h hs)

pub find-delete_below :
    (cutoff k : ℕ) (hs : Heights)
    → find k (delete_below cutoff hs) ≡ (if ltb k cutoff then none else find k hs)
unfolding find delete_below
find-delete_below cutoff k [] = ground arith
find-delete_below cutoff k ((m, h) ∷ hs) = ground (arith, find-delete_below cutoff k hs)

-- Every number of the map lies between two bounds.
abbrev pub Between : ℕ → ℕ → Heights → Type 0
Between lo hi [] = Unit {0}
Between lo hi ((m, h) ∷ hs) = (lo ≤ m) × (m ≤ hi) × Between lo hi hs

abbrev pub Absent : ℕ → Heights → Type 0
Absent n [] = Unit {0}
Absent n ((m, h) ∷ hs) = (m ≢ n) × Absent n hs

-- No number stands twice.
abbrev pub IsMap : Heights → Type 0
IsMap [] = Unit {0}
IsMap ((m, h) ∷ hs) = Absent m hs × IsMap hs

put-Absent : (n k : ℕ) (h : Text) (hs : Heights) → n ≢ k → Absent k hs → Absent k (put n h hs)
unfolding put
put-Absent n k h [] d a = (d, tt)
put-Absent n k h ((m, g) ∷ hs) d a = ground (arith, put-Absent n k h hs)

pub put-IsMap : (n : ℕ) (h : Text) (hs : Heights) → IsMap hs → IsMap (put n h hs)
unfolding put
put-IsMap n h [] v = (tt, tt)
put-IsMap n h ((m, g) ∷ hs) v = elim (Bool-cases (m == n)) [
  | inl e ↦
      let same : m ≡ n = ground arith in rw e (let a : Absent m hs = v.0 in (rw (same) at a, v.1))
  | inr e ↦
      let differ : n ≢ m = ground arith in
      rw e (put-Absent n m h hs differ v.0, put-IsMap n h hs v.1)
]

delete_below-Absent :
    (cutoff k : ℕ) (hs : Heights) → Absent k hs → Absent k (delete_below cutoff hs)
unfolding delete_below
delete_below-Absent cutoff k [] a = tt
delete_below-Absent cutoff k ((m, h) ∷ hs) a = ground (arith, delete_below-Absent cutoff k hs)

pub delete_below-IsMap : (cutoff : ℕ) (hs : Heights) → IsMap hs → IsMap (delete_below cutoff hs)
unfolding delete_below
delete_below-IsMap cutoff [] v = tt
delete_below-IsMap cutoff ((m, h) ∷ hs) v =
    ground (arith, delete_below-IsMap cutoff hs, delete_below-Absent cutoff m hs)

pub put-Between :
    (n lo hi : ℕ) (h : Text) (hs : Heights)
    → lo ≤ n
    → n ≤ hi
    → Between lo hi hs
    → Between lo hi (put n h hs)
unfolding put
put-Between n lo hi h [] l u b = (l, u, tt)
put-Between n lo hi h ((m, g) ∷ hs) l u b = ground (arith, put-Between n lo hi h hs)

pub Between-mono : (lo hi top : ℕ) (hs : Heights) → hi ≤ top → Between lo hi hs → Between lo top hs
Between-mono lo hi top [] u b = tt
Between-mono lo hi top ((m, h) ∷ hs) u b = (b.0, omega arith, Between-mono lo hi top hs u b.2)

pub Between-low : (lo hi : ℕ) (hs : Heights) → Between lo hi hs → Between 0 hi hs
Between-low lo hi [] b = tt
Between-low lo hi ((m, h) ∷ hs) b = (omega arith, b.1, Between-low lo hi hs b.2)

pub delete_below-Between :
    (cutoff lo hi : ℕ) (hs : Heights)
    → Between lo hi hs
    → Between cutoff hi (delete_below cutoff hs)
unfolding delete_below
delete_below-Between cutoff lo hi [] b = tt
delete_below-Between cutoff lo hi ((m, h) ∷ hs) b =
    ground (arith, delete_below-Between cutoff lo hi hs b.2)

-- Without the number `n`.
without : ℕ → Heights → Heights
without n [] = []
without n ((m, h) ∷ hs) = let rest = without n hs in if m == n then rest else (m, h) ∷ rest

without-Absent : (n k : ℕ) (hs : Heights) → Absent k hs → Absent k (without n hs)
unfolding without
without-Absent n k [] a = tt
without-Absent n k ((m, h) ∷ hs) a = ground (arith, without-Absent n k hs)

without-IsMap : (n : ℕ) (hs : Heights) → IsMap hs → IsMap (without n hs)
unfolding without
without-IsMap n [] v = tt
without-IsMap n ((m, h) ∷ hs) v = ground (arith, without-IsMap n hs, without-Absent n m hs)

length-without-Absent : (n : ℕ) (hs : Heights) → Absent n hs → length (without n hs) ≡ length hs
unfolding without
length-without-Absent n [] a = refl
length-without-Absent n ((m, h) ∷ hs) a = ground (arith, length-without-Absent n hs)

length-without : (n : ℕ) (hs : Heights) → IsMap hs → length hs ≤ suc (length (without n hs))
unfolding without
length-without n [] v = omega arith
length-without n ((m, h) ∷ hs) v = elim (Bool-cases (m == n)) [
  | inl e ↦
      let same : m ≡ n = ground arith in
      let a : Absent n hs = rw same at (v.0) in rw e (omega (arith, length-without-Absent n hs a))
  | inr e ↦ rw e (omega (arith, length-without n hs v.1))
]

without-Between :
    (lo n : ℕ) (hs : Heights) → Between lo (suc n) hs → Between lo n (without (suc n) hs)
unfolding without
without-Between lo n [] b = tt
without-Between lo n ((m, h) ∷ hs) b = ground (arith, without-Between lo n hs b.2)

-- A map whose numbers lie in a range has at most one entry for each number of the range.
pub length-le-range :
    (w lo : ℕ) (hs : Heights) → IsMap hs → Between lo (lo + w) hs → length hs ≤ suc w
length-le-range zero lo [] v b = omega arith
length-le-range zero lo (x ∷ []) v b = omega arith
length-le-range zero lo ((m, h) ∷ (k, g) ∷ hs) v b = absurd (v.0.0 (omega arith))
length-le-range (suc w) lo hs v b =
    let top : lo + suc w ≡ suc (lo + w) = omega arith in
    let fewer : Between lo (lo + w) (without (suc (lo + w)) hs) =
      without-Between lo (lo + w) hs (subst (λ (t : ℕ). Between lo t hs) top b) in
    omega (
      arith,
      length-without (suc (lo + w)) hs v,
      length-le-range w lo (without (suc (lo + w)) hs) (without-IsMap (suc (lo + w)) hs v) fewer,
    )
