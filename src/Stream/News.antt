-- ===== src/Stream/News.antt =====
-- internal/backend/stream.go: every header is sent once, and a reorged one again.
use sabre.Common.{
  ℕ, ◌-◌, ◌≤◌, ◌≡◌, refl, sym, ap, ◌∙◌, true, false, not, ◌&&◌, Option, some, arith, ltb, ◌==◌,
  length, Text, text_eq, text_eq_iff, Bool-cases, inl, inr,
}
use sabre.Cache.Heights.{Heights, find, put, delete_below, find-put, find-delete_below}
use sabre.Stream.{hash_at, mark_delivered}

-- Once a header has been marked, its height holds its hash.
mark_delivered-find :
    (depth n : ℕ) (hash : Text) (heights : Heights)
    → hash_at (find n (mark_delivered depth n hash heights).1) ≡ hash
unfolding mark_delivered hash_at
mark_delivered-find depth n hash heights =
    let same : (n == n) ≡ true = ground arith in
    let above : ltb n (n - depth) ≡ false = ground arith in
    let held : find n (put n hash heights) ≡ some hash = find-put n n hash heights ∙ rw same refl in
    elim (Bool-cases (text_eq (hash_at (find n heights)) hash)) [
      | inl e ↦ rw e ((text_eq_iff (hash_at (find n heights)) hash).0 e)
      | inr e ↦ rw e (elim (Bool-cases (ltb depth (length (put n hash heights)) && ltb depth n)) [
        | inl f ↦
            let left : find n (delete_below (n - depth) (put n hash heights)) ≡ some hash =
              find-delete_below (n - depth) n (put n hash heights) ∙ rw above held in
            rw f (ap hash_at left)
        | inr f ↦ rw f (ap hash_at held)
      ])
    ]

mark_delivered-news :
    (depth n : ℕ) (hash : Text) (heights : Heights)
    → (mark_delivered depth n hash heights).0 ≡ not (text_eq (hash_at (find n heights)) hash)
unfolding mark_delivered
mark_delivered-news depth n hash heights =
    elim (Bool-cases (text_eq (hash_at (find n heights)) hash)) [
      | inl e ↦ rw e refl
      | inr e ↦ rw e (elim (Bool-cases (ltb depth (length (put n hash heights)) && ltb depth n)) [
        | inl f ↦ rw f refl
        | inr f ↦ rw f refl
      ])
    ]

-- Straight after markDelivered has marked a header, a header of the same height is news exactly
-- when its hash is another one.
pub mark_delivered-again :
    (depth n : ℕ) (hash other : Text) (heights : Heights)
    → (mark_delivered depth n other (mark_delivered depth n hash heights).1).0
      ≡ not (text_eq hash other)
mark_delivered-again depth n hash other heights =
    mark_delivered-news depth n other (mark_delivered depth n hash heights).1
    ∙ ap (λ (h : Text). not (text_eq h other)) (mark_delivered-find depth n hash heights)

kept :
    (depth n k : ℕ) (hash : Text) (heights : Heights)
    → (n == k) ≡ false
    → n - depth ≤ k
    → find k (mark_delivered depth n hash heights).1 ≡ find k heights
unfolding mark_delivered
kept depth n k hash heights differ near =
    let above : ltb k (n - depth) ≡ false = ground arith in
    let held : find k (put n hash heights) ≡ find k heights =
      find-put n k hash heights ∙ rw differ refl in
    elim (Bool-cases (text_eq (hash_at (find n heights)) hash)) [
      | inl e ↦ rw e refl
      | inr e ↦ rw e (elim (Bool-cases (ltb depth (length (put n hash heights)) && ltb depth n)) [
        | inl f ↦ rw f (find-delete_below (n - depth) k (put n hash heights) ∙ rw above held)
        | inr f ↦ rw f held
      ])
    ]

-- Marking a header that is no more than the reorg depth above another height changes neither what
-- is held there nor, so, whether a header of that height is news.
pub mark_delivered-frame :
    (depth n k : ℕ) (hash other : Text) (heights : Heights)
    → (n == k) ≡ false
    → n - depth ≤ k
    → (mark_delivered depth k other (mark_delivered depth n hash heights).1).0
      ≡ (mark_delivered depth k other heights).0
mark_delivered-frame depth n k hash other heights differ near =
    mark_delivered-news depth k other (mark_delivered depth n hash heights).1
    ∙ ap (λ (o : Option Text). not (text_eq (hash_at o) other))
        (kept depth n k hash heights differ near)
    ∙ sym (mark_delivered-news depth k other heights)
