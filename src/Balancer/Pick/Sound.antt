-- ===== src/Balancer/Pick/Sound.antt =====
-- internal/backend/balancer.go: which backend PickAtLeast returns, and when it returns none.
use sabre.Common.{
  ℕ, zero, suc, ◌+◌, ◌≡◌, ap, ◌∙◌, inl, inr, Bool, true, false, List, [], ◌∷◌, map, some, arith,
  get_elem?, get_or, Text, Bool-cases,
}
use sabre.Float.{FloatOps}
use sabre.Balancer.Member.{Member}
use sabre.Balancer.Pick.{
  candidate, LimiterOps, keep_ready, ready_from, total_weight, walk, choose_weighted, choose,
}

module _ (Fl : FloatOps) (Lim : LimiterOps) where
  open Fl use {F}
  open Lim use {States, Reservation, reserve, delay}

  -- Index `i` is a healthy backend that serves the scheme and is not known to trail the head.
  pub record Served (all : List (Member Fl)) (scheme : Text) (min_head i : ℕ) : Type 0 where
    pub member : Member Fl
    pub found : get_elem? all i ≡ some member
    pub eligible : candidate member.backend scheme min_head ≡ true

  -- `ms` is what is left of `all` from index `i` on.
  abbrev pub Rest : List (Member Fl) → ℕ → List (Member Fl) → Type 0
  Rest all i ms = (k : ℕ) → get_elem? all (i + k) ≡ get_elem? ms k

  module _ (all : List (Member Fl)) (scheme : Text) (min_head : ℕ) where
    pub Rest-head :
        (i : ℕ) (m : Member Fl) (ms : List (Member Fl))
        → Rest all i (m ∷ ms)
        → candidate m.backend scheme min_head ≡ true
        → Served all scheme min_head i
    Rest-head i m ms h c = record {
      member = m;
      found = let e : i ≡ i + 0 = omega arith in ap (get_elem? all) e ∙ h 0;
      eligible = c;
    }

    pub Rest-tail :
        (i : ℕ) (m : Member Fl) (ms : List (Member Fl)) → Rest all i (m ∷ ms) → Rest all (i + 1) ms
    Rest-tail i m ms h k = let e : i + 1 + k ≡ i + suc k = omega arith in rw e (h (suc k))

    abbrev pub Ready : List (ℕ × F) → Type 0
    Ready [] = Unit {0}
    Ready ((i, w) ∷ ready) = Served all scheme min_head i × Ready ready

    keep_ready-Ready :
        (i : ℕ) (w : F) (b : Bool × States) (rest : States → List (ℕ × F) × States)
        → Served all scheme min_head i
        → ((s : States) → Ready (rest s).0)
        → Ready (keep_ready Fl Lim i w b rest).0
    unfolding keep_ready
    keep_ready-Ready i w (true, s) rest h r = (h, r s)
    keep_ready-Ready i w (false, s) rest h r = r s

    pub ready_from-Ready :
        (ms : List (Member Fl)) (i : ℕ) (s : States)
        → Rest all i ms
        → Ready (ready_from Fl Lim scheme min_head i ms s).0
    unfolding ready_from
    ready_from-Ready [] i s h = tt
    ready_from-Ready (m ∷ ms) i s h =
        let later : (t : States) → Ready (ready_from Fl Lim scheme min_head (i + 1) ms t).0 =
          λ t. ready_from-Ready ms (i + 1) t (Rest-tail i m ms h) in
        elim (Bool-cases (candidate m.backend scheme min_head)) [
          | inl e ↦
              rw (e, ready_from) (keep_ready-Ready i m.weight _ _ (Rest-head i m ms h e) later)
          | inr e ↦ rw (e, ready_from) (later s)
        ]

    walk-Served :
        (r current : F) (last : ℕ) (ready : List (ℕ × F))
        → Served all scheme min_head last
        → Ready ready
        → Served all scheme min_head (walk Fl Lim r current last ready)
    unfolding walk
    walk-Served r current last [] h q = h
    walk-Served r current last ((i, w) ∷ ready) h q =
        elim (Bool-cases (Fl.le r (Fl.add current w))) [
          | inl e ↦ rw e (q.0)
          | inr e ↦ rw e (walk-Served r (Fl.add current w) i ready q.0 q.1)
        ]

    get_or-Served :
        (n first : ℕ) (ready : List (ℕ × F))
        → Served all scheme min_head first
        → Ready ready
        → Served all scheme min_head (get_or (map (λ (p : ℕ × F). p.0) ready) n first)
    get_or-Served n first [] h q = h
    get_or-Served zero first ((i, w) ∷ ready) h q = q.0
    get_or-Served (suc n) first ((i, w) ∷ ready) h q = get_or-Served n first ready h q.1

    pub choose-Served :
        (seed : ℕ) (p : ℕ × F) (ready : List (ℕ × F))
        → Ready (p ∷ ready)
        → Served all scheme min_head (choose Fl Lim seed p ready).0
    unfolding choose choose_weighted
    choose-Served seed (i, w) [] q = q.0
    choose-Served seed (i, w) (p ∷ ready) q =
        elim (Bool-cases (Fl.le (total_weight Fl Lim Fl.zero_f ((i, w) ∷ p ∷ ready)) Fl.zero_f)) [
          | inl e ↦ rw e (get_or-Served _ i ((i, w) ∷ p ∷ ready) q.0 q)
          | inr e ↦ rw e (walk-Served _ _ i ((i, w) ∷ p ∷ ready) q.0 q)
        ]
