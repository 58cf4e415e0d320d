-- ===== src/Cache/Reply/Members.antt =====
-- internal/backend/cache.go: the members of a response as a Go map.
use sabre.Common.{
  ◌≡◌, refl, sym, ap, subst, ◌∙◌, Bool, true, false, [], ◌∷◌, Option, none, some, arith,
  if◌then◌else◌, Text, text_eq, text_eq_iff,
}
use sabre.Json.{Json, Fields, map_entry}
use sabre.Cache.Reply.{text_lt, put_field, to_map}

lt_ne : (x y : Text) → text_lt x y ≡ true → text_eq y x ≡ false
unfolding text_lt text_eq
lt_ne [] [] h = ground arith
lt_ne [] (y ∷ ys) h = refl
lt_ne (x ∷ xs) [] h = refl
lt_ne (x ∷ xs) (y ∷ ys) h = ground (arith, lt_ne xs ys)

lt_trans : (x y z : Text) → text_lt x y ≡ true → text_lt y z ≡ true → text_lt x z ≡ true
unfolding text_lt
lt_trans x [] [] h k = absurd (ground arith)
lt_trans x (y ∷ ys) [] h k = absurd (ground arith)
lt_trans [] y (z ∷ zs) h k = refl
lt_trans (x ∷ xs) [] (z ∷ zs) h k = absurd (ground arith)
lt_trans (x ∷ xs) (y ∷ ys) (z ∷ zs) h k = ground (arith, lt_trans xs ys zs)

lt_total : (x y : Text) → text_eq y x ≡ false → text_lt x y ≡ false → text_lt y x ≡ true
unfolding text_lt text_eq
lt_total [] [] e h = absurd (ground arith)
lt_total [] (y ∷ ys) e h = absurd (ground arith)
lt_total (x ∷ xs) [] e h = refl
lt_total (x ∷ xs) (y ∷ ys) e h = ground (arith, lt_total xs ys)

-- Every key is above the name.
abbrev pub IsAbove : Text → Fields → Type 0
IsAbove name Fields.end = Unit {0}
IsAbove name (Fields.field k v fs) = text_lt name k ≡ true × IsAbove name fs

abbrev pub IsSorted : Fields → Type 0
IsSorted Fields.end = Unit {0}
IsSorted (Fields.field k v fs) = IsAbove k fs × IsSorted fs

IsAbove-lower : (j k : Text) (fs : Fields) → text_lt j k ≡ true → IsAbove k fs → IsAbove j fs
IsAbove-lower j k Fields.end h a = tt
IsAbove-lower j k (Fields.field l v fs) h a = (lt_trans j k l h a.0, IsAbove-lower j k fs h a.1)

pub map_entry-above : (name : Text) (fs : Fields) → IsAbove name fs → map_entry name fs ≡ none
unfolding map_entry
map_entry-above name Fields.end a = refl
map_entry-above name (Fields.field k v fs) a =
    rw (map_entry-above name fs a.1, lt_ne name k a.0) refl

put_field-IsAbove :
    (j name : Text) (v : Json) (fs : Fields)
    → text_lt j name ≡ true
    → IsAbove j fs
    → IsAbove j (put_field name v fs)
unfolding put_field
put_field-IsAbove j name v Fields.end h a = (h, tt)
put_field-IsAbove j name v (Fields.field k w fs) h a =
    go (text_eq k name) (text_lt name k) (put_field-IsAbove j name v fs h a.1)
  where
    go :
        (same before : Bool)
        → IsAbove j (put_field name v fs)
        → IsAbove j (
            if same
            then Fields.field name v fs
            else if before
            then Fields.field name v (Fields.field k w fs)
            else Fields.field k w (put_field name v fs))
    go true before rest = (h, a.1)
    go false true rest = (h, a)
    go false false rest = (a.0, rest)

pub put_field-IsSorted :
    (name : Text) (v : Json) (fs : Fields) → IsSorted fs → IsSorted (put_field name v fs)
unfolding put_field
put_field-IsSorted name v Fields.end s = (tt, tt)
put_field-IsSorted name v (Fields.field k w fs) s =
    go (text_eq k name) (text_lt name k) refl refl (put_field-IsSorted name v fs s.1)
  where
    go :
        (same before : Bool)
        → text_eq k name ≡ same
        → text_lt name k ≡ before
        → IsSorted (put_field name v fs)
        → IsSorted (
            if same
            then Fields.field name v fs
            else if before
            then Fields.field name v (Fields.field k w fs)
            else Fields.field k w (put_field name v fs))
    go true before e l rest =
        let eq : k ≡ name = (text_eq_iff k name).0 e in
        (subst (λ (n : Text). IsAbove n fs) eq s.0, s.1)
    go false true e l rest = ((l, IsAbove-lower name k fs l s.0), s)
    go false false e l rest = (put_field-IsAbove k name v fs (lt_total name k e l) s.0, rest)

-- A key that stands in front of the others.
map_entry-front :
    (n name : Text) (v : Json) (fs : Fields)
    → IsAbove name fs
    → map_entry n (Fields.field name v fs) ≡ (if text_eq name n then some v else map_entry n fs)
unfolding map_entry
map_entry-front n name v fs a =
    go (text_eq name n) (map_entry n fs) (λ e. none_at ((text_eq_iff name n).0 e)) refl
  where
    none_at : name ≡ n → map_entry n fs ≡ none
    none_at e = subst (λ (m : Text). map_entry m fs ≡ none) e (map_entry-above name fs a)

    go :
        (same : Bool) (o : Option Json)
        → (text_eq name n ≡ true → o ≡ none)
        → text_eq name n ≡ same
        → (elim o as (λ _. Option Json) [ some j ↦ some j | none ↦ if same then some v else none ])
          ≡ (if same then some v else o)
    go true o h e = rw (h e) refl
    go false none h e = refl
    go false (some j) h e = refl

pub map_entry-put_field :
    (n name : Text) (v : Json) (fs : Fields)
    → IsSorted fs
    → map_entry n (put_field name v fs) ≡ (if text_eq name n then some v else map_entry n fs)
unfolding put_field
map_entry-put_field n name v Fields.end s = map_entry-front n name v Fields.end tt
map_entry-put_field n name v (Fields.field k w fs) s =
    go (text_eq k name) (text_lt name k) refl refl (map_entry-put_field n name v fs s.1)
  where
    go :
        (same before : Bool)
        → text_eq k name ≡ same
        → text_lt name k ≡ before
        → map_entry n (put_field name v fs) ≡ (if text_eq name n then some v else map_entry n fs)
        → map_entry n (
            if same
            then Fields.field name v fs
            else if before
            then Fields.field name v (Fields.field k w fs)
            else Fields.field k w (put_field name v fs))
          ≡ (if text_eq name n then some v else map_entry n (Fields.field k w fs))
    go true before e l rest =
        let eq : k ≡ name = (text_eq_iff k name).0 e in
        map_entry-front n name v fs (subst (λ (m : Text). IsAbove m fs) eq s.0)
        ∙ over (text_eq name n) refl
      where
        over :
            (b : Bool)
            → text_eq name n ≡ b
            → (if b then some v else map_entry n fs)
              ≡ (if b then some v else map_entry n (Fields.field k w fs))
        over true b = refl
        over false b = sym (
            map_entry-front n k w fs s.0
            ∙ rw (ap (λ (m : Text). text_eq m n) ((text_eq_iff k name).0 e) ∙ b) refl)
    go false true e l rest =
        map_entry-front n name v (Fields.field k w fs) (l, IsAbove-lower name k fs l s.0)
    go false false e l rest =
        map_entry-front n k w (put_field name v fs)
          (put_field-IsAbove k name v fs (lt_total name k e l) s.0)
        ∙ ap (λ (o : Option Json). if text_eq k n then some w else o) rest
        ∙ swap (text_eq name n) (text_eq k n)
            (λ a b. apart ((text_eq_iff name n).0 a) ((text_eq_iff k n).0 b))
        ∙ ap (λ (o : Option Json). if text_eq name n then some v else o)
            (sym (map_entry-front n k w fs s.0))
      where
        apart : name ≡ n → k ≡ n → ⊥
        apart a b =
            let same : text_eq k name ≡ true = (text_eq_iff k name).1 (b ∙ sym a) in
            absurd (ground arith)

        swap :
            (a b : Bool)
            → (a ≡ true → b ≡ true → ⊥)
            → (if b then some w else if a then some v else map_entry n fs)
              ≡ (if a then some v else if b then some w else map_entry n fs)
        swap true true h = absurd (h refl refl)
        swap true false h = refl
        swap false b h = refl

pub to_map-IsSorted : (fs m : Fields) → IsSorted m → IsSorted (to_map fs m)
unfolding to_map
to_map-IsSorted Fields.end m s = s
to_map-IsSorted (Fields.field k v fs) m s =
    to_map-IsSorted fs (put_field k v m) (put_field-IsSorted k v m s)

pub map_entry-to_map :
    (n : Text) (fs m : Fields)
    → IsSorted m
    → map_entry n (to_map fs m)
      ≡ (elim (map_entry n fs) as (λ _. Option Json) [ some j ↦ some j | none ↦ map_entry n m ])
unfolding to_map map_entry
map_entry-to_map n Fields.end m s = refl
map_entry-to_map n (Fields.field k v fs) m s =
    map_entry-to_map n fs (put_field k v m) (put_field-IsSorted k v m s)
    ∙ ap (or_entry (map_entry n fs)) (map_entry-put_field n k v m s)
    ∙ join (map_entry n fs) (text_eq k n)
  where
    or_entry : Option Json → Option Json → Option Json
    or_entry o other = elim o as (λ _. Option Json) [ some j ↦ some j | none ↦ other ]

    join :
        (o : Option Json) (b : Bool)
        → or_entry o (if b then some v else map_entry n m)
          ≡ or_entry (or_entry o (if b then some v else none)) (map_entry n m)
    join none true = refl
    join none false = refl
    join (some j) b = refl
