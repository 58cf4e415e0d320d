-- ===== src/Batch/Wire.antt =====
-- internal/backend/batch.go: the positional wire ids. An int is its 64-bit pattern.
pub mod RoundTrip
use sabre.Common.{
  ◌<◌, ◌≡◌, arith, Bool-cases, inl, inr, ℕ, ◌+◌, ◌-◌, ◌*◌, Bool, true, false, ◌&&◌, ◌||◌, [], ◌∷◌,
  Option, none, some, ltb, leb, ◌==◌, if◌then◌else◌, Text, is_empty,
}
use sabre.Multicall.Word.{word_mod, sign_bit}

unfoldable pub trim_left : (ℕ → Bool) → Text → Text
trim_left drops [] = []
trim_left drops (c ∷ cs) = let rest = trim_left drops cs in if drops c then rest else c ∷ cs

unfoldable pub trim_right : (ℕ → Bool) → Text → Text
trim_right drops [] = []
trim_right drops (c ∷ cs) =
    let rest = trim_right drops cs in if is_empty rest && drops c then [] else c ∷ rest

-- The white space that may stand around a JSON value, and the other ASCII white space.
abbrev pub is_space : ℕ → Bool
is_space c = c == 32 || (leb 9 c && leb c 13)

abbrev pub is_quote : ℕ → Bool
is_quote c = c == 34

unfoldable pub digits : ℕ → Text → Option ℕ
digits acc [] = some acc
digits acc (c ∷ cs) =
    let rest = digits (acc * 10 + (c - b'0')) cs in if leb b'0' c && leb c b'9' then rest else none

unfoldable pub in_int : Bool → Option ℕ → Option ℕ
in_int negative none = none
in_int true (some n) =
    if leb n sign_bit then some ((word_mod - n) - (if n == 0 then word_mod else 0)) else none
in_int false (some n) = if ltb n sign_bit then some n else none

unfoldable pub unsigned : Bool → Text → Option ℕ
unfolding in_int digits
unsigned negative [] = none
unsigned negative (c ∷ cs) = in_int negative (digits 0 (c ∷ cs))

-- strconv.Atoi
unfoldable pub atoi : Text → Option ℕ
unfolding unsigned
atoi [] = none
atoi (c ∷ cs) =
    if c == b'-'
    then unsigned true cs
    else if c == b'+'
    then unsigned false cs
    else unsigned false (c ∷ cs)

-- parseWireID
unfoldable pub parse_wire_id : Text → Option ℕ
unfolding trim_left trim_right atoi
parse_wire_id id =
    let s = trim_right is_space (trim_left is_space id) in
    atoi (trim_right is_quote (trim_left is_quote s))

none-some : {A : Type 0} {a : A} → none ≡ some a → ⊥
none-some p = ground arith

in_int-lt : (negative : Bool) (o : Option ℕ) (i : ℕ) → in_int negative o ≡ some i → i < word_mod
unfolding in_int
in_int-lt negative none i e = ground arith
in_int-lt true (some n) i e = elim (Bool-cases (leb n sign_bit)) [
  | inl p ↦
      let f : some ((word_mod - n) - (if n == 0 then word_mod else 0)) ≡ some i = rw p at e in
      ground arith
  | inr p ↦ absurd (none-some (rw p at e))
]
in_int-lt false (some n) i e = ground arith

unsigned-lt : (negative : Bool) (s : Text) (i : ℕ) → unsigned negative s ≡ some i → i < word_mod
unfolding unsigned
unsigned-lt negative [] i e = ground arith
unsigned-lt negative (c ∷ cs) i e = in_int-lt negative (digits 0 (c ∷ cs)) i e

atoi-lt : (s : Text) (i : ℕ) → atoi s ≡ some i → i < word_mod
unfolding atoi
atoi-lt [] i e = ground arith
atoi-lt (c ∷ cs) i e = elim (Bool-cases (c == b'-')) [
  | inl p ↦ unsigned-lt true cs i (rw (atoi, p) at e)
  | inr p ↦ elim (Bool-cases (c == b'+')) [
    | inl q ↦ unsigned-lt false cs i (rw (atoi, p, q) at e)
    | inr q ↦ unsigned-lt false (c ∷ cs) i (rw (atoi, p, q) at e)
  ]
]

pub parse_wire_id-lt : (id : Text) (i : ℕ) → parse_wire_id id ≡ some i → i < word_mod
unfolding parse_wire_id
parse_wire_id-lt id i e =
    atoi-lt (trim_right is_quote (trim_left is_quote (trim_right is_space (trim_left is_space id))))
      i e
