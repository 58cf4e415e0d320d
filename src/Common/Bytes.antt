-- ===== src/Common/Bytes.antt =====
-- Strings of the program as lists of bytes, with Go's comparison, trimming and hexadecimal forms.
use Prim.Native.Nat.{ℕ, zero, suc, ◌+◌, ◌-◌, ◌*◌, ◌/◌, ◌%◌, ◌<◌}
use Prim.Native.Char.{code}
use Prim.Native.String.{String}
use mathlib.Core.Path.{◌≡◌, refl, subst}
use mathlib.Core.Logic.{◌↔◌}
use mathlib.Core.Bool.{Bool, true, false, ◌&&◌}
use mathlib.Core.Option.{Option, none, some}
use mathlib.Core.List.{List, [], ◌∷◌, ◌++◌}
use native.Mathlib.Omega.{arith}
use sabre.Common.Tests.{ltb, leb, ◌==◌, if◌then◌else◌}

-- A Go string or byte slice.
abbrev pub Text : Type 0
Text = List ℕ

-- The bytes of a literal; every literal of the program is ASCII.
abbrev pub codes : String → Text
codes String.[] = []
codes (String.◌∷◌ c s) = code c ∷ codes s

unfoldable pub text_eq : Text → Text → Bool
text_eq [] [] = true
text_eq [] (y ∷ ys) = false
text_eq (x ∷ xs) [] = false
text_eq (x ∷ xs) (y ∷ ys) = x == y && text_eq xs ys

pub text_eq_iff : (s t : Text) → (text_eq s t ≡ true) ↔ (s ≡ t)
unfolding text_eq
text_eq_iff [] [] = (λ _. refl, λ _. refl)
text_eq_iff [] (y ∷ ys) = ground arith
text_eq_iff (x ∷ xs) [] = ground arith
text_eq_iff (x ∷ xs) (y ∷ ys) = ground (arith, text_eq_iff xs ys)

pub text_eq_refl : (s : Text) → text_eq s s ≡ true
text_eq_refl s = (text_eq_iff s s).1 refl

-- s == ""
abbrev pub is_empty : Text → Bool
is_empty [] = true
is_empty (x ∷ xs) = false

-- strings.TrimPrefix(s, "0x")
unfoldable pub trim_0x : Text → Text
trim_0x (a ∷ b ∷ rest) = if a == b'0' && b == b'x' then rest else a ∷ b ∷ rest
trim_0x s = s

-- The digits of `%x`, lower case.
unfoldable pub hex_digit : ℕ → ℕ
hex_digit d = if ltb d 10 then b'0' + d else 87 + d

-- The value of a hexadecimal digit of either case.
unfoldable pub hex_value : ℕ → Option ℕ
hex_value c =
    if leb b'0' c && leb c b'9'
    then some (c - b'0')
    else if leb b'a' c && leb c b'f'
    then some (c - 87)
    else if leb b'A' c && leb c b'F'
    then some (c - 55)
    else none

-- hex.EncodeToString(b), and `%x` of a byte slice
unfoldable pub hex_encode : Text → Text
hex_encode [] = []
hex_encode (b ∷ bs) = hex_digit (b / 16) ∷ hex_digit (b % 16) ∷ hex_encode bs

unfoldable pub hex_pair : Option ℕ → Option ℕ → Option Text → Option Text
hex_pair (some h) (some l) (some bs) = some ((16 * h + l) ∷ bs)
hex_pair _ _ _ = none

-- hex.DecodeString(s)
unfoldable pub hex_decode : Text → Option Text
unfolding hex_pair hex_value
hex_decode [] = some []
hex_decode (a ∷ []) = none
hex_decode (a ∷ b ∷ rest) = hex_pair (hex_value a) (hex_value b) (hex_decode rest)

-- A list of bytes has entries below 256.
abbrev pub IsBytes : Text → Type 0
IsBytes [] = Unit {0}
IsBytes (b ∷ bs) = (b < 256) × IsBytes bs

pub IsBytes-append : (xs ys : Text) → IsBytes xs → IsBytes ys → IsBytes (xs ++ ys)
IsBytes-append [] ys h k = k
IsBytes-append (x ∷ xs) ys h k = (h.0, IsBytes-append xs ys h.1 k)

pub hex_value-hex_digit : (d : ℕ) → d < 16 → hex_value (hex_digit d) ≡ some d
unfolding hex_value hex_digit
hex_value-hex_digit d h = ground arith

pub hex_decode-hex_encode : (bs : Text) → IsBytes bs → hex_decode (hex_encode bs) ≡ some bs
unfolding hex_decode hex_encode
hex_decode-hex_encode [] h = refl
hex_decode-hex_encode (b ∷ bs) h =
    let e : 16 * (b / 16) + b % 16 ≡ b = omega arith in
    unfold hex_pair in
    rw (
      hex_value-hex_digit (b / 16) (omega arith),
      hex_value-hex_digit (b % 16) (omega arith),
      hex_decode-hex_encode bs h.1,
      e,
    )

hex_value-lt : (c v : ℕ) → hex_value c ≡ some v → v < 16
unfolding hex_value
hex_value-lt c v e = grind arith

hex_pair-IsBytes :
    (a b : Option ℕ) (rest : Option Text) (bs : Text)
    → ((v : ℕ) → a ≡ some v → v < 16)
    → ((v : ℕ) → b ≡ some v → v < 16)
    → ((cs : Text) → rest ≡ some cs → IsBytes cs)
    → hex_pair a b rest ≡ some bs
    → IsBytes bs
unfolding hex_pair
hex_pair-IsBytes (some h) (some l) (some cs) bs p q r e =
    let small : 16 * h + l < 256 = omega (arith, p h refl, q l refl) in
    let same : (16 * h + l) ∷ cs ≡ bs = cc in subst IsBytes same (small, r cs refl)
hex_pair-IsBytes (some h) (some l) none bs p q r e = absurd (ground arith)
hex_pair-IsBytes (some h) none rest bs p q r e = absurd (ground arith)
hex_pair-IsBytes none b rest bs p q r e = absurd (ground arith)

pub hex_decode-IsBytes : (s bs : Text) → hex_decode s ≡ some bs → IsBytes bs
unfolding hex_decode
hex_decode-IsBytes [] [] e = tt
hex_decode-IsBytes [] (b ∷ bs) e = absurd (ground arith)
hex_decode-IsBytes (a ∷ []) bs e = absurd (ground arith)
hex_decode-IsBytes (a ∷ b ∷ rest) bs e =
    hex_pair-IsBytes (hex_value a) (hex_value b) (hex_decode rest) bs (hex_value-lt a)
      (hex_value-lt b) (λ cs. hex_decode-IsBytes rest cs) e

-- `%d` of a counter.
unfoldable pub decimal_fuel : ℕ → ℕ → Text
decimal_fuel zero n = []
decimal_fuel (suc f) n =
    let rest = decimal_fuel f (n / 10) in
    if ltb n 10 then (b'0' + n) ∷ [] else rest ++ (b'0' + n % 10) ∷ []

unfoldable pub decimal : ℕ → Text
unfolding decimal_fuel
decimal n = decimal_fuel (suc n) n
