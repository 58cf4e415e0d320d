-- ===== src/Batch/Wire/RoundTrip.antt =====
-- internal/backend/batch.go: parseWireID reads the ids that processBatch gives with strconv.Itoa.
use sabre.Common.{
  ℕ, zero, suc, ◌+◌, ◌-◌, ◌*◌, ◌/◌, ◌%◌, ◌<◌, ◌≤◌, ◌≡◌, refl, ap, ◌∙◌, Bool, true, false, ◌&&◌, [],
  ◌∷◌, ◌++◌, none, some, arith, ltb, leb, ◌==◌, if◌then◌else◌, Text, decimal, decimal_fuel,
  Bool-cases, inl, inr, ltb→lt, ltb_false→le, lt→ltb, is_empty,
}
use sabre.Multicall.Word.{sign_bit}
use sabre.Batch.Wire.{
  trim_left, trim_right, is_space, is_quote, digits, in_int, unsigned, atoi, parse_wire_id,
}

-- Every byte is a digit.
abbrev AreDigits : Text → Type 0
AreDigits [] = Unit {0}
AreDigits (c ∷ cs) = (48 ≤ c) × (c ≤ 57) × AreDigits cs

AreDigits-append : (xs ys : Text) → AreDigits xs → AreDigits ys → AreDigits (xs ++ ys)
AreDigits-append [] ys h k = k
AreDigits-append (x ∷ xs) ys h k = (h.0, h.1, AreDigits-append xs ys h.2 k)

digits-append :
    (acc d v : ℕ) (xs : Text)
    → d < 10
    → digits acc xs ≡ some v
    → digits acc (xs ++ (48 + d) ∷ []) ≡ some (v * 10 + d)
unfolding digits
digits-append acc d v [] h e =
    let same : acc ≡ v = ground arith in
    let in_range : (leb 48 (48 + d) && leb (48 + d) 57) ≡ true = ground arith in
    rw in_range (ap (λ (n : ℕ). some n) (omega arith))
digits-append acc d v (x ∷ xs) h e = elim (Bool-cases (leb 48 x && leb x 57)) [
  | inl p ↦ rw (digits, p) (digits-append (acc * 10 + (x - 48)) d v xs h (rw (digits, p) at e))
  | inr p ↦ let z : none ≡ some v = rw (digits, p) at e in absurd (ground arith)
]

decimal_fuel-AreDigits : (f n : ℕ) → AreDigits (decimal_fuel f n)
unfolding decimal_fuel
decimal_fuel-AreDigits zero n = tt
decimal_fuel-AreDigits (suc f) n = elim (Bool-cases (ltb n 10)) [
  | inl p ↦ let h : n < 10 = ltb→lt n 10 p in rw p (omega arith, omega arith, tt)
  | inr p ↦ rw p (
      AreDigits-append (decimal_fuel f (n / 10)) _ (decimal_fuel-AreDigits f (n / 10))
        (omega arith, omega arith, tt))
]

digits-decimal_fuel : (f n : ℕ) → n < f → digits 0 (decimal_fuel f n) ≡ some n
unfolding decimal_fuel
digits-decimal_fuel zero n h = elim h [ ]
digits-decimal_fuel (suc f) n h = elim (Bool-cases (ltb n 10)) [
  | inl p ↦
      let k : n < 10 = ltb→lt n 10 p in
      rw p (digits-append 0 n 0 [] k (unfold digits in refl) ∙ ap (λ (m : ℕ). some m) (omega arith))
  | inr p ↦
      let k : 10 ≤ n = ltb_false→le n 10 p in
      rw p (
        digits-append 0 (n % 10) (n / 10) (decimal_fuel f (n / 10)) (omega arith)
          (digits-decimal_fuel f (n / 10) (omega arith))
        ∙ ap (λ (m : ℕ). some m) (omega arith))
]

trim_left-AreDigits :
    (drops : ℕ → Bool) (s : Text)
    → ((c : ℕ) → 48 ≤ c → c ≤ 57 → drops c ≡ false)
    → AreDigits s
    → trim_left drops s ≡ s
unfolding trim_left
trim_left-AreDigits drops [] k h = refl
trim_left-AreDigits drops (c ∷ cs) k h = rw (k c h.0 h.1) refl

trim_right-AreDigits :
    (drops : ℕ → Bool) (s : Text)
    → ((c : ℕ) → 48 ≤ c → c ≤ 57 → drops c ≡ false)
    → AreDigits s
    → trim_right drops s ≡ s
unfolding trim_right
trim_right-AreDigits drops [] k h = refl
trim_right-AreDigits drops (c ∷ cs) k h =
    rw (trim_right-AreDigits drops cs k h.2, k c h.0 h.1) (keeps (is_empty cs))
  where
    keeps : (b : Bool) → (if b && false then [] else c ∷ cs) ≡ c ∷ cs
    keeps true = refl
    keeps false = refl

atoi-AreDigits :
    (s : Text) (n : ℕ)
    → AreDigits s
    → digits 0 s ≡ some n
    → n < sign_bit
    → is_empty s ≡ false
    → atoi s ≡ some n
unfolding atoi unsigned in_int
atoi-AreDigits [] n h e small some_digit = ground arith
atoi-AreDigits (c ∷ cs) n h e small some_digit =
    let minus : (c == 45) ≡ false = ground arith in
    let plus : (c == 43) ≡ false = ground arith in rw (minus, plus, e, lt→ltb n sign_bit small) refl

decimal-nonempty : (f n : ℕ) → is_empty (decimal_fuel (suc f) n) ≡ false
unfolding decimal_fuel
decimal-nonempty f n = elim (Bool-cases (ltb n 10)) [
  | inl p ↦ rw p refl
  | inr p ↦ rw p (append_nonempty (decimal_fuel f (n / 10)))
]
  where
    append_nonempty : (xs : Text) → is_empty (xs ++ (48 + n % 10) ∷ []) ≡ false
    append_nonempty [] = refl
    append_nonempty (x ∷ xs) = refl

-- parseWireID reads back every positional wire id that processBatch gives a request.
pub parse_wire_id-decimal : (n : ℕ) → n < sign_bit → parse_wire_id (decimal n) ≡ some n
unfolding parse_wire_id decimal
parse_wire_id-decimal n small =
    let s : Text = decimal_fuel (suc n) n in
    let h : AreDigits s = decimal_fuel-AreDigits (suc n) n in
    rw
      (
        trim_left-AreDigits is_space s (λ c l u. ground arith) h,
        trim_right-AreDigits is_space s (λ c l u. ground arith) h,
        trim_left-AreDigits is_quote s (λ c l u. ground arith) h,
        trim_right-AreDigits is_quote s (λ c l u. ground arith) h,
      )
      (atoi-AreDigits s n h (digits-decimal_fuel (suc n) n (omega arith)) small
        (decimal-nonempty n n))
