-- ===== src/Multicall/RoundTrip.antt =====
-- internal/backend/multicall.go: what the decoders read from the layouts that the encoders write.
pub mod Calls
pub mod CallList
pub mod Results
pub mod ResultText
use sabre.Common.{
  ℕ, zero, suc, ◌+◌, ◌-◌, ◌*◌, ◌^◌, ◌≤◌, ◌<◌, ◌≡◌, refl, ap, sym, ◌∙◌, Bool, true, false, not, ◌||◌,
  List, [], ◌∷◌, ◌++◌, arith, ltb, ◌==◌, if◌then◌else◌, length, take, drop, replicate, get_or, Text,
  length-append, take-append, drop-append, append_assoc, append-nil, le→ltb_false, lt→ltb,
}
use sabre.Multicall.Word.{
  slt, add64, sign_bit, word_mod, read_uint256, word, ceil32, slt-eq-ltb, length-word,
  read_uint256-word, le-ceil32,
}
use sabre.Multicall.Layout.{flag, bool_word, padded, zeros, words, length-words}
use sabre.Multicall.Decode.{
  Outcome, ok, refused, panic, ◌>>=◌, ◌>>◌, refuse_if, slice, slice_from, make_copy, max_alloc,
}

pub bind_ok {ℓ κ} :
    {A : Type ℓ} {B : Type κ} (m : Outcome A) (f : A → Outcome B) (a : A) (r : Outcome B)
    → m ≡ ok a
    → f a ≡ r
    → (m >>= f) ≡ r
bind_ok m f a r e h = rw e h

pub pass {ℓ} :
    {B : Type ℓ} (b : Bool) (k r : Outcome B) → b ≡ false → k ≡ r → (refuse_if b >> k) ≡ r
pass b k r e h = rw e h

pub drop-at : (t xs ys : Text) (p : ℕ) → t ≡ xs ++ ys → p ≡ length xs → drop p t ≡ ys
drop-at t xs ys p e h = rw e (drop-append xs ys p h)

pub take-at : (t xs ys : Text) (p : ℕ) → t ≡ xs ++ ys → p ≡ length xs → take p t ≡ xs
take-at t xs ys p e h = rw e (take-append xs ys p h)

-- A slot in the middle of a text.
pub slot-at :
    (t xs ys : Text) (p v : ℕ)
    → t ≡ xs ++ (word v ++ ys)
    → p ≡ length xs
    → v < word_mod
    → read_uint256 (take 32 (drop p t)) ≡ v
slot-at t xs ys p v e h small =
    ap (λ (s : Text). read_uint256 (take 32 s)) (drop-at t xs (word v ++ ys) p e h)
    ∙ ap read_uint256 (take-append (word v) ys 32 (sym (length-word v)))
    ∙ ap read_uint256 (sym (append-nil (word v)))
    ∙ read_uint256-word v [] small

pub slice-at :
    (t xs ys zs : Text) (lo hi : ℕ)
    → t ≡ xs ++ (ys ++ zs)
    → lo ≡ length xs
    → hi ≡ lo + length ys
    → slice t lo hi ≡ ok ys
unfolding slice
slice-at t xs ys zs lo hi e l h =
    let total : length t ≡ length xs + (length ys + length zs) =
      ap length e
      ∙ length-append xs (ys ++ zs)
      ∙ ap (λ (n : ℕ). length xs + n) (length-append ys zs) in
    rw
      (
        le→ltb_false hi lo (omega arith),
        le→ltb_false (length t) hi (omega arith),
        drop-at t xs (ys ++ zs) lo e l,
      )
      (ap (λ (s : Text). ok s) (take-append ys zs (hi - lo) (omega arith)))

pub slice_from-at :
    (t xs ys : Text) (lo : ℕ) → t ≡ xs ++ ys → lo ≡ length xs → slice_from t lo ≡ ok ys
unfolding slice_from
slice_from-at t xs ys lo e l =
    let total : length t ≡ length xs + length ys = ap length e ∙ length-append xs ys in
    rw (le→ltb_false (length t) lo (omega arith)) (ap (λ (s : Text). ok s) (drop-at t xs ys lo e l))

pub make_copy-ok : (n : ℕ) (src : Outcome Text) → n ≤ max_alloc → make_copy n src ≡ src
unfolding make_copy
make_copy-ok n src h = rw (le→ltb_false max_alloc n h)

pub add64-small : (a b : ℕ) → a + b < word_mod → add64 a b ≡ a + b
unfolding add64
add64-small a b h = omega arith

pub slt-false : (a b : ℕ) → b ≤ a → a < sign_bit → slt a b ≡ false
slt-false a b h small = slt-eq-ltb a b small (omega arith) ∙ le→ltb_false a b h

pub slt-true : (a b : ℕ) → a < b → b < sign_bit → slt a b ≡ true
slt-true a b h small = slt-eq-ltb a b (omega arith) small ∙ lt→ltb a b h

pub flag-at :
    (t xs ys : Text) (b : Bool) (p : ℕ)
    → t ≡ xs ++ (flag b ∷ ys)
    → p ≡ length xs
    → not (get_or t p 0 == 0) ≡ b
unfolding flag
flag-at t xs ys b p e h = rw e (go xs p b h)
  where
    go :
        (xs : Text) (p : ℕ) (b : Bool)
        → p ≡ length xs
        → not (get_or (xs ++ (flag b ∷ ys)) p 0 == 0) ≡ b
    go [] zero true h = refl
    go [] zero false h = refl
    go [] (suc p) b h = absurd (omega arith)
    go (x ∷ xs) zero b h = absurd (omega arith)
    go (x ∷ xs) (suc p) b h = go xs p b (omega arith)

-- len - 32, as the source computes it on ints
pub back_32 : (n : ℕ) → 32 ≤ n → n < sign_bit → add64 n (2 ^ 64 - 32) ≡ n - 32
unfolding add64
back_32 n h small = omega arith

-- The first slot of a text.
pub first_slot : (v : ℕ) (rest : Text) → v < word_mod → read_uint256 (take 32 (word v ++ rest)) ≡ v
first_slot v rest h = slot-at (word v ++ rest) [] rest 0 v refl refl h

-- An array of `n` elements, behind the slot of its offset.
pub length-array :
    (n : ℕ) (os : List ℕ) (body : Text)
    → length (word n ++ (words os ++ body)) ≡ 32 + 32 * length os + length body
length-array n os body = omega (
  arith,
  length-append (word n) (words os ++ body),
  length-append (words os) body,
  length-word n,
  length-words os,
)
