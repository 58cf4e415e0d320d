-- ===== src/Multicall/Word.antt =====
-- internal/backend/multicall.go: 64-bit words, the 32-byte slots of the ABI, and byte buffers.
-- A Go `int` or `uint64` is its bit pattern, a number below 2 ^ 64; a comparison of ints reads the
-- patterns as signed.
use native.Mathlib.Nat.{pow-suc}
use sabre.Common.{
  ℕ, zero, suc, ◌+◌, ◌*◌, ◌/◌, ◌%◌, ◌^◌, ◌≤◌, ◌<◌, ◌≡◌, refl, ap, Bool, false, [], ◌∷◌, ◌++◌, arith,
  ltb, length, drop, take, replicate, Text, length-append,
}

abbrev pub word_mod : ℕ
word_mod = 2 ^ 64

abbrev pub sign_bit : ℕ
sign_bit = 2 ^ 63

-- a < b on ints
unfoldable pub slt : ℕ → ℕ → Bool
slt a b = ltb ((a + sign_bit) % word_mod) ((b + sign_bit) % word_mod)

-- a + b on ints and on uint64s
unfoldable pub add64 : ℕ → ℕ → ℕ
add64 a b = (a + b) % word_mod

pub slt-eq-ltb : (a b : ℕ) → a < sign_bit → b < sign_bit → slt a b ≡ ltb a b
unfolding slt
slt-eq-ltb a b ha hb = ground arith

-- A pattern with the sign bit is below every length.
pub slt_negative : (a b : ℕ) → a < sign_bit → sign_bit ≤ b → b < word_mod → slt a b ≡ false
unfolding slt
slt_negative a b ha hb hw = ground arith

-- binary.BigEndian.PutUint64, as the bytes it writes
unfoldable pub be_bytes : ℕ → ℕ → Text
be_bytes zero v = []
be_bytes (suc k) v = be_bytes k (v / 256) ++ v % 256 ∷ []

-- binary.BigEndian.Uint64
unfoldable pub read_be : ℕ → Text → ℕ
read_be acc [] = acc
read_be acc (b ∷ bs) = read_be (acc * 256 + b) bs

read_be-append :
    (acc : ℕ) (xs : Text) (b : ℕ) → read_be acc (xs ++ b ∷ []) ≡ read_be acc xs * 256 + b
unfolding read_be
read_be-append acc [] b = refl
read_be-append acc (x ∷ xs) b = read_be-append (acc * 256 + x) xs b

pub read_be-be_bytes : (k v : ℕ) → v < 256 ^ k → read_be 0 (be_bytes k v) ≡ v
unfolding be_bytes
read_be-be_bytes zero v h = unfold read_be in omega arith
read_be-be_bytes (suc k) v h =
    let bound : v < 256 ^ k * 256 = rw (← pow-suc 256 k) h in
    rw
      (
        read_be-append 0 (be_bytes k (v / 256)) (v % 256),
        read_be-be_bytes k (v / 256) (omega arith),
      )
      (omega arith)

pub length-be_bytes : (k v : ℕ) → length (be_bytes k v) ≡ k
unfolding be_bytes
length-be_bytes zero v = refl
length-be_bytes (suc k) v =
    omega (arith, length-append (be_bytes k (v / 256)) (v % 256 ∷ []), length-be_bytes k (v / 256))

-- readUint256: the low eight bytes of a slot
unfoldable pub read_uint256 : Text → ℕ
unfolding read_be
read_uint256 b = read_be 0 (take 8 (drop 24 b))

-- ceil32: (n + 31) &^ 31
unfoldable pub ceil32 : ℕ → ℕ
ceil32 n = (n + 31) / 32 * 32

pub le-ceil32 : (n : ℕ) → n ≤ ceil32 n
unfolding ceil32
le-ceil32 n = omega arith

pub ceil32-lt : (n : ℕ) → ceil32 n < n + 32
unfolding ceil32
ceil32-lt n = omega arith

-- copy(buf[pos:], src): bytes that do not fit are dropped
unfoldable pub copy_at : ℕ → Text → Text → Text
copy_at zero [] buf = buf
copy_at zero (s ∷ ss) [] = []
copy_at zero (s ∷ ss) (b ∷ bs) = s ∷ copy_at zero ss bs
copy_at (suc p) src [] = []
copy_at (suc p) src (b ∷ bs) = b ∷ copy_at p src bs

pub copy_at-zeros :
    (src : Text) (n k : ℕ)
    → n ≡ length src + k
    → copy_at 0 src (replicate n 0) ≡ src ++ replicate k 0
unfolding copy_at
copy_at-zeros [] n k e =
    let same : n ≡ k = omega arith in ap (λ (m : ℕ). replicate {A = ℕ} m 0) same
copy_at-zeros (s ∷ ss) zero k e = absurd (omega arith)
copy_at-zeros (s ∷ ss) (suc n) k e = ap (◌∷◌ s) (copy_at-zeros ss n k (omega arith))

pub copy_at-gap :
    (d : ℕ) (src : Text) (n k : ℕ)
    → n ≡ d + length src + k
    → copy_at d src (replicate n 0) ≡ replicate d 0 ++ src ++ replicate k 0
unfolding copy_at
copy_at-gap zero src n k e = copy_at-zeros src n k (omega arith)
copy_at-gap (suc d) src zero k e = absurd (omega arith)
copy_at-gap (suc d) src (suc n) k e = ap (◌∷◌ 0) (copy_at-gap d src n k (omega arith))

-- A copy behind a prefix leaves the prefix alone.
pub copy_at-append :
    (pre src rest : Text) (p d : ℕ)
    → p ≡ length pre + d
    → copy_at p src (pre ++ rest) ≡ pre ++ copy_at d src rest
unfolding copy_at
copy_at-append [] src rest p d e =
    let same : p ≡ d = omega arith in ap (λ (m : ℕ). copy_at m src rest) same
copy_at-append (x ∷ pre) src rest zero d e = absurd (omega arith)
copy_at-append (x ∷ pre) src rest (suc p) d e =
    ap (◌∷◌ x) (copy_at-append pre src rest p d (omega arith))

-- A slot that holds a uint64.
unfoldable pub word : ℕ → Text
word v = replicate 24 0 ++ be_bytes 8 v

pub length-word : (v : ℕ) → length (word v) ≡ 32
unfolding word
length-word v = omega (arith, length-be_bytes 8 v)

take-all : (n : ℕ) (xs ys : Text) → length xs ≡ n → take n (xs ++ ys) ≡ xs
take-all zero [] ys e = refl
take-all zero (x ∷ xs) ys e = absurd (omega arith)
take-all (suc n) [] ys e = absurd (omega arith)
take-all (suc n) (x ∷ xs) ys e = ap (◌∷◌ x) (take-all n xs ys (omega arith))

pub read_uint256-word : (v : ℕ) (rest : Text) → v < word_mod → read_uint256 (word v ++ rest) ≡ v
unfolding read_uint256 word
read_uint256-word v rest h =
    rw (take-all 8 (be_bytes 8 v) rest (length-be_bytes 8 v)) (read_be-be_bytes 8 v h)
