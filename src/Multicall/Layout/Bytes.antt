-- ===== src/Multicall/Layout/Bytes.antt =====
-- internal/backend/multicall.go: every position of an encoding is a byte.
use sabre.Common.{
  ℕ, zero, suc, ◌-◌, ◌%◌, ◌/◌, Bool, true, false, List, [], ◌∷◌, ◌++◌, arith, length, Text, IsBytes,
  IsBytes-append,
}
use sabre.Multicall.Word.{word, be_bytes, ceil32}
use sabre.Multicall.Encode.{Call3, aggregate3_selector, encode_aggregate3}
use sabre.Multicall.Layout.{zeros, flag, bool_word, padded, words, array_layout}
use sabre.Multicall.Layout.Calls.{
  AreAddresses, call_layout, calls_layout, call_offsets, encode_aggregate3-layout,
}

be_bytes-IsBytes : (k v : ℕ) → IsBytes (be_bytes k v)
unfolding be_bytes
be_bytes-IsBytes zero v = tt
be_bytes-IsBytes (suc k) v =
    IsBytes-append (be_bytes k (v / 256)) (v % 256 ∷ []) (be_bytes-IsBytes k (v / 256))
      (omega arith)

pub zeros-IsBytes : (n : ℕ) → IsBytes (zeros n)
zeros-IsBytes zero = tt
zeros-IsBytes (suc n) = (omega arith, zeros-IsBytes n)

pub word-IsBytes : (v : ℕ) → IsBytes (word v)
unfolding word
word-IsBytes v = IsBytes-append (zeros 24) (be_bytes 8 v) (zeros-IsBytes 24) (be_bytes-IsBytes 8 v)

pub bool_word-IsBytes : (b : Bool) → IsBytes (bool_word b)
unfolding bool_word flag
bool_word-IsBytes true = omega arith
bool_word-IsBytes false = omega arith

words-IsBytes : (os : List ℕ) → IsBytes (words os)
unfolding words
words-IsBytes [] = tt
words-IsBytes (o ∷ os) = IsBytes-append (word o) (words os) (word-IsBytes o) (words-IsBytes os)

pub array_layout-IsBytes :
    (n : ℕ) (os : List ℕ) (body : Text) → IsBytes body → IsBytes (array_layout n os body)
unfolding array_layout
array_layout-IsBytes n os body h =
    IsBytes-append _ body
      (IsBytes-append _ (words os)
        (IsBytes-append (word 32) (word n) (word-IsBytes 32) (word-IsBytes n)) (words-IsBytes os))
      h

padded-IsBytes : (d : Text) → IsBytes d → IsBytes (padded d)
unfolding padded
padded-IsBytes d h = IsBytes-append d _ h (zeros-IsBytes (ceil32 (length d) - length d))

-- Every target and every call data of the calls is a list of bytes.
abbrev pub AreCallBytes : List Call3 → Type 0
AreCallBytes [] = Unit {0}
AreCallBytes (c ∷ cs) = (IsBytes c.target × IsBytes c.call_data) × AreCallBytes cs

call_layout-IsBytes : (c : Call3) → IsBytes c.target → IsBytes c.call_data → IsBytes (call_layout c)
unfolding call_layout
call_layout-IsBytes c t d =
    let p1 : Text = zeros 12 ++ c.target in
    let p2 : Text = p1 ++ bool_word c.allow_failure in
    let p3 : Text = p2 ++ word 96 in
    let p4 : Text = p3 ++ word (length c.call_data) in
    let h1 : IsBytes p1 = IsBytes-append (zeros 12) c.target (zeros-IsBytes 12) t in
    let h2 : IsBytes p2 = IsBytes-append p1 _ h1 (bool_word-IsBytes c.allow_failure) in
    let h3 : IsBytes p3 = IsBytes-append p2 (word 96) h2 (word-IsBytes 96) in
    let h4 : IsBytes p4 = IsBytes-append p3 _ h3 (word-IsBytes (length c.call_data)) in
    IsBytes-append p4 (padded c.call_data) h4 (padded-IsBytes c.call_data d)

calls_layout-IsBytes : (cs : List Call3) → AreCallBytes cs → IsBytes (calls_layout cs)
unfolding calls_layout
calls_layout-IsBytes [] h = tt
calls_layout-IsBytes (c ∷ cs) h =
    IsBytes-append (call_layout c) (calls_layout cs) (call_layout-IsBytes c h.0.0 h.0.1)
      (calls_layout-IsBytes cs h.1)

pub encode_aggregate3-IsBytes :
    (calls : List Call3)
    → AreAddresses calls
    → AreCallBytes calls
    → IsBytes (encode_aggregate3 calls)
encode_aggregate3-IsBytes calls v h = rw (encode_aggregate3-layout calls v) (
    IsBytes-append aggregate3_selector _ (omega arith) (
      array_layout-IsBytes (length calls) (call_offsets calls) (calls_layout calls)
        (calls_layout-IsBytes calls h)))
