-- ===== src/Multicall/Aggregate/Synthetic.antt =====
-- internal/backend/multicall.go: the synthetic request of a group, as its receiver reads it.
use sabre.Common.{
  ℕ, zero, suc, ◌-◌, ◌<◌, ◌≤◌, ◌≡◌, refl, ap, ◌∙◌, false, List, [], ◌∷◌, ◌++◌, map, Option, none,
  some, arith, length, length-map, length-append, length-drop, length-replicate, drop, replicate,
  Text, text_eq, codes, IsBytes, IsBytes-append, trim_0x, hex_encode, hex_decode,
  hex_decode-hex_encode, hex_decode-IsBytes,
}
use sabre.Json.{
  unmarshal_array, unmarshal_object, string_field, string_from, assigned, unmarshal_string, lower,
  lower_byte, raws,
}
use sabre.Config.{MulticallConfig}
use sabre.Multicall.Encode.{encode_aggregate3}
use sabre.Multicall.Layout.Calls.{AreAddresses}
use sabre.Multicall.Layout.Bytes.{zeros-IsBytes, AreCallBytes, encode_aggregate3-IsBytes}
use sabre.Multicall.Decode.{ok, max_alloc, decode_aggregate3_calls}
use sabre.Multicall.RoundTrip.CallList.{decode-encode_aggregate3}
use sabre.Multicall.Params.{
  right_aligned, hex_to_address, hex_to_bytes, parse_eth_call_params, call_object, call_fields,
  block_tag_of, tag_or_latest, decode_multicall, decode_multicall_parsed,
}
use sabre.Multicall.Aggregate.{EligibleCall, call3_of, call_params, synthetic_request}

drop-IsBytes : (n : ℕ) (b : Text) → IsBytes b → IsBytes (drop n b)
drop-IsBytes zero b h = h
drop-IsBytes (suc n) [] h = tt
drop-IsBytes (suc n) (x ∷ b) h = drop-IsBytes n b h.1

pub length-hex_to_address : (s : Text) → length (hex_to_address s) ≡ 20
unfolding hex_to_address right_aligned
length-hex_to_address s = go (hex_decode (trim_0x s))
  where
    go :
        (o : Option Text)
        → length (elim o as (λ _. Text) [ none ↦ replicate 20 0 | some b ↦ right_aligned b ]) ≡ 20
    go none = refl
    go (some b) =
        let c = drop (length b - 20) b in
        omega (
          arith,
          length-append (replicate (20 - length c) 0) c,
          length-replicate {A = ℕ} (20 - length c) 0,
          length-drop (length b - 20) b,
        )

hex_to_address-IsBytes : (s : Text) → IsBytes (hex_to_address s)
unfolding hex_to_address right_aligned
hex_to_address-IsBytes s = go (hex_decode (trim_0x s)) (hex_decode-IsBytes (trim_0x s))
  where
    go :
        (o : Option Text)
        → ((b : Text) → o ≡ some b → IsBytes b)
        → IsBytes (elim o as (λ _. Text) [ none ↦ replicate 20 0 | some b ↦ right_aligned b ])
    go none h = zeros-IsBytes 20
    go (some b) h =
        let c = drop (length b - 20) b in
        IsBytes-append (replicate (20 - length c) 0) c (zeros-IsBytes (20 - length c))
          (drop-IsBytes (length b - 20) b (h b refl))

hex_to_bytes-IsBytes : (s : Text) → IsBytes (hex_to_bytes s)
unfolding hex_to_bytes
hex_to_bytes-IsBytes s = go (hex_decode (trim_0x s)) (hex_decode-IsBytes (trim_0x s))
  where
    go :
        (o : Option Text)
        → ((b : Text) → o ≡ some b → IsBytes b)
        → IsBytes (elim o as (λ _. Text) [ none ↦ [] | some b ↦ b ])
    go none h = tt
    go (some b) h = h b refl

call3s-AreAddresses : (calls : List EligibleCall) → AreAddresses (map call3_of calls)
unfolding call3_of
call3s-AreAddresses [] = tt
call3s-AreAddresses (c ∷ cs) = (length-hex_to_address c.params.to, call3s-AreAddresses cs)

call3s-AreCallBytes : (calls : List EligibleCall) → AreCallBytes (map call3_of calls)
unfolding call3_of
call3s-AreCallBytes [] = tt
call3s-AreCallBytes (c ∷ cs) = (
  (hex_to_address-IsBytes c.params.to, hex_to_bytes-IsBytes c.params.call_data),
  call3s-AreCallBytes cs,
)

-- A call object with an address and call data, and a block tag.
parse_eth_call_params-call_params :
    (to tag encoded : Text)
    → parse_eth_call_params (call_params to tag encoded)
      ≡ some (record {
        params = record {
          to = to;
          call_data = codes "0x" ++ hex_encode encoded;
          from = [];
          gas = [];
          gas_price = [];
          value = [];
        };
        block_tag = tag_or_latest (some tag);
        has_state_overrides = false;
      })
unfolding parse_eth_call_params call_object call_fields call_params block_tag_of unmarshal_array
    unmarshal_object unmarshal_string string_field string_from assigned text_eq lower lower_byte
    raws
parse_eth_call_params-call_params to tag encoded = refl

hex_to_bytes-hex_encode : (b : Text) → IsBytes b → hex_to_bytes (codes "0x" ++ hex_encode b) ≡ b
unfolding hex_to_bytes trim_0x
hex_to_bytes-hex_encode b h = rw (hex_decode-hex_encode b h, hex_to_bytes)

pub decode_multicall-call_params :
    (to tag encoded : Text)
    → IsBytes encoded
    → decode_multicall (codes "eth_call") (call_params to tag encoded)
      ≡ decode_aggregate3_calls encoded
unfolding decode_multicall decode_multicall_parsed text_eq
decode_multicall-call_params to tag encoded h =
    rw (parse_eth_call_params-call_params to tag encoded, decode_multicall)
      (ap decode_aggregate3_calls (hex_to_bytes-hex_encode encoded h))

-- A synthetic request for 1 to 10000 calls, whose encoding can be allocated, decodes as a multicall to
-- exactly the calls of its chunk, in their order: each to the address and with the data of its request,
-- and allowed to fail.
pub decode_multicall-synthetic_request :
    (cfg : MulticallConfig) (n : ℕ) (tag : Text) (chunk : List EligibleCall)
    → 0 < length chunk
    → length chunk ≤ 10000
    → length (encode_aggregate3 (map call3_of chunk)) ≤ max_alloc
    → decode_multicall
        (synthetic_request cfg n tag chunk).method
        (synthetic_request cfg n tag chunk).params
      ≡ ok (map call3_of chunk)
unfolding synthetic_request
decode_multicall-synthetic_request cfg n tag chunk nonempty few small =
    let calls = map call3_of chunk in
    let same = length-map call3_of chunk in
    let v = call3s-AreAddresses chunk in
    decode_multicall-call_params cfg.address tag (encode_aggregate3 calls)
      (encode_aggregate3-IsBytes calls v (call3s-AreCallBytes chunk))
    ∙ (decode-encode_aggregate3 calls (omega (arith, same)) (omega (arith, same)) v small)
