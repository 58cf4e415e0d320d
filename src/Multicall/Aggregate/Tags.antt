-- ===== src/Multicall/Aggregate/Tags.antt =====
-- internal/backend/multicall.go: the block tag of a call whose block parameter is an object.
use sabre.Common.{◌≡◌, sym, ap, ◌∙◌, ◌∷◌, length, ltb, Option, none, some, arith, codes}
use sabre.Json.{Json, Items, Fields, Raw, json, unmarshal_array, unmarshal_string, raws}
use sabre.Rpc.{BatchRequest}
use sabre.Multicall.Params.{
  EthCallParams, ParsedEthCall, call_object, tag_or_latest, block_tag_of, parse_eth_call_params,
}
use sabre.Multicall.Aggregate.Grouping.{eligible-parsed}
use sabre.Multicall.Aggregate.{EligibleCall, eligible_parsed, eligible}

-- The parameters of a call whose block is given by an object.
abbrev pub at_object : Json → Fields → Items → Raw
at_object call block rest = json (Json.arr (Items.cons call (Items.cons (Json.obj block) rest)))

parsed_tag :
    (call : Json) (block : Fields) (rest : Items) (p : ParsedEthCall)
    → parse_eth_call_params (at_object call block rest) ≡ some p
    → p.block_tag ≡ codes "latest"
unfolding parse_eth_call_params unmarshal_array raws block_tag_of tag_or_latest unmarshal_string
parsed_tag call block rest p e = go (call_object (json call)) e
  where
    parsed : EthCallParams → ParsedEthCall
    parsed c = record {
      params = c;
      block_tag = codes "latest";
      has_state_overrides = ltb 1 (length (json (Json.obj block) ∷ raws rest));
    }

    go :
        (o : Option EthCallParams)
        → (elim o as (λ _. Option ParsedEthCall) [ none ↦ none | some c ↦ some (parsed c) ])
          ≡ some p
        → p.block_tag ≡ codes "latest"
    go none h = absurd (ground arith)
    go (some c) h =
        let same : parsed c ≡ p = cc in sym (ap (λ (x : ParsedEthCall). x.block_tag) same)

-- A call that aggregateEthCalls takes and whose block parameter is an object, such as a block hash, is
-- grouped with the calls at "latest", whatever the object says.
pub eligible-at_object :
    (req : BatchRequest) (c : EligibleCall) (call : Json) (block : Fields) (rest : Items)
    → req.params ≡ at_object call block rest
    → eligible req ≡ some c
    → c.block_tag ≡ codes "latest"
unfolding eligible_parsed
eligible-at_object req c call block rest at e =
    let found = eligible-parsed req c e in
    let p : ParsedEthCall = found.0 in
    let taken : eligible_parsed req p ≡ some c = found.1.1 in
    let kept : c.block_tag ≡ p.block_tag = grind arith in
    kept ∙ parsed_tag call block rest p (ap parse_eth_call_params (sym at) ∙ found.1.0)
