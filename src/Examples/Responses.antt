-- ===== src/Examples/Responses.antt =====
-- Batches, requests, responses and block headers at concrete inputs.
use sabre.Batch.Wire.{parse_wire_id}
use sabre.Batch.Wire.RoundTrip.{parse_wire_id-decimal}
use sabre.Common.{
  decimal, ◌≡◌, refl, not, List, [], ◌∷◌, some, arith, length, ltb, Text, codes, text_eq,
}
use sabre.Json.{Json, Items, Fields, Raw, json, lower}
use sabre.Head.{required_head}
use sabre.Batch.Delivery.{Response, finish}
use sabre.Batch.Delivery.Once.{count, one_if, Stamped, finish-once, finish-Stamped}
use sabre.Cache.Ttl.{reads_state, ttl_of, response_block}
use sabre.Cache.Ttl.Pinned.{ttl-required_head}
use sabre.Cache.Ttl.Final.{Paired, response_block-Paired}
use sabre.Cache.Heights.{Heights}
use sabre.Router.{order_batch_responses}
use sabre.Router.Permuted.{IsInOrder, order_batch_responses-IsInOrder}
use sabre.Stream.{mark_delivered}
use sabre.Stream.News.{mark_delivered-again}
use sabre.Examples.Instances.{settings}

-- Two callers with the same id, answered in reverse, with a repeated and an unknown wire id.
abbrev ids : List Text
ids = codes "7" ∷ codes "7" ∷ codes "null" ∷ []

abbrev answers : List (Response Text)
answers =
    (record { id = codes "1"; body = codes "b" })
    ∷ (record { id = codes "0"; body = codes "a" })
    ∷ (record { id = codes "0"; body = codes "c" })
    ∷ (record { id = codes "9"; body = codes "d" })
    ∷ []

finish-once_example :
    count Text 2 (finish Text ids (codes "failed") (codes "missing") (some answers))
    ≡ one_if (ltb 2 (length ids))
finish-once_example =
    finish-once Text ids (codes "failed") (codes "missing") (some answers) 2 (omega arith)

finish-Stamped_example :
    Stamped Text ids (finish Text ids (codes "failed") (codes "missing") (some answers))
finish-Stamped_example =
    finish-Stamped Text ids (codes "failed") (codes "missing") (some answers) (omega arith)

-- ["0x12", "0x10"], and the receipt of a transaction in block 16.
abbrev params : Raw
params = json (
    Json.arr
      (Items.cons (Json.str (codes "0x12")) (Items.cons (Json.str (codes "0x10")) Items.nil)))

abbrev receipt : Raw
receipt = json (
    Json.obj (
      Fields.field (codes "result")
        (Json.obj (
          Fields.field (codes "blockNumber") (Json.str (codes "0x10"))
            (Fields.field (codes "blockHash") (Json.str (codes "0xab")) Fields.end)))
        Fields.end))

ttl-required_head_example : ttl_of (codes "eth_getBalance") params settings ≡ settings.ttl_block
unfolding reads_state text_eq required_head lower
ttl-required_head_example = ttl-required_head (codes "eth_getBalance") params settings refl refl

response_block-Paired_example : Paired (response_block receipt)
response_block-Paired_example = response_block-Paired receipt

abbrev heights : Heights
heights = (10, codes "0xaa") ∷ (11, codes "0xbb") ∷ []

mark_delivered-again_example :
    (mark_delivered 2 12 (codes "0xcd") (mark_delivered 2 12 (codes "0xcc") heights).1).0
    ≡ not (text_eq (codes "0xcc") (codes "0xcd"))
mark_delivered-again_example = mark_delivered-again 2 12 (codes "0xcc") (codes "0xcd") heights

-- Responses that are their ids, in the other order.
order_batch_responses-IsInOrder_example :
    IsInOrder Text
      (λ r. some r)
      (codes "8" ∷ codes "7" ∷ [])
      (codes "7" ∷ codes " 8" ∷ [])
      (order_batch_responses Text
        (λ r. some r)
        (codes "8" ∷ codes "7" ∷ [])
        (codes "7" ∷ codes " 8" ∷ []))
order_batch_responses-IsInOrder_example =
    order_batch_responses-IsInOrder Text (λ r. some r) (codes "8" ∷ codes "7" ∷ [])
      (codes "7" ∷ codes " 8" ∷ [])

parse_wire_id-decimal_example : parse_wire_id (decimal 407) ≡ some 407
parse_wire_id-decimal_example = parse_wire_id-decimal 407 (omega arith)
