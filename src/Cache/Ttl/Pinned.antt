-- ===== src/Cache/Ttl/Pinned.antt =====
-- internal/backend/cache.go and head.go: a request that needs a head is pinned to a block.
use sabre.Common.{
  ℕ, ◌≡◌, refl, sym, ap, ◌∙◌, true, false, Option, none, some, arith, ltb, Text, codes, text_eq,
  text_eq_iff, Bool-cases, inl, inr,
}
use sabre.Config.{CacheConfig}
use sabre.Json.{Raw, unmarshal_string}
use sabre.Head.{
  quantity_of_text, quantity_from_raw, is_quantity, is_some, or_zero, block_param_index, param_at,
  required_head,
}
use sabre.Cache.Ttl.{names_block, pinned_to_block, reads_state, ttl_of}

quantity-is_quantity : (raw : Raw) → ltb 0 (quantity_from_raw raw) ≡ true → is_quantity raw ≡ true
unfolding quantity_from_raw is_quantity
quantity-is_quantity raw p = go (unmarshal_string raw) p
  where
    go :
        (o : Option Text)
        → ltb 0 (elim o [ none ↦ 0 | some s ↦ or_zero (quantity_of_text s) ]) ≡ true
        → elim o [ none ↦ false | some s ↦ is_some (quantity_of_text s) ] ≡ true
    go none p = ground arith
    go (some s) p = inner (quantity_of_text s) p
      where
        inner : (o : Option ℕ) → ltb 0 (or_zero o) ≡ true → is_some o ≡ true
        inner none p = ground arith
        inner (some n) p = refl

quantity-names_block : (raw : Raw) → ltb 0 (quantity_from_raw raw) ≡ true → names_block raw ≡ true
unfolding names_block
quantity-names_block raw p = rw (quantity-is_quantity raw p) refl

-- A request other than eth_getLogs from which RequiredHead reads a positive block number is pinned
-- to a block.
pub required_head-pinned :
    (method : Text) (params : Raw)
    → text_eq method (codes "eth_getLogs") ≡ false
    → ltb 0 (required_head method params) ≡ true
    → pinned_to_block method params ≡ true
unfolding required_head pinned_to_block
required_head-pinned method params other p =
    go (block_param_index method) (rw (required_head, other) at p)
  where
    go :
        (o : Option ℕ)
        → ltb 0 (elim o [
          | none ↦ 0
          | some idx ↦ elim (param_at params idx) [ none ↦ 0 | some raw ↦ quantity_from_raw raw ]
        ])
          ≡ true
        → elim o [
          | none ↦ false
          | some idx ↦ elim (param_at params idx) [ none ↦ false | some raw ↦ names_block raw ]
        ]
          ≡ true
    go none p = ground arith
    go (some idx) p = inner (param_at params idx) p
      where
        inner :
            (o : Option Raw)
            → ltb 0 (elim o [ none ↦ 0 | some raw ↦ quantity_from_raw raw ]) ≡ true
            → elim o [ none ↦ false | some raw ↦ names_block raw ] ≡ true
        inner none p = ground arith
        inner (some raw) p = quantity-names_block raw p

logs_read_none : reads_state (codes "eth_getLogs") ≡ true → ⊥
unfolding reads_state text_eq
logs_read_none p = ground arith

reads_state-not_logs :
    (method : Text) → reads_state method ≡ true → text_eq method (codes "eth_getLogs") ≡ false
reads_state-not_logs method p = elim (Bool-cases (text_eq method (codes "eth_getLogs"))) [
  | inl e ↦
      let logs : reads_state (codes "eth_getLogs") ≡ true =
        ap reads_state (sym ((text_eq_iff method (codes "eth_getLogs")).0 e)) ∙ p in
      absurd (logs_read_none logs)
  | inr e ↦ e
]

-- A state read that needs a head, since it names a block by a positive number, is kept for
-- ttl_block.
pub ttl-required_head :
    (method : Text) (params : Raw) (cfg : CacheConfig)
    → reads_state method ≡ true
    → ltb 0 (required_head method params) ≡ true
    → ttl_of method params cfg ≡ cfg.ttl_block
unfolding ttl_of
ttl-required_head method params cfg reads p =
    rw (reads, required_head-pinned method params (reads_state-not_logs method reads) p) refl
