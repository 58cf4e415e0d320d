-- ===== src/Cache/Store/History.antt =====
-- internal/backend/cache.go: the operations of the store as a sequence of requests.
use sabre.Common.{ℕ, ◌≡◌, false, List, [], ◌∷◌, Option, Text, text_eq}
use sabre.Json.{Raw}
use sabre.Cache.Store.{Tiers, Store, get, put, put_immortal, put_negative, update_latest_block}

-- What a client asks of the store.
pub data Op : Type 0 where
  get_op : ℕ → Text → Op
  put_op : ℕ → ℕ → Text → Text → ℕ → Text → ℕ → Text → Op
  immortal_op : Text → Text → Text → Op
  negative_op : ℕ → Text → Text → Op
  update_op : Text → ℕ → Text → Option Raw → Op

-- The operation does not write the key.
abbrev pub Spares : Text → Op → Type 0
Spares key (get_op now k) = Unit {0}
Spares key (put_op now later k body ttl chain num hash) = text_eq k key ≡ false
Spares key (immortal_op k body chain) = text_eq k key ≡ false
Spares key (negative_op now k chain) = text_eq k key ≡ false
Spares key (update_op chain n hash block_data) = Unit {0}

abbrev pub AllSpare : Text → List Op → Type 0
AllSpare key [] = Unit {0}
AllSpare key (op ∷ ops) = Spares key op × AllSpare key ops

module _ (T : Tiers) where
  open T use {Memory, Disk, peek, touch, add, remove, read, write, erase, marshal, unmarshal}

  unfoldable pub apply : Op → Store T → Store T
  apply (get_op now k) s = (get T now k s).1
  apply (put_op now later k body ttl chain num hash) s = put T now later k body ttl chain num hash s
  apply (immortal_op k body chain) s = put_immortal T k body chain s
  apply (negative_op now k chain) s = put_negative T now k chain s
  apply (update_op chain n hash block_data) s = update_latest_block T chain n hash block_data s

  unfoldable pub apply_all : List Op → Store T → Store T
  unfolding apply
  apply_all [] s = s
  apply_all (op ∷ ops) s = apply_all ops (apply op s)
