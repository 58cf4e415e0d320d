-- ===== src/Cache/Store/Reorg.antt =====
-- internal/backend/cache.go: what UpdateLatestBlock takes out of the cache when a chain reorganises.
use sabre.Common.{
  ℕ, ◌+◌, ◌*◌, ◌<◌, ◌≤◌, ◌≡◌, inl, inr, refl, sym, ap, ap₂, ◌∙◌, Bool, true, false, ◌&&◌, ◌||◌,
  List, [], ◌∷◌, Option, none, some, leb, if◌then◌else◌, Text, text_eq, text_eq_iff, text_eq_refl,
  is_empty, Bool-cases,
}
use sabre.Multicall.Word.{word_mod}
use sabre.Json.{Raw}
use sabre.Config.{reorg_depth}
use sabre.Cache.Tracker.{ChainState, detect_reorg, track, is_block_hash_valid}
use sabre.Cache.Tracker.Validity.{track-validity}
use sabre.Cache.Store.{
  Entry, millis, Tiers, IsTiers, Store, has_key, is_valid, read_entry, get, purge_one, purge_keys,
  purge_chain, set_chain, update_latest_block,
}
use sabre.Cache.Store.Reads.{served, or_next, get-served}

module _ (T : Tiers) where
  open T use {Memory, peek, keys, remove}

  -- An entry, unless it is of the chain.
  unfoldable pub drop_chain : Text → Option Entry → Option Entry
  drop_chain chain none = none
  drop_chain chain (some e) = if text_eq e.chain_id chain then none else some e

  drop_chain_twice :
      (chain : Text) (o : Option Entry) → drop_chain chain (drop_chain chain o) ≡ drop_chain chain o
  unfolding drop_chain
  drop_chain_twice chain none = refl
  drop_chain_twice chain (some e) = elim (Bool-cases (text_eq e.chain_id chain)) [
    | inl p ↦ rw (p, drop_chain) refl
    | inr p ↦ rw (p, drop_chain, p) refl
  ]

  same_key :
      (k j : Text) (m : Memory) (o : Option Entry)
      → text_eq k j ≡ true
      → peek m k ≡ o
      → peek m j ≡ o
  same_key k j m o e p = ap (peek m) (sym ((text_eq_iff k j).0 e)) ∙ p

  peek-purge_one :
      (laws : IsTiers T) (chain k j : Text) (m : Memory)
      → peek (purge_one T chain k m) j
        ≡ (if text_eq k j then drop_chain chain (peek m j) else peek m j)
  unfolding purge_one drop_chain
  peek-purge_one laws chain k j m = go (peek m k) refl
    where
      go :
          (o : Option Entry)
          → peek m k ≡ o
          → peek (purge_one T chain k m) j
            ≡ (if text_eq k j then drop_chain chain (peek m j) else peek m j)
      go none p = elim (Bool-cases (text_eq k j)) [
        | inl e ↦ rw (p, purge_one, e, same_key k j m none e p, drop_chain) refl
        | inr e ↦ rw (p, purge_one, e) refl
      ]
      go (some x) p = elim (Bool-cases (text_eq x.chain_id chain)) [
        | inl c ↦
            rw (p, purge_one, c)
              (laws.peek_remove m k j ∙ elim (Bool-cases (text_eq k j)) [
                | inl e ↦ rw (e, same_key k j m (some x) e p, drop_chain, c) refl
                | inr e ↦ rw e refl
              ])
        | inr c ↦
            rw (p, purge_one, c)
              (elim (Bool-cases (text_eq k j)) [
                | inl e ↦ rw (e, same_key k j m (some x) e p, drop_chain, c) refl
                | inr e ↦ rw e refl
              ])
      ]

  twice :
      (a b : Bool) (chain : Text) (o : Option Entry)
      → (if b
          then drop_chain chain (if a then drop_chain chain o else o)
          else (if a then drop_chain chain o else o))
        ≡ (if a || b then drop_chain chain o else o)
  twice true true chain o = drop_chain_twice chain o
  twice true false chain o = refl
  twice false b chain o = refl

  purge_keys-peek :
      (laws : IsTiers T) (chain : Text) (ks : List Text) (j : Text) (m : Memory)
      → peek (purge_keys T chain ks m) j
        ≡ (if has_key j ks then drop_chain chain (peek m j) else peek m j)
  unfolding has_key purge_keys
  purge_keys-peek laws chain [] j m = refl
  purge_keys-peek laws chain (k ∷ ks) j m =
      purge_keys-peek laws chain ks j (purge_one T chain k m)
      ∙ ap (λ (o : Option Entry). if has_key j ks then drop_chain chain o else o)
          (peek-purge_one laws chain k j m)
      ∙ twice (text_eq k j) (has_key j ks) chain (peek m j)

  -- purgeChain takes the entries of the chain out of the memory tier and no other entry.
  pub purge_chain-peek :
      (laws : IsTiers T) (chain key : Text) (m : Memory)
      → peek (purge_chain T chain m) key ≡ drop_chain chain (peek m key)
  unfolding purge_chain drop_chain
  purge_chain-peek laws chain key m = go (peek m key) refl
    where
      go :
          (o : Option Entry)
          → peek m key ≡ o
          → peek (purge_keys T chain (keys m) m) key ≡ drop_chain chain (peek m key)
      go none p =
          purge_keys-peek laws chain (keys m) key m ∙ elim (Bool-cases (has_key key (keys m))) [
            | inl e ↦ rw e refl
            | inr e ↦ rw (e, p, drop_chain) refl
          ]
      go (some x) p = purge_keys-peek laws chain (keys m) key m ∙ rw (laws.keys_all m key x p) refl

  -- An entry of the chain, at the number and with another hash than the one given.
  abbrev pub Orphaned : Text → ℕ → Text → Option Entry → Type 0
  Orphaned chain n hash none = Unit {0}
  Orphaned chain n hash (some e) =
      (e.chain_id ≡ chain)
      × (e.block_num ≡ n)
      × (is_empty e.block_hash ≡ false)
      × (text_eq hash e.block_hash ≡ false)

  Orphaned-drop :
      (chain : Text) (n : ℕ) (hash : Text) (o : Option Entry)
      → Orphaned chain n hash o
      → Orphaned chain n hash (drop_chain chain o)
  unfolding drop_chain
  Orphaned-drop chain n hash none w = tt
  Orphaned-drop chain n hash (some e) w = rw (drop_chain, w.0, text_eq_refl chain) tt

  update-Orphaned :
      (laws : IsTiers T) (key chain : Text) (n : ℕ) (hash : Text) (block_data : Option Raw)
      (s : Store T)
      → Orphaned chain n hash (peek s.mem key)
      → Orphaned chain n hash (peek (update_latest_block T chain n hash block_data s).mem key)
  unfolding update_latest_block
  update-Orphaned laws key chain n hash block_data s w =
      elim (Bool-cases (detect_reorg (s.chains chain) n hash block_data && s.cfg.enabled)) [
        | inl e ↦
            rw (e, purge_chain-peek laws chain key s.mem)
              (Orphaned-drop chain n hash (peek s.mem key) w)
        | inr e ↦ rw e w
      ]

  update-chains :
      (chain : Text) (n : ℕ) (hash : Text) (block_data : Option Raw) (s : Store T)
      → (update_latest_block T chain n hash block_data s).chains chain
        ≡ track (reorg_depth s.cfg chain) n hash (s.chains chain)
  unfolding update_latest_block set_chain
  update-chains chain n hash block_data s = rw (text_eq_refl chain) refl

  update-cfg :
      (chain : Text) (n : ℕ) (hash : Text) (block_data : Option Raw) (s : Store T)
      → (update_latest_block T chain n hash block_data s).cfg ≡ s.cfg
  unfolding update_latest_block
  update-cfg chain n hash block_data s = refl

  unserved : (b v : Bool) (body : Text) → v ≡ false → (if b && v then some body else none) ≡ none
  unserved true v body e = rw e refl
  unserved false v body e = refl

  orphan-unserved :
      (now : ℕ) (chain : Text) (n : ℕ) (hash : Text) (block_data : Option Raw) (s : Store T)
      (o : Option Entry)
      → 2 * reorg_depth s.cfg chain < word_mod
      → (s.chains chain).latest_block ≤ n + 2 * reorg_depth s.cfg chain
      → Orphaned chain n hash o
      → served T now (update_latest_block T chain n hash block_data s) o ≡ none
  unfolding served is_valid update_latest_block
  orphan-unserved now chain n hash block_data s none small near w = refl
  orphan-unserved now chain n hash block_data s (some e) small near w =
      let t : Store T = update_latest_block T chain n hash block_data s in
      let invalid : is_block_hash_valid (reorg_depth t.cfg e.chain_id) (t.chains e.chain_id)
            e.block_hash e.block_num
          ≡ false =
        ap
          (λ (c : Text).
            is_block_hash_valid (reorg_depth t.cfg c) (t.chains c) e.block_hash e.block_num)
          w.0
        ∙ ap
            (λ (m : ℕ).
              is_block_hash_valid (reorg_depth t.cfg chain) (t.chains chain) e.block_hash m)
            w.1
        ∙ ap (λ (c : ChainState). is_block_hash_valid (reorg_depth t.cfg chain) c e.block_hash n)
            (update-chains chain n hash block_data s)
        ∙ track-validity (reorg_depth s.cfg chain) n hash e.block_hash (s.chains chain) small near
        ∙ rw (w.2, w.3) refl in
      unserved (leb (millis now) e.expiry) (is_valid T t e) e.body invalid

  if_none : (b : Bool) → (if b then or_next T none none else none) ≡ none
  unfolding or_next
  if_none true = refl
  if_none false = refl

  -- Once UpdateLatestBlock has recorded another block at a number that lies within the window
  -- behind the chain's tip, given that twice the chain's reorg depth is a uint64, Get serves no
  -- entry of the chain for that number that carries a different hash, from either tier.
  pub get-Orphaned :
      (laws : IsTiers T) (now : ℕ) (key chain : Text) (n : ℕ) (hash : Text)
      (block_data : Option Raw) (s : Store T)
      → 2 * reorg_depth s.cfg chain < word_mod
      → (s.chains chain).latest_block ≤ n + 2 * reorg_depth s.cfg chain
      → Orphaned chain n hash (peek s.mem key)
      → Orphaned chain n hash (read_entry T s.db key)
      → (get T now key (update_latest_block T chain n hash block_data s)).0 ≡ none
  unfolding or_next update_latest_block
  get-Orphaned laws now key chain n hash block_data s small near in_memory on_disk =
      let t : Store T = update_latest_block T chain n hash block_data s in
      get-served T now key t
      ∙ ap₂ (λ (a b : Option Text). if t.cfg.enabled then or_next T a b else none)
          (orphan-unserved now chain n hash block_data s (peek t.mem key) small near
            (update-Orphaned laws key chain n hash block_data s in_memory))
          (orphan-unserved now chain n hash block_data s (read_entry T s.db key) small near on_disk)
      ∙ if_none t.cfg.enabled
