-- ===== src/Cache/Store/Immortal.antt =====
-- internal/backend/cache.go: an entry that PutImmortal stores survives every other operation.
use sabre.Common.{
  ℕ, ◌+◌, ◌≤◌, ◌≡◌, refl, sym, subst, ap, ◌∙◌, Bool, true, false, not, ◌&&◌, ◌||◌, List, [], ◌∷◌,
  Option, none, some, arith, if◌then◌else◌, Text, text_eq, text_eq_iff, Bool-cases, Option-cases,
  inl, inr, leb,
}
use sabre.Multicall.Word.{slt}
use sabre.Json.{Raw}
use sabre.Cache.Tracker.{is_block_hash_valid, detect_reorg}
use sabre.Cache.Store.{
  Entry, max_int64, millis, Tiers, IsTiers, IsAscii, Store, is_valid, settle, from_memory,
  read_entry, from_disk, or_else, get, keep, put_entry, put, short_lived, put_immortal,
  put_negative, update_latest_block,
}
use sabre.Cache.Store.Reorg.{drop_chain, purge_chain-peek}
use sabre.Cache.Store.Writes.{get-disk_hit}
use sabre.Cache.Store.History.{
  Op, get_op, put_op, immortal_op, negative_op, update_op, Spares, AllSpare, apply, apply_all,
}
use sabre.Cache.Store.Held.{
  immortal, some-injective, Holds, Holds-touch, Holds-remove, Holds-add, Holds-erase, Holds-keep,
  Holds-stored,
}

module _ (T : Tiers) where
  open T use {Memory, Disk, peek, touch, add, remove, read, write, erase, marshal, unmarshal}

  module _ (laws : IsTiers T) (key body chain : Text) where
    if-Holds :
        (b : Bool) (s t : Store T)
        → Holds T laws key body chain s
        → Holds T laws key body chain t
        → Holds T laws key body chain (if b then s else t)
    if-Holds true s t h i = h
    if-Holds false s t h i = i

    settle-Holds :
        (fresh valid : Bool) (b : Text) (x y z : Store T)
        → Holds T laws key body chain x
        → (fresh ≡ true → valid ≡ false → Holds T laws key body chain y)
        → Holds T laws key body chain z
        → Holds T laws key body chain (settle T fresh valid b x y z).1
    unfolding settle
    settle-Holds true true b x y z h i j = h
    settle-Holds true false b x y z h i j = i refl refl
    settle-Holds false valid b x y z h i j = j

    from_memory-Holds :
        (now : ℕ) (k : Text) (s : Store T)
        → Holds T laws key body chain s
        → Holds T laws key body chain (from_memory T now k s).1
    unfolding from_memory
    from_memory-Holds now k s h =
        let touched : Store T = record s { mem = touch s.mem k } in
        let i : Holds T laws key body chain touched = Holds-touch T laws key body chain k s h in
        elim (Option-cases (peek s.mem k)) [
          | inl p ↦ rw (p, from_memory) i
          | inr (e, p) ↦
              rw (p, from_memory)
                (settle-Holds (leb (millis now) e.expiry) (is_valid T touched e) e.body touched
                  (record touched { mem = remove touched.mem k }) touched i
                  (λ _ _. Holds-remove T laws key body chain k touched i) i)
        ]

    -- Without a hash, an entry is always valid.
    immortal-valid : (s : Store T) → is_valid T s (immortal body chain) ≡ true
    unfolding is_valid is_block_hash_valid
    immortal-valid s = refl

    own_entry :
        (k : Text) (e : Entry) (s : Store T)
        → Holds T laws key body chain s
        → read_entry T s.db k ≡ some e
        → text_eq k key ≡ true
        → e ≡ immortal body chain
    own_entry k e s h p q =
        some-injective (sym p ∙ ap (read_entry T s.db) ((text_eq_iff k key).0 q) ∙ h.durable)

    other_entry :
        (k : Text) (e : Entry) (s : Store T)
        → Holds T laws key body chain s
        → read_entry T s.db k ≡ some e
        → is_valid T s e ≡ false
        → text_eq k key ≡ false
    other_entry k e s h p v = elim (Bool-cases (text_eq k key)) [
      | inl q ↦
          let valid : is_valid T s e ≡ true =
            ap (is_valid T s) (own_entry k e s h p q) ∙ immortal-valid s in
          ground arith
      | inr q ↦ q
    ]

    from_disk-Holds :
        (now : ℕ) (k : Text) (s : Store T)
        → Holds T laws key body chain s
        → Holds T laws key body chain (from_disk T now k s).1
    unfolding from_disk
    from_disk-Holds now k s h = elim (Option-cases (read_entry T s.db k)) [
      | inl p ↦ rw (p, from_disk) h
      | inr (e, p) ↦
          rw (p, from_disk)
            (settle-Holds (leb (millis now) e.expiry) (is_valid T s e) e.body
              (record s { mem = add s.mem k e }) (record s { db = erase s.db k }) s
              (Holds-add T laws key body chain k e s (own_entry k e s h p) h)
              (λ _ v. Holds-erase T laws key body chain k s (other_entry k e s h p v) h) h)
    ]

    from_memory-next :
        (now : ℕ) (k : Text) (r : Option Text × Store T)
        → Holds T laws key body chain r.1
        → Holds T laws key body chain (or_else T r (from_disk T now k)).1
    unfolding or_else
    from_memory-next now k (none, s) h = from_disk-Holds now k s h
    from_memory-next now k (some b, s) h = h

    get-Holds :
        (now : ℕ) (k : Text) (s : Store T)
        → Holds T laws key body chain s
        → Holds T laws key body chain (get T now k s).1
    unfolding get
    get-Holds now k s h =
        pick s.cfg.enabled (or_else T (from_memory T now k s) (from_disk T now k)) s
          (from_memory-next now k (from_memory T now k s) (from_memory-Holds now k s h)) h
      where
        pick :
            (b : Bool) (r : Option Text × Store T) (s : Store T)
            → Holds T laws key body chain r.1
            → Holds T laws key body chain s
            → Holds T laws key body chain (if b then r else (none, s)).1
        pick true r s h i = h
        pick false r s h i = i

    still : (c : Text) (o : Option Entry) (f : Entry) → drop_chain T c o ≡ some f → o ≡ some f
    unfolding drop_chain
    still c none f p = p
    still c (some e) f p = go (text_eq e.chain_id c) p
      where
        go : (b : Bool) → (if b then none else some e) ≡ some f → some e ≡ some f
        go true p = ground arith
        go false p = p

    update-Holds :
        (c : Text) (n : ℕ) (hash : Text) (block_data : Option Raw) (s : Store T)
        → Holds T laws key body chain s
        → Holds T laws key body chain (update_latest_block T c n hash block_data s)
    unfolding update_latest_block
    update-Holds c n hash block_data s h = record {
      on = h.on;
      durable = h.durable;
      cached = λ f p.
          h.cached f
            (elim (Bool-cases (detect_reorg (s.chains c) n hash block_data && s.cfg.enabled)) [
              | inl q ↦
                  still c (peek s.mem key) f (sym (purge_chain-peek T laws c key s.mem) ∙ rw q at p)
              | inr q ↦ rw q at p
            ]);
    }

    apply-Holds :
        (op : Op) (s : Store T)
        → Spares key op
        → Holds T laws key body chain s
        → Holds T laws key body chain (apply T op s)
    unfolding apply put put_immortal put_negative
    apply-Holds (get_op now k) s q h = get-Holds now k s h
    apply-Holds (put_op now later k b ttl c num hash) s q h =
        if-Holds (not s.cfg.enabled || not (slt 0 ttl)) s
          (keep T (not (short_lived T later (put_entry T now b ttl c num hash s) s.cfg)) k
            (put_entry T now b ttl c num hash s) s)
          h (Holds-keep T laws key body chain _ k (put_entry T now b ttl c num hash s) s q h)
    apply-Holds (immortal_op k b c) s q h =
        if-Holds (not s.cfg.enabled) s (keep T true k (immortal b c) s) h
          (Holds-keep T laws key body chain true k (immortal b c) s q h)
    apply-Holds (negative_op now k c) s q h =
        let e : Entry = record {
          expiry = millis (now + s.cfg.ttl_block);
          body = [];
          chain_id = c;
          block_hash = [];
          block_num = 0;
        } in
        if-Holds (not s.cfg.enabled || not (slt 0 s.cfg.ttl_block)) s (keep T true k e s) h
          (Holds-keep T laws key body chain true k e s q h)
    apply-Holds (update_op c n hash block_data) s q h = update-Holds c n hash block_data s h

    apply_all-Holds :
        (ops : List Op) (s : Store T)
        → AllSpare key ops
        → Holds T laws key body chain s
        → Holds T laws key body chain (apply_all T ops s)
    unfolding apply_all
    apply_all-Holds [] s q h = h
    apply_all-Holds (op ∷ ops) s q h =
        apply_all-Holds ops (apply T op s) q.1 (apply-Holds op s q.0 h)

    Holds-get :
        (now : ℕ) (s : Store T)
        → Holds T laws key body chain s
        → millis now ≤ max_int64
        → (get T now key s).0 ≡ some body
    Holds-get now s h fresh =
        get-disk_hit T now key s (immortal body chain) h.on h.durable
          (elim (Option-cases (peek s.mem key)) [
            | inl p ↦ inl p
            | inr (e, p) ↦ inr (p ∙ ap (λ (x : Entry). some x) (h.cached e p))
          ])
          fresh (immortal-valid s)

    put_immortal-Holds :
        (s : Store T)
        → s.cfg.enabled ≡ true
        → IsAscii chain
        → Holds T laws key body chain (put_immortal T key body chain s)
    unfolding put_immortal
    put_immortal-Holds s on ascii =
        subst
          (λ (b : Bool).
            Holds T laws key body chain
              (if not b then s else keep T true key (immortal body chain) s))
          (sym on) (Holds-stored T laws key body chain s on ascii)

    -- What PutImmortal stores in an enabled store, for a chain whose name is ASCII, is the answer of
    -- Get at any time whose milliseconds are an int64, after any sequence of Get, Put, PutImmortal,
    -- putNegative and UpdateLatestBlock that does not write the same key: no reorg and no eviction
    -- loses it.
    pub immortal_survives :
        (ops : List Op) (now : ℕ) (s : Store T)
        → s.cfg.enabled ≡ true
        → IsAscii chain
        → AllSpare key ops
        → millis now ≤ max_int64
        → (get T now key (apply_all T ops (put_immortal T key body chain s))).0 ≡ some body
    immortal_survives ops now s on ascii spared fresh =
        let stored : Store T = put_immortal T key body chain s in
        Holds-get now (apply_all T ops stored)
          (apply_all-Holds ops stored spared (put_immortal-Holds s on ascii)) fresh
