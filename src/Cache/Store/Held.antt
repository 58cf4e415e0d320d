-- ===== src/Cache/Store/Held.antt =====
-- internal/backend/cache.go: the entry that PutImmortal stores, in the two tiers of a store, and the
-- changes to them that leave it there.
use sabre.Common.{
  ◌≡◌, refl, sym, ap, ◌∙◌, Bool, true, false, [], Option, none, some, arith, if◌then◌else◌, Text,
  text_eq, text_eq_iff, text_eq_refl, Bool-cases, inl, inr,
}
use sabre.Cache.Store.{Entry, max_int64, Tiers, IsTiers, IsAscii, Store, read_entry, keep}

abbrev pub immortal : Text → Text → Entry
immortal body chain = record {
  expiry = max_int64;
  body = body;
  chain_id = chain;
  block_hash = [];
  block_num = 0;
}

or_entry : Entry → Option Entry → Entry
or_entry e none = e
or_entry e (some f) = f

pub some-injective : {e f : Entry} → some e ≡ some f → e ≡ f
unfolding or_entry
some-injective {e} {f} p = ap (or_entry e) p

module _ (T : Tiers) where
  open T use {Memory, Disk, peek, touch, add, remove, read, write, erase, marshal, unmarshal}

  module _ (laws : IsTiers T) (key body chain : Text) where
    -- The durable tier holds the entry, and the memory tier holds no other one under the key.
    pub record Holds (s : Store T) : Type 0 where
      pub on : s.cfg.enabled ≡ true
      pub durable : read_entry T s.db key ≡ some (immortal body chain)
      pub cached : (f : Entry) → peek s.mem key ≡ some f → f ≡ immortal body chain

    pub Holds-touch : (k : Text) (s : Store T) → Holds s → Holds (record s { mem = touch s.mem k })
    Holds-touch k s h = record {
      on = h.on;
      durable = h.durable;
      cached = λ f p. h.cached f (sym (laws.peek_touch s.mem k key) ∙ p);
    }

    removed :
        (b : Bool) (o : Option Entry) (f : Entry) → (if b then none else o) ≡ some f → o ≡ some f
    removed true o f p = ground arith
    removed false o f p = p

    pub Holds-remove :
        (k : Text) (s : Store T) → Holds s → Holds (record s { mem = remove s.mem k })
    Holds-remove k s h = record {
      on = h.on;
      durable = h.durable;
      cached = λ f p.
          h.cached f
            (removed (text_eq k key) (peek s.mem key) f (sym (laws.peek_remove s.mem k key) ∙ p));
    }

    pub Holds-add :
        (k : Text) (e : Entry) (s : Store T)
        → (text_eq k key ≡ true → e ≡ immortal body chain)
        → Holds s
        → Holds (record s { mem = add s.mem k e })
    Holds-add k e s own h = record {
      on = h.on;
      durable = h.durable;
      cached = λ f p. elim (Bool-cases (text_eq k key)) [
        | inl q ↦
            let same : peek (add s.mem k e) key ≡ some e =
              ap (peek (add s.mem k e)) (sym ((text_eq_iff k key).0 q)) ∙ laws.peek_add s.mem k e in
            some-injective (sym p ∙ same) ∙ own q
        | inr q ↦ h.cached f (laws.add_only s.mem k key e f q p)
      ];
    }

    read_entry-same :
        (c d : Disk) → read c key ≡ read d key → read_entry T c key ≡ read_entry T d key
    unfolding read_entry
    read_entry-same c d p =
        ap (λ (o : Option Text). elim o [ none ↦ none | some v ↦ unmarshal v ]) p

    pub Holds-erase :
        (k : Text) (s : Store T)
        → text_eq k key ≡ false
        → Holds s
        → Holds (record s { db = erase s.db k })
    Holds-erase k s q h = record {
      on = h.on;
      durable =
          read_entry-same (erase s.db k) s.db (laws.read_erase s.db k key ∙ rw q refl) ∙ h.durable;
      cached = h.cached;
    }

    Holds-write :
        (k v : Text) (s : Store T)
        → text_eq k key ≡ false
        → Holds s
        → Holds (record s { db = write s.db k v })
    Holds-write k v s q h = record {
      on = h.on;
      durable =
          read_entry-same (write s.db k v) s.db (laws.read_write s.db k key v ∙ rw q refl)
          ∙ h.durable;
      cached = h.cached;
    }

    pub Holds-keep :
        (durable : Bool) (k : Text) (e : Entry) (s : Store T)
        → text_eq k key ≡ false
        → Holds s
        → Holds (keep T durable k e s)
    unfolding keep
    Holds-keep true k e s q h =
        Holds-add k e (record s { db = write s.db k (marshal e) }) (λ p. ground arith)
          (Holds-write k (marshal e) s q h)
    Holds-keep false k e s q h = Holds-add k e s (λ p. ground arith) h

    pub Holds-stored :
        (s : Store T)
        → s.cfg.enabled ≡ true
        → IsAscii chain
        → Holds (keep T true key (immortal body chain) s)
    unfolding keep read_entry
    Holds-stored s on ascii =
        let written : read (write s.db key (marshal (immortal body chain))) key
            ≡ some (marshal (immortal body chain)) =
          laws.read_write s.db key key (marshal (immortal body chain))
          ∙ rw (text_eq_refl key) refl in
        record {
          on = on;
          durable =
              ap (λ (o : Option Text). elim o [ none ↦ none | some v ↦ unmarshal v ]) written
              ∙ laws.unmarshal_marshal (immortal body chain) ascii tt;
          cached = λ f p. some-injective (sym p ∙ laws.peek_add s.mem key (immortal body chain));
        }
