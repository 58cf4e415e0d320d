-- ===== src/Cache/Store/Reads.antt =====
-- internal/backend/cache.go: what Get answers, from what the two tiers hold.
use sabre.Common.{
  ℕ, ◌≡◌, refl, ap, ◌∙◌, Bool, true, false, ◌&&◌, Option, none, some, leb, if◌then◌else◌, Text,
  Option-cases, inl, inr,
}
use sabre.Cache.Store.{
  Entry, millis, Tiers, Store, is_valid, settle, from_memory, read_entry, from_disk, or_else, get,
}

module _ (T : Tiers) where
  open T use {Memory, Disk, peek, touch, add, remove, erase}

  -- The body of an entry that is there, has not expired and is on the current chain.
  unfoldable pub served : ℕ → Store T → Option Entry → Option Text
  unfolding is_valid
  served now s none = none
  served now s (some e) = if leb (millis now) e.expiry && is_valid T s e then some e.body else none

  unfoldable pub or_next : Option Text → Option Text → Option Text
  or_next none b = b
  or_next (some a) b = some a

  or_else-lem :
      (r : Option Text × Store T) (next : Store T → Option Text × Store T) (b : Option Text)
      → (next r.1).0 ≡ b
      → (or_else T r next).0 ≡ or_next r.0 b
  unfolding or_else or_next
  or_else-lem (none, s) next b e = e
  or_else-lem (some a, s) next b e = refl

  settle-answer :
      (fresh valid : Bool) (b : Text) (x y z : Store T)
      → (settle T fresh valid b x y z).0 ≡ (if fresh && valid then some b else none)
  unfolding settle
  settle-answer true true b x y z = refl
  settle-answer true false b x y z = refl
  settle-answer false valid b x y z = refl

  from_memory-served :
      (now : ℕ) (key : Text) (s : Store T)
      → (from_memory T now key s).0 ≡ served now s (peek s.mem key)
  unfolding from_memory served is_valid
  from_memory-served now key s = elim (Option-cases (peek s.mem key)) [
    | inl e ↦ rw (e, from_memory, served) refl
    | inr (e, p) ↦
        let touched : Store T = record s { mem = touch s.mem key } in
        rw (p, from_memory)
          (settle-answer (leb (millis now) e.expiry) (is_valid T s e) e.body touched
            (record touched { mem = remove touched.mem key }) touched)
  ]

  from_disk-served :
      (now : ℕ) (key : Text) (s : Store T)
      → (from_disk T now key s).0 ≡ served now s (read_entry T s.db key)
  unfolding from_disk served
  from_disk-served now key s = elim (Option-cases (read_entry T s.db key)) [
    | inl e ↦ rw (e, from_disk, served) refl
    | inr (e, p) ↦
        rw (p, from_disk)
          (settle-answer (leb (millis now) e.expiry) (is_valid T s e) e.body
            (record s { mem = add s.mem key e }) (record s { db = erase s.db key }) s)
  ]

  settle-frame :
      (fresh valid : Bool) (b : Text) (s : Store T) (l m n : Memory)
      → let r : Option Text × Store T =
          settle T fresh valid b
            (record s { mem = l })
            (record s { mem = m })
            (record s { mem = n }) in
        r.1 ≡ record s { mem = r.1.mem }
  unfolding settle
  settle-frame true true b s l m n = refl
  settle-frame true false b s l m n = refl
  settle-frame false valid b s l m n = refl

  -- A probe of the memory tier changes nothing else.
  pub from_memory-frame :
      (now : ℕ) (key : Text) (s : Store T)
      → (from_memory T now key s).1 ≡ record s { mem = (from_memory T now key s).1.mem }
  unfolding from_memory
  from_memory-frame now key s = elim (Option-cases (peek s.mem key)) [
    | inl e ↦ rw (e, from_memory) refl
    | inr (e, p) ↦
        rw (p, from_memory)
          (settle-frame (leb (millis now) e.expiry)
            (is_valid T (record s { mem = touch s.mem key }) e) e.body s (touch s.mem key)
            (remove (touch s.mem key) key) (touch s.mem key))
  ]

  served-mem :
      (now : ℕ) (s : Store T) (m : Memory) (o : Option Entry)
      → served now (record s { mem = m }) o ≡ served now s o
  unfolding served is_valid
  served-mem now s m none = refl
  served-mem now s m (some e) = refl

  -- After the memory tier's probe, the durable tier is asked about the same store.
  after_memory-served :
      (now : ℕ) (key : Text) (s : Store T)
      → (from_disk T now key (from_memory T now key s).1).0 ≡ served now s (read_entry T s.db key)
  after_memory-served now key s =
      let m : Memory = (from_memory T now key s).1.mem in
      ap (λ (t : Store T). (from_disk T now key t).0) (from_memory-frame now key s)
      ∙ from_disk-served now key (record s { mem = m })
      ∙ served-mem now s m (read_entry T s.db key)

  if_enabled :
      (enabled : Bool) (r : Option Text × Store T) (s : Store T) (o : Option Text)
      → r.0 ≡ o
      → (if enabled then r else (none, s)).0 ≡ (if enabled then o else none)
  if_enabled true r s o e = e
  if_enabled false r s o e = refl

  -- Get answers with the memory tier's entry, or with the durable tier's where that one is not
  -- served, or not at all; an entry is served if it has not expired and IsBlockHashValid accepts
  -- its block. A store that is not enabled never answers.
  pub get-served :
      (now : ℕ) (key : Text) (s : Store T)
      → (get T now key s).0 ≡ (
          if s.cfg.enabled
          then or_next (served now s (peek s.mem key)) (served now s (read_entry T s.db key))
          else none)
  unfolding get
  get-served now key s =
      let d : Option Text = served now s (read_entry T s.db key) in
      if_enabled s.cfg.enabled (or_else T (from_memory T now key s) (from_disk T now key)) s
        (or_next (served now s (peek s.mem key)) d)
        (or_else-lem (from_memory T now key s) (from_disk T now key) d
            (after_memory-served now key s)
          ∙ ap (λ (o : Option Text). or_next o d) (from_memory-served now key s))
