-- ===== src/Cache/Store/Writes.antt =====
-- internal/backend/cache.go: Get after Put.
use sabre.Common.{
  ℕ, ◌≤◌, ◌≡◌, refl, ap, ap₂, ◌∙◌, ◌⊎◌, inl, inr, Bool, true, not, Option, none, some, le→leb,
  if◌then◌else◌, Text,
}
use sabre.Multicall.Word.{slt}
use sabre.Cache.Store.{
  Entry, millis, Tiers, IsTiers, Store, is_valid, read_entry, get, keep, put_entry, put,
  short_lived, expiry_of,
}
use sabre.Cache.Store.Reads.{served, or_next, get-served}

module _ (T : Tiers) where
  open T use {peek, add}

  served-fresh :
      (now : ℕ) (s : Store T) (e : Entry)
      → millis now ≤ e.expiry
      → is_valid T s e ≡ true
      → served T now s (some e) ≡ some e.body
  unfolding served
  served-fresh now s e fresh valid = rw (served, le→leb (millis now) e.expiry fresh, valid) refl

  -- What the memory tier serves is Get's answer.
  pub get-hit :
      (now : ℕ) (key : Text) (s : Store T) (e : Entry)
      → s.cfg.enabled ≡ true
      → peek s.mem key ≡ some e
      → millis now ≤ e.expiry
      → is_valid T s e ≡ true
      → (get T now key s).0 ≡ some e.body
  unfolding or_next
  get-hit now key s e on held fresh valid =
      get-served T now key s
      ∙ ap
          (λ (b : Bool).
            if b
            then or_next T (served T now s (peek s.mem key))
                (served T now s (read_entry T s.db key))
            else none)
          on
      ∙ ap
          (λ (o : Option Entry).
            or_next T (served T now s o) (served T now s (read_entry T s.db key)))
          held
      ∙ ap (λ (o : Option Text). or_next T o (served T now s (read_entry T s.db key)))
          (served-fresh now s e fresh valid)

  -- So is what the durable tier serves, where the memory tier serves nothing else.
  pub get-disk_hit :
      (now : ℕ) (key : Text) (s : Store T) (e : Entry)
      → s.cfg.enabled ≡ true
      → read_entry T s.db key ≡ some e
      → (peek s.mem key ≡ none) ⊎ (peek s.mem key ≡ some e)
      → millis now ≤ e.expiry
      → is_valid T s e ≡ true
      → (get T now key s).0 ≡ some e.body
  unfolding or_next served
  get-disk_hit now key s e on held (inr m) fresh valid = get-hit now key s e on m fresh valid
  get-disk_hit now key s e on held (inl m) fresh valid =
      get-served T now key s
      ∙ ap
          (λ (b : Bool).
            if b
            then or_next T (served T now s (peek s.mem key))
                (served T now s (read_entry T s.db key))
            else none)
          on
      ∙ ap₂ (λ (o d : Option Entry). or_next T (served T now s o) (served T now s d)) m held
      ∙ served-fresh now s e fresh valid

  pub get-keep :
      (laws : IsTiers T) (now : ℕ) (durable : Bool) (key : Text) (e : Entry) (s : Store T)
      → s.cfg.enabled ≡ true
      → millis now ≤ e.expiry
      → is_valid T s e ≡ true
      → (get T now key (keep T durable key e s)).0 ≡ some e.body
  unfolding keep is_valid
  get-keep laws now durable key e s on fresh valid =
      get-hit now key (keep T durable key e s) e on (laws.peek_add s.mem key e) fresh valid

  -- After a Put with a positive TTL into an enabled store, Get answers with the body that was put,
  -- until the entry expires, as long as IsBlockHashValid accepts the block that Put recorded.
  pub get-put :
      (laws : IsTiers T) (now later when : ℕ) (key body : Text) (ttl : ℕ) (chain : Text)
      (call_num : ℕ) (call_hash : Text) (s : Store T)
      → s.cfg.enabled ≡ true
      → slt 0 ttl ≡ true
      → millis when ≤ expiry_of T now ttl chain call_num s
      → is_valid T s (put_entry T now body ttl chain call_num call_hash s) ≡ true
      → (get T when key (put T now later key body ttl chain call_num call_hash s)).0 ≡ some body
  unfolding put put_entry
  get-put laws now later when key body ttl chain call_num call_hash s on positive fresh valid =
      let e : Entry = put_entry T now body ttl chain call_num call_hash s in
      let stored : put T now later key body ttl chain call_num call_hash s
          ≡ keep T (not (short_lived T later e s.cfg)) key e s =
        simp (put, on, positive) in
      ap (λ (t : Store T). (get T when key t).0) stored
      ∙ get-keep laws when (not (short_lived T later e s.cfg)) key e s on fresh valid
