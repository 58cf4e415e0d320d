-- ===== src/Examples/Instances.antt =====
-- Instances of what is a parameter elsewhere: numbers, limiters and the two tiers of the cache.
use sabre.Common.{
  ℕ, ◌+◌, ◌-◌, ◌*◌, ◌/◌, ◌≡◌, refl, Bool, true, false, ◌||◌, List, [], ◌∷◌, ◌++◌, Option, none,
  some, arith, ltb, leb, ◌==◌, if◌then◌else◌, length, take, drop, take-append, drop-append, Text,
  text_eq, text_eq_refl, codes, Bool-cases, inl, inr,
}
use sabre.Float.{FloatOps}
use sabre.Backend.{Backend}
use sabre.Balancer.Member.{Member}
use sabre.Balancer.Pick.{LimiterOps}
use sabre.Config.{CacheConfig}
use sabre.Cache.Tracker.{unseen}
use sabre.Cache.Store.{Entry, Tiers, IsTiers, has_key, Store}

-- An operation on numbers of which one may be no number.
abbrev pub lifted {ℓ} : {B : Type ℓ} → (ℕ → ℕ → B) → B → Option ℕ → Option ℕ → B
lifted f d none y = d
lifted f d (some a) none = d
lifted f d (some a) (some b) = f a b

-- Tenths, and none, which is no number: what a division by zero gives, which is in no order.
abbrev pub tenths : FloatOps
tenths = record {
  F = Option ℕ;
  zero_f = some 0;
  one_f = some 10;
  min_weight = some 1;
  default_gamma = some 9;
  add = lifted (λ a b. some (a + b)) none;
  mul = lifted (λ a b. some (a * b)) none;
  div = lifted (λ a b. if b == 0 then none else some (a / b)) none;
  pow_neg = λ r g. r;
  of_int = λ n. some n;
  lt = lifted ltb false;
  le = lifted leb false;
}

-- One bucket of tokens; a reservation is free in 5 nanoseconds.
abbrev pub bucket : LimiterOps
bucket = record {
  States = ℕ;
  Reservation = ℕ;
  allow = λ l s. (ltb 0 s, s - 1);
  reserve = λ l s. (5, s - 1);
  delay = λ r. r;
  is_ok = λ r. true;
  cancel = λ r s. s + 1;
}

abbrev pub node : Text → ℕ → Backend
node name head = record {
  name = name;
  chain = codes "base";
  url = some name;
  ws_url = none;
  latency_history = [];
  avg_latency = 0;
  request_count = 0;
  health_up = true;
  fail_streak = 0;
  pass_streak = 0;
  head = head;
  limiter = some 0;
}

abbrev pub pool : List (Member tenths)
pool =
    (record { backend = node (codes "a") 7; weight = some 10 })
    ∷ (record { backend = node (codes "b") 9; weight = some 4 })
    ∷ []

-- The memory tier as its keys and a function, the durable tier as a function.
abbrev pub held_at : List Text × (Text → Option Entry) → Text → Option Entry
held_at m j = if has_key j m.0 then m.1 j else none

unfoldable pub encode_entry : Entry → Text
encode_entry e =
    e.expiry
    ∷ e.block_num
    ∷ length e.body
    ∷ length e.chain_id
    ∷ (e.body ++ (e.chain_id ++ e.block_hash))

unfoldable pub decode_entry : Text → Option Entry
decode_entry (expiry ∷ num ∷ n ∷ k ∷ rest) = some (record {
  expiry = expiry;
  body = take n rest;
  chain_id = take k (drop n rest);
  block_hash = drop k (drop n rest);
  block_num = num;
})
decode_entry _ = none

decode-encode_entry : (e : Entry) → decode_entry (encode_entry e) ≡ some e
unfolding decode_entry encode_entry
decode-encode_entry e =
    rw
      (
        take-append e.body (e.chain_id ++ e.block_hash) (length e.body) refl,
        drop-append e.body (e.chain_id ++ e.block_hash) (length e.body) refl,
        take-append e.chain_id e.block_hash (length e.chain_id) refl,
        drop-append e.chain_id e.block_hash (length e.chain_id) refl,
      )
      refl

abbrev pub tables : Tiers
tables = record {
  Memory = List Text × (Text → Option Entry);
  Disk = Text → Option Text;
  peek = held_at;
  touch = λ m k. m;
  add = λ m k e. (k ∷ m.0, λ j. if text_eq k j then some e else held_at m j);
  remove = λ m k. (m.0, λ j. if text_eq k j then none else m.1 j);
  keys = λ m. m.0;
  read = λ d k. d k;
  write = λ d k v j. if text_eq k j then some v else d j;
  erase = λ d k j. if text_eq k j then none else d j;
  marshal = encode_entry;
  unmarshal = decode_entry;
}

removed_at :
    (a b : Bool) (o : Option Entry)
    → (if b then (if a then none else o) else none) ≡ (if a then none else (if b then o else none))
removed_at true true o = refl
removed_at true false o = refl
removed_at false b o = refl

added_at :
    (h b : Bool) (e f : Entry) (o : Option Entry)
    → b ≡ false
    → (if b || h then (if b then some e else (if h then o else none)) else none) ≡ some f
    → (if h then o else none) ≡ some f
added_at true true e f o p q = ground arith
added_at false true e f o p q = ground arith
added_at true false e f o p q = q
added_at false false e f o p q = q

pub tables-IsTiers : IsTiers tables
unfolding has_key
tables-IsTiers = record {
  peek_touch = λ m k j. refl;
  peek_add = λ m k e. rw (text_eq_refl k) refl;
  add_only = λ m k j e f p q. added_at (has_key j m.0) (text_eq k j) e f (m.1 j) p q;
  peek_remove = λ m k j. removed_at (text_eq k j) (has_key j m.0) (m.1 j);
  keys_all = λ m k e p. elim (Bool-cases (has_key k m.0)) [
    | inl h ↦ h
    | inr h ↦ absurd (none_some e (rw h at p))
  ];
  read_write = λ d k j v. refl;
  read_erase = λ d k j. refl;
  unmarshal_marshal = λ e _ _. decode-encode_entry e;
}
  where
    none_some : (e : Entry) → none ≡ some e → ⊥
    none_some e p = ground arith

abbrev pub settings : CacheConfig
settings = record {
  enabled = true;
  path = codes "cache";
  mem_entries = 100;
  ttl_latest = 250_000_000;
  ttl_block = 86_400_000_000_000;
  clean = false;
  block_cache_bytes = 0;
  chains = (codes "base", record { max_reorg_depth = 2; block_time = 2_000_000_000 }) ∷ [];
}

abbrev pub empty_store : Store tables
empty_store = record { cfg = settings; mem = ([], λ k. none); db = λ k. none; chains = λ c. unseen }
