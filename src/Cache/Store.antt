-- ===== src/Cache/Store.antt =====
-- internal/backend/cache.go: the Store, over its memory tier (an lru.Cache) and its durable tier (a
-- pebble database), which are parameters. Times are nanoseconds since 1970. A store that is not
-- enabled has neither tier, and every operation but UpdateLatestBlock returns before it needs one.
pub mod Reads
pub mod Writes
pub mod Reorg
pub mod Held
pub mod History
pub mod Immortal
use sabre.Common.{
  ℕ, ◌+◌, ◌-◌, ◌/◌, ◌^◌, ◌<◌, ◌≡◌, ◌≢◌, Bool, true, false, not, ◌&&◌, ◌||◌, List, [], ◌∷◌, Option,
  none, some, ltb, leb, ◌==◌, if◌then◌else◌, Text, text_eq,
}
use sabre.Multicall.Word.{slt}
use sabre.Config.{CacheConfig, reorg_depth}
use sabre.Json.{Raw}
use sabre.Head.{extract_block_info}
use sabre.Cache.Tracker.{ChainState, detect_reorg, track, is_block_hash_valid}

-- entry; a missing field of the JSON form reads as 0 or ""
pub record Entry : Type 0 where
  pub expiry : ℕ
  pub body : Text
  pub chain_id : Text
  pub block_hash : Text
  pub block_num : ℕ

-- math.MaxInt64
abbrev pub max_int64 : ℕ
max_int64 = 2 ^ 63 - 1

-- UnixMilli, and Milliseconds of a duration
abbrev pub millis : ℕ → ℕ
millis t = t / 1_000_000

-- lru.Cache's Peek, the effect of Get on the order of use, Add, Remove and Keys; pebble's Get, Set
-- and Delete; and the JSON form of an entry.
pub record Tiers : Type 1 where
  pub Memory : Type 0
  pub Disk : Type 0
  pub peek : Memory → Text → Option Entry
  pub touch : Memory → Text → Memory
  pub add : Memory → Text → Entry → Memory
  pub remove : Memory → Text → Memory
  pub keys : Memory → List Text
  pub read : Disk → Text → Option Text
  pub write : Disk → Text → Text → Disk
  pub erase : Disk → Text → Disk
  pub marshal : Entry → Text
  pub unmarshal : Text → Option Entry

unfoldable pub has_key : Text → List Text → Bool
has_key k [] = false
has_key k (j ∷ js) = text_eq j k || has_key k js

abbrev pub IsAscii : Text → Type 0
IsAscii [] = Unit {0}
IsAscii (c ∷ cs) = (c < 128) × IsAscii cs

module _ (T : Tiers) where
  open T use {Memory, Disk, peek, touch, add, remove, keys, read, write, erase, marshal, unmarshal}

  -- What is documented of the tiers: a cache of positive size holds what was added last, adding may
  -- drop other keys, and the database answers with what was last set. encoding/json keeps ASCII.
  pub record IsTiers : Type 0 where
    pub peek_touch : (m : Memory) (k j : Text) → peek (touch m k) j ≡ peek m j
    pub peek_add : (m : Memory) (k : Text) (e : Entry) → peek (add m k e) k ≡ some e
    pub add_only :
        (m : Memory) (k j : Text) (e f : Entry)
        → text_eq k j ≡ false
        → peek (add m k e) j ≡ some f
        → peek m j ≡ some f
    pub peek_remove :
        (m : Memory) (k j : Text) → peek (remove m k) j ≡ (if text_eq k j then none else peek m j)
    pub keys_all :
        (m : Memory) (k : Text) (e : Entry) → peek m k ≡ some e → has_key k (keys m) ≡ true
    pub read_write :
        (d : Disk) (k j v : Text)
        → read (write d k v) j ≡ (if text_eq k j then some v else read d j)
    pub read_erase :
        (d : Disk) (k j : Text) → read (erase d k) j ≡ (if text_eq k j then none else read d j)
    pub unmarshal_marshal :
        (e : Entry) → IsAscii e.chain_id → IsAscii e.block_hash → unmarshal (marshal e) ≡ some e

  pub record Store : Type 0 where
    pub cfg : CacheConfig
    pub mem : Memory
    pub db : Disk
    pub chains : Text → ChainState

  -- IsBlockHashValid of an entry's chain, hash and number
  unfoldable pub is_valid : Store → Entry → Bool
  is_valid s e =
      is_block_hash_valid (reorg_depth s.cfg e.chain_id) (s.chains e.chain_id) e.block_hash
        e.block_num

  -- A hit that is fresh and valid, one to drop, and one that has expired.
  unfoldable pub settle : Bool → Bool → Text → Store → Store → Store → Option Text × Store
  settle true true body hit dropped stale = (some body, hit)
  settle true false body hit dropped stale = (none, dropped)
  settle false valid body hit dropped stale = (none, stale)

  unfoldable pub from_memory : ℕ → Text → Store → Option Text × Store
  unfolding is_valid settle
  from_memory now key s =
      let touched : Store = record s { mem = touch s.mem key } in
      elim (peek s.mem key) [
        | none ↦ (none, touched)
        | some e ↦
            settle (leb (millis now) e.expiry) (is_valid touched e) e.body touched
              (record touched { mem = remove touched.mem key }) touched
      ]

  unfoldable pub read_entry : Disk → Text → Option Entry
  read_entry d key = elim (read d key) [ none ↦ none | some val ↦ unmarshal val ]

  unfoldable pub from_disk : ℕ → Text → Store → Option Text × Store
  unfolding is_valid read_entry settle
  from_disk now key s = elim (read_entry s.db key) [
    | none ↦ (none, s)
    | some e ↦
        settle (leb (millis now) e.expiry) (is_valid s e) e.body
          (record s { mem = add s.mem key e }) (record s { db = erase s.db key }) s
  ]

  unfoldable pub or_else : Option Text × Store → (Store → Option Text × Store) → Option Text × Store
  or_else (some b, s) next = (some b, s)
  or_else (none, s) next = next s

  -- Get
  unfoldable pub get : ℕ → Text → Store → Option Text × Store
  unfolding from_memory from_disk or_else
  get now key s =
      if s.cfg.enabled then or_else (from_memory now key s) (from_disk now key) else (none, s)

  -- shortLived
  unfoldable pub short_lived : ℕ → Entry → CacheConfig → Bool
  short_lived now e cfg =
      if e.expiry == max_int64 then false else leb e.expiry (millis now + millis cfg.ttl_latest)

  -- What Put, putNegative and PutImmortal do on both tiers.
  unfoldable pub keep : Bool → Text → Entry → Store → Store
  keep durable key e s = record s {
    mem = add s.mem key e;
    db = if durable then write s.db key (marshal e) else s.db;
  }

  -- The expiry that Put gives an entry.
  unfoldable pub expiry_of : ℕ → ℕ → Text → ℕ → Store → ℕ
  expiry_of now ttl chain call_num s =
      let tip = (s.chains chain).latest_block in
      if ltb 0 call_num && ltb call_num tip && ltb (reorg_depth s.cfg chain) (tip - call_num)
      then max_int64
      else millis (now + ttl)

  unfoldable pub put_entry : ℕ → Text → ℕ → Text → ℕ → Text → Store → Entry
  unfolding expiry_of
  put_entry now body ttl chain call_num call_hash s = record {
    expiry = expiry_of now ttl chain call_num s;
    body = body;
    chain_id = chain;
    block_hash = if call_num == 0 then (s.chains chain).latest_hash else call_hash;
    block_num = if call_num == 0 then (s.chains chain).latest_block else call_num;
  }

  -- Put; `later` is the time when shortLived asks for it
  unfoldable pub put : ℕ → ℕ → Text → Text → ℕ → Text → ℕ → Text → Store → Store
  unfolding put_entry short_lived keep
  put now later key body ttl chain call_num call_hash s =
      let e : Entry = put_entry now body ttl chain call_num call_hash s in
      if not s.cfg.enabled || not (slt 0 ttl)
      then s
      else keep (not (short_lived later e s.cfg)) key e s

  -- PutImmortal
  unfoldable pub put_immortal : Text → Text → Text → Store → Store
  unfolding keep
  put_immortal key body chain s =
      if not s.cfg.enabled
      then s
      else keep true key
          (record {
            expiry = max_int64;
            body = body;
            chain_id = chain;
            block_hash = [];
            block_num = 0;
          })
          s

  -- putNegative, behind the key of the sub-call
  unfoldable pub put_negative : ℕ → Text → Text → Store → Store
  unfolding keep
  put_negative now key chain s =
      if not s.cfg.enabled || not (slt 0 s.cfg.ttl_block)
      then s
      else keep true key
          (record {
            expiry = millis (now + s.cfg.ttl_block);
            body = [];
            chain_id = chain;
            block_hash = [];
            block_num = 0;
          })
          s

  -- The body of purgeChain's loop.
  unfoldable pub purge_one : Text → Text → Memory → Memory
  purge_one chain k m = elim (peek m k) [
    | none ↦ m
    | some e ↦ if text_eq e.chain_id chain then remove m k else m
  ]

  unfoldable pub purge_keys : Text → List Text → Memory → Memory
  unfolding purge_one
  purge_keys chain [] m = m
  purge_keys chain (k ∷ ks) m = purge_keys chain ks (purge_one chain k m)

  -- purgeChain
  unfoldable pub purge_chain : Text → Memory → Memory
  unfolding purge_keys
  purge_chain chain m = purge_keys chain (keys m) m

  unfoldable pub set_chain : Text → ChainState → (Text → ChainState) → Text → ChainState
  set_chain chain c chains other = if text_eq chain other then c else chains other

  -- UpdateLatestBlock
  unfoldable pub update_latest_block : Text → ℕ → Text → Option Raw → Store → Store
  unfolding purge_chain set_chain
  update_latest_block chain n hash block_data s =
      let c : ChainState = s.chains chain in
      let reorg_detected = detect_reorg c n hash block_data in
      record s {
        mem = if reorg_detected && s.cfg.enabled then purge_chain chain s.mem else s.mem;
        chains = set_chain chain (track (reorg_depth s.cfg chain) n hash c) s.chains;
      }

  -- CheckReorgFromHealthResponse
  unfoldable pub check_reorg : Raw → Text → Store → Store
  unfolding extract_block_info update_latest_block
  check_reorg response chain s =
      let found = extract_block_info response in
      if ltb 0 found.0 then update_latest_block chain found.0 found.1 (some response) s else s
