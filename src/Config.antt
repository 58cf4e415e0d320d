-- ===== src/Config.antt =====
-- internal/backend/config.go: the settings of each section after ParseConfig has put in the
-- defaults. A section is what the TOML decoder returns for it, none where the file has no such
-- section. An int or a time.Duration (in nanoseconds) is its 64-bit pattern.
pub mod Defaults
use sabre.Common.{
  ℕ, ◌+◌, ◌*◌, ◌%◌, ◌^◌, Bool, true, false, not, ◌||◌, ◌&&◌, List, [], ◌∷◌, ◌++◌, Option, none,
  some, if◌then◌else◌, Text, codes, text_eq, is_empty,
}
use sabre.Multicall.Word.{slt, word_mod}
use sabre.Float.{FloatOps}

abbrev pub millisecond : ℕ
millisecond = 1_000_000

abbrev pub second : ℕ
second = 1_000_000_000

-- if x <= 0 { x = d }
unfoldable pub or_default : ℕ → ℕ → ℕ
or_default x d = if slt 0 x then x else d

-- if x <= 0 { x = d } else { x = x * time.Millisecond }
unfoldable pub millis_or_default : ℕ → ℕ → ℕ
millis_or_default x d = if slt 0 x then (x * millisecond) % word_mod else d

pub record SabreConfig : Type 0 where
  pub listen : Text
  pub max_attempts : ℕ

pub record HealthConfig : Type 0 where
  pub enabled : Bool
  pub ttl_check : ℕ
  pub timeout : ℕ
  pub fails_to_down : ℕ
  pub passes_to_up : ℕ

unfoldable pub health_section : Option HealthConfig → HealthConfig
unfolding or_default millis_or_default
health_section none = record {
  enabled = true;
  ttl_check = 1000 * millisecond;
  timeout = 1500 * millisecond;
  fails_to_down = 2;
  passes_to_up = 2;
}
health_section (some hc) = record hc {
  ttl_check = millis_or_default hc.ttl_check (1000 * millisecond);
  timeout = millis_or_default hc.timeout (1500 * millisecond);
  fails_to_down = or_default hc.fails_to_down 2;
  passes_to_up = or_default hc.passes_to_up 2;
}

pub record SubscriptionsConfig : Type 0 where
  pub max_connections_per_backend : ℕ
  pub max_subscriptions_per_connection : ℕ
  pub ping_interval : ℕ
  pub pong_wait : ℕ
  pub write_wait : ℕ
  pub read_wait : ℕ
  pub enable_compression : Bool
  pub max_message_size : ℕ

unfoldable pub subscriptions_section : Option SubscriptionsConfig → SubscriptionsConfig
unfolding or_default millis_or_default
subscriptions_section none = record {
  max_connections_per_backend = 100;
  max_subscriptions_per_connection = 50;
  ping_interval = 30 * second;
  pong_wait = 10 * second;
  write_wait = 10 * second;
  read_wait = 60 * second;
  enable_compression = true;
  max_message_size = 1048576;
}
subscriptions_section (some sc) = record sc {
  max_connections_per_backend = or_default sc.max_connections_per_backend 100;
  max_subscriptions_per_connection = or_default sc.max_subscriptions_per_connection 50;
  ping_interval = millis_or_default sc.ping_interval (30 * second);
  pong_wait = millis_or_default sc.pong_wait (10 * second);
  write_wait = millis_or_default sc.write_wait (10 * second);
  read_wait = millis_or_default sc.read_wait (60 * second);
  max_message_size = or_default sc.max_message_size 1048576;
}

pub record MulticallConfig : Type 0 where
  pub enabled : Bool
  pub address : Text
  pub max_calls : ℕ

abbrev pub multicall3_address : Text
multicall3_address = codes "0xcA11bde05977b3631167028862bE2a173976CA11"

unfoldable pub multicall_section : Option MulticallConfig → MulticallConfig
unfolding or_default
multicall_section none = record { enabled = false; address = multicall3_address; max_calls = 150 }
multicall_section (some mc) = record mc {
  address = if is_empty mc.address then multicall3_address else mc.address;
  max_calls = or_default mc.max_calls 150;
}

pub record BatchConfig : Type 0 where
  pub enabled : Bool
  pub max_batch_size : ℕ
  pub max_batch_wait_time : ℕ
  pub max_batch_workers : ℕ
  pub max_retries : ℕ

unfoldable pub batch_section : Option BatchConfig → BatchConfig
unfolding or_default millis_or_default
batch_section none = record {
  enabled = false;
  max_batch_size = 10;
  max_batch_wait_time = 50 * millisecond;
  max_batch_workers = 4;
  max_retries = 2;
}
batch_section (some bc) = record bc {
  max_batch_size = or_default bc.max_batch_size 10;
  max_batch_wait_time = millis_or_default bc.max_batch_wait_time (50 * millisecond);
  max_batch_workers = or_default bc.max_batch_workers 4;
  max_retries = or_default bc.max_retries 2;
}

pub record ChainCacheConfig : Type 0 where
  pub max_reorg_depth : ℕ
  pub block_time : ℕ

pub record CacheConfig : Type 0 where
  pub enabled : Bool
  pub path : Text
  pub mem_entries : ℕ
  pub ttl_latest : ℕ
  pub ttl_block : ℕ
  pub clean : Bool
  pub block_cache_bytes : ℕ
  pub chains : List (Text × ChainCacheConfig)

-- for chain, chainCfg := range cc.Chains
unfoldable pub chains_in_nanoseconds :
    List (Text × ChainCacheConfig) → List (Text × ChainCacheConfig)
chains_in_nanoseconds [] = []
chains_in_nanoseconds ((chain, c) ∷ cs) =
    (chain, record c { block_time = (c.block_time * millisecond) % word_mod })
    ∷ chains_in_nanoseconds cs

-- The configuration itself; left out are the refusal of a path that cleans to "", "." or "/", and the
-- directory that is emptied where `clean` is set, and made.
unfoldable pub cache_section : Option CacheConfig → CacheConfig
unfolding or_default millis_or_default chains_in_nanoseconds
cache_section none = record {
  enabled = false;
  path = codes "./.data/sabre";
  mem_entries = 100_000;
  ttl_latest = 250 * millisecond;
  ttl_block = 86_400_000 * millisecond;
  clean = false;
  block_cache_bytes = 0;
  chains = [];
}
cache_section (some cc) = record cc {
  path = if is_empty cc.path then codes "./.data/sabre" else cc.path;
  mem_entries = or_default cc.mem_entries 100_000;
  ttl_latest = millis_or_default cc.ttl_latest (250 * millisecond);
  ttl_block = millis_or_default cc.ttl_block (86_400_000 * millisecond);
  chains = chains_in_nanoseconds cc.chains;
}

-- c.Chains[chainID], the zero value where the chain has no entry
unfoldable pub chain_config : Text → List (Text × ChainCacheConfig) → ChainCacheConfig
chain_config chain [] = record { max_reorg_depth = 0; block_time = 0 }
chain_config chain ((name, c) ∷ cs) = if text_eq name chain then c else chain_config chain cs

-- BlockTime
unfoldable pub block_time : CacheConfig → Text → ℕ
unfolding chain_config
block_time c chain = (chain_config chain c.chains).block_time

-- ReorgDepth: uint64(max(depth, 0))
unfoldable pub reorg_depth : CacheConfig → Text → ℕ
unfolding chain_config or_default
reorg_depth c chain = or_default (chain_config chain c.chains).max_reorg_depth 0

-- The checks at the end of ParseConfig on each backend: its chain, and whether it has a WebSocket
-- URL. none is the panic; some is HasWebSocket.
unfoldable pub check_backends : CacheConfig → List (Text × Bool) → Bool → Option Bool
unfolding reorg_depth block_time
check_backends c [] has_websocket = some has_websocket
check_backends c ((chain, streamed) ∷ bs) has_websocket =
    let rest = check_backends c bs (streamed || has_websocket) in
    if (c.enabled || streamed) && not (slt 0 (reorg_depth c chain))
    then none
    else if streamed && not (slt 0 (block_time c chain))
    then none
    else rest

module _ (Fl : FloatOps) where
  open Fl use {F, le, zero_f, default_gamma}

  pub record PerformanceConfig : Type 0 where
    pub timeout : ℕ
    pub samples : ℕ
    pub gamma : F
    pub max_idle_conns : ℕ
    pub max_idle_conns_per_host : ℕ
    pub idle_conn_timeout : ℕ
    pub disable_keep_alives : Bool
    pub enable_http2 : Bool
    pub max_concurrent_streams : ℕ
    pub enable_compression : Bool
    pub compression_level : ℕ

  unfoldable pub performance_section : Option PerformanceConfig → PerformanceConfig
  unfolding or_default millis_or_default
  performance_section none = record {
    timeout = 2000 * millisecond;
    samples = 100;
    gamma = default_gamma;
    max_idle_conns = 8192;
    max_idle_conns_per_host = 2048;
    idle_conn_timeout = 90 * second;
    disable_keep_alives = false;
    enable_http2 = true;
    max_concurrent_streams = 250;
    enable_compression = true;
    compression_level = 6;
  }
  performance_section (some pc) = record pc {
    timeout = millis_or_default pc.timeout (2000 * millisecond);
    samples = or_default pc.samples 100;
    gamma = if le pc.gamma zero_f then default_gamma else pc.gamma;
    max_idle_conns = or_default pc.max_idle_conns 8192;
    max_idle_conns_per_host = or_default pc.max_idle_conns_per_host 2048;
    idle_conn_timeout = millis_or_default pc.idle_conn_timeout (90 * second);
    max_concurrent_streams = or_default pc.max_concurrent_streams 250;
    compression_level = or_default pc.compression_level 6;
  }
