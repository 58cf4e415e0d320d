-- ===== src/Lib.antt =====
-- Sabre is a load balancer for JSON-RPC nodes of blockchains. A request that comes to its router is
-- answered from a cache, or goes to a backend that the load balancer picks, alone or in a batch with
-- others; the block headers that the backends stream, and the probes of their health, tell the cache
-- which blocks are on the chain. This library models the parts that decide, most of them in
-- internal/backend, and proves what they promise.
--
-- How the parts interact: a probe or a header goes to UpdateLatestBlock, which keeps the hashes of
-- the recent blocks and purges the memory tier of the cache on a reorg; Get asks IsBlockHashValid
-- about the block of every entry; AnswerTTL decides what is put into the cache; RequiredHead of a
-- request is the head that PickAtLeast asks of a backend; eth_calls travel in batches as one call of
-- Multicall3, in the encoding of the codec.
--
-- Files. Common: Boolean tests, lists with native lengths, texts as lists of bytes. Float: float64 as
-- a parameter. Json: encoding/json as the source uses it, over parsed values (`Raw`).
-- Config, Config/Defaults: internal/backend/config.go, the sections that ParseConfig completes.
-- Backend, Backend/Observe: internal/backend/backend.go, ObserveHead also as the steps of goroutines.
-- Balancer: internal/backend/balancer.go. Member is the pools of NewLoadBalancer, Random the
-- generator, Pick PickAtLeast (its theorem in Pick/Guarantee), Latency UpdateLatency and weigh,
-- Health the streaks of markDown and probe, Probe the rest of probe (Probe/Like and Probe/Runs: runs of
-- probes).
-- Head: internal/backend/head.go; BlockUnavailable is in Head/Unavailable.
-- Cache: internal/backend/cache.go. Heights is a map from block numbers to hashes, Tracker the
-- tracker of one chain, Store the operations on the two tiers (Store/History: sequences of them), Ttl
-- TTL, AnswerTTL and ResponseBlock, Keys the cache keys, Reply the responses that the cache writes,
-- SubCalls the immutable reads and their multicalls, Serve Lookup and Store, Plan PlanMulticall and
-- CompleteMulticall.
-- Multicall: the Multicall3 codec of internal/backend/multicall.go. Word is its integers, Encode and
-- Decode the codec, Layout what the encoders write, RoundTrip and Panics what the decoders do. Params
-- is the parameters of an eth_call, Aggregate aggregateEthCalls, Expand expandMulticallResponses.
-- Rpc: the JSON-RPC requests and responses of internal/backend/batch.go.
-- Batch: internal/backend/batch.go. Queue is AddRequest, the start of processBatch and FlushAll as the
-- steps of goroutines on shared batches, Wire parseWireID, Delivery the end of processBatch, Send sendBatch, Retry the
-- retried statuses, those of internal/router/router.go too.
-- Router: internal/router/router.go, orderBatchResponses (Router/Place and Router/Slots: when its last
-- loop succeeds, Router/Order: what it fills).
-- Stream: internal/backend/stream.go, markDelivered and its caller.
-- Examples: instances of the parameters, and the theorems at concrete inputs.
--
-- Integers: a uint64, an int or a duration is its 64-bit pattern, with the wrap-around written out
-- where the source's arithmetic can reach it. Fuel stands in two loops: the decimal digits of a
-- number, on the number itself, and the chunks of a group of calls, on the number of calls; both
-- are enough, since each round leaves less. The loop of sendBatch counts its attempts down; every
-- other loop is recursion over a list.
--
-- Parameters: float64 (Float), the limiters of golang.org/x/time/rate (Balancer/Pick), the lru
-- cache and the pebble database (Cache/Store, with what is documented of them in IsTiers), sha256
-- (Cache/Keys), the compact and the parsed form of JSON bytes (Cache/Keys, Cache/Serve), the clock
-- of the cache's reads and writes (Cache/SubCalls), the text of a decoder's error
-- (Multicall/Expand), what happens at an attempt of sendBatch and the decoding of a body
-- (Batch/Send), and Unmarshal of a response's id (Router). Locks are not modelled: an operation
-- that the source runs under a lock is one step.
--
-- Not modelled: HTTP and WebSocket I/O, the router's handler, the opening of the cache and its
-- singleflight, the callers' contexts and the worker pools of the batches, subscriptions, TOML
-- decoding, how long sendBatch waits before an attempt, start-up in cmd/sabre/main.go and the test double in internal/backend/mock.go.
pub mod Common
pub mod Multicall
pub mod Float
pub mod Config
pub mod Json
pub mod Cache
pub mod Head
pub mod Batch
pub mod Backend
pub mod Balancer
pub mod Router
pub mod Rpc
pub mod Stream
pub mod Examples
