-- ===== src/Multicall.antt =====
-- internal/backend/multicall.go: calls of Multicall3, their ABI encoding, and eth_call requests.
pub mod Word
pub mod Encode
pub mod Layout
pub mod Decode
pub mod RoundTrip
pub mod Panics
pub mod Params
pub mod Aggregate
pub mod Expand
