-- ===== src/Cache.antt =====
-- internal/backend/cache.go: the response cache.
pub mod Heights
pub mod Keys
pub mod Reply
pub mod SubCalls
pub mod Serve
pub mod Plan
pub mod Store
pub mod Tracker
pub mod Ttl
