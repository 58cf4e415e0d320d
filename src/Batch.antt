-- ===== src/Batch.antt =====
-- internal/backend/batch.go: what the batch processor does with the responses of a batch.
pub mod Queue
pub mod Wire
pub mod Delivery
pub mod Retry
pub mod Send
