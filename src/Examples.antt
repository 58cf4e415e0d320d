-- ===== src/Examples.antt =====
-- Concrete instances of the parameters, and the theorems at concrete inputs.
pub mod Instances
mod Codec
mod Pool
mod Responses
mod Tracking
mod Aggregation
mod Subcalls
mod Collecting
