-- ===== src/Balancer.antt =====
-- internal/backend/balancer.go: the load balancer, by what its parts do. Of each chain it keeps the
-- backends with their weights; the two parallel slices of the source are one list of members.
pub mod Member
pub mod Random
pub mod Pick
pub mod Latency
pub mod Health
pub mod Probe
