-- ===== src/Performance.antt =====
-- pkg/performance: batches, latency samples, throughput, load balancing and scaling.
pub mod Batch
pub mod Latency
pub mod Throughput
pub mod Balancer
pub mod Scaler
