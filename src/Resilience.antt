-- ===== src/Resilience.antt =====
-- pkg/resilience: circuit breaker, retries, rate limits, load control, checkpoints and failure
-- detection.
pub mod Breaker
pub mod Retry
pub mod Limiter
pub mod Load
pub mod Recovery
pub mod Detector
