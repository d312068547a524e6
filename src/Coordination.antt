-- ===== src/Coordination.antt =====
-- pkg/coordination: the execution of plans, and the handoffs that it starts.
pub mod Plan
pub mod Handoffs
