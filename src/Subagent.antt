-- ===== src/Subagent.antt =====
-- pkg/subagent: the trust that agent types earn, the contexts that agents get, and their budgets.
pub mod Trust
pub mod Context
pub mod Budget
pub mod Lifecycle
pub mod Parallel
