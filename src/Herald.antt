-- ===== src/Herald.antt =====
-- pkg/herald: trust tiers and approvals.
pub mod Trust
pub mod Approval
