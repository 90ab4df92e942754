-- ===== src/Policy.antt =====
-- src/policy: the quorum of step-up approvals (approval.ts) and the default engine
-- (default-engine.ts).
pub mod Approval
pub mod Engine
mod Tests
