-- ===== src/Delegation.antt =====
-- src/delegation: what a delegation credential grants, chains of them, and their revocation.
pub mod Scope
pub mod Credential
pub mod Authority
pub mod Chain
pub mod Graph
pub mod StatusEntry
pub mod Revocation
pub mod StatusCache
mod Tests
