-- ===== src/Audit.antt =====
-- The audit journal's digests and Merkle tree.
pub mod Digests
pub mod Merkle
pub mod Consistency
pub mod SourceState
pub mod Journal
pub mod Outbox
mod Tests
