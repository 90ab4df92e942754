-- ===== src/Audit/Merkle/Inclusion.antt =====
-- Inclusion proofs of src/audit/merkle.ts: a built proof is accepted, and no other is.
pub mod Messages
mod Sides
pub mod Complete
pub mod Sound
