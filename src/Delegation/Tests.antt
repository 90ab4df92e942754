-- ===== src/Delegation/Tests.antt =====
-- Concrete delegations, and the theorems of src/delegation at them.
mod Scopes
mod Chains
mod Graphs
mod Revocations
