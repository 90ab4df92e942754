-- ===== src/Card.antt =====
-- src/card: the delegation profile of the Entity Card and its cascading revocation.
pub mod Json
pub mod Decimal
pub mod Caveats
pub mod Revocation
pub mod Delegation
mod Tests
