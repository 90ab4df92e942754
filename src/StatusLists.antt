-- ===== src/StatusLists.antt =====
-- The status lists that revocation reads and writes.
pub mod Bits
pub mod Payload
pub mod Storage
pub mod Manager
mod Tests
