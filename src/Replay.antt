-- ===== src/Replay.antt =====
-- src/providers/memory.ts (`MemoryNonceCacheProvider`), src/card/proof/nonce-cache.ts
-- (`InMemoryNonceCache`), src/providers/nonce-admission.ts and nonce-retention.ts: the stores that
-- remember which nonces were used, until a time. Times are milliseconds, lifetimes whole seconds.
pub mod Expiry
pub mod Provider
pub mod Card
pub mod Admission
mod Tests
