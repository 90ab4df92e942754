-- ===== src/Stores.antt =====
-- The in-memory stores: src/session/session-store.ts, src/utils/ttl-cache.ts,
-- src/authz/oidc/pending-flow-store.ts and src/providers/grant-store.ts.
pub mod SessionStore
pub mod TtlCache
pub mod PendingFlow
pub mod GrantStore
mod Tests
