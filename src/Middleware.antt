-- ===== src/Middleware.antt =====
-- src/middleware: what the wrapped tool calls go through, over the delegation checks and the stores.
pub mod HolderBinding
pub mod Grants
mod Tests
