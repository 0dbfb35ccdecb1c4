-- ===== src/Api.antt =====
-- The API server's own state machines, src/langharness_api.
pub mod RateLimit
pub mod ClientRegistry
mod Tests
