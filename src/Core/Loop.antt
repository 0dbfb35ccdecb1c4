-- ===== src/Core/Loop.antt =====
-- src/langharness_core/plugins/loop/agent_loop.py.
pub mod Stream
pub mod Deltas
pub mod Services
pub mod Rebuild
pub mod Handlers
pub mod Bound
pub mod Conforming
pub mod Ready
pub mod Reach
pub mod Departed
pub mod Departure
