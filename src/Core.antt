-- ===== src/Core.antt =====
-- The core library, src/langharness_core.
pub mod Ids
mod Tests
mod LoopTests
mod SessionTests
mod ServiceTests
pub mod Agents
pub mod Loop
pub mod Sessions
