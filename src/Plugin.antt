-- ===== src/Plugin.antt =====
-- The plugin system, src/langharness_plugin.
pub mod Validation
pub mod Discovery
pub mod Config
pub mod Registry
pub mod State
pub mod Manager
pub mod Coordinator
mod Tests
mod ValidationTests
mod DiscoveryTests
mod StateTests
mod ManagerTests
mod RestoreTests
mod CoordinatorTests
