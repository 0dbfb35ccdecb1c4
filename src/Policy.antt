-- ===== src/Policy.antt =====
-- Visibility and shadowing of plugins, src/langharness_plugin/scope_policy.py.
pub mod Filter
pub mod Rank
pub mod Shadow
pub mod Resolve
pub mod Scoped
pub mod Visible
mod Tests
