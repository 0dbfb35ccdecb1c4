-- ===== src/Scope.antt =====
-- The scope hierarchy, src/langharness_scope.
pub mod Model
pub mod Store
pub mod Tree
mod Tests
