-- ===== src/Scope/Store.antt =====
-- The persistence contract of a scope tree, `ScopeStore` of src/langharness_scope/contracts.py,
-- and its implementations: in memory, and as one row of a database.
pub mod Memory
pub mod Sqlite
mod Contract
pub use Contract.*
