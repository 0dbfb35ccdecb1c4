-- ===== src/Scope/Tree.antt =====
-- `ScopeTree` of src/langharness_scope/tree.py. The reads look at the dict of nodes alone; the
-- writes go through a store. Each loop takes the number of nodes as fuel, and `diverges` marks a
-- run that needs more.
pub mod Reads
pub mod Writes
pub mod Valid
pub mod Path
pub mod Subtree
pub mod Create
pub mod Remove
pub mod Validate
pub mod Reload
pub mod Run
