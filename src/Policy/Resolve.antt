-- ===== src/Policy/Resolve.antt =====
-- `PluginScopePolicy` of src/langharness_plugin/scope_policy.py: the best candidate and the
-- aggregate, with the nearest scope first. `visible_scopes` is asked for the consumer's scopes and
-- handed on as a list.
pub mod Best
pub mod Aggregate
mod Defs
unfoldable pub use Defs.*
