-- ===== src/Plugin/Config.antt =====
-- The plugin configuration files: src/langharness_plugin/config_store.py.
pub mod Secrets
pub mod Store
