-- ===== src/Plugin/Validation.antt =====
-- src/langharness_plugin/validation.py.
pub mod Annotations
pub mod Fits
pub mod Contract
pub mod Own
pub mod Call
pub mod Guard
pub mod Pins
