-- ===== src/Plugin.antt =====
-- internal/plugin/registry.go: the registry of plugins.
pub mod Registry
pub mod Safety
mod Tests
