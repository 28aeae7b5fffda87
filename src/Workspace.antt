-- ===== src/Workspace.antt =====
-- internal/workspace/registry.go: the directories in which agents may work.
pub mod Paths
pub mod Registry
pub mod Config
pub mod Confinement
pub mod Calls
pub mod Safety
pub mod Index
pub mod Loading
pub mod Restart
mod Tests
