-- ===== src/Lifecycle.antt =====
-- internal/lifecycle/manager.go: the phases of the server, and what happens to the sessions when it
-- starts and stops.
pub mod Recovery
pub mod Manager
pub mod Reconcile
pub mod Shutdown
pub mod Drain
pub mod Transitions
pub mod Phases
mod Tests
