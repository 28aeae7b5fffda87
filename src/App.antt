-- ===== src/App.antt =====
-- internal/app: the service that composes the sessions, the journal, the approvals, the audit log, the
-- lifecycle manager and the adapters.
pub mod State
pub mod Service
pub mod Kept
pub mod StatementsKept
pub mod BridgeKept
pub mod MethodsKept
pub mod ResolveKept
pub mod ObserveKept
pub mod Serve
pub mod Published
pub mod Transitions
pub mod Near
pub mod Moves
pub mod Returns
pub mod Completion
pub mod Held
pub mod Late
mod Tests
pub mod Resolve
pub mod Observe
pub mod Runs
