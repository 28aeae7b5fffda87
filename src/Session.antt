-- ===== src/Session.antt =====
-- internal/session/manager.go: the state machine of a session, the store of idempotency keys and the
-- validation of a key.
pub mod Machine
pub mod Idempotency
pub mod Boundary
mod Tests
