-- ===== src/Audit.antt =====
-- internal/audit/writer.go: the log of the actions that change authority.
pub mod Redaction
pub mod Redacted
pub mod Writer
pub mod Recorded
mod Tests
