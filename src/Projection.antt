-- ===== src/Projection.antt =====
-- internal/projection/snapshot.go: snapshots of sessions, read from the tables.
pub mod Snapshot
pub mod Consistency
pub mod Reads
mod Tests
