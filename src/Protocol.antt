-- ===== src/Protocol.antt =====
-- internal/errcat and internal/protocol: the catalogue of errors, and the dispatch of commands.
pub mod Errors
pub mod Schemas
pub mod Dispatcher
pub mod Once
mod Tests
