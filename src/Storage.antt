-- ===== src/Storage.antt =====
-- internal/storage: the tables, the statements that the repositories run on them, and transactions.
pub mod Database
pub mod Sort
pub mod Events
pub mod Cursor
pub mod Sessions
pub mod Workspaces
pub mod Paging
pub mod Append
pub mod Outcome
pub mod Log
pub mod Purge
pub mod RunState
pub mod States
mod Tests
