-- ===== src/Approval.antt =====
-- internal/approval: the bridge between an agent that asks for permission and the user who decides,
-- and the stores that keep the approvals.
pub mod Store
pub mod Bridge
pub mod StoreKept
pub mod Upkeep
pub mod DbStore
pub mod Persistence
pub mod Stats
pub mod Decide
pub mod Final
pub mod Race
mod StoreTests
mod Tests
