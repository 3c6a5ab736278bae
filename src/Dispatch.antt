-- ===== src/Dispatch.antt =====
-- The dispatch context: apps/api/src/modules/dispatch.
pub mod Status
pub mod SyncItems
pub mod Sync
pub mod SyncAnswer
pub mod SyncCases
pub mod SyncOrder
pub mod SyncVerdict
mod Tests
mod SyncTests
