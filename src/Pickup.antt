-- ===== src/Pickup.antt =====
-- The pickup context: apps/api/src/modules/pickup.
pub mod Status
mod Tests
