-- ===== src/Custody.antt =====
-- The custody context: apps/api/src/modules/custody.
pub mod Status
mod Tests
