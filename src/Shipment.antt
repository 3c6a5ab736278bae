-- ===== src/Shipment.antt =====
-- The shipment context: apps/api/src/modules/shipment.
pub mod Status
pub mod Event
pub mod EventService
pub mod Lifecycle
pub mod Projection
pub mod History
mod Tests
