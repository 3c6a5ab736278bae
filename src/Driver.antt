-- ===== src/Driver.antt =====
-- The driver's app: apps/driver/src.
pub mod Outbox
pub mod Ports
pub mod Batch
pub mod Flush
pub mod Preserved
pub mod Rounds
pub mod Phases
pub mod Physical
pub mod Gone
pub mod Progress
pub mod Ending
pub mod Held
pub mod Store
pub mod Unsafe
mod Tests
