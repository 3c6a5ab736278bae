-- ===== src/Complaint.antt =====
-- The complaint context: apps/api/src/modules/complaint.
pub mod Status
mod Tests
