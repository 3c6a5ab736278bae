-- ===== src/Platform.antt =====
-- The platform context: apps/api/src/modules/platform.
pub mod Outbox
