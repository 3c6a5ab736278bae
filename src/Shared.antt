-- ===== src/Shared.antt =====
-- apps/api/src/shared: what every module of the API uses.
pub mod CircuitBreaker
pub mod Money
pub mod MoneyRoundTrip
mod Tests
