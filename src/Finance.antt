-- ===== src/Finance.antt =====
-- The finance context: apps/api/src/modules/finance.
pub mod Ledger
pub mod LedgerService
pub mod Balanced
pub mod Reconciled
mod SourceEvents
pub mod OnAccounts
pub mod Posting
pub mod TrialBalance
pub mod LedgerEvents
pub mod Redelivery
pub mod Collected
pub mod Store
pub mod Invoice
pub mod Books
pub mod Remittance
pub mod Handover
pub mod CashMoved
pub mod Settlement
pub mod Payout
pub mod Covered
pub mod Released
pub mod Declared
pub mod RemittanceRuns
mod Tests
mod TestTables
mod HandoverTests
mod PayoutTests
