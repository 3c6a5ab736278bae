-- ===== src/Finance/Invoice.antt =====
-- Invoices and credit notes: domain/invoice-totals.ts and application/invoice.service.ts of
-- apps/api/src/modules/finance.
pub mod Totals
pub mod Tables
pub mod Service
pub mod Operations
pub mod Rounding
pub mod Steps
pub mod Refines
pub mod Numbers
pub mod Series
pub mod Gapless
pub mod Frozen
mod Tests
