-- ===== src/Lib.antt =====
-- Verification of the core of the courier platform: the shipment state machine and its event log,
-- the double-entry ledger with the hand-over of cash and the merchants' settlements, and the life
-- cycles of pickups, manifests, routes and complaints, the breaker of outgoing calls, the outbox of the
-- driver's app with the sync that answers it, and the invoices with their number series.
--
-- Parts, and where they are modelled:
-- - Shipment: apps/api/src/modules/shipment. Status.antt and Event.antt are
--   domain/shipment-status.ts; EventService.antt is application/shipment-event.service.ts.
--   Lifecycle, Projection and History hold the theorems.
-- - Finance: apps/api/src/modules/finance. Ledger.antt is domain/ledger.ts, LedgerService.antt
--   is application/ledger.service.ts, LedgerEvents.antt is application/ledger-event.handler.ts.
--   Balanced, Reconciled, SourceEvents, OnAccounts, Posting, TrialBalance, Redelivery and Collected
--   hold their theorems. Store.antt has
--   the tables that the workflows share, Remittance.antt is application/remittance.service.ts and
--   Settlement.antt is application/settlement.service.ts; both call the ledger and the outbox in
--   one transaction. Books, Handover, CashMoved, RemittanceRuns, Payout, Covered, Released and
--   Declared hold their theorems.
--   Invoice has the invoices: Totals.antt is domain/invoice-totals.ts, Tables.antt the tables, and
--   Service.antt and Operations.antt application/invoice.service.ts. Steps.antt has the abstract
--   changes of the books; Refines, Numbers, Series, Gapless, Frozen and Rounding hold the theorems.
-- - Pickup, Custody, Dispatch, Complaint: Status.antt is domain/pickup-status.ts,
--   domain/manifest-status.ts, domain/route-status.ts and domain/complaint-status.ts of the
--   module with that name under apps/api/src/modules.
--   Dispatch also has SyncItems.antt, domain/sync-dtos.ts with the verdicts of
--   application/driver-sync.service.ts, and Sync.antt and SyncAnswer.antt, the rest of that service;
--   SyncOrder and SyncVerdict hold their theorems.
-- - Driver: apps/driver/src of the driver's app. Outbox.antt has the device's tables and the calls of
--   platform/outbox-store.ts on them, Store.antt what the screens read and write; Ports.antt,
--   Batch.antt and Flush.antt are core/outbox.ts with the server as a parameter. Preserved, Rounds, Phases, Gone and Progress carry the theorems of
--   Physical, Ending and Held; Unsafe is about the store.
-- - Shared: CircuitBreaker.antt is apps/api/src/shared/http/circuit-breaker.ts, and Money.antt is
--   apps/api/src/shared/money/money.ts, with its theorem in MoneyRoundTrip.
-- - Platform: Outbox.antt is application/outbox.service.ts with domain/domain-event.ts of
--   apps/api/src/modules/platform.
-- - Prelude: shared names, tests, lists, integers, the transaction results, runs of state machines.
--
-- Conventions. A table is the list of its rows, oldest first. `withTenant` runs one database
-- transaction: an operation takes the tables and returns them with its result, or an error, and
-- then nothing is committed. Identifiers, instants, currencies and users are natural numbers, for
-- they are only compared; the idempotency key of a sync item is the list of its character codes. A
-- `bigint` is an integer ℤ without bounds, where the column is a BIGINT that refuses what does not
-- fit in 64 bits. What the database draws (a UUID, an event
-- id) and what the clock reads is an argument. SQL that the code issues is written out on the lists.
--
-- The loop of a flush over its queue runs on fuel, a unit for each batch; one unit more than the
-- pending actions of the device is enough. The decimal text of a number is written on fuel too, one
-- unit more than the number, and is read back as the number. Every other loop runs over a list.
--
-- Of the constraints of the database these are modelled, with the error that a violation throws: the
-- unique indexes on ledger_entries (source event), on shipment_events (sequence, idempotency key), on
-- settlement_shipments and on the ids of invoices; that on ledger_accounts is the
-- `ON CONFLICT DO NOTHING` of `ensureAccount`. Left out are the unique indexes on the random codes of
-- remittances and settlements, on the numbers of invoices and on the positions of their lines, foreign
-- keys, the CHECKs (literals, a sequence of at least 1, amounts, periods, the approver), and the
-- deferred trigger that every transaction of the ledger sums to zero. The literal DISPUTED of settlements and DRAFT of remittances, which the database allows
-- and no code writes, are no constructors.
--
-- Not modelled: HTTP controllers, DTO schemas (zod) but the refinement of a sync item, the database driver, row-level security, the
-- web front ends, and the messages of errors.
pub mod Prelude
pub mod Platform
pub mod Shipment
pub mod Shared
pub mod Finance
pub mod Pickup
pub mod Custody
pub mod Dispatch
pub mod Complaint
pub mod Driver
