-- ===== src/Finance/Invoice/Tables.antt =====
-- apps/api/src/modules/finance: the tables of the invoices (domain/schema.ts) and the requests of
-- their service (domain/dtos.ts). The times at which a row was written and the drawn id of a line
-- are left out: nothing reads them.
use system_delivery.Prelude.{ℕ, Bool, true, false, Option, List, String}
use system_delivery.Prelude.Int.{ℤ}
use system_delivery.Prelude.Decimal.{Text}
use system_delivery.Platform.Outbox.{OutboxRow}
use system_delivery.Finance.Invoice.Totals.{InvoiceKind, invoice, credit_note, InvoiceLineInput}

pub data InvoiceStatus : Type 0 where
  draft issued paid cancelled : InvoiceStatus

abbrev pub is_draft : InvoiceStatus → Bool
is_draft draft = true
is_draft _ = false

abbrev pub is_issued : InvoiceStatus → Bool
is_issued issued = true
is_issued _ = false

abbrev pub is_cancelled : InvoiceStatus → Bool
is_cancelled cancelled = true
is_cancelled _ = false

abbrev pub same_kind : InvoiceKind → InvoiceKind → Bool
same_kind invoice invoice = true
same_kind credit_note credit_note = true
same_kind _ _ = false

-- `PartySnapshot`
pub record PartySnapshot : Type 0 where
  pub seller_name : Option String
  pub seller_tax_id : Option String
  pub seller_address : Option String
  pub buyer_name : Option String
  pub buyer_tax_id : Option String
  pub buyer_address : Option String

pub record Invoice : Type 0 where
  pub id : ℕ
  pub tenant_id : ℕ
  pub merchant_id : ℕ
  pub kind : InvoiceKind
  pub number : Option Text
  pub number_year : Option ℕ
  pub status : InvoiceStatus
  pub period_from : ℕ
  pub period_to : ℕ
  pub issued_at : Option ℕ
  pub due_at : Option ℕ
  pub currency : ℕ
  pub subtotal_minor : ℤ
  pub vat_rate_bp : ℕ
  pub vat_amount_minor : ℤ
  pub stamp_duty_minor : ℤ
  pub total_minor : ℤ
  pub parties : PartySnapshot
  pub corrects_invoice_id : Option ℕ
  pub notes : Option String
  pub created_by_user_id : ℕ
  pub issued_by_user_id : Option ℕ

pub record InvoiceLine : Type 0 where
  pub tenant_id : ℕ
  pub invoice_id : ℕ
  pub position : ℕ
  pub description : String
  pub quantity : ℕ
  pub unit_price_minor : ℤ
  pub line_total_minor : ℤ

pub record InvoiceSequence : Type 0 where
  pub tenant_id : ℕ
  pub kind : InvoiceKind
  pub year : ℕ
  pub last_number : ℕ

pub record BillingSettings : Type 0 where
  pub vat_rate_bp : ℕ
  pub stamp_duty_minor : ℤ
  pub legal_name : Option String
  pub tax_identifier : Option String
  pub legal_address : Option String
  pub payment_terms_days : ℕ

-- What the query of `partiesFor` reads of a merchant.
pub record MerchantRow : Type 0 where
  pub id : ℕ
  pub tenant_id : ℕ
  pub name : String
  pub address : Option String

-- A row of the audit log, by its action and its resource.
pub record AuditRow : Type 0 where
  pub action : String
  pub resource_id : ℕ

pub record InvoiceStore : Type 0 where
  pub invoices : List Invoice
  pub lines : List InvoiceLine
  pub sequences : List InvoiceSequence
  -- tenant and its settings
  pub settings : List (ℕ × BillingSettings)
  pub merchants : List MerchantRow
  -- `tenants`: id and name
  pub tenants : List (ℕ × String)
  pub audit : List AuditRow
  pub outbox : List OutboxRow
  pub drawn : ℕ

pub record CreateInvoice : Type 0 where
  pub merchant_id : ℕ
  pub period_from : ℕ
  pub period_to : ℕ
  pub currency : ℕ
  pub lines : Option (List InvoiceLineInput)
  pub notes : Option String

pub record CreateCreditNote : Type 0 where
  pub corrects_invoice_id : ℕ
  pub lines : Option (List InvoiceLineInput)
  pub reason : Option String
