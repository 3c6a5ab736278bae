-- ===== src/Finance/Invoice/Operations.antt =====
-- apps/api/src/modules/finance/application/invoice.service.ts: `InvoiceService`. `draws` gives the ids
-- that the database draws, by the number drawn before; `year_of` is `getUTCFullYear`.
use system_delivery.Prelude.{
  ℕ, ◌+◌, or_else, is_empty, ◌||◌, not, Option, none, some, List, [], ◌∷◌, ◌++◌, String, map,
  update_where, if◌then◌else◌, ◌==◌, any,
}
use system_delivery.Prelude.Tx.{
  Tx, ok, err, pure, gets, ◌>>=◌, ◌>>◌, throw_if, modify, business_rule, invoice_empty,
  invoice_not_creditable, invoice_not_issued, invoice_not_payable, invoice_already_issued,
}
use system_delivery.Prelude.Int.{ℤ}
use system_delivery.Platform.Outbox.{DomainEventInput, id, minor, letters, null, publish}
use system_delivery.Finance.Invoice.Totals.{
  invoice, credit_note, InvoiceLineInput, compute_invoice_totals,
}
use system_delivery.Finance.Invoice.Tables.{
  paid, cancelled, is_draft, is_issued, is_cancelled, same_kind, Invoice, InvoiceLine,
  BillingSettings, InvoiceStore, CreateInvoice, CreateCreditNote,
}
use system_delivery.Finance.Invoice.Service.{
  InvoiceView, load_invoice, lines_of, load, settings_for, replace_lines, record_audit,
  insert_invoice, update_invoice, assert_draft, draft_row, recomputed, next_sequence, parties_for,
  issued_row, input_of,
}

-- The event of an issue.
abbrev pub issued_event : Invoice → DomainEventInput
issued_event x = record {
  event_type = elim x.kind [ credit_note ↦ "credit_note.issued" | invoice ↦ "invoice.issued" ];
  aggregate_type = "invoice";
  aggregate_id = x.id;
  payload =
      ("merchantId", id x.merchant_id)
      ∷ ("number", elim x.number [ none ↦ null | some number ↦ letters number ])
      ∷ ("totalMinor", minor x.total_minor)
      ∷ ("currency", id x.currency)
      ∷ [];
  event_version = none;
  occurred_at = none;
  correlation_id = none;
  causation_id = none;
}

-- The lines of a credit note: those of the request, or all of the invoice.
abbrev pub credited_lines :
    Option (List InvoiceLineInput) → List InvoiceLine → List InvoiceLineInput
credited_lines none rows = map input_of rows
credited_lines (some lines) rows = lines

module _ (draws : ℕ → ℕ) where
  -- An id drawn by the database.
  abbrev pub draw : Tx InvoiceStore ℕ
  draw s = ok (draws s.drawn, record s { drawn = s.drawn + 1 })

  -- `this.outbox.publish(tx, …)`
  unfoldable pub publish_event : ℕ → DomainEventInput → Tx InvoiceStore (Unit {0})
  publish_event tenant_id event s = elim (publish tenant_id (draws s.drawn) event s.outbox) [
    | err e ↦ err e
    | ok outbox' ↦ ok (tt, record s { outbox = outbox'; drawn = s.drawn + 1 })
  ]

  -- `createDraft`
  unfoldable pub create_draft : ℕ → CreateInvoice → ℕ → Tx InvoiceStore InvoiceView
  create_draft tenant_id dto actor_id = do
    settings ← gets (settings_for tenant_id)
    let totals =
        compute_invoice_totals (or_else dto.lines []) settings.vat_rate_bp settings.stamp_duty_minor
    drawn ← draw
    insert_invoice (
        draft_row drawn tenant_id dto.merchant_id invoice (dto.period_from, dto.period_to)
          dto.currency totals none dto.notes actor_id)
    modify (replace_lines tenant_id drawn totals.lines)
    modify (record_audit "invoice.drafted" drawn)
    load tenant_id drawn

  -- `createCreditNote`
  unfoldable pub create_credit_note : ℕ → CreateCreditNote → ℕ → Tx InvoiceStore InvoiceView
  create_credit_note tenant_id dto actor_id = do
    original ← load_invoice tenant_id dto.corrects_invoice_id
    throw_if (not (same_kind original.kind invoice)) (business_rule invoice_not_creditable)
    throw_if (is_draft original.status || is_cancelled original.status)
        (business_rule invoice_not_issued)
    rows ← gets (lines_of tenant_id original.id)
    let totals =
        compute_invoice_totals (credited_lines dto.lines rows) original.vat_rate_bp
          original.stamp_duty_minor
    drawn ← draw
    insert_invoice (
        draft_row drawn tenant_id original.merchant_id credit_note
          (original.period_from, original.period_to) original.currency totals (some original.id)
          dto.reason actor_id)
    modify (replace_lines tenant_id drawn totals.lines)
    modify (record_audit "credit_note.drafted" drawn)
    load tenant_id drawn

  -- `issue`
  unfoldable pub issue : (ℕ → ℕ) → ℕ → ℕ → ℕ → ℕ → Tx InvoiceStore InvoiceView
  issue year_of now tenant_id iid actor_id = do
    x ← load_invoice tenant_id iid
    assert_draft x
    rows ← gets (lines_of tenant_id iid)
    throw_if (is_empty rows) (business_rule invoice_empty)
    settings ← gets (settings_for tenant_id)
    sequence ← next_sequence tenant_id x.kind (year_of now)
    parties ← gets (parties_for tenant_id x.merchant_id settings)
    modify (
        update_invoice tenant_id iid
          (issued_row now (year_of now) sequence actor_id settings parties))
    row ← load_invoice tenant_id iid
    modify (record_audit "invoice.issued" iid)
    publish_event tenant_id (issued_event row)
    load tenant_id iid

-- `setLines`
unfoldable pub set_lines : ℕ → ℕ → List InvoiceLineInput → Tx InvoiceStore InvoiceView
set_lines tenant_id iid lines = do
  x ← load_invoice tenant_id iid
  assert_draft x
  let totals = compute_invoice_totals lines x.vat_rate_bp x.stamp_duty_minor
  modify (replace_lines tenant_id iid totals.lines)
  modify (update_invoice tenant_id iid (recomputed totals))
  load tenant_id iid

-- `markPaid`
unfoldable pub mark_paid : ℕ → ℕ → Tx InvoiceStore InvoiceView
mark_paid tenant_id iid = do
  x ← load_invoice tenant_id iid
  throw_if (not (is_issued x.status)) (business_rule invoice_not_payable)
  modify (update_invoice tenant_id iid (λ r. record r { status = paid }))
  modify (record_audit "invoice.paid" iid)
  load tenant_id iid

-- `cancelDraft`
unfoldable pub cancel_draft : ℕ → ℕ → String → Tx InvoiceStore InvoiceView
cancel_draft tenant_id iid reason = do
  x ← load_invoice tenant_id iid
  throw_if (not (is_draft x.status)) (business_rule invoice_already_issued)
  modify (update_invoice tenant_id iid (λ r. record r { status = cancelled; notes = some reason }))
  modify (record_audit "invoice.cancelled" iid)
  load tenant_id iid

-- The request of `updateSettings`: a nullable field is `some none` where it is cleared.
pub record UpdateBillingSettings : Type 0 where
  pub vat_rate_bp : Option ℕ
  pub stamp_duty_minor : Option ℤ
  pub legal_name : Option (Option String)
  pub tax_identifier : Option (Option String)
  pub legal_address : Option (Option String)
  pub payment_terms_days : Option ℕ

abbrev pub merged : UpdateBillingSettings → BillingSettings → BillingSettings
merged dto b = record {
  vat_rate_bp = or_else dto.vat_rate_bp b.vat_rate_bp;
  stamp_duty_minor = or_else dto.stamp_duty_minor b.stamp_duty_minor;
  legal_name = or_else dto.legal_name b.legal_name;
  tax_identifier = or_else dto.tax_identifier b.tax_identifier;
  legal_address = or_else dto.legal_address b.legal_address;
  payment_terms_days = or_else dto.payment_terms_days b.payment_terms_days;
}

-- `updateSettings`; the defaults of the columns are those of `FALLBACK_SETTINGS`.
unfoldable pub update_settings : ℕ → UpdateBillingSettings → Tx InvoiceStore BillingSettings
update_settings tenant_id dto = do
  before ← gets (settings_for tenant_id)
  let fresh = merged dto before
  modify (λ s. record s {
    settings =
        if any (λ b. b.0 == tenant_id) s.settings
        then update_where (λ b. b.0 == tenant_id) (λ b. (b.0, fresh)) s.settings
        else s.settings ++ (tenant_id, fresh) ∷ [];
  })
  modify (record_audit "tenant.updated" tenant_id)
  pure fresh
