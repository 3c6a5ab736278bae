-- ===== src/Finance/Invoice/Service.antt =====
-- apps/api/src/modules/finance/application/invoice.service.ts: the operations that write, and the
-- numbering. A load under row-level security sees the rows of its tenant. The rendering of the
-- document and the list of a page are left out.
use system_delivery.Prelude.{
  ℕ, ◌+◌, ◌*◌, ◌==◌, overriding, Bool, ◌&&◌, not, Option, none, some, List, [], ◌∷◌, ◌++◌, String,
  any, find, keep, map, update_where, if◌then◌else◌,
}
use system_delivery.Prelude.Int.{pos}
use system_delivery.Prelude.Tx.{
  Tx, ok, err, internal, pure, gets, or_throw, ◌>>=◌, throw_if, business_rule, not_found,
  invoice_not_draft, Code,
}
use system_delivery.Finance.Invoice.Totals.{
  InvoiceKind, InvoiceLineInput, InvoiceLineTotals, InvoiceTotals, number_prefix,
  format_document_number,
}
use system_delivery.Finance.Invoice.Tables.{
  draft, issued, is_draft, same_kind, PartySnapshot, Invoice, InvoiceLine, InvoiceSequence,
  BillingSettings, InvoiceStore,
}

-- `InvoiceView`
abbrev pub InvoiceView : Type 0
InvoiceView = Invoice × List InvoiceLine

-- `FALLBACK_SETTINGS`
abbrev pub fallback_settings : BillingSettings
fallback_settings = record {
  vat_rate_bp = 1900;
  stamp_duty_minor = pos 1000;
  legal_name = none;
  tax_identifier = none;
  legal_address = none;
  payment_terms_days = 30;
}

abbrev pub no_parties : PartySnapshot
no_parties = record {
  seller_name = none;
  seller_tax_id = none;
  seller_address = none;
  buyer_name = none;
  buyer_tax_id = none;
  buyer_address = none;
}

abbrev pub is_row : ℕ → ℕ → Invoice → Bool
is_row tenant_id iid x = x.id == iid && x.tenant_id == tenant_id

-- `loadInvoice`
unfoldable pub load_invoice : ℕ → ℕ → Tx InvoiceStore Invoice
load_invoice tenant_id iid = do
  row ← gets (λ s. find (is_row tenant_id iid) s.invoices)
  or_throw row (not_found Code.invoice)

-- `linesOf`: the lines stand in the order of their positions, in which they were inserted.
abbrev pub lines_of : ℕ → ℕ → InvoiceStore → List InvoiceLine
lines_of tenant_id iid s = keep (λ l. l.invoice_id == iid && l.tenant_id == tenant_id) s.lines

-- `load`
unfoldable pub load : ℕ → ℕ → Tx InvoiceStore InvoiceView
load tenant_id iid = do
  row ← load_invoice tenant_id iid
  rows ← gets (lines_of tenant_id iid)
  pure (row, rows)

-- `settingsFor`
abbrev pub settings_for : ℕ → InvoiceStore → BillingSettings
settings_for tenant_id s = elim (find (λ b. b.0 == tenant_id) s.settings) [
  | none ↦ fallback_settings
  | some (_, settings) ↦ settings
]

abbrev pub line_row : ℕ → ℕ → InvoiceLineTotals → InvoiceLine
line_row tenant_id iid line = record {
  tenant_id = tenant_id;
  invoice_id = iid;
  position = line.position;
  description = line.description;
  quantity = line.quantity;
  unit_price_minor = line.unit_price_minor;
  line_total_minor = line.line_total_minor;
}

-- `replaceLines`
abbrev pub replace_lines : ℕ → ℕ → List InvoiceLineTotals → InvoiceStore → InvoiceStore
replace_lines tenant_id iid lines s = record s {
  lines =
      keep (λ l. not (l.invoice_id == iid && l.tenant_id == tenant_id)) s.lines
      ++ map (line_row tenant_id iid) lines;
}

-- `audit.record`
abbrev pub record_audit : String → ℕ → InvoiceStore → InvoiceStore
record_audit action resource_id s = record s {
  audit = s.audit ++ record { action = action; resource_id = resource_id } ∷ [];
}

-- `insert(invoices)`: the primary key aborts the transaction.
unfoldable pub insert_invoice : Invoice → Tx InvoiceStore (Unit {0})
insert_invoice row s =
    if any (λ x. x.id == row.id) s.invoices
    then err internal
    else ok (tt, record s { invoices = s.invoices ++ row ∷ [] })

-- `update(invoices).set(…).where(eq(invoices.id, id))`
abbrev pub update_invoice : ℕ → ℕ → (Invoice → Invoice) → InvoiceStore → InvoiceStore
update_invoice tenant_id iid f s = record s {
  invoices = update_where (is_row tenant_id iid) f s.invoices;
}

-- `assertDraft`
abbrev pub assert_draft : Invoice → Tx InvoiceStore (Unit {0})
assert_draft x = throw_if (not (is_draft x.status)) (business_rule invoice_not_draft)

-- A draft of either kind.
unfoldable pub draft_row :
    ℕ → ℕ → ℕ → InvoiceKind → ℕ × ℕ → ℕ → InvoiceTotals → Option ℕ → Option String → ℕ → Invoice
draft_row drawn tenant_id merchant_id kind period currency totals corrects notes actor_id = record {
  id = drawn;
  tenant_id = tenant_id;
  merchant_id = merchant_id;
  kind = kind;
  number = none;
  number_year = none;
  status = draft;
  period_from = period.0;
  period_to = period.1;
  issued_at = none;
  due_at = none;
  currency = currency;
  subtotal_minor = totals.subtotal_minor;
  vat_rate_bp = totals.vat_rate_bp;
  vat_amount_minor = totals.vat_amount_minor;
  stamp_duty_minor = totals.stamp_duty_minor;
  total_minor = totals.total_minor;
  parties = no_parties;
  corrects_invoice_id = corrects;
  notes = notes;
  created_by_user_id = actor_id;
  issued_by_user_id = none;
}

-- The `SET` of `setLines`.
abbrev pub recomputed : InvoiceTotals → Invoice → Invoice
recomputed totals x = record x {
  subtotal_minor = totals.subtotal_minor;
  vat_amount_minor = totals.vat_amount_minor;
  total_minor = totals.total_minor;
}

abbrev pub is_series : ℕ → InvoiceKind → ℕ → InvoiceSequence → Bool
is_series tenant_id kind year q =
    q.tenant_id == tenant_id && same_kind q.kind kind && q.year == year

-- `insert … on conflict do nothing`
abbrev pub opened : ℕ → InvoiceKind → ℕ → List InvoiceSequence → List InvoiceSequence
opened tenant_id kind year rows =
    if any (is_series tenant_id kind year) rows
    then rows
    else rows ++ record { tenant_id = tenant_id; kind = kind; year = year; last_number = 0 } ∷ []

-- `Number(locked[0]?.last_number ?? 0)`
abbrev pub last_number : ℕ → InvoiceKind → ℕ → List InvoiceSequence → ℕ
last_number tenant_id kind year rows = elim (find (is_series tenant_id kind year) rows) [
  | none ↦ 0
  | some q ↦ q.last_number
]

-- `nextSequence`
unfoldable pub next_sequence : ℕ → InvoiceKind → ℕ → Tx InvoiceStore ℕ
next_sequence tenant_id kind year s =
    let rows = opened tenant_id kind year s.sequences in
    let next = last_number tenant_id kind year rows + 1 in
    ok (
      next,
      record s {
        sequences =
            update_where (is_series tenant_id kind year) (λ q. record q { last_number = next })
              rows;
      },
    )

-- `partiesFor`
abbrev pub parties_for : ℕ → ℕ → BillingSettings → InvoiceStore → PartySnapshot
parties_for tenant_id merchant_id identity s =
    let merchant = find (λ m. m.id == merchant_id && m.tenant_id == tenant_id) s.merchants in
    record {
      seller_name =
          overriding identity.legal_name
            (elim (find (λ t. t.0 == tenant_id) s.tenants) [ none ↦ none | some t ↦ some t.1 ]);
      seller_tax_id = identity.tax_identifier;
      seller_address = identity.legal_address;
      buyer_name = elim merchant [ none ↦ none | some m ↦ some m.name ];
      buyer_tax_id = none;
      buyer_address = elim merchant [ none ↦ none | some m ↦ m.address ];
    }

-- `addDays`, on instants in milliseconds.
abbrev pub add_days : ℕ → ℕ → ℕ
add_days from days = from + days * 86400000

-- The `SET` of `issue`.
abbrev pub issued_row : ℕ → ℕ → ℕ → ℕ → BillingSettings → PartySnapshot → Invoice → Invoice
issued_row now year sequence actor_id settings parties x = record x {
  status = issued;
  number = some (format_document_number (number_prefix x.kind) year sequence);
  number_year = some year;
  issued_at = some now;
  due_at = some (add_days now settings.payment_terms_days);
  issued_by_user_id = some actor_id;
  parties = parties;
}

abbrev pub input_of : InvoiceLine → InvoiceLineInput
input_of line = record {
  description = line.description;
  quantity = line.quantity;
  unit_price_minor = line.unit_price_minor;
}
