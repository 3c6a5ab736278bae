-- ===== src/Finance/Invoice/Steps.antt =====
-- application/invoice.service.ts: what a step of the service does to the invoices, their lines and
-- the number series, and the runs of such steps.
use system_delivery.Prelude.{
  ℕ, ◌+◌, ◌≡◌, ◌==◌, is_empty, true, false, Option, some, List, [], ◌∷◌, ◌++◌, String, any, find,
  update_where,
}
use system_delivery.Prelude.Int.{ℤ}
use system_delivery.Prelude.Tx.{ok}
use system_delivery.Finance.Invoice.Totals.{InvoiceKind, InvoiceLineInput, compute_invoice_totals}
use system_delivery.Finance.Invoice.Tables.{
  is_draft, is_issued, paid, cancelled, Invoice, BillingSettings, PartySnapshot, InvoiceStore,
  CreateInvoice, CreateCreditNote,
}
use system_delivery.Finance.Invoice.Service.{
  InvoiceView, is_row, lines_of, replace_lines, draft_row, recomputed, opened, last_number,
  is_series, issued_row,
}
use system_delivery.Finance.Invoice.Operations.{
  create_draft, create_credit_note, issue, set_lines, mark_paid, cancel_draft, update_settings,
  UpdateBillingSettings,
}

-- What a committed step changes in the three tables.
pub data Change : InvoiceStore → InvoiceStore → Type 0 where
  -- A new draft, with a fresh id and without a number.
  opens :
      {s s' : InvoiceStore} (drawn tenant_id merchant_id : ℕ) (kind : InvoiceKind) (period : ℕ × ℕ)
      (currency : ℕ) (inputs : List InvoiceLineInput) (rate : ℕ) (stamp : ℤ) (corrects : Option ℕ)
      (notes : Option String) (actor_id : ℕ)
      → any (λ x. x.id == drawn) s.invoices ≡ false
      → s'.invoices
        ≡ s.invoices
          ++ draft_row drawn tenant_id merchant_id kind period currency
              (compute_invoice_totals inputs rate stamp)
              corrects
              notes
              actor_id
            ∷ []
      → s'.lines
        ≡ (replace_lines tenant_id drawn (compute_invoice_totals inputs rate stamp).lines s).lines
      → s'.sequences ≡ s.sequences
      → Change s s'
  -- New lines for a draft.
  revises :
      {s s' : InvoiceStore} (tenant_id iid : ℕ) (x : Invoice) (inputs : List InvoiceLineInput)
      → find (is_row tenant_id iid) s.invoices ≡ some x
      → is_draft x.status ≡ true
      → s'.invoices
        ≡ update_where
            (is_row tenant_id iid)
            (recomputed (compute_invoice_totals inputs x.vat_rate_bp x.stamp_duty_minor))
            s.invoices
      → s'.lines
        ≡ (replace_lines tenant_id iid
            (compute_invoice_totals inputs x.vat_rate_bp x.stamp_duty_minor).lines
            s).lines
      → s'.sequences ≡ s.sequences
      → Change s s'
  -- A draft that takes the next number of its series.
  numbers :
      {s s' : InvoiceStore} (tenant_id iid : ℕ) (x : Invoice) (now year actor_id : ℕ)
      (settings : BillingSettings) (parties : PartySnapshot)
      → find (is_row tenant_id iid) s.invoices ≡ some x
      → is_draft x.status ≡ true
      → is_empty (lines_of tenant_id iid s) ≡ false
      → s'.invoices
        ≡ update_where
            (is_row tenant_id iid)
            (issued_row now year
              (last_number tenant_id x.kind year (opened tenant_id x.kind year s.sequences) + 1)
              actor_id
              settings
              parties)
            s.invoices
      → s'.lines ≡ s.lines
      → s'.sequences
        ≡ update_where
            (is_series tenant_id x.kind year)
            (λ q. record q {
              last_number =
                  last_number tenant_id x.kind year (opened tenant_id x.kind year s.sequences) + 1;
            })
            (opened tenant_id x.kind year s.sequences)
      → Change s s'
  pays :
      {s s' : InvoiceStore} (tenant_id iid : ℕ) (x : Invoice)
      → find (is_row tenant_id iid) s.invoices ≡ some x
      → is_issued x.status ≡ true
      → s'.invoices
        ≡ update_where (is_row tenant_id iid) (λ r. record r { status = paid }) s.invoices
      → s'.lines ≡ s.lines
      → s'.sequences ≡ s.sequences
      → Change s s'
  cancels :
      {s s' : InvoiceStore} (tenant_id iid : ℕ) (x : Invoice) (reason : String)
      → find (is_row tenant_id iid) s.invoices ≡ some x
      → is_draft x.status ≡ true
      → s'.invoices
        ≡ update_where
            (is_row tenant_id iid)
            (λ r. record r { status = cancelled; notes = some reason })
            s.invoices
      → s'.lines ≡ s.lines
      → s'.sequences ≡ s.sequences
      → Change s s'
  keeps :
      {s s' : InvoiceStore}
      → s'.invoices ≡ s.invoices
      → s'.lines ≡ s.lines
      → s'.sequences ≡ s.sequences
      → Change s s'

-- A committed call of the service.
pub data Step (draws year_of : ℕ → ℕ) : InvoiceStore → InvoiceStore → Type 0 where
  creates :
      {s s' : InvoiceStore} (tenant_id : ℕ) (dto : CreateInvoice) (actor_id : ℕ) (v : InvoiceView)
      → create_draft draws tenant_id dto actor_id s ≡ ok (v, s')
      → Step draws year_of s s'
  credits :
      {s s' : InvoiceStore} (tenant_id : ℕ) (dto : CreateCreditNote) (actor_id : ℕ)
      (v : InvoiceView)
      → create_credit_note draws tenant_id dto actor_id s ≡ ok (v, s')
      → Step draws year_of s s'
  issues :
      {s s' : InvoiceStore} (now tenant_id iid actor_id : ℕ) (v : InvoiceView)
      → issue draws year_of now tenant_id iid actor_id s ≡ ok (v, s')
      → Step draws year_of s s'
  sets :
      {s s' : InvoiceStore} (tenant_id iid : ℕ) (lines : List InvoiceLineInput) (v : InvoiceView)
      → set_lines tenant_id iid lines s ≡ ok (v, s')
      → Step draws year_of s s'
  marks :
      {s s' : InvoiceStore} (tenant_id iid : ℕ) (v : InvoiceView)
      → mark_paid tenant_id iid s ≡ ok (v, s')
      → Step draws year_of s s'
  drops :
      {s s' : InvoiceStore} (tenant_id iid : ℕ) (reason : String) (v : InvoiceView)
      → cancel_draft tenant_id iid reason s ≡ ok (v, s')
      → Step draws year_of s s'
  configures :
      {s s' : InvoiceStore} (tenant_id : ℕ) (dto : UpdateBillingSettings) (b : BillingSettings)
      → update_settings tenant_id dto s ≡ ok (b, s')
      → Step draws year_of s s'

pub data Steps (draws year_of : ℕ → ℕ) : InvoiceStore → InvoiceStore → Type 0 where
  rests : {s : InvoiceStore} → Steps draws year_of s s
  goes :
      {a b c : InvoiceStore}
      → Step draws year_of a b
      → Steps draws year_of b c
      → Steps draws year_of a c
