-- ===== src/Finance/Invoice/Tests.antt =====
-- Witnesses for application/invoice.service.ts and domain/invoice-totals.ts: books on which a draft
-- is opened and issued.
use system_delivery.Prelude.{ℕ, find, Bool, true, false, ◌≡◌, refl, none, some, List, [], ◌∷◌, All}
use system_delivery.Prelude.Int.{pos, ◌+ℤ◌, ◌*ℤ◌}
use system_delivery.Prelude.Tx.{ok, err, Result}
use system_delivery.Platform.Outbox.{publish}
use system_delivery.Finance.Invoice.Totals.{InvoiceLineInput, compute_invoice_totals}
use system_delivery.Finance.Invoice.Tables.{InvoiceStore, CreateInvoice, is_draft}
use system_delivery.Finance.Invoice.Service.{
  InvoiceView, insert_invoice, load, load_invoice, draft_row, next_sequence, is_row,
}
use system_delivery.Finance.Invoice.Operations.{create_draft, issue, publish_event, mark_paid}
use system_delivery.Finance.Invoice.Steps.{Steps, rests, goes, creates, issues, marks}
use system_delivery.Finance.Invoice.Numbers.{IsGapless, IsKeyed, IsUnnumbered}
use system_delivery.Finance.Invoice.Gapless.{Steps-IsGapless}
use system_delivery.Finance.Invoice.Frozen.{Step-IsFrozen, IsFrozen}
use system_delivery.Finance.Invoice.Rounding.{compute_invoice_totals-IsNearest, IsNearest}

abbrev books : InvoiceStore
books = record {
  invoices = [];
  lines = [];
  sequences = [];
  settings = [];
  merchants = [];
  tenants = [];
  audit = [];
  outbox = [];
  drawn = 40;
}

abbrev fees : List InvoiceLineInput
fees = record { description = "deliveries"; quantity = 3; unit_price_minor = pos 2501 } ∷ []

abbrev request : CreateInvoice
request = record {
  merchant_id = 6;
  period_from = 1;
  period_to = 31;
  currency = 788;
  lines = some fees;
  notes = none;
}

abbrev drawn : ℕ → ℕ
drawn n = n

abbrev year_of : ℕ → ℕ
year_of now = 2026

abbrev is_ok : {A : Type 0} → Result A → Bool
is_ok (ok a) = true
is_ok (err e) = false

refuted : false ≡ true → ⊥
refuted h = cc

abbrev ok_of : {A : Type 0} (r : Result A) → is_ok r ≡ true → (a : A) × (r ≡ ok a)
ok_of (ok a) h = (a, refl)
ok_of (err e) h = absurd (refuted h)

created : is_ok (create_draft drawn 1 request 8 books) ≡ true
unfolding create_draft draft_row insert_invoice load load_invoice
created = refl

abbrev drafted : (r : InvoiceView × InvoiceStore) × (create_draft drawn 1 request 8 books ≡ ok r)
drafted = ok_of (create_draft drawn 1 request 8 books) created

numbered : is_ok (issue drawn year_of 5 1 40 8 drafted.0.1) ≡ true
unfolding create_draft draft_row insert_invoice load load_invoice issue next_sequence publish_event
    publish compute_invoice_totals
numbered = refl

abbrev issued_books :
    (r : InvoiceView × InvoiceStore) × (issue drawn year_of 5 1 40 8 drafted.0.1 ≡ ok r)
issued_books = ok_of (issue drawn year_of 5 1 40 8 drafted.0.1) numbered

settled : is_ok (mark_paid 1 40 issued_books.0.1) ≡ true
unfolding create_draft draft_row insert_invoice load load_invoice issue next_sequence publish_event
    publish compute_invoice_totals mark_paid
settled = refl

abbrev paid_books : (r : InvoiceView × InvoiceStore) × (mark_paid 1 40 issued_books.0.1 ≡ ok r)
paid_books = ok_of (mark_paid 1 40 issued_books.0.1) settled

on_file :
    (find (is_row 1 40) (issued_books.0.1).invoices ≡ some issued_books.0.0.0)
    × (is_draft (issued_books.0.0.0).status ≡ false)
unfolding create_draft draft_row insert_invoice load load_invoice issue next_sequence publish_event
    publish compute_invoice_totals
on_file = (refl, refl)

Step-IsFrozen_example : IsFrozen 1 40 issued_books.0.1 paid_books.0.1 issued_books.0.0.0
Step-IsFrozen_example =
    Step-IsFrozen drawn year_of issued_books.0.1 paid_books.0.1 1 40 issued_books.0.0.0
      (marks 1 40 paid_books.0.0 paid_books.1) on_file.0 on_file.1

both : Steps drawn year_of books issued_books.0.1
both =
    goes (creates 1 request 8 drafted.0.0 drafted.1)
      (goes (issues 5 1 40 8 issued_books.0.0 issued_books.1) rests)

Steps-IsGapless_example :
    IsGapless issued_books.0.1
    × IsKeyed (issued_books.0.1).invoices
    × All IsUnnumbered (issued_books.0.1).invoices
Steps-IsGapless_example = Steps-IsGapless drawn year_of books issued_books.0.1 refl refl both

compute_invoice_totals-IsNearest_example :
    let t = compute_invoice_totals fees 1900 (pos 1000) in
    IsNearest (t.subtotal_minor *ℤ pos 1900) t.vat_amount_minor
    × (t.total_minor ≡ t.subtotal_minor +ℤ t.vat_amount_minor +ℤ pos 1000)
    × (t.vat_amount_minor ≡ (compute_invoice_totals fees 1900 (pos 0)).vat_amount_minor)
compute_invoice_totals-IsNearest_example = compute_invoice_totals-IsNearest fees 1900 (pos 1000)
