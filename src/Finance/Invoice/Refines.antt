-- ===== src/Finance/Invoice/Refines.antt =====
-- application/invoice.service.ts: every committed call of the service is one of the changes.
use mathlib.Core.Path.{subst}
use system_delivery.Prelude.{
  ℕ, ◌≡◌, ◌==◌, refl, ap, inl, inr, is_empty, true, false, ◌||◌, not, not-false, none, some, List,
  [], ◌∷◌, ◌++◌, ◌+◌, String, any, find, Bool-cases, Option-cases, or_else, arith,
}
use system_delivery.Prelude.Tx.{
  Tx, ok, err, internal, not_found, business_rule, Result-cases, ◌>>=◌, ◌>>◌, guard_ok, bind_ok,
  bind_at, DomainError, Code, committed, invoice_not_draft, invoice_empty, invoice_not_creditable,
  invoice_not_issued, invoice_not_payable, invoice_already_issued,
}
use system_delivery.Platform.Outbox.{DomainEventInput, OutboxRow, publish}
use system_delivery.Finance.Invoice.Totals.{invoice, credit_note, InvoiceLineInput}
use system_delivery.Finance.Invoice.Tables.{
  is_draft, is_issued, is_cancelled, same_kind, Invoice, BillingSettings, InvoiceStore,
  CreateInvoice, CreateCreditNote,
}
use system_delivery.Finance.Invoice.Service.{
  InvoiceView, is_row, load_invoice, lines_of, load, settings_for, insert_invoice, next_sequence,
  draft_row,
}
use system_delivery.Finance.Invoice.Operations.{
  create_draft, create_credit_note, issue, set_lines, mark_paid, cancel_draft, update_settings,
  UpdateBillingSettings, publish_event, credited_lines,
}
use system_delivery.Finance.Invoice.Steps.{
  Change, opens, revises, numbers, pays, cancels, keeps, Step, creates, credits, issues, sets,
  marks, drops, configures,
}

load_found :
    (tenant_id iid : ℕ) (s : InvoiceStore) (x : Invoice)
    → find (is_row tenant_id iid) s.invoices ≡ some x
    → load_invoice tenant_id iid s ≡ ok (x, s)
unfolding load_invoice
load_found tenant_id iid s x e = ground (arith, e)

load_missing :
    (tenant_id iid : ℕ) (s : InvoiceStore)
    → find (is_row tenant_id iid) s.invoices ≡ none
    → load_invoice tenant_id iid s ≡ err (not_found Code.invoice)
unfolding load_invoice
load_missing tenant_id iid s e = ground (arith, e)

-- A load that went on found its row.
load_then :
    {B P : Type 0} (tenant_id iid : ℕ) (f : Invoice → Tx InvoiceStore B) (s : InvoiceStore)
    {r : B × InvoiceStore}
    → (load_invoice tenant_id iid >>= f) s ≡ ok r
    → ((x : Invoice) → find (is_row tenant_id iid) s.invoices ≡ some x → f x s ≡ ok r → P)
    → P
load_then tenant_id iid f s h k = elim (Option-cases (find (is_row tenant_id iid) s.invoices)) [
  | inr (x, found) ↦ k x found (bind_at f (load_found tenant_id iid s x found) h)
  | inl missing ↦
      bind_ok (load_invoice tenant_id iid s) f h
        (λ a s1 e1 h1. cc (load_missing tenant_id iid s missing, e1))
]

-- The load that ends a call changes nothing.
load_last :
    (tenant_id iid : ℕ) (s s' : InvoiceStore) (v : InvoiceView)
    → load tenant_id iid s ≡ ok (v, s')
    → s ≡ s'
unfolding load
load_last tenant_id iid s s' v h = load_then tenant_id iid _ s h (λ x found h1. cc h1)

set_lines-Change :
    (tenant_id iid : ℕ) (lines : List InvoiceLineInput) (s s' : InvoiceStore) (v : InvoiceView)
    → set_lines tenant_id iid lines s ≡ ok (v, s')
    → Change s s'
unfolding set_lines
set_lines-Change tenant_id iid lines s s' v h = load_then tenant_id iid _ s h (λ x found h1.
    guard_ok (not (is_draft x.status)) (business_rule invoice_not_draft) _ s h1 (λ waits h2.
      subst (Change s) (load_last tenant_id iid _ s' v h2)
        (revises tenant_id iid x lines found (not-false (is_draft x.status) waits) refl refl refl)))

mark_paid-Change :
    (tenant_id iid : ℕ) (s s' : InvoiceStore) (v : InvoiceView)
    → mark_paid tenant_id iid s ≡ ok (v, s')
    → Change s s'
unfolding mark_paid
mark_paid-Change tenant_id iid s s' v h = load_then tenant_id iid _ s h (λ x found h1.
    guard_ok (not (is_issued x.status)) (business_rule invoice_not_payable) _ s h1 (λ due h2.
      subst (Change s) (load_last tenant_id iid _ s' v h2)
        (pays tenant_id iid x found (not-false (is_issued x.status) due) refl refl refl)))

cancel_draft-Change :
    (tenant_id iid : ℕ) (reason : String) (s s' : InvoiceStore) (v : InvoiceView)
    → cancel_draft tenant_id iid reason s ≡ ok (v, s')
    → Change s s'
unfolding cancel_draft
cancel_draft-Change tenant_id iid reason s s' v h = load_then tenant_id iid _ s h (λ x found h1.
    guard_ok (not (is_draft x.status)) (business_rule invoice_already_issued) _ s h1 (λ waits h2.
      subst (Change s) (load_last tenant_id iid _ s' v h2) (
        cancels tenant_id iid x reason found (not-false (is_draft x.status) waits) refl refl refl)))

update_settings-Change :
    (tenant_id : ℕ) (dto : UpdateBillingSettings) (s s' : InvoiceStore) (b : BillingSettings)
    → update_settings tenant_id dto s ≡ ok (b, s')
    → Change s s'
unfolding update_settings
update_settings-Change tenant_id dto s s' b h =
    let same = ap (committed s) h in subst (Change s) same (keeps refl refl refl)

insert_free :
    (row : Invoice) (s : InvoiceStore)
    → any (λ x. x.id == row.id) s.invoices ≡ false
    → insert_invoice row s ≡ ok (tt, record s { invoices = s.invoices ++ row ∷ [] })
unfolding insert_invoice
insert_free row s e = rw e refl

insert_taken :
    (row : Invoice) (s : InvoiceStore)
    → any (λ x. x.id == row.id) s.invoices ≡ true
    → insert_invoice row s ≡ err internal
unfolding insert_invoice
insert_taken row s e = rw e refl

insert_then :
    {B P : Type 0} (row : Invoice) (m : Tx InvoiceStore B) (s : InvoiceStore) {r : B × InvoiceStore}
    → (insert_invoice row >> m) s ≡ ok r
    → (any (λ x. x.id == row.id) s.invoices ≡ false
        → m (record s { invoices = s.invoices ++ row ∷ [] }) ≡ ok r
        → P)
    → P
insert_then row m s h k = elim (Bool-cases (any (λ x. x.id == row.id) s.invoices)) [
  | inr free ↦ k free (bind_at (λ _. m) (insert_free row s free) h)
  | inl taken ↦
      bind_ok (insert_invoice row s) (λ _. m) h (λ a s1 e1 h1. cc (insert_taken row s taken, e1))
]

publish_good :
    (draws : ℕ → ℕ) (tenant_id : ℕ) (event : DomainEventInput) (s : InvoiceStore)
    (rows : List OutboxRow)
    → publish tenant_id (draws s.drawn) event s.outbox ≡ ok rows
    → publish_event draws tenant_id event s
      ≡ ok (tt, record s { outbox = rows; drawn = s.drawn + 1 })
unfolding publish_event
publish_good draws tenant_id event s rows e = rw (e, publish_event) refl

publish_bad :
    (draws : ℕ → ℕ) (tenant_id : ℕ) (event : DomainEventInput) (s : InvoiceStore) (e : DomainError)
    → publish tenant_id (draws s.drawn) event s.outbox ≡ err e
    → publish_event draws tenant_id event s ≡ err e
unfolding publish_event
publish_bad draws tenant_id event s e h = rw (h, publish_event) refl

-- A publication that succeeds leaves the invoices alone.
publish_then :
    {B P : Type 0} (draws : ℕ → ℕ) (tenant_id : ℕ) (event : DomainEventInput)
    (m : Tx InvoiceStore B) (s : InvoiceStore) {r : B × InvoiceStore}
    → (publish_event draws tenant_id event >> m) s ≡ ok r
    → ((s' : InvoiceStore)
        → s'.invoices ≡ s.invoices
        → s'.lines ≡ s.lines
        → s'.sequences ≡ s.sequences
        → m s' ≡ ok r
        → P)
    → P
publish_then draws tenant_id event m s h k =
    elim (Result-cases (publish tenant_id (draws s.drawn) event s.outbox)) [
      | inl (rows, good) ↦
          k (record s { outbox = rows; drawn = s.drawn + 1 }) refl refl refl
            (bind_at (λ _. m) (publish_good draws tenant_id event s rows good) h)
      | inr (e, bad) ↦
          bind_ok (publish_event draws tenant_id event s) (λ _. m) h
            (λ a s1 e1 h1. cc (publish_bad draws tenant_id event s e bad, e1))
    ]

module _ (draws : ℕ → ℕ) where
  create_draft-Change :
      (tenant_id : ℕ) (dto : CreateInvoice) (actor_id : ℕ) (s s' : InvoiceStore) (v : InvoiceView)
      → create_draft draws tenant_id dto actor_id s ≡ ok (v, s')
      → Change s s'
  unfolding create_draft draft_row
  create_draft-Change tenant_id dto actor_id s s' v h =
      insert_then _ _ (record s { drawn = s.drawn + 1 }) h
        (λ fresh h1. subst (Change s) (load_last tenant_id (draws s.drawn) _ s' v h1) (
          opens (draws s.drawn) tenant_id dto.merchant_id invoice (dto.period_from, dto.period_to)
            dto.currency (or_else dto.lines []) (settings_for tenant_id s).vat_rate_bp
            (settings_for tenant_id s).stamp_duty_minor none dto.notes actor_id fresh refl refl
            refl))

  create_credit_note-Change :
      (tenant_id : ℕ) (dto : CreateCreditNote) (actor_id : ℕ) (s s' : InvoiceStore)
      (v : InvoiceView)
      → create_credit_note draws tenant_id dto actor_id s ≡ ok (v, s')
      → Change s s'
  unfolding create_credit_note draft_row
  create_credit_note-Change tenant_id dto actor_id s s' v h =
      load_then tenant_id dto.corrects_invoice_id _ s h (λ x found h1.
        guard_ok (not (same_kind x.kind invoice)) (business_rule invoice_not_creditable) _ s h1
          (λ first h2.
            guard_ok (is_draft x.status || is_cancelled x.status) (business_rule invoice_not_issued)
              _ s h2
              (λ legal h3.
                insert_then _ _ (record s { drawn = s.drawn + 1 }) h3
                  (λ fresh h4. subst (Change s) (load_last tenant_id (draws s.drawn) _ s' v h4) (
                    opens (draws s.drawn) tenant_id x.merchant_id credit_note
                      (x.period_from, x.period_to) x.currency
                      (credited_lines dto.lines (lines_of tenant_id x.id s)) x.vat_rate_bp
                      x.stamp_duty_minor (some x.id) dto.reason actor_id fresh refl refl refl)))))

  issue-Change :
      (year_of : ℕ → ℕ) (now tenant_id iid actor_id : ℕ) (s s' : InvoiceStore) (v : InvoiceView)
      → issue draws year_of now tenant_id iid actor_id s ≡ ok (v, s')
      → Change s s'
  unfolding issue next_sequence
  issue-Change year_of now tenant_id iid actor_id s s' v h =
      load_then tenant_id iid _ s h (λ x found h1.
        guard_ok (not (is_draft x.status)) (business_rule invoice_not_draft) _ s h1 (λ waits h2.
          guard_ok (is_empty (lines_of tenant_id iid s)) (business_rule invoice_empty) _ s h2
            (λ filled h3. load_then tenant_id iid _ _ h3 (λ row again h4.
              publish_then draws tenant_id _ _ _ h4 (λ s1 invoices lines sequences h5.
                subst (Change s) (load_last tenant_id iid s1 s' v h5) (
                  numbers tenant_id iid x now (year_of now) actor_id (settings_for tenant_id s) _
                    found (not-false (is_draft x.status) waits) filled invoices lines
                    sequences))))))

-- Every committed call of the service is a change of the abstract books: a draft is opened under a fresh id and without a number, a draft gets new lines, a draft
-- with lines takes the number after the last one of its series, an issued document is paid, a draft
-- is cancelled, or invoices, lines and series stay as they are.
pub Step-Change :
    (draws year_of : ℕ → ℕ) (s s' : InvoiceStore) → Step draws year_of s s' → Change s s'
Step-Change draws year_of s s' (creates t dto a v h) = create_draft-Change draws t dto a s s' v h
Step-Change draws year_of s s' (credits t dto a v h) =
    create_credit_note-Change draws t dto a s s' v h
Step-Change draws year_of s s' (issues now t iid a v h) =
    issue-Change draws year_of now t iid a s s' v h
Step-Change draws year_of s s' (sets t iid lines v h) = set_lines-Change t iid lines s s' v h
Step-Change draws year_of s s' (marks t iid v h) = mark_paid-Change t iid s s' v h
Step-Change draws year_of s s' (drops t iid reason v h) = cancel_draft-Change t iid reason s s' v h
Step-Change draws year_of s s' (configures t dto b h) = update_settings-Change t dto s s' b h
