-- ===== src/Finance/Invoice/Totals.antt =====
-- apps/api/src/modules/finance/domain/invoice-totals.ts: the figures of an invoice, and its number as
-- the list of the character codes of its text.
use system_delivery.Prelude.{ℕ, ◌+◌, ◌/◌, List, [], ◌∷◌, ◌++◌, String, if◌then◌else◌}
use system_delivery.Prelude.Int.{ℤ, pos, ◌+ℤ◌, ◌*ℤ◌, neg_ℤ, abs_ℤ}
use system_delivery.Prelude.Decimal.{Text, digits, pad_start}
use system_delivery.Shared.Money.{is_negative}

pub record InvoiceLineInput : Type 0 where
  pub description : String
  pub quantity : ℕ
  pub unit_price_minor : ℤ

pub record InvoiceLineTotals : Type 0 where
  pub position : ℕ
  pub description : String
  pub quantity : ℕ
  pub unit_price_minor : ℤ
  pub line_total_minor : ℤ

pub record InvoiceTotals : Type 0 where
  pub lines : List InvoiceLineTotals
  pub subtotal_minor : ℤ
  pub vat_rate_bp : ℕ
  pub vat_amount_minor : ℤ
  pub stamp_duty_minor : ℤ
  pub total_minor : ℤ

-- `BASIS_POINTS`
abbrev pub basis_points : ℕ
basis_points = 10000

-- `roundHalfUp`, for a positive denominator.
unfoldable pub round_half_up : ℤ → ℕ → ℤ
round_half_up numerator denominator =
    let rounded = (abs_ℤ numerator + denominator / 2) / denominator in
    if is_negative numerator then neg_ℤ (pos rounded) else pos rounded

-- `lines.map((line, index) => …)`, from the index `index`.
abbrev pub with_totals : ℕ → List InvoiceLineInput → List InvoiceLineTotals
with_totals index [] = []
with_totals index (line ∷ lines) =
    record {
      position = index + 1;
      description = line.description;
      quantity = line.quantity;
      unit_price_minor = line.unit_price_minor;
      line_total_minor = pos line.quantity *ℤ line.unit_price_minor;
    }
    ∷ with_totals (index + 1) lines

abbrev pub sum_totals : ℤ → List InvoiceLineTotals → ℤ
sum_totals sum [] = sum
sum_totals sum (line ∷ lines) = sum_totals (sum +ℤ line.line_total_minor) lines

-- `computeInvoiceTotals`
unfoldable pub compute_invoice_totals : List InvoiceLineInput → ℕ → ℤ → InvoiceTotals
compute_invoice_totals lines vat_rate_bp stamp_duty_minor =
    let lines' = with_totals 0 lines in
    let subtotal = sum_totals (pos 0) lines' in
    let vat = round_half_up (subtotal *ℤ pos vat_rate_bp) basis_points in
    record {
      lines = lines';
      subtotal_minor = subtotal;
      vat_rate_bp = vat_rate_bp;
      vat_amount_minor = vat;
      stamp_duty_minor = stamp_duty_minor;
      total_minor = subtotal +ℤ vat +ℤ stamp_duty_minor;
    }

pub data InvoiceKind : Type 0 where
  invoice credit_note : InvoiceKind

-- `NUMBER_PREFIX`
abbrev pub number_prefix : InvoiceKind → Text
number_prefix invoice = b'F' ∷ b'A' ∷ []
number_prefix credit_note = b'A' ∷ b'V' ∷ []

-- `formatDocumentNumber`
unfoldable pub format_document_number : Text → ℕ → ℕ → Text
format_document_number prefix year sequence =
    prefix ++ b'-' ∷ (digits year ++ b'-' ∷ pad_start 5 (digits sequence))
