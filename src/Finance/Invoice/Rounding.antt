-- ===== src/Finance/Invoice/Rounding.antt =====
-- domain/invoice-totals.ts of the finance context: how the VAT of an invoice is rounded.
use system_delivery.Prelude.{
  ℕ, ◌+◌, ◌*◌, ◌/◌, ◌≤◌, ◌<◌, ◌≡◌, refl, inl, inr, ◌⊎◌, true, false, List, arith, Bool-cases,
}
use system_delivery.Prelude.Int.{ℤ, pos, ◌+ℤ◌, ◌*ℤ◌, neg_ℤ, abs_ℤ}
use system_delivery.Shared.Money.{is_negative}
use system_delivery.Finance.Invoice.Totals.{
  InvoiceLineInput, round_half_up, basis_points, compute_invoice_totals,
}

neg_ℤ_abs : (n : ℕ) → abs_ℤ (neg_ℤ (pos n)) ≡ n
unfolding neg_ℤ
neg_ℤ_abs n = ground arith

neg_ℤ-sign : (n : ℕ) → (is_negative (neg_ℤ (pos n)) ≡ true) ⊎ (neg_ℤ (pos n) ≡ pos 0)
unfolding neg_ℤ
neg_ℤ-sign n = ground arith

-- `r` is the nearest number to a ten-thousandth of `n`, and half a unit is rounded away from 0: it is
-- so without the signs, and `r` is negative exactly where `n` is and `r` is not 0.
pub record IsNearest (n r : ℤ) : Type 0 where
  pub from_below : 20000 * abs_ℤ r ≤ 2 * abs_ℤ n + 10000
  pub from_above : 2 * abs_ℤ n < 20000 * abs_ℤ r + 10000
  pub not_below : is_negative n ≡ false → is_negative r ≡ false
  pub not_above : is_negative n ≡ true → (is_negative r ≡ true) ⊎ (r ≡ pos 0)

round_half_up-IsNearest : (n : ℤ) → IsNearest n (round_half_up n basis_points)
unfolding round_half_up
round_half_up-IsNearest n =
    let r = (abs_ℤ n + 5000) / 10000 in
    elim (Bool-cases (is_negative n)) [
      | inr up ↦
          rw (up, round_half_up)
            (record {
              from_below = omega arith;
              from_above = omega arith;
              not_below = λ h. refl;
              not_above = λ h. cc (h, up);
            })
      | inl down ↦
          let same = neg_ℤ_abs r in
          rw (down, round_half_up)
            (record {
              from_below = omega (arith, same);
              from_above = omega (arith, same);
              not_below = λ h. cc (h, down);
              not_above = λ h. neg_ℤ-sign r;
            })
    ]

-- The VAT of an invoice is the subtotal times the rate, rounded once to the nearest minor unit and
-- half a unit away from 0, whatever the signs of the prices: it has the sign of the product, or is 0;
-- and the stamp duty is added to the total without being taxed.
pub compute_invoice_totals-IsNearest :
    (lines : List InvoiceLineInput) (vat_rate_bp : ℕ) (stamp : ℤ)
    → let t = compute_invoice_totals lines vat_rate_bp stamp in
      IsNearest (t.subtotal_minor *ℤ pos vat_rate_bp) t.vat_amount_minor
      × (t.total_minor ≡ t.subtotal_minor +ℤ t.vat_amount_minor +ℤ stamp)
      × (t.vat_amount_minor ≡ (compute_invoice_totals lines vat_rate_bp (pos 0)).vat_amount_minor)
unfolding compute_invoice_totals
compute_invoice_totals-IsNearest lines vat_rate_bp stamp = (round_half_up-IsNearest _, refl, refl)
