-- ===== src/Finance/Balanced.antt =====
-- ledger.service.ts, `assertBalanced`: which lists of lines may be posted.
use system_delivery.Prelude.{
  ◌≤◌, ◌≡◌, ◌↔◌, inl, inr, true, false, List, [], ◌∷◌, arith, sym, ap, ◌∙◌, length, All,
  if◌then◌else◌, Bool-cases, ltb,
}
use system_delivery.Prelude.Int.{
  ℤ, pos, ◌+ℤ◌, ◌<ℤ◌, leb_ℤ, eq_ℤ, eq_ℤ→eq, eq_ℤ_self, int_laws, +ℤ_zero, zero_+ℤ,
}
use system_delivery.Prelude.Tx.{Result-cases, ok}
use system_delivery.Finance.Ledger.{Direction, debit, credit, same_direction}
use system_delivery.Finance.LedgerService.{PostingLine, with_line, sum_lines, assert_balanced}

-- What the lines move on one side.
abbrev pub moved : Direction → List PostingLine → ℤ
moved side [] = pos 0
moved side (line ∷ lines) =
    (if same_direction line.direction side then line.amount_minor else pos 0) +ℤ moved side lines

abbrev pub IsPositive : PostingLine → Type 0
IsPositive line = pos 0 <ℤ line.amount_minor

with_line_add :
    (side : Direction) (line : PostingLine) (lines : List PostingLine) (total : ℤ)
    → with_line side line total +ℤ moved side lines ≡ total +ℤ moved side (line ∷ lines)
with_line_add side line lines total = elim (Bool-cases (same_direction line.direction side)) [
  | inl e ↦ rw e (omega int_laws)
  | inr e ↦ rw e (omega int_laws)
]

positive_passes : (a : ℤ) → pos 0 <ℤ a → leb_ℤ a (pos 0) ≡ false
positive_passes a h = ground arith

passes_positive : (a : ℤ) → leb_ℤ a (pos 0) ≡ false → pos 0 <ℤ a
passes_positive a h = ground arith

-- With every amount positive the loop returns the two totals.
sum_lines_ok :
    (lines : List PostingLine) (debits credits : ℤ)
    → All IsPositive lines
    → sum_lines lines debits credits
      ≡ ok (debits +ℤ moved debit lines, credits +ℤ moved credit lines)
unfolding sum_lines
sum_lines_ok [] debits credits h = rw (+ℤ_zero debits, +ℤ_zero credits)
sum_lines_ok (line ∷ lines) debits credits h = rw (
  positive_passes line.amount_minor h.0,
  sum_lines_ok lines (with_line debit line debits) (with_line credit line credits) h.1,
  with_line_add debit line lines debits,
  with_line_add credit line lines credits,
)

sum_lines-IsPositive :
    (lines : List PostingLine) (debits credits : ℤ) (r : ℤ × ℤ)
    → sum_lines lines debits credits ≡ ok r
    → All IsPositive lines
unfolding sum_lines
sum_lines-IsPositive [] debits credits r h = tt
sum_lines-IsPositive (line ∷ lines) debits credits r h =
    elim (Bool-cases (leb_ℤ line.amount_minor (pos 0))) [
      | inl e ↦ cc (rw e at h)
      | inr e ↦ (
        passes_positive line.amount_minor e,
        sum_lines-IsPositive lines (with_line debit line debits) (with_line credit line credits) r
            (rw e at h),
      )
    ]

-- What `postTransaction` accepts: at least two lines, every amount positive, debits equal credits.
pub record IsBalanced (lines : List PostingLine) : Type 0 where
  pub two_lines : 2 ≤ length lines
  pub positive : All IsPositive lines
  pub equal : moved debit lines ≡ moved credit lines

balanced_passes : (lines : List PostingLine) → IsBalanced lines → assert_balanced lines ≡ ok tt
unfolding assert_balanced
balanced_passes lines h =
    let enough : ltb (length lines) 2 ≡ false = ground arith in
    let equal : eq_ℤ (pos 0 +ℤ moved debit lines) (pos 0 +ℤ moved credit lines) ≡ true =
      rw h.equal (eq_ℤ_self (pos 0 +ℤ moved credit lines)) in
    rw (enough, sum_lines_ok lines (pos 0) (pos 0) h.positive, equal)

same_totals :
    (lines : List PostingLine) (r : ℤ × ℤ)
    → r ≡ (pos 0 +ℤ moved debit lines, pos 0 +ℤ moved credit lines)
    → eq_ℤ r.0 r.1 ≡ true
    → moved debit lines ≡ moved credit lines
same_totals lines r sums q =
    sym (zero_+ℤ (moved debit lines))
    ∙ ap {A = ℤ × ℤ} (λ p. p.0) (sym sums)
    ∙ eq_ℤ→eq r.0 r.1 q
    ∙ ap {A = ℤ × ℤ} (λ p. p.1) sums
    ∙ zero_+ℤ (moved credit lines)

passes-IsBalanced : (lines : List PostingLine) → assert_balanced lines ≡ ok tt → IsBalanced lines
unfolding assert_balanced
passes-IsBalanced lines h = elim (Result-cases (sum_lines lines (pos 0) (pos 0))) [
  | inr (x, e) ↦ ground arith
  | inl (r, e) ↦
      let positive = sum_lines-IsPositive lines (pos 0) (pos 0) r e in
      let totals = sum_lines_ok lines (pos 0) (pos 0) positive in
      let sums : r ≡ (pos 0 +ℤ moved debit lines, pos 0 +ℤ moved credit lines) = cc in
      record {
        two_lines = ground arith;
        positive = positive;
        equal = same_totals lines r sums (ground arith);
      }
]

-- `assertBalanced` passes exactly the lists of two or more lines with positive amounts whose debits
-- equal their credits.
pub assert_balanced_iff :
    (lines : List PostingLine) → (assert_balanced lines ≡ ok tt) ↔ IsBalanced lines
assert_balanced_iff lines = (passes-IsBalanced lines, balanced_passes lines)
