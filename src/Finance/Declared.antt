-- ===== src/Finance/Declared.antt =====
-- remittance.service.ts, `submit`: what a declared hand-over rests on.
use system_delivery.Prelude.{
  ℕ, ◌==◌, ◌≡◌, refl, inl, inr, Bool, true, false, none, some, [], ◌∷◌, ◌++◌, String, arith, find,
  if◌then◌else◌, Bool-cases, Option-cases, sym, ◌∙◌, ap,
}
use system_delivery.Prelude.Tx.{pure, ok, bind_ok}
use system_delivery.Finance.LedgerService.{balance_of}
use system_delivery.Finance.Store.{FinanceStore, CodRemittance, publish_event, submitted}
use system_delivery.Finance.Books.{publish_event-SameTables}
use mathlib.Core.Path.{subst}
use system_delivery.Prelude.Int.{pos}
use system_delivery.Platform.Outbox.{DomainEventInput}
use system_delivery.Finance.Remittance.{
  RemittanceContext, SubmitRemittance, assert_remits_own_cash, assert_own_cash, submitted_row,
  driver_cash_of, submit,
}

-- The actor is not a driver, or is the driver of the declaration.
abbrev pub IsOwnCash : RemittanceContext → ℕ → FinanceStore → Type 0
IsOwnCash ctx driver_id st =
    ctx.actor_is_driver ≡ true
    → (own : ℕ × ℕ) × (find (λ d. d.1 == ctx.actor_user_id) st.drivers ≡ some own)
      × (own.0 == driver_id ≡ true)

own_lem :
    (ctx : RemittanceContext) (driver_id : ℕ) (st st' : FinanceStore)
    → assert_own_cash ctx driver_id st ≡ ok (tt, st')
    → (st ≡ st')
      × (own : ℕ × ℕ) × (find (λ d. d.1 == ctx.actor_user_id) st.drivers ≡ some own)
      × (own.0 == driver_id ≡ true)
unfolding assert_own_cash
own_lem ctx driver_id st st' h =
    elim (Option-cases (find (λ d. d.1 == ctx.actor_user_id) st.drivers)) [
      | inl missing ↦ cc (rw (missing, assert_own_cash) at h)
      | inr (own, found) ↦ elim (Bool-cases (own.0 == driver_id)) [
        | inl same ↦ (cc (rw (found, same, assert_own_cash) at h), own, found, same)
        | inr other ↦ cc (rw (found, other, assert_own_cash) at h)
      ]
    ]

-- By whether the caller is a driver.
remits_if :
    (is_driver : Bool) (ctx : RemittanceContext) (driver_id : ℕ) (st st' : FinanceStore)
    → (if is_driver then assert_own_cash ctx driver_id else pure tt) st ≡ ok (tt, st')
    → (st ≡ st')
      × (is_driver ≡ true
          → (own : ℕ × ℕ) × (find (λ d. d.1 == ctx.actor_user_id) st.drivers ≡ some own)
            × (own.0 == driver_id ≡ true))
remits_if true ctx driver_id st st' h =
    let (same, own, found, mine) = own_lem ctx driver_id st st' h in (same, λ e. (own, found, mine))
remits_if false ctx driver_id st st' h = (cc h, λ e. cc)

remits_lem :
    (ctx : RemittanceContext) (driver_id : ℕ) (st st' : FinanceStore)
    → assert_remits_own_cash ctx driver_id st ≡ ok (tt, st')
    → (st ≡ st') × IsOwnCash ctx driver_id st
unfolding assert_remits_own_cash
remits_lem ctx driver_id st st' h = remits_if ctx.actor_is_driver ctx driver_id st st' h

publish_event-entries :
    (draws : ℕ → ℕ) (tenant_id : ℕ) (event : DomainEventInput) (s s' : FinanceStore)
    → publish_event draws tenant_id event s ≡ ok (tt, s')
    → s'.ledger.entries ≡ s.ledger.entries
unfolding publish_event
publish_event-entries draws tenant_id event s s' h = ground arith

-- The new row of a declaration.
pub record IsDeclared (tenant_id now : ℕ) (dto : SubmitRemittance) (st : FinanceStore)
    (row : CodRemittance) : Type 0 where
  pub waits : row.status ≡ submitted
  pub expects :
      row.expected_amount_minor
      ≡ balance_of tenant_id dto.currency (driver_cash_of dto.driver_id) st.ledger
  pub declares : row.declared_amount_minor ≡ dto.declared_amount_minor
  pub uncounted : (row.counted_amount_minor ≡ none) × (row.received_by_user_id ≡ none)
  pub no_variance : row.variance_minor ≡ pos 0
  pub parties :
      (row.tenant_id ≡ tenant_id) × (row.driver_id ≡ dto.driver_id) × (row.hub_id ≡ dto.hub_id)
  pub same_currency : row.currency ≡ dto.currency
  pub submitted_now : row.submitted_at ≡ some now

-- A declaration that was accepted is of the caller's own cash where the caller is a driver, and adds
-- one row, which is SUBMITTED, expects what the ledger says the driver holds, beside the amount that
-- was declared, and is not counted yet; no money moves: the entries are as before.
pub submit_declares :
    (draws : ℕ → ℕ) (tenant_id now : ℕ) (code : String) (dto : SubmitRemittance)
    (ctx : RemittanceContext) (st st' : FinanceStore) (row : CodRemittance)
    → submit draws tenant_id now code dto ctx st ≡ ok (row, st')
    → IsOwnCash ctx dto.driver_id st
      × IsDeclared tenant_id now dto st row
      × (st'.remittances ≡ st.remittances ++ row ∷ [])
      × (st'.ledger.entries ≡ st.ledger.entries)
unfolding submit submitted_row
submit_declares draws tenant_id now code dto ctx st st' row h =
    bind_ok (assert_remits_own_cash ctx dto.driver_id st) _ h (λ _ s1 e1 h1.
      let (same, own) = remits_lem ctx dto.driver_id st s1 e1 in
      bind_ok (publish_event draws tenant_id _ _) _ (rw (sym same) at h1) (λ _ s2 e2 h2.
        let row_same : submitted_row (draws st.ledger.drawn) tenant_id now code
              (balance_of tenant_id dto.currency (driver_cash_of dto.driver_id) st.ledger) dto
            ≡ row =
          cc h2 in
        let end_same : s2 ≡ st' = cc h2 in
        (
          own,
          subst (IsDeclared tenant_id now dto st) row_same (record {
            waits = refl;
            expects = refl;
            declares = refl;
            uncounted = (refl, refl);
            no_variance = refl;
            parties = (refl, refl, refl);
            same_currency = refl;
            submitted_now = refl;
          }),
          ap (λ s. s.remittances) (sym end_same)
              ∙ (publish_event-SameTables draws tenant_id _ _ s2 e2).remittances
              ∙ ap (λ r. st.remittances ++ r ∷ []) row_same,
          ap (λ s. s.ledger.entries) (sym end_same)
              ∙ publish_event-entries draws tenant_id _ _ s2 e2,
        )))
