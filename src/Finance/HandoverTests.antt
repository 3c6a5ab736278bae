-- ===== src/Finance/HandoverTests.antt =====
-- A declaration, a confirmation and a dispute on small tables.
use system_delivery.Prelude.{◌≡◌, ◌==◌, ◌⊎◌, refl, true, false, none, some, [], ◌∷◌, ◌++◌, find}
use system_delivery.Prelude.Int.{pos, ◌+ℤ◌, ◌-ℤ◌}
use system_delivery.Prelude.Tx.{Result, ok, err, conflict, remittance_not_submitted}
use system_delivery.Platform.Outbox.{publish}
use system_delivery.Finance.LedgerService.{
  balance_of, assert_balanced, sum_lines, ensure_account, account_where, post_line, post_lines,
  post_transaction,
}
use system_delivery.Finance.Store.{
  FinanceStore, CodRemittance, disputed, resolved, exponent_of, publish_event, post,
}
use system_delivery.Finance.RemittanceRuns.{Step, Steps, ◌then◌, confirm_once, disputed_resolves}
use system_delivery.Finance.Declared.{IsOwnCash, IsDeclared, submit_declares}
use system_delivery.Finance.Books.{IsSound}
use system_delivery.Finance.Remittance.{
  SubmitRemittance, submit, submitted_row, driver_cash_of, assert_remits_own_cash, assert_own_cash,
  RemittanceContext, ConfirmRemittance, load_for_update, post_counted, remittance_lines,
  confirm_row, update_remittance, announce, publish_cash_remitted, publish_variance, confirm,
  transition, dispute, resolve,
}
use system_delivery.Finance.CashMoved.{IsHandedOver, confirm_hands_over}
use system_delivery.Finance.TestTables.{
  draws, draws_injective, empty, handed_over, tables, tables-IsSound, tables_of,
}

abbrev counted : ConfirmRemittance
counted = record {
  counted_amount_minor = pos 12000;
  variance_reason = some "a coin short";
  notes = none;
}

abbrev cashier : RemittanceContext
cashier = record { actor_user_id = 30; actor_is_driver = false }

confirms :
    confirm draws 9 1000 1 counted cashier tables
    ≡ ok (
      confirm_row 1000 counted cashier handed_over,
      tables_of (confirm draws 9 1000 1 counted cashier tables),
    )
unfolding confirm load_for_update post_counted post post_transaction assert_balanced sum_lines
    post_lines post_line ensure_account account_where remittance_lines update_remittance announce
    exponent_of publish_cash_remitted publish_variance publish_event publish confirm_row ◌+ℤ◌ ◌-ℤ◌
confirms = refl

confirm_hands_over_example :
    let st' = tables_of (confirm draws 9 1000 1 counted cashier tables) in
    (r : CodRemittance) × (find (λ x. x.id == 1) tables.remittances ≡ some r)
    × IsHandedOver 9 r (pos 12000) tables st'
    × IsSound draws draws_injective st'
confirm_hands_over_example =
    confirm_hands_over draws draws_injective 9 1000 1 counted cashier tables
      (tables_of (confirm draws 9 1000 1 counted cashier tables))
      (confirm_row 1000 counted cashier handed_over) tables-IsSound refl confirms

abbrev declaration : SubmitRemittance
declaration = record {
  driver_id = 7;
  hub_id = 4;
  declared_amount_minor = pos 100;
  currency = 788;
  shipment_ids = none;
  notes = none;
}

abbrev courier : RemittanceContext
courier = record { actor_user_id = 40; actor_is_driver = true }

abbrev confirmed_tables : FinanceStore
confirmed_tables = tables_of (confirm draws 9 1000 1 counted cashier tables)

abbrev row_of : Result (CodRemittance × FinanceStore) → CodRemittance
row_of (ok (row, st)) = row
row_of (err e) = handed_over

-- Another declaration after the confirmation.
declares_later :
    let outcome = submit draws 9 1500 "RM-2" declaration courier confirmed_tables in
    outcome ≡ ok (row_of outcome, tables_of outcome)
unfolding confirm load_for_update post_counted post post_transaction assert_balanced sum_lines
    post_lines post_line ensure_account account_where remittance_lines update_remittance announce
    exponent_of publish_cash_remitted publish_variance publish_event publish confirm_row ◌+ℤ◌ ◌-ℤ◌
    submit assert_remits_own_cash assert_own_cash
declares_later = refl

confirm_once_example :
    confirm draws 9 2000 1 counted cashier
      (tables_of (submit draws 9 1500 "RM-2" declaration courier confirmed_tables))
    ≡ err (conflict remittance_not_submitted)
confirm_once_example =
    confirm_once draws 9 1000 2000 1 counted counted cashier cashier tables confirmed_tables
      (tables_of (submit draws 9 1500 "RM-2" declaration courier confirmed_tables))
      (confirm_row 1000 counted cashier handed_over) confirms
      (Step.submits 9 1500 "RM-2" declaration courier
          (row_of (submit draws 9 1500 "RM-2" declaration courier confirmed_tables)) declares_later
        then Steps.done)

disputes :
    dispute 1 "short" tables
    ≡ ok (
      record handed_over { status = disputed; variance_reason = some "short" },
      tables_of (dispute 1 "short" tables),
    )
unfolding dispute transition load_for_update update_remittance
disputes = refl

abbrev disputed_tables : FinanceStore
disputed_tables = tables_of (dispute 1 "short" tables)

resolves :
    resolve 1 disputed_tables
    ≡ ok (row_of (resolve 1 disputed_tables), tables_of (resolve 1 disputed_tables))
unfolding dispute resolve transition load_for_update update_remittance
resolves = refl

disputed_resolves_example :
    let st'' = tables_of (resolve 1 disputed_tables) in
    (confirm draws 9 1000 1 counted cashier st'' ≡ err (conflict remittance_not_submitted))
    × (r : CodRemittance) × (find (λ x. x.id == 1) st''.remittances ≡ some r)
    × (r.variance_reason ≡ some "short")
    × ((r.status ≡ resolved)
        ⊎ ((r.status ≡ disputed)
            × (row' : CodRemittance) × (end : FinanceStore) × (resolve 1 st'' ≡ ok (row', end))
            × (row'.status ≡ resolved)
            × (row'.variance_reason ≡ some "short")))
disputed_resolves_example =
    disputed_resolves draws 9 1000 1 "short" counted cashier tables disputed_tables
      (tables_of (resolve 1 disputed_tables))
      (record handed_over { status = disputed; variance_reason = some "short" }) disputes
      (Step.resolves 1 (row_of (resolve 1 disputed_tables)) resolves then Steps.done)

abbrev declared : CodRemittance
declared = submitted_row 100 9 1000 "RM-2" (balance_of 9 788 (driver_cash_of 7) empty) declaration

submits :
    submit draws 9 1000 "RM-2" declaration courier tables
    ≡ ok (declared, tables_of (submit draws 9 1000 "RM-2" declaration courier tables))
unfolding submit assert_remits_own_cash assert_own_cash publish_event publish
submits = refl

submit_declares_example :
    IsOwnCash courier 7 tables
    × IsDeclared 9 1000 declaration tables declared
    × ((tables_of (submit draws 9 1000 "RM-2" declaration courier tables)).remittances
        ≡ tables.remittances ++ declared ∷ [])
    × ((tables_of (submit draws 9 1000 "RM-2" declaration courier tables)).ledger.entries ≡ [])
submit_declares_example =
    submit_declares draws 9 1000 "RM-2" declaration courier tables
      (tables_of (submit draws 9 1000 "RM-2" declaration courier tables)) declared submits
