-- ===== src/Finance/Remittance.antt =====
-- apps/api/src/modules/finance/application/remittance.service.ts: the driver hands the cash over
-- to a hub. `now` is the clock, `code` the random receipt code; amounts of the requests are what
-- the DTO schemas let through.
use system_delivery.Prelude.{
  ℕ, ◌==◌, Bool, true, false, ◌&&◌, Option, none, some, List, [], ◌∷◌, ◌++◌, String, find, keep,
  length, update_where, if◌then◌else◌, or_else, overriding, is_none, not,
}
use system_delivery.Prelude.Int.{ℤ, pos, neg_ℤ, ◌+ℤ◌, ◌-ℤ◌, eq_ℤ, ltb_ℤ}
use system_delivery.Prelude.Tx.{
  Tx, pure, throw_if, or_throw, gets, modify, ◌>>=◌, ◌>>◌, business_rule, conflict, not_found,
  forbidden, remittance_not_submitted, remittance_invalid_transition, variance_reason_required,
  remittance,
}
use system_delivery.Platform.Outbox.{text, id, ids, count, minor, at}
use system_delivery.Finance.Ledger.{driver, hub, driver_cash, hub_cash, debit, credit, cod_remitted}
use system_delivery.Finance.LedgerService.{
  AccountRef, PostingLine, PostTransactionInput, balance_of,
}
use system_delivery.Finance.Store.{
  FinanceStore, CodRemittance, RemittanceStatus, submitted, confirmed, disputed, resolved,
  exponent_of, draw, publish_event, post, event_of, optional_text,
}

pub record RemittanceContext : Type 0 where
  pub actor_user_id : ℕ
  pub actor_is_driver : Bool

pub record SubmitRemittance : Type 0 where
  pub driver_id : ℕ
  pub hub_id : ℕ
  pub declared_amount_minor : ℤ
  pub currency : ℕ
  pub shipment_ids : Option (List ℕ)
  pub notes : Option String

pub record ConfirmRemittance : Type 0 where
  pub counted_amount_minor : ℤ
  pub variance_reason : Option String
  pub notes : Option String

abbrev pub same_remittance_status : RemittanceStatus → RemittanceStatus → Bool
same_remittance_status submitted submitted = true
same_remittance_status confirmed confirmed = true
same_remittance_status disputed disputed = true
same_remittance_status resolved resolved = true
same_remittance_status _ _ = false

-- `assertRemitsOwnCash`, for a caller who is a driver.
unfoldable pub assert_own_cash : RemittanceContext → ℕ → Tx FinanceStore (Unit {0})
assert_own_cash ctx driver_id = do
  own ← gets (λ s. find (λ d. d.1 == ctx.actor_user_id) s.drivers)
  own_row ← or_throw own forbidden
  throw_if (not (own_row.0 == driver_id)) forbidden

unfoldable pub assert_remits_own_cash : RemittanceContext → ℕ → Tx FinanceStore (Unit {0})
assert_remits_own_cash ctx driver_id =
    if ctx.actor_is_driver then assert_own_cash ctx driver_id else pure tt

-- `loadForUpdate`
unfoldable pub load_for_update : ℕ → Tx FinanceStore CodRemittance
load_for_update rid = do
  row ← gets (λ s. find (λ r. r.id == rid) s.remittances)
  or_throw row (not_found remittance)

-- The row that `submit` inserts.
unfoldable pub submitted_row : ℕ → ℕ → ℕ → String → ℤ → SubmitRemittance → CodRemittance
submitted_row drawn tenant_id now code expected dto = record {
  id = drawn;
  tenant_id = tenant_id;
  code = code;
  driver_id = dto.driver_id;
  hub_id = dto.hub_id;
  received_by_user_id = none;
  status = submitted;
  expected_amount_minor = expected;
  declared_amount_minor = dto.declared_amount_minor;
  counted_amount_minor = none;
  variance_minor = pos 0;
  currency = dto.currency;
  shipment_ids = or_else dto.shipment_ids [];
  variance_reason = none;
  notes = dto.notes;
  submitted_at = some now;
  confirmed_at = none;
}

abbrev pub driver_cash_of : ℕ → AccountRef
driver_cash_of driver_id = record {
  owner_type = driver;
  owner_id = driver_id;
  account_type = driver_cash;
}

abbrev pub hub_cash_of : ℕ → AccountRef
hub_cash_of hub_id = record { owner_type = hub; owner_id = hub_id; account_type = hub_cash }

-- DEBIT hub_cash / CREDIT driver_cash by the counted amount.
unfoldable pub remittance_lines : CodRemittance → ℤ → List PostingLine
remittance_lines r counted =
    record { account = hub_cash_of r.hub_id; direction = debit; amount_minor = counted }
    ∷ record { account = driver_cash_of r.driver_id; direction = credit; amount_minor = counted }
    ∷ []

abbrev pub remittance_input : ℕ → ℕ → CodRemittance → ℤ → RemittanceContext → PostTransactionInput
remittance_input tenant_id now r counted ctx = record {
  tenant_id = tenant_id;
  entry_type = cod_remitted;
  currency = r.currency;
  lines = remittance_lines r counted;
  occurred_at = some now;
  description = some "COD remittance to hub";
  source_event_id = none;
  shipment_id = none;
  remittance_id = some r.id;
  settlement_id = none;
  created_by_user_id = some ctx.actor_user_id;
}

-- The `UPDATE cod_remittances SET …` of a confirmation.
unfoldable pub confirm_row :
    ℕ → ConfirmRemittance → RemittanceContext → CodRemittance → CodRemittance
confirm_row now dto ctx r = record r {
  status = confirmed;
  counted_amount_minor = some dto.counted_amount_minor;
  variance_minor = dto.counted_amount_minor -ℤ r.expected_amount_minor;
  received_by_user_id = some ctx.actor_user_id;
  confirmed_at = some now;
  variance_reason = overriding dto.variance_reason r.variance_reason;
  notes = overriding dto.notes r.notes;
}

abbrev pub set_remittance : ℕ → (CodRemittance → CodRemittance) → FinanceStore → FinanceStore
set_remittance rid f st = record st {
  remittances = update_where (λ r. r.id == rid) f st.remittances;
}

-- `UPDATE … RETURNING`, and the row that it returns.
unfoldable pub update_remittance :
    ℕ → (CodRemittance → CodRemittance) → Tx FinanceStore CodRemittance
update_remittance rid f = do
  modify (set_remittance rid f)
  row ← gets (λ s. find (λ r. r.id == rid) s.remittances)
  or_throw row (not_found remittance)

-- `coalesce(sum(abs(variance_minor)), 0)`
unfoldable pub sum_abs : List CodRemittance → ℤ
sum_abs [] = pos 0
sum_abs (r ∷ rs) =
    let v = r.variance_minor in (if ltb_ℤ v (pos 0) then neg_ℤ v else v) +ℤ sum_abs rs

-- `driverVarianceHistory`: the driver's other remittances with a variance, and its absolute sum.
unfoldable pub driver_variance_history : ℕ → ℕ → FinanceStore → ℕ × ℤ
driver_variance_history driver_id exclude_id st =
    let rows =
      keep
        (λ r.
          r.driver_id == driver_id
          && not (r.id == exclude_id)
          && not (eq_ℤ r.variance_minor (pos 0)))
        st.remittances in
    (length rows, sum_abs rows)

module _ (draws : ℕ → ℕ) where
  -- `RemittanceService.submit`
  unfoldable pub submit :
      ℕ → ℕ → String → SubmitRemittance → RemittanceContext → Tx FinanceStore CodRemittance
  submit tenant_id now code dto ctx = do
    assert_remits_own_cash ctx dto.driver_id
    expected ← gets (λ s. balance_of tenant_id dto.currency (driver_cash_of dto.driver_id) s.ledger)
    drawn ← draw draws
    let row = submitted_row drawn tenant_id now code expected dto
    modify (λ s. record s { remittances = s.remittances ++ row ∷ [] })
    publish_event draws tenant_id (
        event_of "cod.remittance_submitted" "cod_remittance" drawn now (
          ("remittanceId", id drawn)
          ∷ ("code", text code)
          ∷ ("driverId", id dto.driver_id)
          ∷ ("hubId", id dto.hub_id)
          ∷ ("expectedAmountMinor", minor expected)
          ∷ ("declaredAmountMinor", minor dto.declared_amount_minor)
          ∷ ("currency", id dto.currency)
          ∷ ("shipmentIds", ids (or_else dto.shipment_ids []))
          ∷ ("shipmentCount", count (length (or_else dto.shipment_ids [])))
          ∷ ("occurredAt", at now)
          ∷ []))
    pure row

  -- The posting of `confirm`: nothing moves when nothing was counted.
  unfoldable pub post_counted :
      ℕ → ℕ → CodRemittance → ℤ → RemittanceContext → Tx FinanceStore (Unit {0})
  post_counted tenant_id now r counted ctx =
      if ltb_ℤ (pos 0) counted
      then post draws now (remittance_input tenant_id now r counted ctx) >> pure tt
      else pure tt

  -- `cod.cash_remitted`
  unfoldable pub publish_cash_remitted :
      ℕ
      → ℕ
      → CodRemittance
      → ConfirmRemittance
      → RemittanceContext
      → ℤ
      → ℕ
      → Tx FinanceStore (Unit {0})
  publish_cash_remitted tenant_id now r dto ctx variance exponent = publish_event draws tenant_id (
      event_of "cod.cash_remitted" "cod_remittance" r.id now (
        ("remittanceId", id r.id)
        ∷ ("driverId", id r.driver_id)
        ∷ ("hubId", id r.hub_id)
        ∷ ("receivedByUserId", id ctx.actor_user_id)
        ∷ ("expectedAmountMinor", minor r.expected_amount_minor)
        ∷ ("declaredAmountMinor", minor r.declared_amount_minor)
        ∷ ("countedAmountMinor", minor dto.counted_amount_minor)
        ∷ ("varianceMinor", minor variance)
        ∷ ("currency", id r.currency)
        ∷ ("currencyExponent", count exponent)
        ∷ ("shipmentIds", ids r.shipment_ids)
        ∷ ("occurredAt", at now)
        ∷ optional_text "varianceReason" dto.variance_reason))

  -- `cod.variance_detected`, only where there is a variance.
  unfoldable pub publish_variance :
      ℕ → ℕ → CodRemittance → ConfirmRemittance → ℤ → Tx FinanceStore (Unit {0})
  publish_variance tenant_id now r dto variance = if eq_ℤ variance (pos 0) then pure tt else do
    history ← gets (driver_variance_history r.driver_id r.id)
    publish_event draws tenant_id (
        event_of "cod.variance_detected" "cod_remittance" r.id now (
          ("remittanceId", id r.id)
          ∷ ("driverId", id r.driver_id)
          ∷ ("hubId", id r.hub_id)
          ∷ ("varianceMinor", minor variance)
          ∷ ("currency", id r.currency)
          ∷ ("varianceDirection", text (if ltb_ℤ variance (pos 0) then "SHORTAGE" else "SURPLUS"))
          ∷ ("driverHistoricalVarianceCount", count history.0)
          ∷ ("driverHistoricalVarianceMinor", minor history.1)
          ∷ optional_text "varianceReason" dto.variance_reason))

  -- The events of `confirm`.
  unfoldable pub announce :
      ℕ → ℕ → CodRemittance → ConfirmRemittance → RemittanceContext → ℤ → Tx FinanceStore (Unit {0})
  announce tenant_id now r dto ctx variance = do
    exponent ← exponent_of r.currency
    publish_cash_remitted tenant_id now r dto ctx variance exponent
    publish_variance tenant_id now r dto variance

  -- `RemittanceService.confirm`
  unfoldable pub confirm :
      ℕ → ℕ → ℕ → ConfirmRemittance → RemittanceContext → Tx FinanceStore CodRemittance
  confirm tenant_id now rid dto ctx = do
    r ← load_for_update rid
    throw_if (not (same_remittance_status r.status submitted)) (conflict remittance_not_submitted)
    let variance = dto.counted_amount_minor -ℤ r.expected_amount_minor
    throw_if (not (eq_ℤ variance (pos 0)) && is_none dto.variance_reason)
        (business_rule variance_reason_required)
    post_counted tenant_id now r dto.counted_amount_minor ctx
    row ← update_remittance rid (confirm_row now dto ctx)
    announce tenant_id now r dto ctx variance
    pure row

-- `transition`
unfoldable pub transition :
    ℕ → RemittanceStatus → RemittanceStatus → Option String → Tx FinanceStore CodRemittance
transition rid from to reason = do
  r ← load_for_update rid
  throw_if (not (same_remittance_status r.status from)) (conflict remittance_invalid_transition)
  update_remittance rid
      (λ row. record row { status = to; variance_reason = overriding reason row.variance_reason })

-- `RemittanceService.dispute`
unfoldable pub dispute : ℕ → String → Tx FinanceStore CodRemittance
dispute rid reason = transition rid submitted disputed (some reason)

-- `RemittanceService.resolve`
unfoldable pub resolve : ℕ → Tx FinanceStore CodRemittance
resolve rid = transition rid disputed resolved none
