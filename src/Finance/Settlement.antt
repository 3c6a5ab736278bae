-- ===== src/Finance/Settlement.antt =====
-- apps/api/src/modules/finance/application/settlement.service.ts: the merchant is paid the COD
-- that was collected for it. `now` is the clock, `code` the random settlement code, `date_of` the
-- database's `::date`; dates are numbers, for they are only compared. The requests are what the
-- DTO schemas let through; of an insert, the columns that no query reads are left out.
use system_delivery.Prelude.{
  ℕ, ◌==◌, leb, Bool, true, false, ◌&&◌, Option, none, some, List, [], ◌∷◌, ◌++◌, String, find,
  keep, any, length, update_where, if◌then◌else◌, or_else, overriding, not,
}
use system_delivery.Prelude.Int.{ℤ, pos, ◌+ℤ◌, ◌-ℤ◌, ltb_ℤ}
use system_delivery.Prelude.Tx.{
  Tx, pure, ok, err, throw_if, or_throw, gets, modify, ◌>>=◌, ◌>>◌, business_rule, conflict,
  not_found, forbidden, internal, nothing_to_settle, settlement_fees_exceed_gross,
  settlement_not_draft, settlement_not_approved, settlement_not_cancellable, settlement,
}
use system_delivery.Platform.Outbox.{DomainEventInput, text, id, count, minor, at}
use system_delivery.Finance.Ledger.{
  merchant, tenant, merchant_payable, bank, platform_revenue, debit, credit, cod_collected,
  EntryType, same_entry_type, same_direction,
}
use system_delivery.Finance.LedgerService.{
  AccountRef, PostingLine, PostTransactionInput, LedgerEntry, account_where,
}
use system_delivery.Finance.Store.{
  FinanceStore, Settlement, SettlementShipment, SettlementStatus, draft, approved, paid, cancelled,
  exponent_of, draw, publish_event, post, event_of, optional_text,
}

-- The roles that the approval tells apart.
pub data Role : Type 0 where
  owner finance other : Role

pub record SettlementContext : Type 0 where
  pub actor_user_id : ℕ
  pub role : Role

pub record CreateSettlement : Type 0 where
  pub merchant_id : ℕ
  pub period_from : ℕ
  pub period_to : ℕ
  pub currency : ℕ
  pub delivery_fees_minor : Option ℤ

pub data PaymentMethod : Type 0 where
  bank_transfer cheque cash : PaymentMethod

abbrev pub payment_method_name : PaymentMethod → String
payment_method_name bank_transfer = "BANK_TRANSFER"
payment_method_name cheque = "CHEQUE"
payment_method_name cash = "CASH"

pub record MarkSettlementPaid : Type 0 where
  pub payment_method : PaymentMethod
  pub payment_reference : Option String

-- `APPROVER_ROLES.has(role)`
unfoldable pub is_approver : Role → Bool
is_approver owner = true
is_approver finance = true
is_approver other = false

abbrev pub same_settlement_status : SettlementStatus → SettlementStatus → Bool
same_settlement_status draft draft = true
same_settlement_status approved approved = true
same_settlement_status paid paid = true
same_settlement_status cancelled cancelled = true
same_settlement_status _ _ = false

abbrev pub payable_of : ℕ → AccountRef
payable_of merchant_id = record {
  owner_type = merchant;
  owner_id = merchant_id;
  account_type = merchant_payable;
}

-- A settlement already covers the shipment.
abbrev pub is_covered : ℕ → List SettlementShipment → ℕ → Bool
is_covered tenant_id links shipment_id =
    any (λ l. l.tenant_id == tenant_id && l.shipment_id == shipment_id) links

-- The conditions of the query, but for those on the shipment.
abbrev pub is_collection : (ℕ → ℕ) → ℕ → ℕ → CreateSettlement → LedgerEntry → Bool
is_collection date_of tenant_id account_id dto e =
    e.tenant_id == tenant_id
    && e.account_id == account_id
    && same_entry_type e.entry_type cod_collected
    && same_direction e.direction credit
    && leb dto.period_from (date_of e.occurred_at)
    && leb (date_of e.occurred_at) dto.period_to

-- The rows of the query: shipment and amount of each collection that no settlement covers.
unfoldable pub settleable :
    (ℕ → ℕ) → ℕ → ℕ → CreateSettlement → List SettlementShipment → List LedgerEntry → List (ℕ × ℤ)
settleable date_of tenant_id account_id dto links [] = []
settleable date_of tenant_id account_id dto links (e ∷ es) =
    let rest = settleable date_of tenant_id account_id dto links es in
    elim e.shipment_id [
      | none ↦ rest
      | some shipment_id ↦
          if is_collection date_of tenant_id account_id dto e
            && not (is_covered tenant_id links shipment_id)
          then (shipment_id, e.amount_minor) ∷ rest
          else rest
    ]

unfoldable pub settleable_rows : (ℕ → ℕ) → ℕ → CreateSettlement → FinanceStore → List (ℕ × ℤ)
settleable_rows date_of tenant_id dto st =
    elim (find (account_where tenant_id dto.currency (payable_of dto.merchant_id))
      st.ledger.accounts) [
        | none ↦ []
        | some a ↦ settleable date_of tenant_id a.id dto st.settlement_shipments st.ledger.entries
      ]

abbrev pub is_nil {ℓ} : {A : Type ℓ} → List A → Bool
is_nil [] = true
is_nil (x ∷ xs) = false

-- The loop that adds the amounts up.
abbrev pub gross_of : List (ℕ × ℤ) → ℤ
gross_of [] = pos 0
gross_of ((_, amount) ∷ rows) = amount +ℤ gross_of rows

unfoldable pub draft_row :
    ℕ → ℕ → String → CreateSettlement → SettlementContext → List (ℕ × ℤ) → Settlement
draft_row drawn tenant_id code dto ctx rows = record {
  id = drawn;
  tenant_id = tenant_id;
  merchant_id = dto.merchant_id;
  code = code;
  status = draft;
  period_from = dto.period_from;
  period_to = dto.period_to;
  gross_cod_amount_minor = gross_of rows;
  delivery_fees_minor = or_else dto.delivery_fees_minor (pos 0);
  adjustments_minor = pos 0;
  net_payable_minor = gross_of rows -ℤ or_else dto.delivery_fees_minor (pos 0);
  currency = dto.currency;
  shipment_count = length rows;
  payment_method = none;
  payment_reference = none;
  created_by_user_id = ctx.actor_user_id;
  approved_by_user_id = none;
  approved_at = none;
  paid_at = none;
}

abbrev pub link_of : ℕ → ℕ → ℕ × ℤ → SettlementShipment
link_of tenant_id settlement_id row = record {
  tenant_id = tenant_id;
  settlement_id = settlement_id;
  shipment_id = row.0;
  amount_minor = row.1;
}

-- `INSERT INTO settlement_shipments`: the unique index on tenant and shipment aborts it.
unfoldable pub insert_links :
    ℕ → ℕ → List (ℕ × ℤ) → List SettlementShipment → Option (List SettlementShipment)
insert_links tenant_id settlement_id [] links = some links
insert_links tenant_id settlement_id (row ∷ rows) links =
    let rest =
      insert_links tenant_id settlement_id rows
        (links ++ link_of tenant_id settlement_id row ∷ []) in
    if is_covered tenant_id links row.0 then none else rest

unfoldable pub insert_settlement_shipments : ℕ → ℕ → List (ℕ × ℤ) → Tx FinanceStore (Unit {0})
insert_settlement_shipments tenant_id settlement_id rows st =
    elim (insert_links tenant_id settlement_id rows st.settlement_shipments) [
      | none ↦ err internal
      | some links ↦ ok (tt, record st { settlement_shipments = links })
    ]

-- `loadForUpdate`
unfoldable pub load_settlement : ℕ → Tx FinanceStore Settlement
load_settlement sid = do
  row ← gets (λ s. find (λ x. x.id == sid) s.settlements)
  or_throw row (not_found settlement)

abbrev pub set_settlement : ℕ → (Settlement → Settlement) → FinanceStore → FinanceStore
set_settlement sid f st = record st {
  settlements = update_where (λ x. x.id == sid) f st.settlements;
}

-- `UPDATE … RETURNING`, and the row that it returns.
unfoldable pub update_settlement : ℕ → (Settlement → Settlement) → Tx FinanceStore Settlement
update_settlement sid f = do
  modify (set_settlement sid f)
  row ← gets (λ s. find (λ x. x.id == sid) s.settlements)
  or_throw row (not_found settlement)

-- The `SET` of an approval.
unfoldable pub approve_row : ℕ → SettlementContext → Settlement → Settlement
approve_row now ctx x = record x {
  status = approved;
  approved_by_user_id = some ctx.actor_user_id;
  approved_at = some now;
}

-- A leg of the payout, omitted where its amount is not positive.
abbrev pub credit_leg : AccountRef → ℤ → List PostingLine
credit_leg account amount =
    if ltb_ℤ (pos 0) amount
    then record { account = account; direction = credit; amount_minor = amount } ∷ []
    else []

-- DEBIT merchant_payable GROSS / CREDIT bank NET / CREDIT platform_revenue FEES.
unfoldable pub payout_lines : ℕ → Settlement → List PostingLine
payout_lines tenant_id x =
    record {
      account = payable_of x.merchant_id;
      direction = debit;
      amount_minor = x.gross_cod_amount_minor;
    }
      ∷ credit_leg (record { owner_type = tenant; owner_id = tenant_id; account_type = bank })
          x.net_payable_minor
    ++ credit_leg
        (record { owner_type = tenant; owner_id = tenant_id; account_type = platform_revenue })
        x.delivery_fees_minor

abbrev pub payout_input : ℕ → Settlement → SettlementContext → PostTransactionInput
payout_input tenant_id x ctx = record {
  tenant_id = tenant_id;
  entry_type = EntryType.settlement;
  currency = x.currency;
  lines = payout_lines tenant_id x;
  occurred_at = none;
  description = some "Merchant settlement payout";
  source_event_id = none;
  shipment_id = none;
  remittance_id = none;
  settlement_id = some x.id;
  created_by_user_id = some ctx.actor_user_id;
}

-- The `SET` of a payment.
unfoldable pub paid_row : ℕ → MarkSettlementPaid → Settlement → Settlement
paid_row now dto x = record x {
  status = paid;
  payment_method = some (payment_method_name dto.payment_method);
  paid_at = some now;
  payment_reference = overriding dto.payment_reference x.payment_reference;
}

-- `settlement.paid`; `x` is the row that was loaded, `row` the one that the update returned.
abbrev pub paid_event : ℕ → MarkSettlementPaid → Settlement → Settlement → ℕ → DomainEventInput
paid_event now dto x row exponent = event_of "settlement.paid" "settlement" row.id now (
    ("settlementId", id row.id)
    ∷ ("code", text row.code)
    ∷ ("merchantId", id row.merchant_id)
    ∷ ("periodFrom", id row.period_from)
    ∷ ("periodTo", id row.period_to)
    ∷ ("grossCodAmountMinor", minor x.gross_cod_amount_minor)
    ∷ ("deliveryFeesMinor", minor x.delivery_fees_minor)
    ∷ ("adjustmentsMinor", text "0")
    ∷ ("netPayableMinor", minor x.net_payable_minor)
    ∷ ("currency", id row.currency)
    ∷ ("currencyExponent", count exponent)
    ∷ ("shipmentCount", count row.shipment_count)
    ∷ ("paymentMethod", text (payment_method_name dto.payment_method))
    ∷ ("paidAt", at now)
    ∷ optional_text "paymentReference" dto.payment_reference)

module _ (draws : ℕ → ℕ) where
  -- `SettlementService.createDraft`
  unfoldable pub create_draft :
      (ℕ → ℕ) → ℕ → String → CreateSettlement → SettlementContext → Tx FinanceStore Settlement
  create_draft date_of tenant_id code dto ctx = do
    rows ← gets (settleable_rows date_of tenant_id dto)
    throw_if (is_nil rows) (business_rule nothing_to_settle)
    throw_if (ltb_ℤ (gross_of rows) (or_else dto.delivery_fees_minor (pos 0)))
        (business_rule settlement_fees_exceed_gross)
    drawn ← draw draws
    let row = draft_row drawn tenant_id code dto ctx rows
    modify (λ s. record s { settlements = s.settlements ++ row ∷ [] })
    insert_settlement_shipments tenant_id drawn rows
    pure row

  -- `settlement.approved`
  unfoldable pub publish_approved :
      ℕ → ℕ → SettlementContext → Settlement → Tx FinanceStore (Unit {0})
  publish_approved tenant_id now ctx row = publish_event draws tenant_id (
      event_of "settlement.approved" "settlement" row.id now (
        ("settlementId", id row.id)
        ∷ ("code", text row.code)
        ∷ ("merchantId", id row.merchant_id)
        ∷ ("netPayableMinor", minor row.net_payable_minor)
        ∷ ("currency", id row.currency)
        ∷ ("approvedByUserId", id ctx.actor_user_id)
        ∷ ("occurredAt", at now)
        ∷ []))

  -- `SettlementService.approve`
  unfoldable pub approve : ℕ → ℕ → ℕ → SettlementContext → Tx FinanceStore Settlement
  approve tenant_id now sid ctx = do
    x ← load_settlement sid
    throw_if (not (same_settlement_status x.status draft)) (conflict settlement_not_draft)
    throw_if (not (is_approver ctx.role)) forbidden
    throw_if (ctx.actor_user_id == x.created_by_user_id) forbidden
    row ← update_settlement sid (approve_row now ctx)
    publish_approved tenant_id now ctx row
    pure row

  unfoldable pub publish_paid :
      ℕ → ℕ → MarkSettlementPaid → Settlement → Settlement → ℕ → Tx FinanceStore (Unit {0})
  publish_paid tenant_id now dto x row exponent =
      publish_event draws tenant_id (paid_event now dto x row exponent)

  -- `SettlementService.markPaid`
  unfoldable pub mark_paid :
      ℕ → ℕ → ℕ → MarkSettlementPaid → SettlementContext → Tx FinanceStore Settlement
  mark_paid tenant_id now sid dto ctx = do
    x ← load_settlement sid
    throw_if (not (same_settlement_status x.status approved)) (conflict settlement_not_approved)
    post draws now (payout_input tenant_id x ctx)
    row ← update_settlement sid (paid_row now dto)
    exponent ← exponent_of x.currency
    publish_paid tenant_id now dto x row exponent
    pure row

-- `SettlementService.cancel`
unfoldable pub cancel : ℕ → Tx FinanceStore Settlement
cancel sid = do
  x ← load_settlement sid
  throw_if
      (not (same_settlement_status x.status draft)
        && not (same_settlement_status x.status approved))
      (conflict settlement_not_cancellable)
  modify (λ s. record s {
    settlement_shipments = keep (λ l. not (l.settlement_id == sid)) s.settlement_shipments;
  })
  update_settlement sid (λ row. record row { status = cancelled })
