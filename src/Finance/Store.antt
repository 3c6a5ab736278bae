-- ===== src/Finance/Store.antt =====
-- The tables that the workflows of apps/api/src/modules/finance/application share, and the calls
-- that they make in one transaction: a ledger posting, an outbox row, a currency's exponent
-- (shared/money/currency.service.ts, without its cache). `draws` gives the ids that the database
-- draws, by the number drawn before.
use system_delivery.Prelude.{ℕ, ◌+◌, ◌==◌, Option, none, some, List, [], ◌∷◌, String, find}
use system_delivery.Prelude.Int.{ℤ}
use system_delivery.Prelude.Tx.{Tx, ok, err, not_found, currency_code}
use system_delivery.Platform.Outbox.{DomainEventInput, OutboxRow, Payload, text, publish}
use system_delivery.Finance.LedgerService.{Ledger, PostTransactionInput, post_transaction}

pub data RemittanceStatus : Type 0 where
  submitted confirmed disputed resolved : RemittanceStatus

pub record CodRemittance : Type 0 where
  pub id : ℕ
  pub tenant_id : ℕ
  pub code : String
  pub driver_id : ℕ
  pub hub_id : ℕ
  pub received_by_user_id : Option ℕ
  pub status : RemittanceStatus
  pub expected_amount_minor : ℤ
  pub declared_amount_minor : ℤ
  pub counted_amount_minor : Option ℤ
  pub variance_minor : ℤ
  pub currency : ℕ
  pub shipment_ids : List ℕ
  pub variance_reason : Option String
  pub notes : Option String
  pub submitted_at : Option ℕ
  pub confirmed_at : Option ℕ

pub data SettlementStatus : Type 0 where
  draft approved paid cancelled : SettlementStatus

pub record Settlement : Type 0 where
  pub id : ℕ
  pub tenant_id : ℕ
  pub merchant_id : ℕ
  pub code : String
  pub status : SettlementStatus
  pub period_from : ℕ
  pub period_to : ℕ
  pub gross_cod_amount_minor : ℤ
  pub delivery_fees_minor : ℤ
  pub adjustments_minor : ℤ
  pub net_payable_minor : ℤ
  pub currency : ℕ
  pub shipment_count : ℕ
  pub payment_method : Option String
  pub payment_reference : Option String
  pub created_by_user_id : ℕ
  pub approved_by_user_id : Option ℕ
  pub approved_at : Option ℕ
  pub paid_at : Option ℕ

pub record SettlementShipment : Type 0 where
  pub tenant_id : ℕ
  pub settlement_id : ℕ
  pub shipment_id : ℕ
  pub amount_minor : ℤ

pub record FinanceStore : Type 0 where
  pub ledger : Ledger
  pub remittances : List CodRemittance
  pub settlements : List Settlement
  pub settlement_shipments : List SettlementShipment
  pub outbox : List OutboxRow
  -- `currencies`: code and exponent.
  pub currencies : List (ℕ × ℕ)
  -- `drivers`: id and user.
  pub drivers : List (ℕ × ℕ)

-- `CurrencyService.exponentOf`
unfoldable pub exponent_of : ℕ → Tx FinanceStore ℕ
exponent_of code st = elim (find (λ c. c.0 == code) st.currencies) [
  | none ↦ err (not_found currency_code)
  | some (_, exponent) ↦ ok (exponent, st)
]

module _ (draws : ℕ → ℕ) where
  -- An id drawn by the database.
  abbrev pub draw : Tx FinanceStore ℕ
  draw st = ok (
    draws st.ledger.drawn,
    record st { ledger = record (st.ledger) { drawn = st.ledger.drawn + 1 } },
  )

  -- `this.outbox.publish(tx, …)`
  unfoldable pub publish_event : ℕ → DomainEventInput → Tx FinanceStore (Unit {0})
  publish_event tenant_id event st =
      elim (publish tenant_id (draws st.ledger.drawn) event st.outbox) [
        | err e ↦ err e
        | ok outbox' ↦ ok (
          tt,
          record st {
            outbox = outbox';
            ledger = record (st.ledger) { drawn = st.ledger.drawn + 1 };
          },
        )
      ]

  -- `this.ledger.postTransaction(tx, …)`
  unfoldable pub post : ℕ → PostTransactionInput → Tx FinanceStore ℕ
  post now input st = elim (post_transaction draws now input st.ledger) [
    | err e ↦ err e
    | ok (id, ledger') ↦ ok (id, record st { ledger = ledger' })
  ]

-- A field that is present only if it has a value: `...(x === undefined ? {} : { x })`.
abbrev pub optional_text : String → Option String → Payload
optional_text key none = []
optional_text key (some v) = (key, text v) ∷ []

-- The envelope of an event of these workflows.
abbrev pub event_of : String → String → ℕ → ℕ → Payload → DomainEventInput
event_of event_type aggregate_type aggregate_id now payload = record {
  event_type = event_type;
  aggregate_type = aggregate_type;
  aggregate_id = aggregate_id;
  payload = payload;
  event_version = none;
  occurred_at = some now;
  correlation_id = none;
  causation_id = none;
}
