-- ===== src/Finance/LedgerEvents.antt =====
-- apps/api/src/modules/finance/application/ledger-event.handler.ts. A payload is what its
-- narrowing functions (`uuidOf`, `strOf`, `bigintOf`) make of it: `none` is their null.
use text.Mathlib.Text.{◌==◌ as str_eq}
use system_delivery.Prelude.{ℕ, Option, none, some, List, [], ◌∷◌, String, if◌then◌else◌}
use system_delivery.Prelude.Int.{ℤ, pos, leb_ℤ}
use system_delivery.Prelude.Tx.{Result, ok, err, business_rule, cod_event_malformed}
use system_delivery.Finance.Ledger.{
  driver_cash, merchant_payable, driver, merchant, tenant, debit, credit, cod_collected,
}
use system_delivery.Finance.LedgerService.{
  AccountRef, PostingLine, PostTransactionInput, Ledger, post_transaction, has_posted_for_event,
}

pub record ConsumedEvent : Type 0 where
  pub event_id : ℕ
  pub tenant_id : ℕ
  pub event_type : String
  pub occurred_at : ℕ
  pub driver_id : Option ℕ
  pub currency : Option ℕ
  pub amount_minor : Option ℤ
  pub merchant_id : Option ℕ
  pub shipment_id : Option ℕ

unfoldable pub credit_account : ConsumedEvent → AccountRef
credit_account event = elim event.merchant_id [
  | none ↦ record {
    owner_type = tenant;
    owner_id = event.tenant_id;
    account_type = merchant_payable;
  }
  | some merchant_id ↦ record {
    owner_type = merchant;
    owner_id = merchant_id;
    account_type = merchant_payable;
  }
]

-- DEBIT driver_cash, CREDIT merchant_payable.
unfoldable pub collection_lines : ConsumedEvent → ℕ → ℤ → List PostingLine
collection_lines event driver_id amount_minor =
    record {
      account = record { owner_type = driver; owner_id = driver_id; account_type = driver_cash };
      direction = debit;
      amount_minor = amount_minor;
    }
    ∷ record { account = credit_account event; direction = credit; amount_minor = amount_minor }
    ∷ []

abbrev pub collection_input : ConsumedEvent → ℕ → ℕ → ℤ → PostTransactionInput
collection_input event driver_id currency amount_minor = record {
  tenant_id = event.tenant_id;
  entry_type = cod_collected;
  currency = currency;
  lines = collection_lines event driver_id amount_minor;
  occurred_at = some event.occurred_at;
  description = some "COD collected on delivery";
  source_event_id = some event.event_id;
  shipment_id = event.shipment_id;
  remittance_id = none;
  settlement_id = none;
  created_by_user_id = none;
}

-- The driver, currency and amount, or null where the producer left one out or the amount is not
-- positive.
unfoldable pub collection_of : ConsumedEvent → Option (ℕ × ℕ × ℤ)
collection_of event = elim event.driver_id [
  | none ↦ none
  | some driver_id ↦ elim event.currency [
    | none ↦ none
    | some currency ↦ elim event.amount_minor [
      | none ↦ none
      | some amount ↦ if leb_ℤ amount (pos 0) then none else some (driver_id, currency, amount)
    ]
  ]
]

module _ (uuid : ℕ → ℕ) where
  -- The transaction of `handle`: the posting, unless the event was posted before.
  unfoldable pub post_collection :
      ℕ → ConsumedEvent → ℕ × ℕ × ℤ → Ledger → Result (Unit {0} × Ledger)
  post_collection now event (driver_id, currency, amount) st =
      if has_posted_for_event event.tenant_id event.event_id st
      then ok (tt, st)
      else elim (post_transaction uuid now (collection_input event driver_id currency amount) st) [
        | err e ↦ err e
        | ok (_, st') ↦ ok (tt, st')
      ]

  -- `LedgerEventHandler.handle`
  unfoldable pub handle : ℕ → ConsumedEvent → Ledger → Result (Unit {0} × Ledger)
  handle now event st =
      if str_eq event.event_type "cod.collected"
      then elim (collection_of event) [
        | none ↦ err (business_rule cod_event_malformed)
        | some c ↦ post_collection now event c st
      ]
      else ok (tt, st)
