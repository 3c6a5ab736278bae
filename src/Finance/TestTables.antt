-- ===== src/Finance/TestTables.antt =====
-- Small tables for the tests of the workflows.
use system_delivery.Prelude.{ℕ, ◌+◌, ◌≡◌, refl, none, some, [], ◌∷◌, arith}
use system_delivery.Prelude.Int.{pos}
use system_delivery.Prelude.Tx.{Result, ok, err}
use system_delivery.Finance.LedgerService.{Ledger}
use system_delivery.Finance.Reconciled.{IsReconciled}
use system_delivery.Finance.Store.{
  FinanceStore, CodRemittance, Settlement, submitted, draft, approved,
}
use system_delivery.Finance.Books.{IsSound}

abbrev pub draws : ℕ → ℕ
draws n = 100 + n

pub draws_injective : (m n : ℕ) → draws m ≡ draws n → m ≡ n
draws_injective m n e = omega arith

abbrev pub empty : Ledger
empty = record { accounts = []; entries = []; drawn = 0 }

-- Driver 7 hands 12.500 TND over to hub 4.
abbrev pub handed_over : CodRemittance
handed_over = record {
  id = 1;
  tenant_id = 9;
  code = "RM-1";
  driver_id = 7;
  hub_id = 4;
  received_by_user_id = none;
  status = submitted;
  expected_amount_minor = pos 12500;
  declared_amount_minor = pos 12500;
  counted_amount_minor = none;
  variance_minor = pos 0;
  currency = 788;
  shipment_ids = [];
  variance_reason = none;
  notes = none;
  submitted_at = some 900;
  confirmed_at = none;
}

-- Merchant 3 is owed 12.500 TND, of which 0.500 are fees.
abbrev pub settled : Settlement
settled = record {
  id = 5;
  tenant_id = 9;
  merchant_id = 3;
  code = "ST-5";
  status = approved;
  period_from = 1;
  period_to = 30;
  gross_cod_amount_minor = pos 12500;
  delivery_fees_minor = pos 500;
  adjustments_minor = pos 0;
  net_payable_minor = pos 12000;
  currency = 788;
  shipment_count = 1;
  payment_method = none;
  payment_reference = none;
  created_by_user_id = 20;
  approved_by_user_id = some 21;
  approved_at = some 40;
  paid_at = none;
}

abbrev pub drafted : Settlement
drafted = record settled { id = 6; status = draft; approved_by_user_id = none; approved_at = none }

abbrev pub tables : FinanceStore
tables = record {
  ledger = empty;
  remittances = handed_over ∷ [];
  settlements = settled ∷ drafted ∷ [];
  settlement_shipments = [];
  outbox = [];
  currencies = (788, 3) ∷ [];
  drivers = (7, 40) ∷ [];
}

empty-IsReconciled : IsReconciled draws draws_injective empty
empty-IsReconciled = record { cached = tt; accounts_drawn = tt; entries_drawn = tt; distinct = tt }

pub tables-IsSound : IsSound draws draws_injective tables
tables-IsSound = record { reconciled = empty-IsReconciled; zero_sum = λ c. refl }

abbrev pub tables_of : {A : Type 0} → Result (A × FinanceStore) → FinanceStore
tables_of (ok (a, st)) = st
tables_of (err e) = tables
