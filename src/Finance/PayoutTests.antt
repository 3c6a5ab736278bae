-- ===== src/Finance/PayoutTests.antt =====
-- A draft, an approval, a payment and a cancellation on small tables.
use system_delivery.Prelude.{◌==◌, ◌≡◌, refl, true, false, none, some, [], ◌∷◌, arith, find, All}
use system_delivery.Prelude.Int.{pos, ◌+ℤ◌}
use system_delivery.Prelude.Tx.{ok, err, business_rule, nothing_to_settle}
use system_delivery.Platform.Outbox.{publish}
use system_delivery.Finance.Ledger.{merchant, merchant_payable, credit, cod_collected}
use system_delivery.Finance.LedgerService.{account_where}
use system_delivery.Finance.Store.{FinanceStore, Settlement, draft, paid, cancelled, publish_event}
use system_delivery.Finance.Released.{cancel_frees}
use system_delivery.Finance.Books.{IsSound}
use system_delivery.Finance.Settlement.{
  bank_transfer, SettlementContext, CreateSettlement, MarkSettlementPaid, finance, is_approver,
  same_settlement_status, settleable, settleable_rows, draft_row, insert_links,
  insert_settlement_shipments, load_settlement, update_settlement, approve_row, create_draft,
  publish_approved, approve, mark_paid, cancel,
}
use system_delivery.Finance.Payout.{IsPaidOut, IsPayable, approve_separate, mark_paid_pays}
use system_delivery.Finance.Covered.{IsUnique, create_draft_once, create_draft-IsPayable}
use system_delivery.Finance.TestTables.{
  draws, draws_injective, settled, drafted, tables, tables-IsSound, tables_of,
}

settled-IsPayable : IsPayable settled
unfolding ◌+ℤ◌
settled-IsPayable = record {
  gross_positive = omega arith;
  fees_nonnegative = omega arith;
  net_nonnegative = omega arith;
  adds_up = refl;
}

abbrev payment : MarkSettlementPaid
payment = record { payment_method = bank_transfer; payment_reference = none }

abbrev approver : SettlementContext
approver = record { actor_user_id = 21; role = finance }

mark_paid_pays_example :
    (row : Settlement) × (st' : FinanceStore) × (mark_paid draws 9 1000 5 payment approver tables
      ≡ ok (row, st'))
    × (find (λ y. y.id == 5) st'.settlements ≡ some row)
    × IsPaidOut 1000 payment settled row
    × IsSound draws draws_injective st'
mark_paid_pays_example =
    mark_paid_pays draws draws_injective 9 1000 5 3 payment approver tables settled tables-IsSound
      refl refl settled-IsPayable refl

approves :
    approve draws 9 1000 6 approver tables
    ≡ ok (approve_row 1000 approver drafted, tables_of (approve draws 9 1000 6 approver tables))
unfolding approve load_settlement update_settlement is_approver publish_approved publish_event
    publish approve_row
approves = refl

approve_separate_example :
    (x : Settlement) × (find (λ y. y.id == 6) tables.settlements ≡ some x)
    × (same_settlement_status x.status draft ≡ true)
    × (is_approver finance ≡ true)
    × (21 == x.created_by_user_id ≡ false)
    × (approve_row 1000 approver drafted ≡ approve_row 1000 approver x)
approve_separate_example =
    approve_separate draws 9 1000 6 approver tables
      (tables_of (approve draws 9 1000 6 approver tables)) (approve_row 1000 approver drafted)
      approves

-- 12.500 TND collected for merchant 3 on day 12.
abbrev collected : FinanceStore
collected = record tables {
  ledger = record {
    accounts =
        record {
          id = 200;
          tenant_id = 9;
          account_type = merchant_payable;
          owner_type = merchant;
          owner_id = 3;
          currency = 788;
          normal_balance = credit;
          balance_minor = pos 12500;
        }
        ∷ [];
    entries =
        record {
          tenant_id = 9;
          transaction_id = 300;
          account_id = 200;
          direction = credit;
          amount_minor = pos 12500;
          currency = 788;
          entry_type = cod_collected;
          occurred_at = 12;
          description = "";
          source_event_id = none;
          shipment_id = some 1;
          remittance_id = none;
          settlement_id = none;
          created_by = none;
        }
        ∷ [];
    drawn = 0;
  };
}

abbrev request : CreateSettlement
request = record {
  merchant_id = 3;
  period_from = 1;
  period_to = 30;
  currency = 788;
  delivery_fees_minor = some (pos 500);
}

abbrev clerk : SettlementContext
clerk = record { actor_user_id = 20; role = finance }

abbrev after_draft : FinanceStore
after_draft = tables_of (create_draft draws (λ t. t) 9 "ST-7" request clerk collected)

drafts :
    create_draft draws (λ t. t) 9 "ST-7" request clerk collected
    ≡ ok (draft_row 100 9 "ST-7" request clerk ((1, pos 12500) ∷ []), after_draft)
unfolding create_draft settleable_rows settleable account_where insert_settlement_shipments
    insert_links ◌+ℤ◌
drafts = refl

create_draft_once_example :
    IsUnique after_draft.settlement_shipments
    × (create_draft draws (λ t. t) 9 "ST-8" request clerk after_draft
        ≡ err (business_rule nothing_to_settle))
create_draft_once_example =
    create_draft_once draws (λ t. t) 9 "ST-7" "ST-8" request clerk clerk collected after_draft
      (draft_row 100 9 "ST-7" request clerk ((1, pos 12500) ∷ [])) tt drafts

create_draft-IsPayable_example :
    IsPayable (draft_row 100 9 "ST-7" request clerk ((1, pos 12500) ∷ []))
create_draft-IsPayable_example =
    create_draft-IsPayable draws (λ t. t) 9 "ST-7" request clerk collected after_draft
      (draft_row 100 9 "ST-7" request clerk ((1, pos 12500) ∷ [])) (omega arith, tt) (omega arith)
      drafts

-- Shipment 1 in the settlement to be cancelled, shipment 2 in the other.
abbrev linked : FinanceStore
linked = record tables {
  settlement_shipments =
      record { tenant_id = 9; settlement_id = 5; shipment_id = 1; amount_minor = pos 12500 }
      ∷ record { tenant_id = 9; settlement_id = 6; shipment_id = 2; amount_minor = pos 900 }
      ∷ [];
}

linked-IsUnique : IsUnique linked.settlement_shipments
linked-IsUnique = (refl, (refl, tt))

cancels : cancel 5 linked ≡ ok (record settled { status = cancelled }, tables_of (cancel 5 linked))
unfolding cancel load_settlement update_settlement
cancels = refl

cancel_frees_example :
    (x : Settlement) × (find (λ y. y.id == 5) linked.settlements ≡ some x)
    × (same_settlement_status x.status paid ≡ false)
    × (record settled { status = cancelled } ≡ record x { status = cancelled })
    × All (λ l. l.settlement_id == 5 ≡ false) (tables_of (cancel 5 linked)).settlement_shipments
    × IsUnique (tables_of (cancel 5 linked)).settlement_shipments
cancel_frees_example =
    cancel_frees 5 linked (tables_of (cancel 5 linked)) (record settled { status = cancelled })
      linked-IsUnique cancels
