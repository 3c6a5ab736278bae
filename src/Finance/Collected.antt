-- ===== src/Finance/Collected.antt =====
-- ledger-event.handler.ts: the first delivery of a `cod.collected` event is posted.
use text.Mathlib.Text.{◌==◌ as str_eq}
use system_delivery.Prelude.{◌≡◌, ℕ, refl, inr, true, false, some, List, [], ◌∷◌, ◌++◌, arith}
use system_delivery.Prelude.Int.{ℤ, pos, leb_ℤ, ◌<ℤ◌, ◌+ℤ◌, int_laws}
use system_delivery.Prelude.Tx.{ok}
use system_delivery.Finance.Ledger.{Direction, debit, credit, driver, driver_cash}
use system_delivery.Finance.LedgerService.{AccountRef, LedgerEntry, Ledger, has_posted_for_event}
use system_delivery.Finance.Balanced.{IsBalanced}
use system_delivery.Finance.Reconciled.{IsReconciled}
use system_delivery.Finance.OnAccounts.{IsAt, IsBooked}
use system_delivery.Finance.SourceEvents.{OneEachSide}
use system_delivery.Finance.Posting.{post_transaction_balanced}
use system_delivery.Finance.Redelivery.{post_transaction-has_posted}
use system_delivery.Finance.LedgerEvents.{
  ConsumedEvent, credit_account, collection_lines, collection_input, collection_of, post_collection,
  handle,
}

-- An entry for a collection: its side and amount, on the account that is found for the owner.
pub record IsSide (event : ConsumedEvent) (currency : ℕ) (ref : AccountRef) (side : Direction)
    (amount : ℤ) (st : Ledger) (e : LedgerEntry) : Type 0 where
  pub account : IsAt event.tenant_id currency ref st.accounts e.account_id
  pub on_side : e.direction ≡ side
  pub amount_is : e.amount_minor ≡ amount
  pub for_event : e.source_event_id ≡ some event.event_id
  pub for_shipment : e.shipment_id ≡ event.shipment_id
  pub at_delivery : e.occurred_at ≡ event.occurred_at

-- The two entries of a collection, appended to what the ledger held.
pub record IsCollected (event : ConsumedEvent) (driver_id currency : ℕ) (amount : ℤ)
    (st st' : Ledger) : Type 0 where
  pub taken : LedgerEntry
  pub owed : LedgerEntry
  pub appended : st'.entries ≡ st.entries ++ taken ∷ owed ∷ []
  pub by_driver :
      IsSide event currency
        (record { owner_type = driver; owner_id = driver_id; account_type = driver_cash })
        debit
        amount
        st'
        taken
  pub to_merchant : IsSide event currency (credit_account event) credit amount st' owed

IsBooked-IsCollected :
    (event : ConsumedEvent) (driver_id currency : ℕ) (amount : ℤ) (t : ℕ) (es : List LedgerEntry)
    (st st' : Ledger)
    → st'.entries ≡ st.entries ++ es
    → IsBooked
        (collection_input event driver_id currency amount)
        t
        event.occurred_at
        st'.accounts
        (collection_lines event driver_id amount)
        es
    → IsCollected event driver_id currency amount st st'
unfolding collection_lines
IsBooked-IsCollected event driver_id currency amount t [] st st' more b = absurd b
IsBooked-IsCollected event driver_id currency amount t (e ∷ []) st st' more b = absurd b.2
IsBooked-IsCollected event driver_id currency amount t (e ∷ e' ∷ x ∷ es) st st' more b =
    absurd b.2.2
IsBooked-IsCollected event driver_id currency amount t (e ∷ e' ∷ []) st st' more b = record {
  taken = e;
  owed = e';
  appended = more;
  by_driver = record {
    account = b.1;
    on_side = b.0.side;
    amount_is = b.0.amount;
    for_event = b.0.source;
    for_shipment = b.0.subjects.0;
    at_delivery = b.0.at_instant;
  };
  to_merchant = record {
    account = b.2.1;
    on_side = b.2.0.side;
    amount_is = b.2.0.amount;
    for_event = b.2.0.source;
    for_shipment = b.2.0.subjects.0;
    at_delivery = b.2.0.at_instant;
  };
}

both_sides : (a : ℤ) → a +ℤ (pos 0 +ℤ pos 0) ≡ pos 0 +ℤ (a +ℤ pos 0)
both_sides a = omega int_laws

above_zero : (a : ℤ) → leb_ℤ a (pos 0) ≡ false → pos 0 <ℤ a
above_zero a h = ground arith

collection-IsBalanced :
    (event : ConsumedEvent) (driver_id : ℕ) (amount : ℤ)
    → leb_ℤ amount (pos 0) ≡ false
    → IsBalanced (collection_lines event driver_id amount)
unfolding collection_lines
collection-IsBalanced event driver_id amount h = record {
  two_lines = omega arith;
  positive = (above_zero amount h, (above_zero amount h, tt));
  equal = both_sides amount;
}

collection-OneEachSide :
    (event : ConsumedEvent) (driver_id : ℕ) (amount : ℤ)
    → OneEachSide (collection_lines event driver_id amount)
unfolding collection_lines
collection-OneEachSide event driver_id amount = ((refl, tt), (tt, tt))

collection_of_lem :
    (event : ConsumedEvent) (driver_id currency : ℕ) (amount : ℤ)
    → event.driver_id ≡ some driver_id
    → event.currency ≡ some currency
    → event.amount_minor ≡ some amount
    → leb_ℤ amount (pos 0) ≡ false
    → collection_of event ≡ some (driver_id, currency, amount)
unfolding collection_of
collection_of_lem event driver_id currency amount d c a positive =
    rw (d, c, a, collection_of) (rw positive)

module _ (uuid : ℕ → ℕ) (uuid_injective : (m n : ℕ) → uuid m ≡ uuid n → m ≡ n) where
  -- On a reconciled ledger, a `cod.collected` event that names its driver, a currency and a positive
  -- amount, and for which the tenant has no entry yet, is always posted: `handle` succeeds and
  -- appends exactly two entries of the amount for the event, a debit on the cash account of the
  -- driver and a credit on the payable account of the merchant, or of the tenant where the event
  -- names no merchant; the ledger stays reconciled, and knows the event.
  pub handle_posts :
      (now : ℕ) (event : ConsumedEvent) (driver_id currency : ℕ) (amount : ℤ) (st : Ledger)
      → IsReconciled uuid uuid_injective st
      → str_eq event.event_type "cod.collected" ≡ true
      → event.driver_id ≡ some driver_id
      → event.currency ≡ some currency
      → event.amount_minor ≡ some amount
      → leb_ℤ amount (pos 0) ≡ false
      → has_posted_for_event event.tenant_id event.event_id st ≡ false
      → (st' : Ledger) × (handle uuid now event st ≡ ok (tt, st'))
        × IsCollected event driver_id currency amount st st'
        × IsReconciled uuid uuid_injective st'
        × (has_posted_for_event event.tenant_id event.event_id st' ≡ true)
  unfolding handle post_collection
  handle_posts now event driver_id currency amount st r this d c a positive fresh =
      let input = collection_input event driver_id currency amount in
      let (es, st', posts, kept, more, booked) =
        post_transaction_balanced uuid uuid_injective now input st r
          (collection-IsBalanced event driver_id amount positive)
          (inr (event.event_id, refl, fresh, collection-OneEachSide event driver_id amount)) in
      let read = collection_of_lem event driver_id currency amount d c a positive in
      (
        st',
        rw (this, read, handle) (rw (fresh, post_collection) (rw (posts, post_collection))),
        IsBooked-IsCollected event driver_id currency amount (uuid st.drawn) es st st' more booked,
        kept,
        post_transaction-has_posted uuid uuid_injective now event.event_id input st st'
            (uuid st.drawn) r refl posts,
      )
