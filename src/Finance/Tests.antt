-- ===== src/Finance/Tests.antt =====
-- A collection and its redelivery on an empty ledger, and the theorems at these inputs.
use system_delivery.Prelude.{ℕ, ◌+◌, ◌≡◌, refl, ◌↔◌, inr, true, some, List, [], ◌++◌, arith}
use system_delivery.Prelude.Int.{pos, ◌+ℤ◌}
use system_delivery.Prelude.Tx.{Result, ok, err}
use system_delivery.Finance.LedgerService.{
  PostTransactionInput, LedgerEntry, Ledger, assert_balanced, sum_lines, ensure_account,
  account_where, post_line, post_lines, post_transaction, has_posted_for_event,
}
use system_delivery.Finance.Balanced.{IsBalanced, assert_balanced_iff}
use system_delivery.Finance.Reconciled.{IsReconciled}
use system_delivery.Finance.OnAccounts.{IsBooked, StillAt, post_transaction_books}
use system_delivery.Finance.Posting.{post_transaction_balanced}
use system_delivery.Finance.TrialBalance.{IsZeroSum, post_transaction_sound}
use system_delivery.Finance.LedgerEvents.{
  ConsumedEvent, collection_lines, collection_input, collection_of, credit_account, post_collection,
  handle,
}
use system_delivery.Finance.Collected.{IsCollected, handle_posts}
use system_delivery.Finance.Redelivery.{handle_redelivered}

-- The database's draws, as a sequence without repetition.
abbrev draws : ℕ → ℕ
draws n = 100 + n

draws_injective : (m n : ℕ) → draws m ≡ draws n → m ≡ n
draws_injective m n e = omega arith

abbrev empty : Ledger
empty = record { accounts = []; entries = []; drawn = 0 }

empty-IsReconciled : IsReconciled draws draws_injective empty
empty-IsReconciled = record { cached = tt; accounts_drawn = tt; entries_drawn = tt; distinct = tt }

-- 12.500 TND collected by driver 7 for merchant 3.
abbrev collection : ConsumedEvent
collection = record {
  event_id = 55;
  tenant_id = 9;
  event_type = "cod.collected";
  occurred_at = 1000;
  driver_id = some 7;
  currency = some 788;
  amount_minor = some (pos 12500);
  merchant_id = some 3;
  shipment_id = some 1;
}

abbrev input : PostTransactionInput
input = collection_input collection 7 788 (pos 12500)

balanced : IsBalanced input.lines
unfolding collection_lines ◌+ℤ◌
balanced = record { two_lines = omega arith; positive = omega arith; equal = refl }

-- The ledger after the collection.
abbrev state_of : Result (ℕ × Ledger) → Ledger
state_of (ok (t, st)) = st
state_of (err e) = empty

posts :
    post_transaction draws 0 input empty ≡ ok (100, state_of (post_transaction draws 0 input empty))
unfolding post_transaction assert_balanced sum_lines post_lines post_line ensure_account
    account_where collection_lines credit_account ◌+ℤ◌
posts = refl

assert_balanced_iff_example : (assert_balanced input.lines ≡ ok tt) ↔ IsBalanced input.lines
assert_balanced_iff_example = assert_balanced_iff input.lines

post_transaction_balanced_example :
    (es : List LedgerEntry) × (st' : Ledger) × (post_transaction draws 0 input empty
      ≡ ok (100, st'))
    × IsReconciled draws draws_injective st'
    × (st'.entries ≡ [] ++ es)
    × IsBooked input 100 1000 st'.accounts input.lines es
unfolding has_posted_for_event collection_lines
post_transaction_balanced_example =
    post_transaction_balanced draws draws_injective 0 input empty empty-IsReconciled balanced
      (inr (55, refl, refl, ((refl, tt), (tt, tt))))

post_transaction_books_example :
    let st' = state_of (post_transaction draws 0 input empty) in
    (es : List LedgerEntry) × (st'.entries ≡ [] ++ es)
    × IsBooked input 100 1000 st'.accounts input.lines es
    × StillAt [] st'.accounts
post_transaction_books_example =
    post_transaction_books draws 0 input empty (state_of (post_transaction draws 0 input empty)) 100
      posts

post_transaction_sound_example :
    let st' = state_of (post_transaction draws 0 input empty) in
    IsReconciled draws draws_injective st' × IsZeroSum st'.entries
post_transaction_sound_example =
    post_transaction_sound draws draws_injective 0 input empty
      (state_of (post_transaction draws 0 input empty)) 100 empty-IsReconciled (λ c. refl) posts

handled : handle draws 0 collection empty ≡ ok (tt, state_of (post_transaction draws 0 input empty))
unfolding handle collection_of post_collection has_posted_for_event post_transaction assert_balanced
    sum_lines post_lines post_line ensure_account account_where collection_lines credit_account ◌+ℤ◌
handled = refl

handle_posts_example :
    (st' : Ledger) × (handle draws 0 collection empty ≡ ok (tt, st'))
    × IsCollected collection 7 788 (pos 12500) empty st'
    × IsReconciled draws draws_injective st'
    × (has_posted_for_event 9 55 st' ≡ true)
unfolding has_posted_for_event
handle_posts_example =
    handle_posts draws draws_injective 0 collection 7 788 (pos 12500) empty empty-IsReconciled refl
      refl refl refl refl refl

handle_redelivered_example :
    let st' = state_of (post_transaction draws 0 input empty) in
    handle draws 5 collection st' ≡ ok (tt, st')
handle_redelivered_example =
    handle_redelivered draws draws_injective 0 5 collection empty
      (state_of (post_transaction draws 0 input empty)) empty-IsReconciled handled
