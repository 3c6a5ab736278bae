-- ===== src/Finance/Redelivery.antt =====
-- ledger-event.handler.ts: a redelivered `cod.collected` is a clean no-op, and a malformed one is
-- never swallowed.
use text.Mathlib.Text.{◌==◌ as str_eq}
use system_delivery.Prelude.{
  ℕ, ◌≤◌, length, ◌≡◌, refl, inl, inr, Bool, true, some, List, [], ◌∷◌, ◌++◌, ◌==◌, arith,
  Bool-cases, Option-cases, or_else, any, ◌&&◌, ==_self, is_some_of,
}
use system_delivery.Prelude.Int.{ℤ}
use system_delivery.Prelude.Tx.{Result-cases, ok}
use system_delivery.Finance.LedgerService.{
  PostTransactionInput, PostingLine, LedgerEntry, Ledger, post_transaction, has_posted_for_event,
}
use system_delivery.Finance.Reconciled.{IsReconciled}
use system_delivery.Finance.Posting.{Posted, post_transaction_ok}
use system_delivery.Finance.TrialBalance.{posted_lines-IsBalanced}
use system_delivery.Finance.LedgerEvents.{
  ConsumedEvent, collection_of, collection_input, post_collection, handle,
}

abbrev is_of : ℕ → ℕ → LedgerEntry → Bool
is_of tenant_id event_id e = e.tenant_id == tenant_id && is_some_of e.source_event_id event_id

any-append :
    (p : LedgerEntry → Bool) (xs ys : List LedgerEntry) → any p ys ≡ true → any p (xs ++ ys) ≡ true
any-append p [] ys h = h
any-append p (x ∷ xs) ys h = ground (arith, any-append p xs ys h)

-- A posting that names its source event is found by `hasPostedForEvent`.
Posted-is_found :
    (input : PostTransactionInput) (t o event_id : ℕ) (lines : List PostingLine)
    (es : List LedgerEntry)
    → 2 ≤ length lines
    → input.source_event_id ≡ some event_id
    → Posted input t o lines es
    → any (is_of input.tenant_id event_id) es ≡ true
Posted-is_found input t o event_id [] es two s h = absurd (omega arith)
Posted-is_found input t o event_id (line ∷ lines) [] two s h = absurd h
Posted-is_found input t o event_id (line ∷ lines) (e ∷ es) two s h =
    let hit : is_of input.tenant_id event_id e ≡ true =
      rw (h.0, s, ==_self input.tenant_id, ==_self event_id) refl in
    rw hit

module _ (uuid : ℕ → ℕ) (uuid_injective : (m n : ℕ) → uuid m ≡ uuid n → m ≡ n) where
  -- After a posting for an event, the ledger knows of the event.
  pub post_transaction-has_posted :
      (now event_id : ℕ) (input : PostTransactionInput) (st st' : Ledger) (t : ℕ)
      → IsReconciled uuid uuid_injective st
      → input.source_event_id ≡ some event_id
      → post_transaction uuid now input st ≡ ok (t, st')
      → has_posted_for_event input.tenant_id event_id st' ≡ true
  unfolding has_posted_for_event
  post_transaction-has_posted now event_id input st st' t h source e =
      let balanced = posted_lines-IsBalanced uuid uuid_injective now input st st' t e in
      let (es, kept, more, posted) =
        post_transaction_ok uuid uuid_injective now input st st' t h e in
      rw more (
        any-append (is_of input.tenant_id event_id) st.entries es (
          Posted-is_found input (uuid st.drawn) (or_else input.occurred_at now) event_id input.lines
            es balanced.two_lines source posted))

  -- An event that is not for this handler, or was posted before, leaves the ledger alone.
  handle_known :
      (now : ℕ) (event : ConsumedEvent) (c : ℕ × ℕ × ℤ) (st : Ledger)
      → collection_of event ≡ some c
      → has_posted_for_event event.tenant_id event.event_id st ≡ true
      → handle uuid now event st ≡ ok (tt, st)
  unfolding handle post_collection
  handle_known now event c st e known =
      elim (Bool-cases (str_eq event.event_type "cod.collected")) [
        | inl this ↦ rw (this, e, handle) (rw (known, post_collection))
        | inr other ↦ rw (other, handle)
      ]

  -- After the guarded posting of an event the ledger knows it.
  posted_known :
      (now : ℕ) (event : ConsumedEvent) (c : ℕ × ℕ × ℤ) (st st' : Ledger)
      → IsReconciled uuid uuid_injective st
      → post_collection uuid now event c st ≡ ok (tt, st')
      → has_posted_for_event event.tenant_id event.event_id st' ≡ true
  unfolding post_collection
  posted_known now event c st st' r h =
      let known = has_posted_for_event event.tenant_id event.event_id st in
      let input = collection_input event c.0 c.1 c.2 in
      elim (Bool-cases known) [
        | inl before ↦
            let same : st ≡ st' = cc (rw (before, post_collection) at h) in rw (← same) before
        | inr fresh ↦ elim (Result-cases (post_transaction uuid now input st)) [
          | inr (x, refused) ↦
              cc (rw (refused, post_collection) at (rw (fresh, post_collection) at h))
          | inl ((t, after), posts) ↦
              let same : after ≡ st' =
                cc (rw (posts, post_collection) at (rw (fresh, post_collection) at h)) in
              rw (← same)
                (post_transaction-has_posted now event.event_id input st after t r refl posts)
        ]
      ]

  -- After a successful handling on a reconciled ledger, handling the same event again, at any time,
  -- changes nothing: the cash is counted once.
  pub handle_redelivered :
      (now later : ℕ) (event : ConsumedEvent) (st st' : Ledger)
      → IsReconciled uuid uuid_injective st
      → handle uuid now event st ≡ ok (tt, st')
      → handle uuid later event st' ≡ ok (tt, st')
  unfolding handle
  handle_redelivered now later event st st' r h =
      elim (Bool-cases (str_eq event.event_type "cod.collected")) [
        | inr other ↦ rw (other, handle)
        | inl this ↦ elim (Option-cases (collection_of event)) [
          | inl missing ↦ cc (rw (missing, handle) at (rw (this, handle) at h))
          | inr (c, e) ↦
              handle_known later event c st' e
                (posted_known now event c st st' r (rw (e, handle) at (rw (this, handle) at h)))
        ]
      ]
