-- ===== src/Finance/Books.antt =====
-- The calls that the finance workflows share keep the books sound.
use system_delivery.Prelude.{ℕ, ◌+◌, ◌≡◌, inl, inr, none, arith}
use mathlib.Core.Path.{subst}
use system_delivery.Prelude.Tx.{Result-cases, Tx, ok}
use system_delivery.Prelude.Tx.{throw_if, DomainError}
use system_delivery.Prelude.{Bool, true, false, [], ◌∷◌, ◌++◌}
use system_delivery.Platform.Outbox.{
  DomainEventInput, publish, publish_lem, outbox_row, is_valid_event_type,
}
use system_delivery.Finance.LedgerService.{PostTransactionInput, Ledger, post_transaction}
use system_delivery.Finance.Reconciled.{IsReconciled}
use system_delivery.Finance.Posting.{draw-IsReconciled, post_transaction_balanced}
use system_delivery.Finance.Balanced.{IsBalanced}
use system_delivery.Finance.TrialBalance.{IsZeroSum, post_transaction_sound}
use system_delivery.Finance.Store.{FinanceStore, exponent_of, draw, publish_event, post}

-- Every successful run from a state with `P` ends in a state with `P`.
abbrev pub Keeps : {A : Type 0} → (FinanceStore → Type 0) → Tx FinanceStore A → Type 0
Keeps {A} P m = (s s' : FinanceStore) (a : A) → P s → m s ≡ ok (a, s') → P s'

-- A guard that lets the call go on has not changed anything.
pub throw_if_lem :
    (b : Bool) (e : DomainError) (s s' : FinanceStore)
    → throw_if b e s ≡ ok (tt, s')
    → (s ≡ s') × (b ≡ false)
throw_if_lem b e s s' h = ground arith

module _ (draws : ℕ → ℕ) (draws_injective : (m n : ℕ) → draws m ≡ draws n → m ≡ n) where
  -- Every cached balance is the sum of its entries, and every currency's books are at zero.
  pub record IsSound (st : FinanceStore) : Type 0 where
    pub reconciled : IsReconciled draws draws_injective st.ledger
    pub zero_sum : IsZeroSum st.ledger.entries

  pub post-IsSound : (now : ℕ) (input : PostTransactionInput) → Keeps IsSound (post draws now input)
  unfolding post
  post-IsSound now input s s' a p h =
      elim (Result-cases (post_transaction draws now input s.ledger)) [
        | inr (x, e) ↦ cc (rw (e, post) at h)
        | inl ((t, ledger'), e) ↦
            let (r, z) =
              post_transaction_sound draws draws_injective now input s.ledger ledger' t p.reconciled
                p.zero_sum e in
            let same : record s { ledger = ledger' } ≡ s' = cc (rw (e, post) at h) in
            subst IsSound same (record { reconciled = r; zero_sum = z })
      ]

  drawn-IsSound :
      (s : FinanceStore)
      → IsSound s
      → IsReconciled draws draws_injective (record (s.ledger) { drawn = s.ledger.drawn + 1 })
  drawn-IsSound s p = draw-IsReconciled draws draws_injective s.ledger p.reconciled

  pub draw-IsSound : Keeps IsSound (draw draws)
  draw-IsSound s s' a p h =
      let same : record s { ledger = record (s.ledger) { drawn = s.ledger.drawn + 1 } } ≡ s' = cc in
      subst IsSound same (record { reconciled = drawn-IsSound s p; zero_sum = p.zero_sum })

  pub publish_event-IsSound :
      (tenant_id : ℕ) (event : DomainEventInput)
      → Keeps IsSound (publish_event draws tenant_id event)
  unfolding publish_event
  publish_event-IsSound tenant_id event s s' a p h =
      elim (Result-cases (publish tenant_id (draws s.ledger.drawn) event s.outbox)) [
        | inr (x, e) ↦ cc (rw (e, publish_event) at h)
        | inl (outbox', e) ↦
            let same : record s {
              outbox = outbox';
              ledger = record (s.ledger) { drawn = s.ledger.drawn + 1 };
            }
                ≡ s' =
              cc (rw (e, publish_event) at h) in
            subst IsSound same (record { reconciled = drawn-IsSound s p; zero_sum = p.zero_sum })
      ]

  pub exponent_of-IsSound : (code : ℕ) → Keeps IsSound (exponent_of code)
  unfolding exponent_of
  exponent_of-IsSound code s s' a p h = let same : s ≡ s' = ground arith in subst IsSound same p

-- A posting, a publication and a lookup of a currency leave the tables of the workflows alone.
pub record SameTables (s s' : FinanceStore) : Type 0 where
  pub remittances : s'.remittances ≡ s.remittances
  pub settlements : s'.settlements ≡ s.settlements
  pub settlement_shipments : s'.settlement_shipments ≡ s.settlement_shipments

module _ (draws : ℕ → ℕ) where
  pub post-SameTables :
      (now : ℕ) (input : PostTransactionInput) (s s' : FinanceStore) (t : ℕ)
      → post draws now input s ≡ ok (t, s')
      → SameTables s s'
  unfolding post
  post-SameTables now input s s' t h = ground arith

  pub publish_event-SameTables :
      (tenant_id : ℕ) (event : DomainEventInput) (s s' : FinanceStore)
      → publish_event draws tenant_id event s ≡ ok (tt, s')
      → SameTables s s'
  unfolding publish_event
  publish_event-SameTables tenant_id event s s' h = ground arith

pub exponent_of-SameTables :
    (code exponent : ℕ) (s s' : FinanceStore)
    → exponent_of code s ≡ ok (exponent, s')
    → SameTables s s'
unfolding exponent_of
exponent_of-SameTables code exponent s s' h = ground arith

module _ (draws : ℕ → ℕ) (draws_injective : (m n : ℕ) → draws m ≡ draws n → m ≡ n) where
  -- A balanced posting for no event returns, and touches the ledger alone.
  pub post-ok :
      (now : ℕ) (input : PostTransactionInput) (s : FinanceStore)
      → IsSound draws draws_injective s
      → IsBalanced input.lines
      → input.source_event_id ≡ none
      → (ledger : Ledger) × (post draws now input s
          ≡ ok (draws s.ledger.drawn, record s { ledger = ledger }))
  unfolding post
  post-ok now input s p balanced no_event =
      let (es, ledger, posts, kept, more, posted) =
        post_transaction_balanced draws draws_injective now input s.ledger p.reconciled balanced
          (inl no_event) in
      (ledger, rw (posts, post))

-- An event with a valid name is published, and touches the outbox alone but for the drawn id.
pub publish_event-ok :
    (draws : ℕ → ℕ) (tenant_id : ℕ) (event : DomainEventInput) (s : FinanceStore)
    → is_valid_event_type event.event_type ≡ true
    → (s' : FinanceStore) × (publish_event draws tenant_id event s ≡ ok (tt, s'))
unfolding publish_event
publish_event-ok draws tenant_id event s valid = (
  record s {
    outbox = s.outbox ++ outbox_row tenant_id (draws s.ledger.drawn) event ∷ [];
    ledger = record (s.ledger) { drawn = s.ledger.drawn + 1 };
  },
  rw (publish_lem tenant_id (draws s.ledger.drawn) event s.outbox valid, publish_event),
)
