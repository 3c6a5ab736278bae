-- ===== src/Finance/CashMoved.antt =====
-- remittance.service.ts, `confirm`: where the counted cash goes.
use system_delivery.Prelude.{
  arith, ℕ, ◌==◌, ◌≡◌, refl, inl, inr, true, some, List, [], ◌∷◌, ◌++◌, find, ◌∙◌, or_else,
}
use system_delivery.Prelude.Int.{ℤ, pos, ltb_ℤ, ◌-ℤ◌}
use system_delivery.Prelude.Tx.{Result, Result-cases, ok, bind_ok}
use system_delivery.Platform.Outbox.{DomainEventInput}
use system_delivery.Finance.Ledger.{Direction, debit, credit}
use system_delivery.Finance.LedgerService.{
  AccountRef, PostTransactionInput, LedgerEntry, post_transaction,
}
use system_delivery.Finance.OnAccounts.{IsAt, IsBooked, post_transaction_books}
use system_delivery.Finance.Store.{FinanceStore, CodRemittance, exponent_of, publish_event, post}
use system_delivery.Finance.Books.{IsSound, Keeps}
use system_delivery.Finance.Remittance.{
  RemittanceContext, ConfirmRemittance, remittance_input, remittance_lines, hub_cash_of,
  driver_cash_of, post_counted, set_remittance, confirm_row, confirm,
}
use system_delivery.Finance.Handover.{confirm-Confirmed, announce-Keeps, confirm-IsSound}

-- An entry on one side, on the account that is found for the owner.
pub record IsLeg (tenant_id currency : ℕ) (ref : AccountRef) (side : Direction) (amount : ℤ)
    (st : FinanceStore) (e : LedgerEntry) : Type 0 where
  pub account : IsAt tenant_id currency ref st.ledger.accounts e.account_id
  pub on_side : e.direction ≡ side
  pub amount_is : e.amount_minor ≡ amount
  pub currency_is : e.currency ≡ currency

-- The two legs of a hand-over, appended to what the ledger held.
pub record IsHandedOver (tenant_id : ℕ) (r : CodRemittance) (counted : ℤ) (st st' : FinanceStore)
    : Type 0 where
  pub received : LedgerEntry
  pub given : LedgerEntry
  pub appended : st'.ledger.entries ≡ st.ledger.entries ++ received ∷ given ∷ []
  pub to_hub : IsLeg tenant_id r.currency (hub_cash_of r.hub_id) debit counted st' received
  pub from_driver : IsLeg tenant_id r.currency (driver_cash_of r.driver_id) credit counted st' given

-- Accounts and entries are those of `at`.
abbrev SameBooks : FinanceStore → FinanceStore → Type 0
SameBooks at s = (s.ledger.accounts ≡ at.ledger.accounts) × (s.ledger.entries ≡ at.ledger.entries)

publish-SameBooks :
    (draws : ℕ → ℕ) (at : FinanceStore) (tenant_id : ℕ) (e : DomainEventInput)
    → Keeps (SameBooks at) (publish_event draws tenant_id e)
unfolding publish_event
publish-SameBooks draws at tenant_id e s s' u p h = ground arith

exponent-SameBooks : (at : FinanceStore) (code : ℕ) → Keeps (SameBooks at) (exponent_of code)
unfolding exponent_of
exponent-SameBooks at code s s' u p h = ground arith

IsBooked-IsHandedOver :
    (tenant_id now : ℕ) (r : CodRemittance) (counted : ℤ) (ctx : RemittanceContext) (t o : ℕ)
    (es : List LedgerEntry) (st st' : FinanceStore)
    → st'.ledger.entries ≡ st.ledger.entries ++ es
    → IsBooked
        (remittance_input tenant_id now r counted ctx)
        t
        o
        st'.ledger.accounts
        (remittance_lines r counted)
        es
    → IsHandedOver tenant_id r counted st st'
unfolding remittance_lines
IsBooked-IsHandedOver tenant_id now r counted ctx t o [] st st' more b = absurd b
IsBooked-IsHandedOver tenant_id now r counted ctx t o (e ∷ []) st st' more b = absurd b.2
IsBooked-IsHandedOver tenant_id now r counted ctx t o (e ∷ e' ∷ x ∷ es) st st' more b = absurd b.2.2
IsBooked-IsHandedOver tenant_id now r counted ctx t o (e ∷ e' ∷ []) st st' more b = record {
  received = e;
  given = e';
  appended = more;
  to_hub = record {
    account = b.1;
    on_side = b.0.side;
    amount_is = b.0.amount;
    currency_is = b.0.in_currency;
  };
  from_driver = record {
    account = b.2.1;
    on_side = b.2.0.side;
    amount_is = b.2.0.amount;
    currency_is = b.2.0.in_currency;
  };
}

post-books :
    (draws : ℕ → ℕ) (now t : ℕ) (input : PostTransactionInput) (s s' : FinanceStore)
    → post draws now input s ≡ ok (t, s')
    → (es : List LedgerEntry) × (s'.ledger.entries ≡ s.ledger.entries ++ es)
      × IsBooked input t (or_else input.occurred_at now) s'.ledger.accounts input.lines es
unfolding post
post-books draws now t input s s' h =
    elim (Result-cases (post_transaction draws now input s.ledger)) [
      | inr (x, e) ↦ cc (rw (e, post) at h)
      | inl ((t', ledger), e) ↦
          let outcome : ◌≡◌ {A = Result (ℕ × FinanceStore)} (ok (t', record s { ledger = ledger }))
              (ok (t, s')) =
            rw (e, post) at h in
          let same : record s { ledger = ledger } ≡ s' = cc outcome in
          let drew : t' ≡ t = cc outcome in
          let (es, more, booked, _) = post_transaction_books draws now input s.ledger ledger t' e in
          rw (← same, ← drew) (es, more, booked)
    ]

post_counted-IsHandedOver :
    (draws : ℕ → ℕ) (tenant_id now : ℕ) (r : CodRemittance) (counted : ℤ) (ctx : RemittanceContext)
    (s s' : FinanceStore)
    → ltb_ℤ (pos 0) counted ≡ true
    → post_counted draws tenant_id now r counted ctx s ≡ ok (tt, s')
    → IsHandedOver tenant_id r counted s s'
unfolding post_counted
post_counted-IsHandedOver draws tenant_id now r counted ctx s s' some_counted h =
    let input = remittance_input tenant_id now r counted ctx in
    bind_ok (post draws now input s) _ (rw some_counted at h) (λ t s1 e1 h1.
      let same : s1 ≡ s' = cc h1 in
      let (es, more, booked) = post-books draws now t input s s1 e1 in
      rw (← same) (IsBooked-IsHandedOver tenant_id now r counted ctx t now es s s1 more booked))

SameBooks-IsHandedOver :
    (tenant_id : ℕ) (r : CodRemittance) (counted : ℤ) (st mid st' : FinanceStore)
    → SameBooks mid st'
    → IsHandedOver tenant_id r counted st mid
    → IsHandedOver tenant_id r counted st st'
SameBooks-IsHandedOver tenant_id r counted st mid st' (accounts, entries) h = record {
  received = h.received;
  given = h.given;
  appended = entries ∙ h.appended;
  to_hub = record {
    account = rw accounts h.to_hub.account;
    on_side = h.to_hub.on_side;
    amount_is = h.to_hub.amount_is;
    currency_is = h.to_hub.currency_is;
  };
  from_driver = record {
    account = rw accounts h.from_driver.account;
    on_side = h.from_driver.on_side;
    amount_is = h.from_driver.amount_is;
    currency_is = h.from_driver.currency_is;
  };
}

module _ (draws : ℕ → ℕ) (draws_injective : (m n : ℕ) → draws m ≡ draws n → m ≡ n) where
  -- A confirmation that succeeds over sound books, with a positive count, appends exactly two
  -- entries of the counted amount in the currency of the remittance: a debit on the cash account of
  -- its hub, and a credit on that of its driver; and the books stay sound.
  pub confirm_hands_over :
      (tenant_id now rid : ℕ) (dto : ConfirmRemittance) (ctx : RemittanceContext)
      (st st' : FinanceStore) (row : CodRemittance)
      → IsSound draws draws_injective st
      → ltb_ℤ (pos 0) dto.counted_amount_minor ≡ true
      → confirm draws tenant_id now rid dto ctx st ≡ ok (row, st')
      → (r : CodRemittance) × (find (λ x. x.id == rid) st.remittances ≡ some r)
        × IsHandedOver tenant_id r dto.counted_amount_minor st st'
        × IsSound draws draws_injective st'
  confirm_hands_over tenant_id now rid dto ctx st st' row p counted h =
      let c = confirm-Confirmed draws tenant_id now rid dto ctx st st' row h in
      let handed =
        post_counted-IsHandedOver draws tenant_id now c.r dto.counted_amount_minor ctx st c.paid
          counted c.posts in
      let announced =
        announce-Keeps draws (SameBooks c.paid) (publish-SameBooks draws c.paid)
          (exponent-SameBooks c.paid) tenant_id now c.r dto ctx
          (dto.counted_amount_minor -ℤ c.r.expected_amount_minor)
          (set_remittance rid (confirm_row now dto ctx) c.paid) st' tt (refl, refl) c.announces in
      (
        c.r,
        c.found,
        SameBooks-IsHandedOver tenant_id c.r dto.counted_amount_minor st c.paid st' announced
            handed,
        confirm-IsSound draws draws_injective tenant_id now rid dto ctx st st' row p h,
      )
