-- ===== src/Finance/Payout.antt =====
-- settlement.service.ts: the amounts of a payout, separation of duties, payment once.
use system_delivery.Prelude.{
  not-false, ℕ, ◌==◌, ◌≡◌, refl, inl, inr, true, false, none, some, List, arith, find,
  find-update_where, Bool-cases, Option-cases, not, String, ◌∙◌, some, overriding, ap, or_else,
}
use system_delivery.Prelude.Int.{
  ℤ, pos, ◌+ℤ◌, ◌-ℤ◌, ◌<ℤ◌, ◌≤ℤ◌, ltb_ℤ, int_laws, -ℤ_parts, +ℤ_parts, +ℤ_zero, zero_+ℤ,
}
use system_delivery.Prelude.Tx.{
  Tx, ok, err, conflict, forbidden, not_found, settlement, ◌>>=◌, bind_ok, bind_at, guard_ok,
  settlement_not_draft,
}
use system_delivery.Finance.Balanced.{IsBalanced}
use system_delivery.Finance.Store.{
  FinanceStore, Settlement, SettlementStatus, draft, approved, exponent_of, post,
}
use system_delivery.Finance.Books.{
  IsSound, post-IsSound, publish_event-IsSound, post-ok, publish_event-ok, publish_event-SameTables,
}
use system_delivery.Finance.Settlement.{
  payment_method_name, paid_event, SettlementContext, CreateSettlement, MarkSettlementPaid,
  same_settlement_status, is_approver, gross_of, draft_row, load_settlement, set_settlement,
  update_settlement, approve_row, payout_lines, payout_input, paid_row, publish_approved, approve,
  publish_paid, mark_paid,
}

-- The row of a settlement that was paid out, beside the row before.
pub record IsPaidOut (now : ℕ) (dto : MarkSettlementPaid) (x row : Settlement) : Type 0 where
  pub paid : same_settlement_status row.status SettlementStatus.paid ≡ true
  pub at_now : row.paid_at ≡ some now
  pub method : row.payment_method ≡ some (payment_method_name dto.payment_method)
  pub reference : row.payment_reference ≡ overriding dto.payment_reference x.payment_reference
  pub same_settlement : (row.id ≡ x.id) × (row.merchant_id ≡ x.merchant_id) × (row.code ≡ x.code)
  pub same_figures :
      (row.gross_cod_amount_minor ≡ x.gross_cod_amount_minor)
      × (row.delivery_fees_minor ≡ x.delivery_fees_minor)
      × (row.net_payable_minor ≡ x.net_payable_minor)

-- The amounts of a settlement that can be paid.
pub record IsPayable (x : Settlement) : Type 0 where
  pub gross_positive : pos 0 <ℤ x.gross_cod_amount_minor
  pub fees_nonnegative : pos 0 ≤ℤ x.delivery_fees_minor
  pub net_nonnegative : pos 0 ≤ℤ x.net_payable_minor
  pub adds_up : x.gross_cod_amount_minor ≡ x.net_payable_minor +ℤ x.delivery_fees_minor

covered : (g f : ℤ) → ltb_ℤ g f ≡ false → pos 0 ≤ℤ (g -ℤ f)
covered g f h = ground (arith, -ℤ_parts g f)

-- The amounts of a draft with positive collections and fees that they cover.
pub draft_row-IsPayable :
    (drawn tenant_id : ℕ) (code : String) (dto : CreateSettlement) (ctx : SettlementContext)
    (rows : List (ℕ × ℤ))
    → pos 0 <ℤ gross_of rows
    → ltb_ℤ (gross_of rows) (or_else dto.delivery_fees_minor (pos 0)) ≡ false
    → pos 0 ≤ℤ or_else dto.delivery_fees_minor (pos 0)
    → IsPayable (draft_row drawn tenant_id code dto ctx rows)
unfolding draft_row
draft_row-IsPayable drawn tenant_id code dto ctx rows g f n = record {
  gross_positive = g;
  fees_nonnegative = n;
  net_nonnegative = covered (gross_of rows) (or_else dto.delivery_fees_minor (pos 0)) f;
  adds_up = omega int_laws;
}

is_positive : (a : ℤ) → ltb_ℤ (pos 0) a ≡ true → pos 0 <ℤ a
is_positive a h = ground arith

is_zero : (a : ℤ) → pos 0 ≤ℤ a → ltb_ℤ (pos 0) a ≡ false → a ≡ pos 0
is_zero a n h = ground arith

no_amount : (g n f : ℤ) → pos 0 <ℤ g → g ≡ n +ℤ f → n ≡ pos 0 → f ≡ pos 0 → ⊥
no_amount g n f p e en ef = ground (arith, rw (e, en, ef) at p, +ℤ_parts (pos 0) (pos 0))

three_legs :
    (g n f : ℤ) → g ≡ n +ℤ f → g +ℤ (pos 0 +ℤ (pos 0 +ℤ pos 0)) ≡ pos 0 +ℤ (n +ℤ (f +ℤ pos 0))
three_legs g n f e = rw e (omega int_laws)

two_legs : (g n : ℤ) → g ≡ n → g +ℤ (pos 0 +ℤ pos 0) ≡ pos 0 +ℤ (n +ℤ pos 0)
two_legs g n e = rw e (omega int_laws)

-- The payout of a payable settlement is a balanced posting, whichever legs it has.
pub payout_lines-IsBalanced :
    (tenant_id : ℕ) (x : Settlement) → IsPayable x → IsBalanced (payout_lines tenant_id x)
unfolding payout_lines
payout_lines-IsBalanced tenant_id x p = elim (Bool-cases (ltb_ℤ (pos 0) x.net_payable_minor)) [
  | inl net ↦ elim (Bool-cases (ltb_ℤ (pos 0) x.delivery_fees_minor)) [
    | inl fees ↦
        rw (net, fees)
          (record {
            two_lines = omega arith;
            positive = (
              p.gross_positive,
              (is_positive x.net_payable_minor net, (is_positive x.delivery_fees_minor fees, tt)),
            );
            equal =
                three_legs x.gross_cod_amount_minor x.net_payable_minor x.delivery_fees_minor
                  p.adds_up;
          })
    | inr free ↦
        rw (net, free)
          (record {
            two_lines = omega arith;
            positive = (p.gross_positive, (is_positive x.net_payable_minor net, tt));
            equal = two_legs x.gross_cod_amount_minor x.net_payable_minor (
                p.adds_up
                ∙ ap (λ f. x.net_payable_minor +ℤ f)
                    (is_zero x.delivery_fees_minor p.fees_nonnegative free)
                ∙ +ℤ_zero x.net_payable_minor);
          })
  ]
  | inr unpaid ↦ elim (Bool-cases (ltb_ℤ (pos 0) x.delivery_fees_minor)) [
    | inl fees ↦
        rw (unpaid, fees)
          (record {
            two_lines = omega arith;
            positive = (p.gross_positive, (is_positive x.delivery_fees_minor fees, tt));
            equal = two_legs x.gross_cod_amount_minor x.delivery_fees_minor (
                p.adds_up
                ∙ ap (λ n. n +ℤ x.delivery_fees_minor)
                    (is_zero x.net_payable_minor p.net_nonnegative unpaid)
                ∙ zero_+ℤ x.delivery_fees_minor);
          })
    | inr free ↦ absurd (
        no_amount x.gross_cod_amount_minor x.net_payable_minor x.delivery_fees_minor
          p.gross_positive p.adds_up (is_zero x.net_payable_minor p.net_nonnegative unpaid)
          (is_zero x.delivery_fees_minor p.fees_nonnegative free))
  ]
]

load_found :
    (sid : ℕ) (s : FinanceStore) (x : Settlement)
    → find (λ y. y.id == sid) s.settlements ≡ some x
    → load_settlement sid s ≡ ok (x, s)
unfolding load_settlement
load_found sid s x h = ground arith

load_missing :
    (sid : ℕ) (s : FinanceStore)
    → find (λ y. y.id == sid) s.settlements ≡ none
    → load_settlement sid s ≡ err (not_found settlement)
unfolding load_settlement
load_missing sid s h = ground arith

pub load_ok :
    {B P : Type 0} (sid : ℕ) (s : FinanceStore) (f : Settlement → Tx FinanceStore B)
    {res : B × FinanceStore}
    → (load_settlement sid >>= f) s ≡ ok res
    → ((x : Settlement) → find (λ y. y.id == sid) s.settlements ≡ some x → f x s ≡ ok res → P)
    → P
load_ok sid s f h k = elim (Option-cases (find (λ y. y.id == sid) s.settlements)) [
  | inr (x, e) ↦ k x e (bind_at f (load_found sid s x e) h)
  | inl e ↦ bind_ok (load_settlement sid s) f h (λ a s1 e1 h1. cc (load_missing sid s e, e1))
]

pub update_found :
    (sid : ℕ) (g : Settlement → Settlement) (s : FinanceStore) (x : Settlement)
    → ((y : Settlement) → (y.id == sid) ≡ true → ((g y).id == sid) ≡ true)
    → find (λ y. y.id == sid) s.settlements ≡ some x
    → update_settlement sid g s ≡ ok (g x, set_settlement sid g s)
unfolding update_settlement
update_found sid g s x still h =
    let hit = find-update_where (λ y. y.id == sid) g s.settlements x still h in ground arith

exponent_found :
    (currency exponent : ℕ) (s : FinanceStore)
    → find (λ c. c.0 == currency) s.currencies ≡ some (currency, exponent)
    → exponent_of currency s ≡ ok (exponent, s)
unfolding exponent_of
exponent_found currency exponent s h = ground arith

-- Separation of duties: whoever approved a settlement holds an approving role, is not the user who
-- drafted it, and found it in DRAFT.
pub approve_separate :
    (draws : ℕ → ℕ) (tenant_id now sid : ℕ) (ctx : SettlementContext) (st st' : FinanceStore)
    (row : Settlement)
    → approve draws tenant_id now sid ctx st ≡ ok (row, st')
    → (x : Settlement) × (find (λ y. y.id == sid) st.settlements ≡ some x)
      × (same_settlement_status x.status draft ≡ true)
      × (is_approver ctx.role ≡ true)
      × (ctx.actor_user_id == x.created_by_user_id ≡ false)
      × (row ≡ approve_row now ctx x)
unfolding approve approve_row
approve_separate draws tenant_id now sid ctx st st' row h = load_ok sid st _ h (λ x found h0.
    guard_ok (not (same_settlement_status x.status draft)) (conflict settlement_not_draft) _ st h0
      (λ was h1. guard_ok (not (is_approver ctx.role)) forbidden _ st h1 (λ role h2.
        guard_ok (ctx.actor_user_id == x.created_by_user_id) forbidden _ st h2 (λ apart h3.
          let h4 = bind_at _ (update_found sid (approve_row now ctx) st x (λ y e. e) found) h3 in
          bind_ok
            (publish_approved draws tenant_id now ctx (approve_row now ctx x)
              (set_settlement sid (approve_row now ctx) st))
            _ h4
            (λ _ s5 e5 h5. (
              x,
              found,
              not-false (same_settlement_status x.status draft) was,
              not-false (is_approver ctx.role) role,
              apart,
              cc h5,
            ))))))

mark_paid_run :
    (draws : ℕ → ℕ) (tenant_id now sid exponent t : ℕ) (dto : MarkSettlementPaid)
    (ctx : SettlementContext) (st posted mid st' : FinanceStore) (x row : Settlement)
    → load_settlement sid st ≡ ok (x, st)
    → same_settlement_status x.status approved ≡ true
    → post draws now (payout_input tenant_id x ctx) st ≡ ok (t, posted)
    → update_settlement sid (paid_row now dto) posted ≡ ok (row, mid)
    → exponent_of x.currency mid ≡ ok (exponent, mid)
    → publish_paid draws tenant_id now dto x row exponent mid ≡ ok (tt, st')
    → mark_paid draws tenant_id now sid dto ctx st ≡ ok (row, st')
unfolding mark_paid
mark_paid_run draws tenant_id now sid exponent t dto ctx st posted mid st' x row l w p u e h =
    ground arith

module _ (draws : ℕ → ℕ) (draws_injective : (m n : ℕ) → draws m ≡ draws n → m ≡ n) where
  -- Over sound books, an approved settlement whose amounts are payable and whose currency is listed
  -- is always paid: the ledger accepts the posting, the returned row, which is the one that is then
  -- stored, reads PAID with the time, method and reference of the payment and the figures it had, and
  -- the books stay sound.
  pub mark_paid_pays :
      (tenant_id now sid exponent : ℕ) (dto : MarkSettlementPaid) (ctx : SettlementContext)
      (st : FinanceStore) (x : Settlement)
      → IsSound draws draws_injective st
      → find (λ y. y.id == sid) st.settlements ≡ some x
      → same_settlement_status x.status approved ≡ true
      → IsPayable x
      → find (λ c. c.0 == x.currency) st.currencies ≡ some (x.currency, exponent)
      → (row : Settlement) × (st' : FinanceStore) × (mark_paid draws tenant_id now sid dto ctx st
          ≡ ok (row, st'))
        × (find (λ y. y.id == sid) st'.settlements ≡ some row)
        × IsPaidOut now dto x row
        × IsSound draws draws_injective st'
  unfolding paid_row publish_paid
  mark_paid_pays tenant_id now sid exponent dto ctx st x p found was payable known =
      let input = payout_input tenant_id x ctx in
      let (ledger, posts) =
        post-ok draws draws_injective now input st p (payout_lines-IsBalanced tenant_id x payable)
          refl in
      let posted : FinanceStore = record st { ledger = ledger } in
      let q =
        post-IsSound draws draws_injective now input st posted (draws st.ledger.drawn) p posts in
      let updates = update_found sid (paid_row now dto) posted x (λ y e. e) found in
      let mid : FinanceStore = set_settlement sid (paid_row now dto) posted in
      let knows : exponent_of x.currency mid ≡ ok (exponent, mid) =
        exponent_found x.currency exponent mid known in
      let event = paid_event now dto x (paid_row now dto x) exponent in
      let (st', publishes) = publish_event-ok draws tenant_id event mid refl in
      let held =
        publish_event-IsSound draws draws_injective tenant_id event mid st' tt
          (record { reconciled = q.reconciled; zero_sum = q.zero_sum }) publishes in
      (
        paid_row now dto x,
        st',
        mark_paid_run draws tenant_id now sid exponent (draws st.ledger.drawn) dto ctx st posted mid
            st' x (paid_row now dto x) (load_found sid st x found) was posts updates knows
            publishes,
        rw ((publish_event-SameTables draws tenant_id event mid st' publishes).settlements) (
            find-update_where (λ y. y.id == sid) (paid_row now dto) st.settlements x (λ y e. e)
              found),
        record {
          paid = refl;
          at_now = refl;
          method = refl;
          reference = refl;
          same_settlement = (refl, refl, refl);
          same_figures = (refl, refl, refl);
        },
        held,
      )
