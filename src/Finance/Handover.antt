-- ===== src/Finance/Handover.antt =====
-- remittance.service.ts: what the hand-over of cash guarantees.
use system_delivery.Prelude.{
  not-false, ℕ, ◌==◌, ◌≡◌, refl, inl, inr, true, false, ◌&&◌, none, some, arith, find, update_where,
  find-update_where, Bool-cases, Option-cases, is_none, not, sym, ◌∙◌, ap,
}
use system_delivery.Prelude.Int.{ℤ, pos, ◌-ℤ◌, eq_ℤ, ltb_ℤ}
use system_delivery.Prelude.Tx.{
  Tx, pure, not_found, remittance, ok, err, conflict, business_rule, ◌>>=◌, ◌>>◌, bind_ok, bind_at,
  guard_ok, remittance_not_submitted, variance_reason_required,
}
use system_delivery.Finance.Store.{
  FinanceStore, CodRemittance, submitted, exponent_of, publish_event, post,
}
use mathlib.Core.Path.{subst}
use system_delivery.Platform.Outbox.{DomainEventInput}
use system_delivery.Finance.LedgerService.{PostTransactionInput}
use system_delivery.Finance.Books.{
  IsSound, Keeps, post-SameTables, publish_event-SameTables, exponent_of-SameTables, post-IsSound,
  publish_event-IsSound, exponent_of-IsSound,
}
use system_delivery.Finance.Remittance.{
  RemittanceContext, ConfirmRemittance, remittance_input, same_remittance_status, load_for_update,
  confirm_row, set_remittance, update_remittance, post_counted, publish_cash_remitted,
  publish_variance, announce, confirm,
}

-- The tests of `confirm` passed.
abbrev pub HasReason : CodRemittance → ConfirmRemittance → Type 0
HasReason r dto =
    (not (eq_ℤ (dto.counted_amount_minor -ℤ r.expected_amount_minor) (pos 0))
      && is_none dto.variance_reason)
    ≡ false

-- The steps of a confirmation that succeeded.
pub record Confirmed (draws : ℕ → ℕ) (tenant_id now rid : ℕ) (dto : ConfirmRemittance)
    (ctx : RemittanceContext) (st st' : FinanceStore) (row : CodRemittance) : Type 0 where
  pub r : CodRemittance
  pub paid : FinanceStore
  pub found : find (λ x. x.id == rid) st.remittances ≡ some r
  pub was_submitted : same_remittance_status r.status submitted ≡ true
  pub reasoned : HasReason r dto
  pub posts : post_counted draws tenant_id now r dto.counted_amount_minor ctx st ≡ ok (tt, paid)
  pub updated :
      find
        (λ x. x.id == rid)
        (update_where (λ x. x.id == rid) (confirm_row now dto ctx) paid.remittances)
      ≡ some row
  pub announces :
      announce draws tenant_id now r dto ctx
        (dto.counted_amount_minor -ℤ r.expected_amount_minor)
        (set_remittance rid (confirm_row now dto ctx) paid)
      ≡ ok (tt, st')

pub load_found :
    (rid : ℕ) (s : FinanceStore) (r : CodRemittance)
    → find (λ x. x.id == rid) s.remittances ≡ some r
    → load_for_update rid s ≡ ok (r, s)
unfolding load_for_update
load_found rid s r h = ground arith

load_missing :
    (rid : ℕ) (s : FinanceStore)
    → find (λ x. x.id == rid) s.remittances ≡ none
    → load_for_update rid s ≡ err (not_found remittance)
unfolding load_for_update
load_missing rid s h = ground arith

pub load_ok :
    {B P : Type 0} (rid : ℕ) (s : FinanceStore) (f : CodRemittance → Tx FinanceStore B)
    {res : B × FinanceStore}
    → (load_for_update rid >>= f) s ≡ ok res
    → ((r : CodRemittance) → find (λ x. x.id == rid) s.remittances ≡ some r → f r s ≡ ok res → P)
    → P
load_ok rid s f h k = elim (Option-cases (find (λ x. x.id == rid) s.remittances)) [
  | inr (r, e) ↦ k r e (bind_at f (load_found rid s r e) h)
  | inl e ↦ bind_ok (load_for_update rid s) f h (λ a s1 e1 h1. cc (load_missing rid s e, e1))
]

pub update_found :
    (rid : ℕ) (g : CodRemittance → CodRemittance) (s : FinanceStore) (r : CodRemittance)
    → find (λ x. x.id == rid) (update_where (λ x. x.id == rid) g s.remittances) ≡ some r
    → update_remittance rid g s ≡ ok (r, set_remittance rid g s)
unfolding update_remittance
update_found rid g s r h = ground arith

update_missing :
    (rid : ℕ) (g : CodRemittance → CodRemittance) (s : FinanceStore)
    → find (λ x. x.id == rid) (update_where (λ x. x.id == rid) g s.remittances) ≡ none
    → update_remittance rid g s ≡ err (not_found remittance)
unfolding update_remittance
update_missing rid g s h = ground arith

pub update_ok :
    {B P : Type 0} (rid : ℕ) (g : CodRemittance → CodRemittance) (s : FinanceStore)
    (f : CodRemittance → Tx FinanceStore B) {res : B × FinanceStore}
    → (update_remittance rid g >>= f) s ≡ ok res
    → ((r : CodRemittance)
        → find (λ x. x.id == rid) (update_where (λ x. x.id == rid) g s.remittances) ≡ some r
        → f r (set_remittance rid g s) ≡ ok res
        → P)
    → P
update_ok rid g s f h k =
    elim (Option-cases
      (find (λ x. x.id == rid) (update_where (λ x. x.id == rid) g s.remittances))) [
        | inr (r, e) ↦ k r e (bind_at f (update_found rid g s r e) h)
        | inl e ↦
            bind_ok (update_remittance rid g s) f h
              (λ a s1 e1 h1. cc (update_missing rid g s e, e1))
      ]

-- The last steps of a confirmation.
finish-Confirmed :
    (draws : ℕ → ℕ) (tenant_id now rid : ℕ) (dto : ConfirmRemittance) (ctx : RemittanceContext)
    (st st' paid : FinanceStore) (row r : CodRemittance)
    → find (λ x. x.id == rid) st.remittances ≡ some r
    → same_remittance_status r.status submitted ≡ true
    → HasReason r dto
    → post_counted draws tenant_id now r dto.counted_amount_minor ctx st ≡ ok (tt, paid)
    → (update_remittance rid (confirm_row now dto ctx) >>= λ row'.
          announce draws tenant_id now r dto ctx
            (dto.counted_amount_minor -ℤ r.expected_amount_minor)
          >> pure row')
        paid
      ≡ ok (row, st')
    → Confirmed draws tenant_id now rid dto ctx st st' row
finish-Confirmed draws tenant_id now rid dto ctx st st' paid row r found was reasoned posts h =
    update_ok rid (confirm_row now dto ctx) paid _ h (λ row' updated h4.
      bind_ok
        (announce draws tenant_id now r dto ctx
          (dto.counted_amount_minor -ℤ r.expected_amount_minor)
          (set_remittance rid (confirm_row now dto ctx) paid))
        _ h4
        (λ _ s5 e5 h5.
          let row_same : row' ≡ row = cc h5 in
          let end_same : s5 ≡ st' = cc h5 in
          record {
            r = r;
            paid = paid;
            found = found;
            was_submitted = was;
            reasoned = reasoned;
            posts = posts;
            updated = updated ∙ ap some row_same;
            announces = rw (sym end_same) e5;
          }))

pub confirm-Confirmed :
    (draws : ℕ → ℕ) (tenant_id now rid : ℕ) (dto : ConfirmRemittance) (ctx : RemittanceContext)
    (st st' : FinanceStore) (row : CodRemittance)
    → confirm draws tenant_id now rid dto ctx st ≡ ok (row, st')
    → Confirmed draws tenant_id now rid dto ctx st st' row
unfolding confirm
confirm-Confirmed draws tenant_id now rid dto ctx st st' row h = load_ok rid st _ h (λ r found h0.
    guard_ok (not (same_remittance_status r.status submitted)) (conflict remittance_not_submitted) _
      st h0
      (λ was h1.
        guard_ok
          (not (eq_ℤ (dto.counted_amount_minor -ℤ r.expected_amount_minor) (pos 0))
            && is_none dto.variance_reason)
          (business_rule variance_reason_required) _ st h1
          (λ reasoned h2.
            bind_ok (post_counted draws tenant_id now r dto.counted_amount_minor ctx st) _ h2
              (λ _ paid e3 h3.
                finish-Confirmed draws tenant_id now rid dto ctx st st' paid row r found
                  (not-false (same_remittance_status r.status submitted) was) reasoned e3 h3))))

-- Only a remittance that waits for its count is confirmed.
pub confirm_refused :
    (draws : ℕ → ℕ) (tenant_id now rid : ℕ) (dto : ConfirmRemittance) (ctx : RemittanceContext)
    (st : FinanceStore) (r : CodRemittance)
    → find (λ x. x.id == rid) st.remittances ≡ some r
    → same_remittance_status r.status submitted ≡ false
    → confirm draws tenant_id now rid dto ctx st ≡ err (conflict remittance_not_submitted)
unfolding confirm
confirm_refused draws tenant_id now rid dto ctx st r found other =
    let load = load_found rid st r found in ground arith

confirm_row-still :
    (now rid : ℕ) (dto : ConfirmRemittance) (ctx : RemittanceContext) (r : CodRemittance)
    → (r.id == rid) ≡ true
    → ((confirm_row now dto ctx r).id == rid) ≡ true
unfolding confirm_row
confirm_row-still now rid dto ctx r h = h

module _ (draws : ℕ → ℕ) (at : FinanceStore) where
  post-remittances :
      (now : ℕ) (input : PostTransactionInput)
      → Keeps (λ x. x.remittances ≡ at.remittances) (post draws now input)
  post-remittances now input s s' t p h = (post-SameTables draws now input s s' t h).remittances ∙ p

  publish-remittances :
      (tenant_id : ℕ) (e : DomainEventInput)
      → Keeps (λ x. x.remittances ≡ at.remittances) (publish_event draws tenant_id e)
  publish-remittances tenant_id e s s' u p h =
      (publish_event-SameTables draws tenant_id e s s' h).remittances ∙ p

exponent-remittances :
    (at : FinanceStore) (code : ℕ) → Keeps (λ x. x.remittances ≡ at.remittances) (exponent_of code)
exponent-remittances at code s s' exponent p h =
    (exponent_of-SameTables code exponent s s' h).remittances ∙ p

-- What the shared calls keep, the calls of a confirmation keep.
module _ (draws : ℕ → ℕ) (P : FinanceStore → Type 0)
    (posted : (now : ℕ) (input : PostTransactionInput) → Keeps P (post draws now input)) where
  post_counted-Keeps :
      (tenant_id now : ℕ) (r : CodRemittance) (counted : ℤ) (ctx : RemittanceContext)
      → Keeps P (post_counted draws tenant_id now r counted ctx)
  unfolding post_counted
  post_counted-Keeps tenant_id now r counted ctx s s' _ p h =
      elim (Bool-cases (ltb_ℤ (pos 0) counted)) [
        | inr none_counted ↦ subst P (cc (rw none_counted at h)) p
        | inl some_counted ↦
            bind_ok (post draws now (remittance_input tenant_id now r counted ctx) s) _
              (rw some_counted at h)
              (λ t s1 e1 h1.
                subst P (cc h1)
                  (posted now (remittance_input tenant_id now r counted ctx) s s1 t p e1))
      ]

module _ (draws : ℕ → ℕ) (P : FinanceStore → Type 0)
    (published : (tenant_id : ℕ) (e : DomainEventInput) → Keeps P (publish_event draws tenant_id e))
    (read : (code : ℕ) → Keeps P (exponent_of code)) where
  publish_variance-Keeps :
      (tenant_id now : ℕ) (r : CodRemittance) (dto : ConfirmRemittance) (variance : ℤ)
      → Keeps P (publish_variance draws tenant_id now r dto variance)
  unfolding publish_variance
  publish_variance-Keeps tenant_id now r dto variance s s' u p h =
      elim (Bool-cases (eq_ℤ variance (pos 0))) [
        | inl zero_variance ↦ subst P (cc (rw zero_variance at h)) p
        | inr variant ↦ published tenant_id _ s s' u p (rw variant at h)
      ]

  pub announce-Keeps :
      (tenant_id now : ℕ) (r : CodRemittance) (dto : ConfirmRemittance) (ctx : RemittanceContext)
      (variance : ℤ)
      → Keeps P (announce draws tenant_id now r dto ctx variance)
  unfolding announce publish_cash_remitted
  announce-Keeps tenant_id now r dto ctx variance s s' u p h =
      bind_ok (exponent_of r.currency s) _ h (λ exponent s1 e1 h1.
        bind_ok (publish_cash_remitted draws tenant_id now r dto ctx variance exponent s1) _ h1
          (λ _ s2 e2 h2.
            publish_variance-Keeps tenant_id now r dto variance s2 s' u
              (published tenant_id _ s1 s2 tt (read r.currency s s1 exponent p e1) e2) h2))

module _ (draws : ℕ → ℕ) (draws_injective : (m n : ℕ) → draws m ≡ draws n → m ≡ n) where
  -- A confirmation that succeeds keeps sound books sound: every cached balance is the sum of its
  -- entries, and debits equal credits in every currency.
  pub confirm-IsSound :
      (tenant_id now rid : ℕ) (dto : ConfirmRemittance) (ctx : RemittanceContext)
      → Keeps (IsSound draws draws_injective) (confirm draws tenant_id now rid dto ctx)
  confirm-IsSound tenant_id now rid dto ctx st st' row p h =
      let c = confirm-Confirmed draws tenant_id now rid dto ctx st st' row h in
      let post-lem = post-IsSound draws draws_injective in
      let publish-lem = publish_event-IsSound draws draws_injective in
      let exponent-lem = exponent_of-IsSound draws draws_injective in
      let q =
        post_counted-Keeps draws (IsSound draws draws_injective) post-lem tenant_id now c.r
          dto.counted_amount_minor ctx st c.paid tt p c.posts in
      announce-Keeps draws (IsSound draws draws_injective) publish-lem exponent-lem tenant_id now
        c.r dto ctx (dto.counted_amount_minor -ℤ c.r.expected_amount_minor)
        (set_remittance rid (confirm_row now dto ctx) c.paid) st' tt
        (record { reconciled = q.reconciled; zero_sum = q.zero_sum }) c.announces

paid-remittances :
    (draws : ℕ → ℕ) (tenant_id now rid : ℕ) (dto : ConfirmRemittance) (ctx : RemittanceContext)
    (st st' : FinanceStore) (row : CodRemittance)
    (c : Confirmed draws tenant_id now rid dto ctx st st' row)
    → c.paid.remittances ≡ st.remittances
paid-remittances draws tenant_id now rid dto ctx st st' row c =
    post_counted-Keeps draws (λ x. x.remittances ≡ st.remittances) (post-remittances draws st)
      tenant_id now c.r dto.counted_amount_minor ctx st c.paid tt refl c.posts

some_lem : {A : Type 0} {x y : A} → some x ≡ some y → x ≡ y
some_lem e = cc

-- The remittances after a confirmation.
pub confirm-remittances :
    (draws : ℕ → ℕ) (tenant_id now rid : ℕ) (dto : ConfirmRemittance) (ctx : RemittanceContext)
    (st st' : FinanceStore) (row : CodRemittance)
    → confirm draws tenant_id now rid dto ctx st ≡ ok (row, st')
    → st'.remittances ≡ update_where (λ x. x.id == rid) (confirm_row now dto ctx) st.remittances
confirm-remittances draws tenant_id now rid dto ctx st st' row h =
    let c = confirm-Confirmed draws tenant_id now rid dto ctx st st' row h in
    let posted = paid-remittances draws tenant_id now rid dto ctx st st' row c in
    let mid = set_remittance rid (confirm_row now dto ctx) c.paid in
    let announced : st'.remittances ≡ mid.remittances =
      announce-Keeps draws (λ x. x.remittances ≡ mid.remittances) (publish-remittances draws mid)
        (exponent-remittances mid) tenant_id now c.r dto ctx
        (dto.counted_amount_minor -ℤ c.r.expected_amount_minor) mid st' tt refl c.announces in
    announced ∙ ap (update_where (λ x. x.id == rid) (confirm_row now dto ctx)) posted

pub confirmed_lem :
    (draws : ℕ → ℕ) (tenant_id now rid : ℕ) (dto : ConfirmRemittance) (ctx : RemittanceContext)
    (st st' : FinanceStore) (row : CodRemittance)
    → confirm draws tenant_id now rid dto ctx st ≡ ok (row, st')
    → (r : CodRemittance) × (find (λ x. x.id == rid) st.remittances ≡ some r)
      × (same_remittance_status r.status submitted ≡ true)
      × HasReason r dto
      × (row ≡ confirm_row now dto ctx r)
      × (find (λ x. x.id == rid) st'.remittances ≡ some row)
unfolding confirm_row
confirmed_lem draws tenant_id now rid dto ctx st st' row h =
    let c = confirm-Confirmed draws tenant_id now rid dto ctx st st' row h in
    let after = confirm-remittances draws tenant_id now rid dto ctx st st' row h in
    let hit =
      find-update_where (λ x. x.id == rid) (confirm_row now dto ctx) st.remittances c.r (λ y e. e)
        c.found in
    let row_same : row ≡ confirm_row now dto ctx c.r = some_lem (
      sym c.updated
      ∙ ap
          (λ rs.
            find (λ x. x.id == rid) (update_where (λ x. x.id == rid) (confirm_row now dto ctx) rs))
          (paid-remittances draws tenant_id now rid dto ctx st st' row c)
      ∙ hit) in
    (
      c.r,
      c.found,
      c.was_submitted,
      c.reasoned,
      row_same,
      ap (find (λ x. x.id == rid)) after ∙ hit ∙ ap some (sym row_same),
    )
