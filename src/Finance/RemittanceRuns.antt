-- ===== src/Finance/RemittanceRuns.antt =====
-- remittance.service.ts: runs of calls of the service, in any order, and what no run undoes.
use system_delivery.Prelude.{
  not-false, ℕ, ◌==◌, ◌≡◌, refl, inl, inr, true, false, Option, none, some, [], ◌∷◌, ◌++◌, String,
  arith, find, update_where, find-update_where, find-update_where_other, find-append, Bool-cases,
  not, sym, ◌∙◌, ap, ◌⊎◌, overriding, ==→eq,
}
use system_delivery.Prelude.Tx.{
  ok, err, conflict, guard_ok, remittance_not_submitted, remittance_invalid_transition,
}
use system_delivery.Finance.Store.{
  FinanceStore, CodRemittance, RemittanceStatus, submitted, disputed, resolved,
}
use system_delivery.Finance.Remittance.{
  RemittanceContext, SubmitRemittance, ConfirmRemittance, same_remittance_status, set_remittance,
  submit, confirm, confirm_row, transition, dispute, resolve,
}
use system_delivery.Finance.Handover.{
  load_ok, load_found, update_found, confirm_refused, confirm-remittances, confirmed_lem,
}
use system_delivery.Finance.Declared.{submit_declares}

-- The update of a transition.
abbrev pub moved_to : RemittanceStatus → Option String → CodRemittance → CodRemittance
moved_to to reason r = record r {
  status = to;
  variance_reason = overriding reason r.variance_reason;
}

pub transition_lem :
    (rid : ℕ) (from to : RemittanceStatus) (reason : Option String) (st st' : FinanceStore)
    (row : CodRemittance)
    → transition rid from to reason st ≡ ok (row, st')
    → (r : CodRemittance) × (find (λ x. x.id == rid) st.remittances ≡ some r)
      × (same_remittance_status r.status from ≡ true)
      × (st'.remittances ≡ update_where (λ x. x.id == rid) (moved_to to reason) st.remittances)
unfolding transition
transition_lem rid from to reason st st' row h = load_ok rid st _ h (λ r found h0.
    guard_ok (not (same_remittance_status r.status from)) (conflict remittance_invalid_transition) _
      st h0
      (λ was h1.
        let hit =
          find-update_where (λ x. x.id == rid) (moved_to to reason) st.remittances r (λ y e. e)
            found in
        let done = update_found rid (moved_to to reason) st (moved_to to reason r) hit in
        let same : set_remittance rid (moved_to to reason) st ≡ st' = cc (done, h1) in
        (
          r,
          found,
          not-false (same_remittance_status r.status from) was,
          ap (λ s. s.remittances) (sym same),
        )))

pub transition_runs :
    (rid : ℕ) (from to : RemittanceStatus) (reason : Option String) (st : FinanceStore)
    (r : CodRemittance)
    → find (λ x. x.id == rid) st.remittances ≡ some r
    → same_remittance_status r.status from ≡ true
    → transition rid from to reason st
      ≡ ok (moved_to to reason r, set_remittance rid (moved_to to reason) st)
unfolding transition
transition_runs rid from to reason st r found was =
    let load = load_found rid st r found in
    let hit =
      find-update_where (λ x. x.id == rid) (moved_to to reason) st.remittances r (λ y e. e) found in
    let done = update_found rid (moved_to to reason) st (moved_to to reason r) hit in ground arith

-- A call of the service that succeeded.
pub data Step (draws : ℕ → ℕ) : FinanceStore → FinanceStore → Type 0 where
  submits :
      {st st' : FinanceStore} (tenant_id now : ℕ) (code : String) (dto : SubmitRemittance)
      (ctx : RemittanceContext) (row : CodRemittance)
      → submit draws tenant_id now code dto ctx st ≡ ok (row, st')
      → Step draws st st'
  confirms :
      {st st' : FinanceStore} (tenant_id now rid : ℕ) (dto : ConfirmRemittance)
      (ctx : RemittanceContext) (row : CodRemittance)
      → confirm draws tenant_id now rid dto ctx st ≡ ok (row, st')
      → Step draws st st'
  disputes :
      {st st' : FinanceStore} (rid : ℕ) (reason : String) (row : CodRemittance)
      → dispute rid reason st ≡ ok (row, st')
      → Step draws st st'
  resolves :
      {st st' : FinanceStore} (rid : ℕ) (row : CodRemittance)
      → resolve rid st ≡ ok (row, st')
      → Step draws st st'

infixr 5 ◌then◌
pub data Steps (draws : ℕ → ℕ) : FinanceStore → FinanceStore → Type 0 where
  done : {st : FinanceStore} → Steps draws st st
  ◌then◌ :
      {st mid st' : FinanceStore} → Step draws st mid → Steps draws mid st' → Steps draws st st'

-- What a call does to the table: a new row, or an update of one that was SUBMITTED, after which it
-- is not, or the resolution of one that was DISPUTED.
data Change : FinanceStore → FinanceStore → Type 0 where
  adds :
      {st st' : FinanceStore} (row : CodRemittance)
      → st'.remittances ≡ st.remittances ++ row ∷ []
      → Change st st'
  closes :
      {st st' : FinanceStore} (rid : ℕ) (g : CodRemittance → CodRemittance) (r : CodRemittance)
      → find (λ x. x.id == rid) st.remittances ≡ some r
      → same_remittance_status r.status submitted ≡ true
      → ((y : CodRemittance)
          → ((g y).id ≡ y.id) × (same_remittance_status (g y).status submitted ≡ false))
      → st'.remittances ≡ update_where (λ x. x.id == rid) g st.remittances
      → Change st st'
  settles :
      {st st' : FinanceStore} (rid : ℕ)
      → st'.remittances ≡ update_where (λ x. x.id == rid) (moved_to resolved none) st.remittances
      → Change st st'

Step-Change : (draws : ℕ → ℕ) (st st' : FinanceStore) → Step draws st st' → Change st st'
unfolding confirm_row dispute resolve
Step-Change draws st st' (submits tenant_id now code dto ctx row h) =
    let (_, _, rows, _) = submit_declares draws tenant_id now code dto ctx st st' row h in
    adds row rows
Step-Change draws st st' (confirms tenant_id now rid dto ctx row h) =
    let (r, found, was, _, _, _) = confirmed_lem draws tenant_id now rid dto ctx st st' row h in
    closes rid (confirm_row now dto ctx) r found was (λ y. (refl, refl))
      (confirm-remittances draws tenant_id now rid dto ctx st st' row h)
Step-Change draws st st' (disputes rid reason row h) =
    let (r, found, was, rows) = transition_lem rid submitted disputed (some reason) st st' row h in
    closes rid (moved_to disputed (some reason)) r found was (λ y. (refl, refl)) rows
Step-Change draws st st' (resolves rid row h) =
    let (r, found, was, rows) = transition_lem rid disputed resolved none st st' row h in
    settles rid rows

-- The first row with this id satisfies `P`.
abbrev FoundWith : (CodRemittance → Type 0) → ℕ → FinanceStore → Type 0
FoundWith P rid st = (r : CodRemittance) × (find (λ x. x.id == rid) st.remittances ≡ some r) × P r

update-FoundWith :
    (P : CodRemittance → Type 0) (rid sid : ℕ) (g : CodRemittance → CodRemittance)
    (st st' : FinanceStore)
    → ((y : CodRemittance) → (g y).id ≡ y.id)
    → st'.remittances ≡ update_where (λ x. x.id == sid) g st.remittances
    → ((r : CodRemittance)
        → sid ≡ rid
        → find (λ x. x.id == rid) st.remittances ≡ some r
        → P r
        → P (g r))
    → FoundWith P rid st
    → FoundWith P rid st'
update-FoundWith P rid sid g st st' same rows kept (r, found, p) = elim (Bool-cases (sid == rid)) [
  | inl hit ↦
      let eq = ==→eq sid rid hit in
      (
        g r,
        rw (rows, eq)
            (find-update_where (λ x. x.id == rid) g st.remittances r (λ y e. rw (same y) e) found),
        kept r eq found p,
      )
  | inr miss ↦ (
    r,
    rw rows (
        find-update_where_other (λ x. x.id == sid) g (λ x. x.id == rid) st.remittances
          (λ y e. let other : y.id == rid ≡ false = ground arith in (other, rw (same y) other))
        ∙ found),
    p,
  )
]

-- The run keeps what each kind of change keeps.
Steps-FoundWith :
    (draws : ℕ → ℕ) (P : CodRemittance → Type 0) (rid : ℕ) (st st' : FinanceStore)
    → ((r : CodRemittance) → same_remittance_status r.status submitted ≡ true → P r → ⊥)
    → ((r : CodRemittance) → P r → P (moved_to resolved none r))
    → Steps draws st st'
    → FoundWith P rid st
    → FoundWith P rid st'
Steps-FoundWith draws P rid st st' never kept done p = p
Steps-FoundWith draws P rid st st' never kept (◌then◌ {mid = mid} step steps) p =
    Steps-FoundWith draws P rid mid st' never kept steps (elim (Step-Change draws st mid step) [
      | adds row rows ↦
          let (r, found, held) = p in
          (r, rw rows (find-append (λ x. x.id == rid) st.remittances (row ∷ []) r found), held)
      | closes sid g r found was g_lem rows ↦
          update-FoundWith P rid sid g st mid (λ y. (g_lem y).0) rows
            (λ r' eq found' held.
              let same : r ≡ r' = cc (rw eq at found) in absurd (never r' (rw (← same) was) held))
            p
      | settles sid rows ↦
          update-FoundWith P rid sid (moved_to resolved none) st mid (λ y. refl) rows
            (λ r' eq found' held. kept r' held) p
    ])

-- No longer waiting for a count.
abbrev IsDone : CodRemittance → Type 0
IsDone r = same_remittance_status r.status submitted ≡ false

-- A remittance is confirmed once: after a confirmation that succeeded, and any further calls of the
-- service in any order, a confirmation of it is refused.
pub confirm_once :
    (draws : ℕ → ℕ) (tenant_id now now' rid : ℕ) (dto dto' : ConfirmRemittance)
    (ctx ctx' : RemittanceContext) (st st' st'' : FinanceStore) (row : CodRemittance)
    → confirm draws tenant_id now rid dto ctx st ≡ ok (row, st')
    → Steps draws st' st''
    → confirm draws tenant_id now' rid dto' ctx' st'' ≡ err (conflict remittance_not_submitted)
unfolding confirm_row
confirm_once draws tenant_id now now' rid dto dto' ctx ctx' st st' st'' row h steps =
    let (r, _, _, _, row_same, found) =
      confirmed_lem draws tenant_id now rid dto ctx st st' row h in
    let (r', found', waits) =
      Steps-FoundWith draws IsDone rid st' st'' (λ x was p. cc) (λ x p. refl) steps
        (row, found, ap (λ x. same_remittance_status x.status submitted) row_same) in
    confirm_refused draws tenant_id now' rid dto' ctx' st'' r' found' waits

-- A disputed row, or what became of it.
abbrev IsDisputed : String → CodRemittance → Type 0
IsDisputed reason r =
    ((r.status ≡ disputed) ⊎ (r.status ≡ resolved)) × (r.variance_reason ≡ some reason)

-- A remittance that was disputed can no longer be confirmed: after the dispute and any further calls
-- of the service in any order, a confirmation of it is refused, its row is DISPUTED or RESOLVED with
-- the reason of the dispute, and where it is DISPUTED, `resolve` leaves it RESOLVED with that reason.
pub disputed_resolves :
    (draws : ℕ → ℕ) (tenant_id now rid : ℕ) (reason : String) (dto : ConfirmRemittance)
    (ctx : RemittanceContext) (st st' st'' : FinanceStore) (row : CodRemittance)
    → dispute rid reason st ≡ ok (row, st')
    → Steps draws st' st''
    → (confirm draws tenant_id now rid dto ctx st'' ≡ err (conflict remittance_not_submitted))
      × (r : CodRemittance) × (find (λ x. x.id == rid) st''.remittances ≡ some r)
      × (r.variance_reason ≡ some reason)
      × ((r.status ≡ resolved)
          ⊎ ((r.status ≡ disputed)
              × (row' : CodRemittance) × (end : FinanceStore) × (resolve rid st'' ≡ ok (row', end))
              × (row'.status ≡ resolved)
              × (row'.variance_reason ≡ some reason)))
unfolding dispute resolve
disputed_resolves draws tenant_id now rid reason dto ctx st st' st'' row h steps =
    let (r0, found0, _, rows) = transition_lem rid submitted disputed (some reason) st st' row h in
    let first : FoundWith (IsDisputed reason) rid st' = (
      moved_to disputed (some reason) r0,
      rw rows (
          find-update_where (λ x. x.id == rid) (moved_to disputed (some reason)) st.remittances r0
            (λ y e. e) found0),
      (inl refl, refl),
    ) in
    let (r, found, (status, held)) =
      Steps-FoundWith draws (IsDisputed reason) rid st' st''
        (λ x was p. elim p.0 [ inl e ↦ cc (rw e at was) | inr e ↦ cc (rw e at was) ])
        (λ x p. (inr refl, p.1)) steps first in
    elim status [
      | inl e ↦ (
        confirm_refused draws tenant_id now rid dto ctx st'' r found (rw e refl),
        r,
        found,
        held,
        inr (
          e,
          moved_to resolved none r,
          set_remittance rid (moved_to resolved none) st'',
          transition_runs rid disputed resolved none st'' r found (rw e refl),
          refl,
          held,
        ),
      )
      | inr e ↦ (
        confirm_refused draws tenant_id now rid dto ctx st'' r found (rw e refl),
        r,
        found,
        held,
        inl e,
      )
    ]
