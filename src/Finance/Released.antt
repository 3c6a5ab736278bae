-- ===== src/Finance/Released.antt =====
-- settlement.service.ts, `cancel`: what a settlement leaves behind.
use mathlib.Core.Path.{subst}
use system_delivery.Prelude.{
  ℕ, ◌==◌, ◌≡◌, inl, inr, Bool, false, ◌&&◌, some, List, [], ◌∷◌, arith, find, keep, Bool-cases,
  not, sym, ap, All,
}
use system_delivery.Prelude.Tx.{ok, conflict, guard_ok, settlement_not_cancellable}
use system_delivery.Finance.Store.{
  FinanceStore, Settlement, SettlementShipment, paid, cancelled, draft, approved,
}
use system_delivery.Finance.Settlement.{same_settlement_status, set_settlement, cancel}
use system_delivery.Finance.Payout as Payout
use system_delivery.Finance.Covered.{IsUnique, keep-IsUnique}

abbrev released : ℕ → SettlementShipment → Bool
released sid l = not (l.settlement_id == sid)

keep-All :
    (sid : ℕ) (ls : List SettlementShipment)
    → All (λ l. l.settlement_id == sid ≡ false) (keep (released sid) ls)
keep-All sid [] = tt
keep-All sid (l ∷ ls) = elim (Bool-cases (l.settlement_id == sid)) [
  | inl hit ↦ rw hit (keep-All sid ls)
  | inr miss ↦ rw miss (miss, keep-All sid ls)
]

unpaid :
    (x : Settlement)
    → (not (same_settlement_status x.status draft)
        && not (same_settlement_status x.status approved))
      ≡ false
    → same_settlement_status x.status paid ≡ false
unpaid x closable = ground arith

-- A settlement that was cancelled had not been PAID and holds no shipment any more; where no shipment
-- was in two settlements, none is afterwards.
pub cancel_frees :
    (sid : ℕ) (st st' : FinanceStore) (row : Settlement)
    → IsUnique st.settlement_shipments
    → cancel sid st ≡ ok (row, st')
    → (x : Settlement) × (find (λ y. y.id == sid) st.settlements ≡ some x)
      × (same_settlement_status x.status paid ≡ false)
      × (row ≡ record x { status = cancelled })
      × All (λ l. l.settlement_id == sid ≡ false) st'.settlement_shipments
      × IsUnique st'.settlement_shipments
unfolding cancel
cancel_frees sid st st' row u h = Payout.load_ok sid st _ h (λ x found h0.
    guard_ok
      (not (same_settlement_status x.status draft)
        && not (same_settlement_status x.status approved))
      (conflict settlement_not_cancellable) _ st h0
      (λ closable h1.
        let mid : FinanceStore = record st {
          settlement_shipments = keep (released sid) st.settlement_shipments;
        } in
        let done =
          Payout.update_found sid (λ y. record y { status = cancelled }) mid x (λ y e. e) found in
        let same : set_settlement sid (λ y. record y { status = cancelled }) mid ≡ st' =
          cc (done, h1) in
        let row_same : record x { status = cancelled } ≡ row = cc (done, h1) in
        let links : keep (released sid) st.settlement_shipments ≡ st'.settlement_shipments =
          ap (λ s. s.settlement_shipments) same in
        (
          x,
          found,
          unpaid x closable,
          sym row_same,
          subst (All (λ l. l.settlement_id == sid ≡ false)) links
              (keep-All sid st.settlement_shipments),
          subst IsUnique links (keep-IsUnique (released sid) st.settlement_shipments u),
        )))
