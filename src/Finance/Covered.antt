-- ===== src/Finance/Covered.antt =====
-- settlement.service.ts: a shipment is settled once.
use mathlib.Core.Path.{subst}
use system_delivery.Prelude.{
  ℕ, ◌==◌, ◌≡◌, refl, inl, inr, Bool, true, false, ◌&&◌, ◌||◌, none, some, List, [], ◌∷◌, ◌++◌,
  String, arith, find, keep, Bool-cases, Option-cases, not, sym, ◌∙◌, ap, All, or_else,
}
use system_delivery.Prelude.Int.{ℤ, pos, ltb_ℤ, ◌<ℤ◌, ◌≤ℤ◌, +ℤ_parts}
use system_delivery.Prelude.Tx.{
  Tx, internal, ok, err, business_rule, ◌>>◌, bind_ok, bind_at, guard_ok, nothing_to_settle,
  settlement_fees_exceed_gross,
}
use system_delivery.Finance.LedgerService.{LedgerEntry, account_where}
use system_delivery.Finance.Store.{FinanceStore, Settlement, SettlementShipment}
use system_delivery.Finance.Payout.{IsPayable, draft_row-IsPayable}
use system_delivery.Finance.Settlement.{
  SettlementContext, CreateSettlement, is_nil, is_covered, is_collection, gross_of, settleable,
  settleable_rows, payable_of, draft_row, link_of, insert_links, insert_settlement_shipments,
  create_draft,
}

-- No tenant has a shipment in two settlements.
abbrev pub IsUnique : List SettlementShipment → Type 0
IsUnique [] = Unit
IsUnique (l ∷ ls) = (is_covered l.tenant_id ls l.shipment_id ≡ false) × IsUnique ls

covered-append :
    (t s : ℕ) (ls : List SettlementShipment) (l : SettlementShipment)
    → is_covered t (ls ++ l ∷ []) s
      ≡ (is_covered t ls s || (l.tenant_id == t && l.shipment_id == s))
covered-append t s [] l = ground arith
covered-append t s (y ∷ ls) l = ground (arith, covered-append t s ls l)

IsUnique-append :
    (ls : List SettlementShipment) (l : SettlementShipment)
    → IsUnique ls
    → is_covered l.tenant_id ls l.shipment_id ≡ false
    → IsUnique (ls ++ l ∷ [])
IsUnique-append [] l u free = (refl, tt)
IsUnique-append (y ∷ ls) l u free = (
  ground (arith, covered-append y.tenant_id y.shipment_id ls l),
  IsUnique-append ls l u.1 (ground arith),
)

keep-uncovered :
    (p : SettlementShipment → Bool) (t s : ℕ) (ls : List SettlementShipment)
    → is_covered t ls s ≡ false
    → is_covered t (keep p ls) s ≡ false
keep-uncovered p t s [] h = refl
keep-uncovered p t s (l ∷ ls) h = let rest = keep-uncovered p t s ls (ground arith) in ground arith

pub keep-IsUnique :
    (p : SettlementShipment → Bool) (ls : List SettlementShipment)
    → IsUnique ls
    → IsUnique (keep p ls)
keep-IsUnique p [] u = tt
keep-IsUnique p (l ∷ ls) u = elim (Bool-cases (p l)) [
  | inl kept ↦ rw kept (keep-uncovered p l.tenant_id l.shipment_id ls u.0, keep-IsUnique p ls u.1)
  | inr dropped ↦ rw dropped (keep-IsUnique p ls u.1)
]

-- What an insert of the links of a settlement has done.
record Linked (t : ℕ) (rows : List (ℕ × ℤ)) (links links' : List SettlementShipment) : Type 0 where
  unique : IsUnique links → IsUnique links'
  later : (s : ℕ) → is_covered t links s ≡ true → is_covered t links' s ≡ true
  holds : All (λ r. is_covered t links' r.0 ≡ true) rows

covered_now :
    (t sid : ℕ) (row : ℕ × ℤ) (links : List SettlementShipment)
    → is_covered t (links ++ link_of t sid row ∷ []) row.0 ≡ true
covered_now t sid row links = ground (arith, covered-append t row.0 links (link_of t sid row))

covered_still :
    (t s : ℕ) (l : SettlementShipment) (links : List SettlementShipment)
    → is_covered t links s ≡ true
    → is_covered t (links ++ l ∷ []) s ≡ true
covered_still t s l links h = ground (arith, covered-append t s links l)

insert_links-Linked :
    (t sid : ℕ) (rows : List (ℕ × ℤ)) (links links' : List SettlementShipment)
    → insert_links t sid rows links ≡ some links'
    → Linked t rows links links'
unfolding insert_links
insert_links-Linked t sid [] links links' h =
    let same : links ≡ links' = cc h in
    subst (Linked t [] links) same (record { unique = λ u. u; later = λ s e. e; holds = tt })
insert_links-Linked t sid (row ∷ rows) links links' h =
    elim (Bool-cases (is_covered t links row.0)) [
      | inl taken ↦ cc (rw taken at h)
      | inr free ↦
          let next = links ++ link_of t sid row ∷ [] in
          let r = insert_links-Linked t sid rows next links' (rw free at h) in
          record {
            unique = λ u. r.unique (IsUnique-append links (link_of t sid row) u free);
            later = λ s e. r.later s (covered_still t s (link_of t sid row) links e);
            holds = (r.later row.0 (covered_now t sid row links), r.holds);
          }
    ]

-- Once every row of a query is covered, the same query finds nothing.
settleable-covered :
    (date_of : ℕ → ℕ) (t account_id : ℕ) (dto : CreateSettlement)
    (links links' : List SettlementShipment) (es : List LedgerEntry)
    → ((s : ℕ) → is_covered t links s ≡ true → is_covered t links' s ≡ true)
    → All (λ r. is_covered t links' r.0 ≡ true) (settleable date_of t account_id dto links es)
    → settleable date_of t account_id dto links' es ≡ []
unfolding settleable
settleable-covered date_of t account_id dto links links' [] later all = refl
settleable-covered date_of t account_id dto links links' (e ∷ es) later all =
    elim (Option-cases e.shipment_id) [
      | inl missing ↦
          rw missing
            (settleable-covered date_of t account_id dto links links' es later (rw missing at all))
      | inr (s, has) ↦ elim (Bool-cases (is_collection date_of t account_id dto e)) [
        | inr other ↦
            rw (has, other)
              (settleable-covered date_of t account_id dto links links' es later
                (rw (has, other) at all))
        | inl collects ↦ elim (Bool-cases (is_covered t links s)) [
          | inl before ↦
              rw (has, collects, later s before)
                (settleable-covered date_of t account_id dto links links' es later
                  (rw (has, collects, before) at all))
          | inr fresh ↦
              let both = rw (has, collects, fresh) at all in
              rw (has, collects, both.0)
                (settleable-covered date_of t account_id dto links links' es later both.1)
        ]
      ]
    ]

-- The steps of a draft that succeeded.
record Drafted (draws date_of : ℕ → ℕ) (t : ℕ) (code : String) (dto : CreateSettlement)
    (ctx : SettlementContext) (st st' : FinanceStore) (row : Settlement) : Type 0 where
  rows : List (ℕ × ℤ)
  drafts : row ≡ draft_row (draws st.ledger.drawn) t code dto ctx rows
  found : rows ≡ settleable_rows date_of t dto st
  some_rows : is_nil rows ≡ false
  covers_fees : ltb_ℤ (gross_of rows) (or_else dto.delivery_fees_minor (pos 0)) ≡ false
  links :
      insert_links t (draws st.ledger.drawn) rows st.settlement_shipments
      ≡ some st'.settlement_shipments
  accounts : st'.ledger.accounts ≡ st.ledger.accounts
  entries : st'.ledger.entries ≡ st.ledger.entries

inserted :
    (t sid : ℕ) (rows : List (ℕ × ℤ)) (s : FinanceStore) (links : List SettlementShipment)
    → insert_links t sid rows s.settlement_shipments ≡ some links
    → insert_settlement_shipments t sid rows s ≡ ok (tt, record s { settlement_shipments = links })
unfolding insert_settlement_shipments
inserted t sid rows s links h = rw (h, insert_settlement_shipments)

refused :
    (t sid : ℕ) (rows : List (ℕ × ℤ)) (s : FinanceStore)
    → insert_links t sid rows s.settlement_shipments ≡ none
    → insert_settlement_shipments t sid rows s ≡ err internal
unfolding insert_settlement_shipments
refused t sid rows s h = rw (h, insert_settlement_shipments)

insert_ok :
    {B P : Type 0} (t sid : ℕ) (rows : List (ℕ × ℤ)) (s : FinanceStore) (m : Tx FinanceStore B)
    {res : B × FinanceStore}
    → (insert_settlement_shipments t sid rows >> m) s ≡ ok res
    → ((links : List SettlementShipment)
        → insert_links t sid rows s.settlement_shipments ≡ some links
        → m (record s { settlement_shipments = links }) ≡ ok res
        → P)
    → P
insert_ok t sid rows s m h k =
    elim (Option-cases (insert_links t sid rows s.settlement_shipments)) [
      | inr (links, e) ↦ k links e (bind_at (λ _. m) (inserted t sid rows s links e) h)
      | inl e ↦
          bind_ok (insert_settlement_shipments t sid rows s) _ h
            (λ a s1 e1 h1. cc (refused t sid rows s e, e1))
    ]

create_draft-Drafted :
    (draws date_of : ℕ → ℕ) (t : ℕ) (code : String) (dto : CreateSettlement)
    (ctx : SettlementContext) (st st' : FinanceStore) (row : Settlement)
    → create_draft draws date_of t code dto ctx st ≡ ok (row, st')
    → Drafted draws date_of t code dto ctx st st' row
unfolding create_draft
create_draft-Drafted draws date_of t code dto ctx st st' row h =
    guard_ok (is_nil (settleable_rows date_of t dto st)) (business_rule nothing_to_settle) _ st h
      (λ some_rows h1.
        guard_ok
          (ltb_ℤ (gross_of (settleable_rows date_of t dto st))
            (or_else dto.delivery_fees_minor (pos 0)))
          (business_rule settlement_fees_exceed_gross) _ st h1
          (λ covers h2.
            insert_ok t (draws st.ledger.drawn) (settleable_rows date_of t dto st) _ _ h2
              (λ links e h3.
                let row_same : draft_row (draws st.ledger.drawn) t code dto ctx
                      (settleable_rows date_of t dto st)
                    ≡ row =
                  cc h3 in
                record {
                  rows = settleable_rows date_of t dto st;
                  drafts = sym row_same;
                  found = refl;
                  some_rows = some_rows;
                  covers_fees = covers;
                  links = cc (e, h3);
                  accounts = cc h3;
                  entries = cc h3;
                })))

nothing_left :
    (draws date_of : ℕ → ℕ) (t : ℕ) (code : String) (dto : CreateSettlement)
    (ctx : SettlementContext) (st : FinanceStore)
    → settleable_rows date_of t dto st ≡ []
    → create_draft draws date_of t code dto ctx st ≡ err (business_rule nothing_to_settle)
unfolding create_draft
nothing_left draws date_of t code dto ctx st h = rw (h, create_draft)

settled_rows :
    (date_of : ℕ → ℕ) (t : ℕ) (dto : CreateSettlement) (st st' : FinanceStore)
    → st'.ledger.accounts ≡ st.ledger.accounts
    → st'.ledger.entries ≡ st.ledger.entries
    → ((s : ℕ)
        → is_covered t st.settlement_shipments s ≡ true
        → is_covered t st'.settlement_shipments s ≡ true)
    → All (λ r. is_covered t st'.settlement_shipments r.0 ≡ true) (settleable_rows date_of t dto st)
    → settleable_rows date_of t dto st' ≡ []
unfolding settleable_rows
settled_rows date_of t dto st st' same_accounts same_entries later all =
    let there : find (account_where t dto.currency (payable_of dto.merchant_id)) st'.ledger.accounts
        ≡ find (account_where t dto.currency (payable_of dto.merchant_id)) st.ledger.accounts =
      ap (find (account_where t dto.currency (payable_of dto.merchant_id))) same_accounts in
    elim (Option-cases
      (find (account_where t dto.currency (payable_of dto.merchant_id)) st.ledger.accounts)) [
        | inl missing ↦ rw (there ∙ missing, settleable_rows) refl
        | inr (a, has) ↦
            rw (there ∙ has, same_entries, settleable_rows)
              (settleable-covered date_of t a.id dto st.settlement_shipments
                st'.settlement_shipments st.ledger.entries later (rw (has, settleable_rows) at all))
      ]

-- Where no shipment is in two settlements, a draft that succeeds keeps it so, and the same request
-- made again finds nothing to settle.
pub create_draft_once :
    (draws date_of : ℕ → ℕ) (t : ℕ) (code code' : String) (dto : CreateSettlement)
    (ctx ctx' : SettlementContext) (st st' : FinanceStore) (row : Settlement)
    → IsUnique st.settlement_shipments
    → create_draft draws date_of t code dto ctx st ≡ ok (row, st')
    → IsUnique st'.settlement_shipments
      × (create_draft draws date_of t code' dto ctx' st' ≡ err (business_rule nothing_to_settle))
create_draft_once draws date_of t code code' dto ctx ctx' st st' row u h =
    let d = create_draft-Drafted draws date_of t code dto ctx st st' row h in
    let linked =
      insert_links-Linked t (draws st.ledger.drawn) d.rows st.settlement_shipments
        st'.settlement_shipments d.links in
    (
      linked.unique u,
      nothing_left draws date_of t code' dto ctx' st' (
          settled_rows date_of t dto st st' d.accounts d.entries linked.later
            (rw d.found at linked.holds)),
    )

settleable-positive :
    (date_of : ℕ → ℕ) (t account_id : ℕ) (dto : CreateSettlement) (links : List SettlementShipment)
    (es : List LedgerEntry)
    → All (λ e. pos 0 <ℤ e.amount_minor) es
    → All (λ r. pos 0 <ℤ r.1) (settleable date_of t account_id dto links es)
unfolding settleable
settleable-positive date_of t account_id dto links [] all = tt
settleable-positive date_of t account_id dto links (e ∷ es) all =
    let rest = settleable-positive date_of t account_id dto links es all.1 in
    elim (Option-cases e.shipment_id) [
      | inl missing ↦ rw missing rest
      | inr (s, has) ↦
          elim (Bool-cases
            (is_collection date_of t account_id dto e && not (is_covered t links s))) [
              | inl taken ↦ rw (has, taken) (all.0, rest)
              | inr passed ↦ rw (has, passed) rest
            ]
    ]

rows-positive :
    (date_of : ℕ → ℕ) (t : ℕ) (dto : CreateSettlement) (st : FinanceStore)
    → All (λ e. pos 0 <ℤ e.amount_minor) st.ledger.entries
    → All (λ r. pos 0 <ℤ r.1) (settleable_rows date_of t dto st)
unfolding settleable_rows
rows-positive date_of t dto st all =
    elim (Option-cases
      (find (account_where t dto.currency (payable_of dto.merchant_id)) st.ledger.accounts)) [
        | inl missing ↦ rw (missing, settleable_rows) tt
        | inr (a, has) ↦
            rw (has, settleable_rows)
              (settleable-positive date_of t a.id dto st.settlement_shipments st.ledger.entries all)
      ]

gross_nonnegative : (rows : List (ℕ × ℤ)) → All (λ r. pos 0 <ℤ r.1) rows → pos 0 ≤ℤ gross_of rows
gross_nonnegative [] all = omega arith
gross_nonnegative (r ∷ rows) all =
    ground (arith, gross_nonnegative rows all.1, +ℤ_parts r.1 (gross_of rows), all.0)

gross_positive :
    (rows : List (ℕ × ℤ))
    → is_nil rows ≡ false
    → All (λ r. pos 0 <ℤ r.1) rows
    → pos 0 <ℤ gross_of rows
gross_positive [] some_rows all = cc
gross_positive (r ∷ rows) some_rows all =
    ground (arith, gross_nonnegative rows all.1, +ℤ_parts r.1 (gross_of rows), all.0)

-- Where every entry of the ledger is positive and the fees asked for are not negative, a draft that
-- succeeds can be paid: gross is positive and is net plus fees, neither of them negative.
pub create_draft-IsPayable :
    (draws date_of : ℕ → ℕ) (t : ℕ) (code : String) (dto : CreateSettlement)
    (ctx : SettlementContext) (st st' : FinanceStore) (row : Settlement)
    → All (λ e. pos 0 <ℤ e.amount_minor) st.ledger.entries
    → pos 0 ≤ℤ or_else dto.delivery_fees_minor (pos 0)
    → create_draft draws date_of t code dto ctx st ≡ ok (row, st')
    → IsPayable row
create_draft-IsPayable draws date_of t code dto ctx st st' row all fees h =
    let d = create_draft-Drafted draws date_of t code dto ctx st st' row h in
    let positive : All (λ r. pos 0 <ℤ r.1) d.rows =
      subst (All (λ r. pos 0 <ℤ r.1)) (sym d.found) (rows-positive date_of t dto st all) in
    subst IsPayable (sym d.drafts) (
      draft_row-IsPayable (draws st.ledger.drawn) t code dto ctx d.rows
        (gross_positive d.rows d.some_rows positive) d.covers_fees fees)
