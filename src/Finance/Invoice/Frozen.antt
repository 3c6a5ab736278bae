-- ===== src/Finance/Invoice/Frozen.antt =====
-- application/invoice.service.ts: an issued document is not changed any more.
use system_delivery.Prelude.{
  ℕ, ◌≡◌, ◌==◌, ◌⊎◌, refl, sym, ap, ◌∙◌, inl, inr, Bool, true, false, ◌&&◌, not, some, List, [],
  ◌∷◌, ◌++◌, any, find, keep, map, update_where, Bool-cases, arith, ==→eq, keep-append, append_nil,
  find-update_where,
}
use system_delivery.Finance.Invoice.Totals.{InvoiceLineTotals}
use system_delivery.Finance.Invoice.Tables.{
  is_draft, is_issued, paid, Invoice, InvoiceLine, InvoiceStore,
}
use system_delivery.Finance.Invoice.Service.{is_row, lines_of, line_row, replace_lines, draft_row}
use system_delivery.Finance.Invoice.Steps.{
  Change, opens, revises, numbers, pays, cancels, keeps, Step,
}
use system_delivery.Finance.Invoice.Refines.{Step-Change}

module _ (t iid : ℕ) where
  -- Another row's update does not touch the row that is found.
  find_other :
      (t' iid' : ℕ) (f : Invoice → Invoice) (xs : List Invoice) (x : Invoice)
      → ((y : Invoice) → (f y).id ≡ y.id)
      → ((y : Invoice) → (f y).tenant_id ≡ y.tenant_id)
      → iid == iid' && t == t' ≡ false
      → find (is_row t iid) xs ≡ some x
      → find (is_row t iid) (update_where (is_row t' iid') f xs) ≡ some x
  find_other t' iid' f [] x i o apart e = cc
  find_other t' iid' f (y ∷ ys) x i o apart e = elim (Bool-cases (is_row t iid y)) [
    | inr miss ↦
        let rest = find_other t' iid' f ys x i o apart (rw miss at e) in
        elim (Bool-cases (is_row t' iid' y)) [
          | inl theirs ↦ rw (theirs, i y, o y, miss) rest
          | inr neither ↦ rw (neither, miss) rest
        ]
    | inl mine ↦
        let other : is_row t' iid' y ≡ false = ground (arith, mine, apart) in
        rw (other, mine) (rw mine at e)
  ]

  find-append :
      (xs : List Invoice) (y x : Invoice)
      → find (is_row t iid) xs ≡ some x
      → find (is_row t iid) (xs ++ y ∷ []) ≡ some x
  find-append [] y x e = cc
  find-append (z ∷ zs) y x e = elim (Bool-cases (is_row t iid z)) [
    | inl hit ↦ rw hit (rw hit at e)
    | inr miss ↦ rw miss (find-append zs y x (rw miss at e))
  ]

  abbrev mine : InvoiceLine → Bool
  mine l = l.invoice_id == iid && l.tenant_id == t

  keep-keep_other :
      (t' iid' : ℕ) (ls : List InvoiceLine)
      → iid == iid' && t == t' ≡ false
      → keep mine (keep (λ l. not (l.invoice_id == iid' && l.tenant_id == t')) ls) ≡ keep mine ls
  keep-keep_other t' iid' [] apart = refl
  keep-keep_other t' iid' (l ∷ ls) apart =
      let rest = keep-keep_other t' iid' ls apart in
      elim (Bool-cases (mine l)) [
        | inl own ↦
            let kept : (l.invoice_id == iid' && l.tenant_id == t') ≡ false =
              ground (arith, own, apart) in
            rw (kept, own) (ap (λ z. l ∷ z) rest)
        | inr other ↦ elim (Bool-cases (l.invoice_id == iid' && l.tenant_id == t')) [
          | inl gone ↦ rw (gone, other) rest
          | inr kept ↦ rw (kept, other) rest
        ]
      ]

  none_mine :
      (t' iid' : ℕ) (lines : List InvoiceLineTotals)
      → iid == iid' && t == t' ≡ false
      → keep mine (map (line_row t' iid') lines) ≡ []
  none_mine t' iid' [] apart = refl
  none_mine t' iid' (l ∷ ls) apart =
      let other : mine (line_row t' iid' l) ≡ false = ground (arith, apart) in
      rw other (none_mine t' iid' ls apart)

  -- New lines of another document leave the lines of this one.
  lines-replace_lines :
      (t' iid' : ℕ) (lines : List InvoiceLineTotals) (s s' : InvoiceStore)
      → iid == iid' && t == t' ≡ false
      → s'.lines ≡ (replace_lines t' iid' lines s).lines
      → lines_of t iid s' ≡ lines_of t iid s
  lines-replace_lines t' iid' lines s s' apart e = rw e (
      keep-append mine (keep (λ l. not (l.invoice_id == iid' && l.tenant_id == t')) s.lines)
        (map (line_row t' iid') lines)
      ∙ rw (keep-keep_other t' iid' s.lines apart, none_mine t' iid' lines apart)
          (append_nil (keep mine s.lines)))

  fresh_apart :
      (t' drawn : ℕ) (xs : List Invoice) (x : Invoice)
      → any (λ y. y.id == drawn) xs ≡ false
      → find (is_row t iid) xs ≡ some x
      → iid == drawn && t == t' ≡ false
  fresh_apart t' drawn [] x fresh e = cc
  fresh_apart t' drawn (y ∷ ys) x fresh e = elim (Bool-cases (is_row t iid y)) [
    | inl hit ↦ ground (arith, hit, fresh)
    | inr miss ↦ fresh_apart t' drawn ys x (ground (arith, fresh)) (rw miss at e)
  ]

  draft_apart :
      (t' iid' : ℕ) (xs : List Invoice) (x y : Invoice)
      → find (is_row t' iid') xs ≡ some y
      → is_draft y.status ≡ true
      → find (is_row t iid) xs ≡ some x
      → is_draft x.status ≡ false
      → iid == iid' && t == t' ≡ false
  draft_apart t' iid' xs x y theirs open_ours mine_here closed =
      elim (Bool-cases (iid == iid' && t == t')) [
        | inr apart ↦ apart
        | inl same ↦
            let a : iid ≡ iid' = ==→eq iid iid' (ground (arith, same)) in
            let b : t ≡ t' = ==→eq t t' (ground (arith, same)) in
            let one : some x ≡ some y = sym (rw (a, b) at mine_here) ∙ theirs in
            cc (one, open_ours, closed)
      ]

  -- What a document that is no draft may become: itself, or the same marked as paid.
  abbrev pub Becomes : Invoice → Invoice → Type 0
  Becomes x x' = (x' ≡ x) ⊎ (is_issued x.status ≡ true) × (x' ≡ record x { status = paid })

  abbrev pub IsFrozen : InvoiceStore → InvoiceStore → Invoice → Type 0
  IsFrozen s s' x =
      (x' : Invoice) × (find (is_row t iid) s'.invoices ≡ some x')
      × Becomes x x'
      × (lines_of t iid s' ≡ lines_of t iid s)

  other-IsFrozen :
      (s s' : InvoiceStore) (x : Invoice) (t' iid' : ℕ) (f : Invoice → Invoice)
      → ((y : Invoice) → (f y).id ≡ y.id)
      → ((y : Invoice) → (f y).tenant_id ≡ y.tenant_id)
      → iid == iid' && t == t' ≡ false
      → find (is_row t iid) s.invoices ≡ some x
      → s'.invoices ≡ update_where (is_row t' iid') f s.invoices
      → lines_of t iid s' ≡ lines_of t iid s
      → IsFrozen s s' x
  other-IsFrozen s s' x t' iid' f i o apart found invoices lines =
      (x, rw invoices (find_other t' iid' f s.invoices x i o apart found), inl refl, lines)

  Change-IsFrozen :
      (s s' : InvoiceStore) (x : Invoice)
      → Change s s'
      → find (is_row t iid) s.invoices ≡ some x
      → is_draft x.status ≡ false
      → IsFrozen s s' x
  unfolding draft_row
  Change-IsFrozen s s' x
        (opens drawn t' m k period c inputs rate stamp corrects notes actor fresh invoices lines
          sequences)
        found closed =
      (
        x,
        rw invoices (find-append s.invoices _ x found),
        inl refl,
        lines-replace_lines t' drawn _ s s' (fresh_apart t' drawn s.invoices x fresh found) lines,
      )
  Change-IsFrozen s s' x (revises t' iid' y inputs theirs waits invoices lines sequences) found
        closed =
      let apart = draft_apart t' iid' s.invoices x y theirs waits found closed in
      other-IsFrozen s s' x t' iid' _ (λ r. refl) (λ r. refl) apart found invoices
        (lines-replace_lines t' iid' _ s s' apart lines)
  Change-IsFrozen s s' x
        (numbers t' iid' y now year actor settings parties theirs waits filled invoices lines
          sequences)
        found closed =
      let apart = draft_apart t' iid' s.invoices x y theirs waits found closed in
      other-IsFrozen s s' x t' iid' _ (λ r. refl) (λ r. refl) apart found invoices
        (ap (λ ls. keep mine ls) lines)
  Change-IsFrozen s s' x (cancels t' iid' y reason theirs waits invoices lines sequences) found
        closed =
      let apart = draft_apart t' iid' s.invoices x y theirs waits found closed in
      other-IsFrozen s s' x t' iid' _ (λ r. refl) (λ r. refl) apart found invoices
        (ap (λ ls. keep mine ls) lines)
  Change-IsFrozen s s' x (keeps invoices lines sequences) found closed =
      (x, rw invoices found, inl refl, ap (λ ls. keep mine ls) lines)
  Change-IsFrozen s s' x (pays t' iid' y theirs due invoices lines sequences) found closed =
      elim (Bool-cases (iid == iid' && t == t')) [
        | inr apart ↦
            other-IsFrozen s s' x t' iid' _ (λ r. refl) (λ r. refl) apart found invoices
              (ap (λ ls. keep mine ls) lines)
        | inl same ↦
            let a : iid ≡ iid' = ==→eq iid iid' (ground (arith, same)) in
            let b : t ≡ t' = ==→eq t t' (ground (arith, same)) in
            let one : some x ≡ some y = sym (rw (a, b) at found) ∙ theirs in
            let is_x : y ≡ x = cc one in
            (
              record x { status = paid },
              rw (invoices, sym a, sym b)
                  (find-update_where (is_row t iid) (λ r. record r { status = paid }) s.invoices x
                    (λ r h. h) found),
              inr (cc (due, is_x), refl),
              ap (λ ls. keep mine ls) lines,
            )
      ]

-- After any committed call of the service, a document that was no draft stands as it stood, with its
-- number, its figures and its lines, but that an issued one may be marked as paid.
pub Step-IsFrozen :
    (draws year_of : ℕ → ℕ) (s s' : InvoiceStore) (t iid : ℕ) (x : Invoice)
    → Step draws year_of s s'
    → find (is_row t iid) s.invoices ≡ some x
    → is_draft x.status ≡ false
    → IsFrozen t iid s s' x
Step-IsFrozen draws year_of s s' t iid x step found closed =
    Change-IsFrozen t iid s s' x (Step-Change draws year_of s s' step) found closed
