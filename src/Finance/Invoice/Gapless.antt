-- ===== src/Finance/Invoice/Gapless.antt =====
-- application/invoice.service.ts: the number series have no gap and no number twice.
use mathlib.Core.Path.{subst}
use system_delivery.Prelude.{
  ℕ, ◌+◌, ◌≡◌, ◌==◌, ltb, leb, refl, sym, ap, ◌∙◌, inl, inr, Bool, true, false, ◌&&◌, none, some,
  List, [], ◌∷◌, ◌++◌, any, find, update_where, All, All-append, All-update_where, Bool-cases,
  arith, ==→eq, find_found,
}
use system_delivery.Finance.Invoice.Totals.{InvoiceKind}
use system_delivery.Finance.Invoice.Tables.{
  is_draft, Invoice, InvoiceStore, BillingSettings, PartySnapshot,
}
use system_delivery.Finance.Invoice.Service.{
  is_row, draft_row, is_series, opened, last_number, issued_row,
}
use system_delivery.Finance.Invoice.Steps.{
  Change, opens, revises, numbers, pays, cancels, keeps, Steps, rests, goes,
}
use system_delivery.Finance.Invoice.Refines.{Step-Change}
use system_delivery.Finance.Invoice.Numbers.{
  is_numbered, count, to_ℕ, IsGapless, IsKeyed, IsUnnumbered, IsSound,
}
use system_delivery.Finance.Invoice.Series.{
  count-append, count-update_where, count_updated, same_series, same_series→eq, set_last,
  last_number-opened, last_number_taken, is_numbered-issued_row,
}

IsKeyed-append :
    (xs : List Invoice) (x : Invoice)
    → IsKeyed xs
    → any (λ y. y.id == x.id) xs ≡ false
    → IsKeyed (xs ++ x ∷ [])
IsKeyed-append [] x k free = (refl, tt)
IsKeyed-append (y ∷ ys) x k free =
    (unlike ys (ground arith) k.0, IsKeyed-append ys x k.1 (ground arith))
  where
    unlike :
        (zs : List Invoice)
        → y.id == x.id ≡ false
        → any (λ z. z.id == y.id) zs ≡ false
        → any (λ z. z.id == y.id) (zs ++ x ∷ []) ≡ false
    unlike [] e h = ground arith
    unlike (z ∷ zs) e h = let rest = unlike zs e (ground arith) in ground arith

any-update_where :
    (q : Invoice → Bool) (f : Invoice → Invoice) (iid : ℕ) (xs : List Invoice)
    → ((x : Invoice) → (f x).id ≡ x.id)
    → any (λ z. z.id == iid) (update_where q f xs) ≡ any (λ z. z.id == iid) xs
any-update_where q f iid [] h = refl
any-update_where q f iid (x ∷ xs) h =
    let rest = any-update_where q f iid xs h in ground (arith, rest, h x)

IsKeyed-update_where :
    (q : Invoice → Bool) (f : Invoice → Invoice) (xs : List Invoice)
    → ((x : Invoice) → (f x).id ≡ x.id)
    → IsKeyed xs
    → IsKeyed (update_where q f xs)
IsKeyed-update_where q f [] h k = tt
IsKeyed-update_where q f (x ∷ xs) h k = elim (Bool-cases (q x)) [
  | inl hit ↦
      rw (hit, h x) (any-update_where q f x.id xs h ∙ k.0, IsKeyed-update_where q f xs h k.1)
  | inr miss ↦ rw miss (any-update_where q f x.id xs h ∙ k.0, IsKeyed-update_where q f xs h k.1)
]

-- An update that leaves numbers, series and keys as they are.
update-IsSound :
    (s s' : InvoiceStore) (t iid : ℕ) (f : Invoice → Invoice)
    → ((x : Invoice) → (f x).id ≡ x.id)
    → ((x : Invoice) → IsUnnumbered x → IsUnnumbered (f x))
    → ((t' : ℕ) (k' : InvoiceKind) (y' i : ℕ) (x : Invoice)
        → is_numbered t' k' y' i (f x) ≡ is_numbered t' k' y' i x)
    → s'.invoices ≡ update_where (is_row t iid) f s.invoices
    → s'.sequences ≡ s.sequences
    → IsSound s
    → IsSound s'
update-IsSound s s' t iid f same_id no_number same_number invoices sequences sound =
    rw (invoices, sequences)
      (record {
        keyed = IsKeyed-update_where (is_row t iid) f s.invoices same_id sound.keyed;
        unnumbered =
            All-update_where (is_row t iid) IsUnnumbered IsUnnumbered f
              (λ x u. elim (Bool-cases (is_row t iid x)) [
                | inl hit ↦ rw hit (no_number x u)
                | inr miss ↦ rw miss u
              ])
              s.invoices sound.unnumbered;
        gapless = λ t' k' y' i.
            count-update_where (is_numbered t' k' y' i) (is_row t iid) f s.invoices
              (same_number t' k' y' i)
            ∙ sound.gapless t' k' y' i;
      })

open-IsSound :
    (s s' : InvoiceStore) (row : Invoice)
    → row.number ≡ none
    → any (λ x. x.id == row.id) s.invoices ≡ false
    → s'.invoices ≡ s.invoices ++ row ∷ []
    → s'.sequences ≡ s.sequences
    → IsSound s
    → IsSound s'
open-IsSound s s' row blank fresh invoices sequences sound =
    rw (invoices, sequences)
      (record {
        keyed = IsKeyed-append s.invoices row sound.keyed fresh;
        unnumbered =
            All-append IsUnnumbered s.invoices (row ∷ []) sound.unnumbered ((λ d. blank), tt);
        gapless = λ t k y i.
            let counted = count-append (is_numbered t k y i) s.invoices row in
            let old = sound.gapless t k y i in
            let none_here : is_numbered t k y i row ≡ false = ground (arith, blank) in
            ground (arith, counted, old, none_here);
      })

-- The row that is found keeps what all rows keep.
All-find :
    (P : Invoice → Type 0) (p : Invoice → Bool) (xs : List Invoice) (x : Invoice)
    → All P xs
    → find p xs ≡ some x
    → P x
All-find P p [] x h e = cc
All-find P p (y ∷ ys) x h e = elim (Bool-cases (p y)) [
  | inl hit ↦ let same : y ≡ x = cc (rw hit at e) in subst P same h.0
  | inr miss ↦ All-find P p ys x h.1 (rw miss at e)
]

module _ (s s' : InvoiceStore) (t iid : ℕ) (x : Invoice) (now y actor_id : ℕ)
    (settings : BillingSettings) (parties : PartySnapshot)
    (found : find (is_row t iid) s.invoices ≡ some x) (waits : is_draft x.status ≡ true)
    (sound : IsSound s) where
  -- The number that the document takes.
  abbrev next : ℕ
  next = last_number t x.kind y s.sequences + 1

  abbrev stamp : Invoice → Invoice
  stamp = issued_row now y next actor_id settings parties

  own_tenant : x.tenant_id ≡ t
  own_tenant =
      let hit = find_found (is_row t iid) s.invoices x found in ==→eq x.tenant_id t (ground arith)

  number-IsGapless :
      (t' : ℕ) (k' : InvoiceKind) (y' i : ℕ)
      → count (is_numbered t' k' y' i) (update_where (is_row t iid) stamp s.invoices)
        ≡ to_ℕ (
            ltb 0 i
            && leb i (
                last_number t' k' y' (
                  update_where
                    (is_series t x.kind y)
                    (set_last next)
                    (opened t x.kind y s.sequences))))
  number-IsGapless t' k' y' i =
      let blank = All-find IsUnnumbered (is_row t iid) s.invoices x sound.unnumbered found waits in
      let none_here : is_numbered t' k' y' i x ≡ false = ground (arith, blank) in
      let counted =
        count_updated (is_numbered t' k' y' i) t iid stamp s.invoices x sound.keyed found
          none_here in
      let mine : is_numbered t' k' y' i (stamp x) ≡ (same_series t x.kind y t' k' y' && next == i) =
        is_numbered-issued_row now y next actor_id settings parties x t' k' y' i
        ∙ ap (λ z. same_series z x.kind y t' k' y' && next == i) own_tenant in
      rw
        (
          last_number_taken t x.kind y next t' k' y' s.sequences,
          counted,
          mine,
          sound.gapless t' k' y' i,
        )
        (elim (Bool-cases (same_series t x.kind y t' k' y')) [
          | inr apart ↦ rw apart (ground arith)
          | inl same ↦
              let (a, b, c) = same_series→eq t x.kind y t' k' y' same in
              rw (same, sym a, sym b, sym c) (ground arith)
        ])

  number-IsSound :
      s'.invoices
        ≡ update_where
            (is_row t iid)
            (issued_row now y
              (last_number t x.kind y (opened t x.kind y s.sequences) + 1)
              actor_id
              settings
              parties)
            s.invoices
      → s'.sequences
        ≡ update_where
            (is_series t x.kind y)
            (λ q. record q {
              last_number = last_number t x.kind y (opened t x.kind y s.sequences) + 1;
            })
            (opened t x.kind y s.sequences)
      → IsSound s'
  number-IsSound invoices sequences =
      let last = last_number-opened t x.kind y t x.kind y s.sequences in
      let i' = rw last at invoices in
      let s'' = rw last at sequences in
      rw (i', s'')
        (record {
          keyed = IsKeyed-update_where (is_row t iid) stamp s.invoices (λ r. refl) sound.keyed;
          unnumbered =
              All-update_where (is_row t iid) IsUnnumbered IsUnnumbered stamp
                (λ r u. elim (Bool-cases (is_row t iid r)) [
                  | inl hit ↦ rw hit (λ d. cc)
                  | inr miss ↦ rw miss u
                ])
                s.invoices sound.unnumbered;
          gapless = number-IsGapless;
        })

Change-IsSound : (s s' : InvoiceStore) → Change s s' → IsSound s → IsSound s'
unfolding draft_row
Change-IsSound s s'
      (opens drawn t m k period c inputs rate stamp corrects notes actor fresh invoices lines
        sequences)
      sound =
    open-IsSound s s' _ refl fresh invoices sequences sound
Change-IsSound s s' (revises t iid x inputs found waits invoices lines sequences) sound =
    update-IsSound s s' t iid _ (λ r. refl) (λ r u. u) (λ t' k' y' i r. refl) invoices sequences
      sound
Change-IsSound s s'
      (numbers t iid x now y actor settings parties found waits filled invoices lines sequences)
      sound =
    number-IsSound s s' t iid x now y actor settings parties found waits sound invoices sequences
Change-IsSound s s' (pays t iid x found due invoices lines sequences) sound =
    update-IsSound s s' t iid _ (λ r. refl) (λ r u d. cc) (λ t' k' y' i r. refl) invoices sequences
      sound
Change-IsSound s s' (cancels t iid x reason found waits invoices lines sequences) sound =
    update-IsSound s s' t iid _ (λ r. refl) (λ r u d. cc) (λ t' k' y' i r. refl) invoices sequences
      sound
Change-IsSound s s' (keeps invoices lines sequences) sound =
    rw (invoices, sequences)
      (record { keyed = sound.keyed; unnumbered = sound.unnumbered; gapless = sound.gapless })

Steps-IsSound :
    (draws year_of : ℕ → ℕ) (s s' : InvoiceStore)
    → Steps draws year_of s s'
    → IsSound s
    → IsSound s'
Steps-IsSound draws year_of s s' rests sound = sound
Steps-IsSound draws year_of s s' (goes {b = b} step steps) sound =
    Steps-IsSound draws year_of b s' steps
      (Change-IsSound s b (Step-Change draws year_of s b step) sound)

-- Whatever committed calls are made of the service on books without documents and series, in any
-- order and by any tenants: in each series of a tenant, a kind and a year, every number from 1 to the
-- last is on exactly one document, no other number is on any, no id is on two documents, and no draft
-- has a number.
pub Steps-IsGapless :
    (draws year_of : ℕ → ℕ) (s s' : InvoiceStore)
    → s.invoices ≡ []
    → s.sequences ≡ []
    → Steps draws year_of s s'
    → IsGapless s' × IsKeyed s'.invoices × All IsUnnumbered s'.invoices
Steps-IsGapless draws year_of s s' no_invoices no_sequences steps =
    let empty : IsSound s =
      rw (no_invoices, no_sequences)
        (record { keyed = tt; unnumbered = tt; gapless = λ t k y i. ground arith }) in
    let sound = Steps-IsSound draws year_of s s' steps empty in
    (sound.gapless, sound.keyed, sound.unnumbered)
