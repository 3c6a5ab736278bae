-- ===== src/Finance/Invoice/Series.antt =====
-- application/invoice.service.ts: what an update does to the documents with a number and to the
-- series.
use system_delivery.Prelude.{
  ℕ, ◌+◌, ◌≡◌, ◌==◌, refl, sym, ◌∙◌, inl, inr, Bool, true, false, ◌&&◌, some, List, [], ◌∷◌, ◌++◌,
  any, find, update_where, if◌then◌else◌, Bool-cases, arith, ==→eq, ==_self,
}
use system_delivery.Finance.Invoice.Totals.{InvoiceKind, invoice, credit_note}
use system_delivery.Finance.Invoice.Tables.{
  same_kind, Invoice, InvoiceSequence, BillingSettings, PartySnapshot,
}
use system_delivery.Finance.Invoice.Service.{is_row, is_series, opened, last_number, issued_row}
use system_delivery.Finance.Invoice.Numbers.{same_number, is_numbered, count, to_ℕ, IsKeyed}

pub count-append :
    {A : Type 0} (p : A → Bool) (xs : List A) (x : A)
    → count p (xs ++ x ∷ []) ≡ count p xs + to_ℕ (p x)
count-append p [] x = ground arith
count-append p (y ∷ ys) x = ground (arith, count-append p ys x)

-- An update that changes no test changes no count.
pub count-update_where :
    {A : Type 0} (p q : A → Bool) (f : A → A) (xs : List A)
    → ((x : A) → p (f x) ≡ p x)
    → count p (update_where q f xs) ≡ count p xs
count-update_where p q f [] h = refl
count-update_where p q f (x ∷ xs) h =
    let rest = count-update_where p q f xs h in ground (arith, rest, h x)

no_match :
    (t iid : ℕ) (f : Invoice → Invoice) (xs : List Invoice)
    → any (λ y. y.id == iid) xs ≡ false
    → update_where (is_row t iid) f xs ≡ xs
no_match t iid f [] h = refl
no_match t iid f (x ∷ xs) h =
    let rest = no_match t iid f xs (ground arith) in
    let other : is_row t iid x ≡ false = ground arith in rw (other, rest) refl

-- An update of the one row with an id counts that row anew.
pub count_updated :
    (p : Invoice → Bool) (t iid : ℕ) (f : Invoice → Invoice) (xs : List Invoice) (x : Invoice)
    → IsKeyed xs
    → find (is_row t iid) xs ≡ some x
    → p x ≡ false
    → count p (update_where (is_row t iid) f xs) ≡ count p xs + to_ℕ (p (f x))
count_updated p t iid f [] x keyed found h = cc
count_updated p t iid f (y ∷ ys) x keyed found h = elim (Bool-cases (is_row t iid y)) [
  | inr other ↦
      let rest = count_updated p t iid f ys x keyed.1 (rw other at found) h in
      rw other (ground (arith, rest))
  | inl hit ↦
      let same : y ≡ x = cc (rw hit at found) in
      let key : y.id ≡ iid = ==→eq y.id iid (ground arith) in
      rw (hit, no_match t iid f ys (rw key at keyed.0), same, h) (ground arith)
]

abbrev pub same_series : ℕ → InvoiceKind → ℕ → ℕ → InvoiceKind → ℕ → Bool
same_series t k y t' k' y' = t == t' && same_kind k k' && y == y'

same_kind→eq : (k k' : InvoiceKind) → same_kind k k' ≡ true → k ≡ k'
same_kind→eq invoice invoice h = refl
same_kind→eq credit_note credit_note h = refl
same_kind→eq invoice credit_note h = cc
same_kind→eq credit_note invoice h = cc

same_kind_self : (k : InvoiceKind) → same_kind k k ≡ true
same_kind_self invoice = refl
same_kind_self credit_note = refl

pub same_series→eq :
    (t : ℕ) (k : InvoiceKind) (y t' : ℕ) (k' : InvoiceKind) (y' : ℕ)
    → same_series t k y t' k' y' ≡ true
    → (t ≡ t') × (k ≡ k') × (y ≡ y')
same_series→eq t k y t' k' y' h =
    (==→eq t t' (ground arith), same_kind→eq k k' (ground arith), ==→eq y y' (ground arith))

abbrev pub set_last : ℕ → InvoiceSequence → InvoiceSequence
set_last n q = record q { last_number = n }

last_number-append :
    (t : ℕ) (k : InvoiceKind) (y : ℕ) (rows : List InvoiceSequence) (q : InvoiceSequence)
    → q.last_number ≡ 0
    → last_number t k y (rows ++ q ∷ []) ≡ last_number t k y rows
last_number-append t k y [] q h = elim (Bool-cases (is_series t k y q)) [
  | inl hit ↦ rw (hit, last_number) h
  | inr miss ↦ rw (miss, last_number) refl
]
last_number-append t k y (r ∷ rows) q h = elim (Bool-cases (is_series t k y r)) [
  | inl hit ↦ rw (hit, last_number) refl
  | inr miss ↦ rw (miss, last_number) (last_number-append t k y rows q h)
]

pub last_number-opened :
    (t : ℕ) (k : InvoiceKind) (y t' : ℕ) (k' : InvoiceKind) (y' : ℕ) (rows : List InvoiceSequence)
    → last_number t' k' y' (opened t k y rows) ≡ last_number t' k' y' rows
last_number-opened t k y t' k' y' rows = elim (Bool-cases (any (is_series t k y) rows)) [
  | inl there ↦ rw there refl
  | inr fresh ↦ rw fresh (last_number-append t' k' y' rows _ refl)
]

any-append :
    {A : Type 0} (p : A → Bool) (xs : List A) (x : A) → p x ≡ true → any p (xs ++ x ∷ []) ≡ true
any-append p [] x h = ground arith
any-append p (y ∷ ys) x h = ground (arith, any-append p ys x h)

any-opened :
    (t : ℕ) (k : InvoiceKind) (y : ℕ) (rows : List InvoiceSequence)
    → any (is_series t k y) (opened t k y rows) ≡ true
any-opened t k y rows = elim (Bool-cases (any (is_series t k y) rows)) [
  | inl there ↦ rw (there, there) refl
  | inr fresh ↦
      rw fresh
        (any-append (is_series t k y) rows _ (rw (==_self t, same_kind_self k, ==_self y) refl))
]

-- Which series a row is of.
is_series-same_series :
    (t : ℕ) (k : InvoiceKind) (y t' : ℕ) (k' : InvoiceKind) (y' : ℕ) (q : InvoiceSequence)
    → is_series t k y q ≡ true
    → is_series t' k' y' q ≡ same_series t k y t' k' y'
is_series-same_series t k y t' k' y' q h =
    let (a, b, c) = same_series→eq q.tenant_id q.kind q.year t k y h in rw (a, b, c) refl

other_series :
    (t : ℕ) (k : InvoiceKind) (y t' : ℕ) (k' : InvoiceKind) (y' : ℕ) (q : InvoiceSequence)
    → is_series t' k' y' q ≡ true
    → is_series t k y q ≡ false
    → same_series t k y t' k' y' ≡ false
other_series t k y t' k' y' q here other = elim (Bool-cases (same_series t k y t' k' y')) [
  | inr apart ↦ apart
  | inl same ↦ let (a, b, c) = same_series→eq t k y t' k' y' same in cc (other, here, a, b, c)
]

-- The update of a series sets its last number and no other.
last_number-set_last :
    (t : ℕ) (k : InvoiceKind) (y n t' : ℕ) (k' : InvoiceKind) (y' : ℕ) (rows : List InvoiceSequence)
    → last_number t' k' y' (update_where (is_series t k y) (set_last n) rows) ≡ (
        if same_series t k y t' k' y' && any (is_series t k y) rows
        then n
        else last_number t' k' y' rows)
last_number-set_last t k y n t' k' y' [] = ground arith
last_number-set_last t k y n t' k' y' (q ∷ rows) =
    let rest = last_number-set_last t k y n t' k' y' rows in
    elim (Bool-cases (is_series t k y q)) [
      | inl mine ↦
          let at = is_series-same_series t k y t' k' y' q mine in
          elim (Bool-cases (same_series t k y t' k' y')) [
            | inl same ↦ let here = at ∙ same in rw (mine, here, same, last_number) refl
            | inr apart ↦
                let past = at ∙ apart in rw (mine, past, apart, last_number) (rw apart at rest)
          ]
      | inr other ↦ elim (Bool-cases (is_series t' k' y' q)) [
        | inl here ↦
            let apart : same_series t k y t' k' y' ≡ false =
              other_series t k y t' k' y' q here other in
            rw (other, here, apart, last_number) refl
        | inr past ↦ rw (other, past, last_number) rest
      ]
    ]

-- After a number was taken, it is the last of its series, and the other series are as they were.
pub last_number_taken :
    (t : ℕ) (k : InvoiceKind) (y n t' : ℕ) (k' : InvoiceKind) (y' : ℕ) (rows : List InvoiceSequence)
    → last_number t' k' y' (update_where (is_series t k y) (set_last n) (opened t k y rows))
      ≡ (if same_series t k y t' k' y' then n else last_number t' k' y' rows)
last_number_taken t k y n t' k' y' rows =
    last_number-set_last t k y n t' k' y' (opened t k y rows)
    ∙ rw (any-opened t k y rows, last_number-opened t k y t' k' y' rows) (ground arith)

-- Which number the row of an issue has.
pub is_numbered-issued_row :
    (now y sequence actor_id : ℕ) (settings : BillingSettings) (parties : PartySnapshot)
    (x : Invoice) (t' : ℕ) (k' : InvoiceKind) (y' i : ℕ)
    → is_numbered t' k' y' i (issued_row now y sequence actor_id settings parties x)
      ≡ (same_series x.tenant_id x.kind y t' k' y' && sequence == i)
is_numbered-issued_row now y sequence actor_id settings parties x t' k' y' i =
    elim (Bool-cases (same_series x.tenant_id x.kind y t' k' y')) [
      | inl same ↦
          let (a, b, c) = same_series→eq x.tenant_id x.kind y t' k' y' same in
          let alike = same_number x.kind y sequence i in
          rw (sym a, sym b, sym c, ==_self x.tenant_id, same_kind_self x.kind, ==_self y, alike)
            refl
      | inr apart ↦ ground (arith, apart)
    ]
