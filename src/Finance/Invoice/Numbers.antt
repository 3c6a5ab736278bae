-- ===== src/Finance/Invoice/Numbers.antt =====
-- application/invoice.service.ts: the numbers of a series, and what a sound set of documents is.
use system_delivery.Prelude.{
  ℕ, ◌-◌, ◌≡◌, ◌==◌, ltb, leb, refl, sym, ap, ◌∙◌, inl, inr, is_some_of, Bool, true, false, ◌&&◌,
  Option, none, some, List, [], ◌∷◌, ◌++◌, any, keep, length, All, Bool-cases, arith, ==→eq,
}
use system_delivery.Prelude.Decimal.{Text, digits, read_digits, pad_start, read-zeros, read-digits}
use system_delivery.Finance.Invoice.Totals.{InvoiceKind, number_prefix, format_document_number}
use system_delivery.Finance.Invoice.Tables.{is_draft, same_kind, Invoice, InvoiceStore}
use system_delivery.Finance.Invoice.Service.{last_number}

abbrev pub same_text : Text → Text → Bool
same_text [] [] = true
same_text [] (d ∷ ds) = false
same_text (c ∷ cs) [] = false
same_text (c ∷ cs) (d ∷ ds) = c == d && same_text cs ds

pub same_text→eq : (cs ds : Text) → same_text cs ds ≡ true → cs ≡ ds
same_text→eq [] [] h = refl
same_text→eq [] (d ∷ ds) h = cc
same_text→eq (c ∷ cs) [] h = cc
same_text→eq (c ∷ cs) (d ∷ ds) h =
    let e : c ≡ d = ==→eq c d (ground (arith, h)) in
    let es : cs ≡ ds = same_text→eq cs ds (ground (arith, h)) in cc (e, es)

same_text_self : (cs : Text) → same_text cs cs ≡ true
same_text_self [] = refl
same_text_self (c ∷ cs) = ground (arith, same_text_self cs)

append_cancel : (cs ds es : Text) → cs ++ ds ≡ cs ++ es → ds ≡ es
append_cancel [] ds es h = h
append_cancel (c ∷ cs) ds es h = append_cancel cs ds es (cc h)

-- The number that the series of a kind has in a year.
abbrev pub number_in : InvoiceKind → ℕ → ℕ → Text
number_in kind year i = format_document_number (number_prefix kind) year i

-- Two numbers of one series that are written alike are one.
pub number_in_lem :
    (kind : InvoiceKind) (year i j : ℕ) → number_in kind year i ≡ number_in kind year j → i ≡ j
unfolding format_document_number
number_in_lem kind year i j h =
    let tail = append_cancel (number_prefix kind) _ _ h in
    let year_tail : digits year ++ b'-' ∷ pad_start 5 (digits i)
        ≡ digits year ++ b'-' ∷ pad_start 5 (digits j) =
      cc tail in
    let last = append_cancel (digits year) _ _ year_tail in
    let padded : pad_start 5 (digits i) ≡ pad_start 5 (digits j) = cc last in
    sym (read-zeros (5 - length (digits i)) (digits i) ∙ read-digits i)
    ∙ ap read_digits padded
    ∙ (read-zeros (5 - length (digits j)) (digits j) ∙ read-digits j)

pub same_number :
    (kind : InvoiceKind) (year i j : ℕ)
    → same_text (number_in kind year i) (number_in kind year j) ≡ (i == j)
same_number kind year i j = elim (Bool-cases (i == j)) [
  | inl same ↦
      let e = ==→eq i j same in rw (e, same_text_self (number_in kind year j)) (ground arith)
  | inr other ↦ elim (Bool-cases (same_text (number_in kind year i) (number_in kind year j))) [
    | inr apart ↦ apart ∙ sym other
    | inl alike ↦
        let e = number_in_lem kind year i j (same_text→eq _ _ alike) in
        absurd (ground (arith, e, other))
  ]
]

-- A document with the number `i` of a series.
abbrev pub has_number : Option Text → Text → Bool
has_number none number = false
has_number (some n) number = same_text n number

abbrev pub is_numbered : ℕ → InvoiceKind → ℕ → ℕ → Invoice → Bool
is_numbered t k y i x =
    x.tenant_id == t
    && same_kind x.kind k
    && is_some_of x.number_year y
    && has_number x.number (number_in k y i)

abbrev pub count : {A : Type 0} → (A → Bool) → List A → ℕ
count p xs = length (keep p xs)

abbrev pub to_ℕ : Bool → ℕ
to_ℕ true = 1
to_ℕ false = 0

-- In every series the numbers from 1 to the last stand on one document each, and no other number on
-- any.
abbrev pub IsGapless : InvoiceStore → Type 0
IsGapless s =
    (t : ℕ) (k : InvoiceKind) (y i : ℕ)
    → count (is_numbered t k y i) s.invoices
      ≡ to_ℕ (ltb 0 i && leb i (last_number t k y s.sequences))

-- No two documents have one id.
abbrev pub IsKeyed : List Invoice → Type 0
IsKeyed [] = Unit
IsKeyed (x ∷ xs) = (any (λ y. y.id == x.id) xs ≡ false) × IsKeyed xs

-- A draft has no number.
abbrev pub IsUnnumbered : Invoice → Type 0
IsUnnumbered x = is_draft x.status ≡ true → x.number ≡ none

pub record IsSound (s : InvoiceStore) : Type 0 where
  pub keyed : IsKeyed s.invoices
  pub unnumbered : All IsUnnumbered s.invoices
  pub gapless : IsGapless s
