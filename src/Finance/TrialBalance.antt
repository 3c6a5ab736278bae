-- ===== src/Finance/TrialBalance.antt =====
-- ledger.service.ts: what a successful `postTransaction` says of the whole ledger.
use system_delivery.Prelude.{
  ℕ, ◌≡◌, refl, inl, inr, List, [], ◌∷◌, ◌++◌, ◌==◌, sym, if◌then◌else◌, Bool-cases, ◌&&◌,
}
use system_delivery.Prelude.Int.{ℤ, pos, ◌+ℤ◌, +ℤ_assoc, zero_+ℤ}
use system_delivery.Prelude.Tx.{Result-cases, ok}
use system_delivery.Finance.Ledger.{Direction, debit, credit, same_direction}
use system_delivery.Finance.LedgerService.{
  PostingLine, PostTransactionInput, LedgerEntry, Ledger, post_transaction, assert_balanced,
}
use system_delivery.Finance.Balanced.{IsBalanced, moved, assert_balanced_iff}
use system_delivery.Finance.Reconciled.{IsReconciled}
use system_delivery.Finance.Posting.{Posted, post_transaction_ok}

-- What one entry contributes to a side of the books in a currency.
abbrev pub side_amount : ℕ → Direction → LedgerEntry → ℤ
side_amount currency side e =
    if e.currency == currency && same_direction e.direction side then e.amount_minor else pos 0

abbrev pub total : ℕ → Direction → List LedgerEntry → ℤ
total currency side [] = pos 0
total currency side (e ∷ es) = side_amount currency side e +ℤ total currency side es

-- In every currency the debits of all entries equal the credits.
abbrev pub IsZeroSum : List LedgerEntry → Type 0
IsZeroSum entries = (currency : ℕ) → total currency debit entries ≡ total currency credit entries

total-append :
    (currency : ℕ) (side : Direction) (xs ys : List LedgerEntry)
    → total currency side (xs ++ ys) ≡ total currency side xs +ℤ total currency side ys
total-append currency side [] ys = sym (zero_+ℤ (total currency side ys))
total-append currency side (x ∷ xs) ys =
    rw (total-append currency side xs ys) (
      sym
        (+ℤ_assoc (side_amount currency side x) (total currency side xs) (total currency side ys)))

total-Posted :
    (input : PostTransactionInput) (t o : ℕ) (currency : ℕ) (side : Direction)
    (lines : List PostingLine) (es : List LedgerEntry)
    → Posted input t o lines es
    → total currency side es ≡ (if input.currency == currency then moved side lines else pos 0)
total-Posted input t o currency side [] [] h = elim (Bool-cases (input.currency == currency)) [
  | inl e ↦ rw e
  | inr e ↦ rw e
]
total-Posted input t o currency side [] (e ∷ es) h = absurd h
total-Posted input t o currency side (line ∷ lines) [] h = absurd h
total-Posted input t o currency side (line ∷ lines) (e ∷ es) h =
    let rest = total-Posted input t o currency side lines es h.1 in
    elim (Bool-cases (input.currency == currency)) [
      | inl same ↦ rw (h.0, rest, same) refl
      | inr other ↦ rw (h.0, rest, other) (zero_+ℤ (pos 0))
    ]

module _ (uuid : ℕ → ℕ) (uuid_injective : (m n : ℕ) → uuid m ≡ uuid n → m ≡ n) where
  -- Whatever `postTransaction` has posted was balanced.
  pub posted_lines-IsBalanced :
      (now : ℕ) (input : PostTransactionInput) (st st' : Ledger) (transaction_id : ℕ)
      → post_transaction uuid now input st ≡ ok (transaction_id, st')
      → IsBalanced input.lines
  unfolding post_transaction
  posted_lines-IsBalanced now input st st' transaction_id h =
      elim (Result-cases (assert_balanced input.lines)) [
        | inl (_, e) ↦ (assert_balanced_iff input.lines).0 e
        | inr (x, e) ↦ cc (rw (e, post_transaction) at h)
      ]

  -- A transaction that has been posted keeps every cached balance the sum of its account's entries,
  -- and keeps the books of every currency at zero: total debits equal total credits.
  pub post_transaction_sound :
      (now : ℕ) (input : PostTransactionInput) (st st' : Ledger) (transaction_id : ℕ)
      → IsReconciled uuid uuid_injective st
      → IsZeroSum st.entries
      → post_transaction uuid now input st ≡ ok (transaction_id, st')
      → IsReconciled uuid uuid_injective st' × IsZeroSum st'.entries
  post_transaction_sound now input st st' transaction_id h zero_sum e =
      let balanced = posted_lines-IsBalanced now input st st' transaction_id e in
      let (es, kept, more, posted) =
        post_transaction_ok uuid uuid_injective now input st st' transaction_id h e in
      (
        kept,
        λ c. rw (
          more,
          total-append c debit st.entries es,
          total-append c credit st.entries es,
          total-Posted input _ _ c debit input.lines es posted,
          total-Posted input _ _ c credit input.lines es posted,
          zero_sum c,
          balanced.equal,
        ),
      )
