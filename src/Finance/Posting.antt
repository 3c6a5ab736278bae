-- ===== src/Finance/Posting.antt =====
-- ledger.service.ts, `postTransaction`: it returns for every balanced list of lines, keeps the
-- ledger reconciled, and appends exactly one entry for each line.
use mathlib.Core.List.{append-nil, append_assoc}
use system_delivery.Prelude.{
  ℕ, ◌+◌, ◌≡◌, refl, inl, inr, true, false, List, [], ◌∷◌, ◌++◌, ◌==◌, arith, sym, ap, ◌∙◌,
  All-append, All-map, All-both, All-update_where, update_where, if◌then◌else◌, Bool-cases, or_else,
  any, ◌⊎◌, none,
}
use system_delivery.Prelude.Int.{+ℤ_zero}
use system_delivery.Prelude.Tx.{ok, err, internal, Result-cases}
use mathlib.Core.Path.{subst}
use system_delivery.Finance.Ledger.{Direction, balance_delta}
use system_delivery.Finance.LedgerService.{
  PostingLine, PostTransactionInput, LedgerAccount, LedgerEntry, Ledger, entry_of, add_balance,
  post_line, post_lines, post_transaction, same_posting, assert_balanced,
}
use system_delivery.Finance.OnAccounts.{IsBooked, post_transaction_books}
use system_delivery.Finance.SourceEvents.{HasRoom, IsFirst, first-HasRoom}
use system_delivery.Finance.Balanced.{IsBalanced, assert_balanced_iff}
use system_delivery.Finance.Reconciled.{
  booked, booked-snoc, All-ids, Distinct-update_where, IsDrawn, IsReconciled, Ensured,
  ensure_account-Ensured, IsDrawn-later,
}

-- One row after its balance and the entry that goes with it.
cached_step :
    (id : ℕ) (normal : Direction) (es : List LedgerEntry) (e : LedgerEntry)
    → e.account_id ≡ id
    → (a : LedgerAccount)
    → (a.balance_minor ≡ booked a.id a.normal_balance es)
      × (a.id == id ≡ true → a.normal_balance ≡ normal)
    → let a' =
        if a.id == id then add_balance (balance_delta normal e.direction e.amount_minor) a else a in
      a'.balance_minor ≡ booked a'.id a'.normal_balance (es ++ e ∷ [])
cached_step id normal es e to a (held, same) = elim (Bool-cases (a.id == id)) [
  | inl hit ↦
      let there : e.account_id == a.id ≡ true = ground arith in
      rw (hit, booked-snoc a.id a.normal_balance es e, there) (cc (same hit))
  | inr miss ↦
      let elsewhere : e.account_id == a.id ≡ false = ground arith in
      rw (miss, booked-snoc a.id a.normal_balance es e, elsewhere)
        (held ∙ sym (+ℤ_zero (booked a.id a.normal_balance es)))
]

-- The entries are those of the lines, in order, all in one transaction.
abbrev pub Posted : PostTransactionInput → ℕ → ℕ → List PostingLine → List LedgerEntry → Type 0
Posted input transaction_id occurred_at [] [] = Unit
Posted input transaction_id occurred_at [] (e ∷ es) = ⊥
Posted input transaction_id occurred_at (line ∷ lines) [] = ⊥
Posted input transaction_id occurred_at (line ∷ lines) (e ∷ es) =
    (e ≡ entry_of input transaction_id occurred_at e.account_id line)
    × Posted input transaction_id occurred_at lines es

module _ (uuid : ℕ → ℕ) (uuid_injective : (m n : ℕ) → uuid m ≡ uuid n → m ≡ n) where
  -- The ledger after a line, once its account is at hand.
  line-IsReconciled :
      (st st' : Ledger) (id : ℕ) (normal : Direction) (e : LedgerEntry)
      → Ensured uuid uuid_injective st id normal st'
      → e.account_id ≡ id
      → IsReconciled uuid uuid_injective (record st' {
        entries = st'.entries ++ e ∷ [];
        accounts =
            update_where
              (λ a. a.id == id)
              (add_balance (balance_delta normal e.direction e.amount_minor))
              st'.accounts;
      })
  line-IsReconciled st st' id normal e h to =
      let r = h.reconciled in
      let p = λ (a : LedgerAccount). a.id == id in
      let delta = balance_delta normal e.direction e.amount_minor in
      record {
        cached =
            All-update_where p
              (λ a.
                (a.balance_minor ≡ booked a.id a.normal_balance st'.entries)
                × (a.id == id ≡ true → a.normal_balance ≡ normal))
              (λ a. a.balance_minor ≡ booked a.id a.normal_balance (st'.entries ++ e ∷ []))
              (add_balance delta) (cached_step id normal st'.entries e to) st'.accounts
              (All-both (λ a. a.balance_minor ≡ booked a.id a.normal_balance st'.entries)
                (λ a. a.id == id ≡ true → a.normal_balance ≡ normal) st'.accounts r.cached
                h.normal_of);
        accounts_drawn =
            All-ids p delta (IsDrawn uuid uuid_injective st'.drawn) st'.accounts r.accounts_drawn;
        entries_drawn =
            All-append (λ x. IsDrawn uuid uuid_injective st'.drawn x.account_id) st'.entries
              (e ∷ []) r.entries_drawn (rw to h.id_drawn, tt);
        distinct = Distinct-update_where p delta st'.accounts r.distinct;
      }

  -- Drawing an id for the transaction disturbs nothing.
  pub draw-IsReconciled :
      (st : Ledger)
      → IsReconciled uuid uuid_injective st
      → IsReconciled uuid uuid_injective (record st { drawn = st.drawn + 1 })
  draw-IsReconciled st h = record {
    cached = h.cached;
    accounts_drawn =
        All-map (λ a. IsDrawn uuid uuid_injective st.drawn a.id)
          (λ a. IsDrawn uuid uuid_injective (st.drawn + 1) a.id)
          (λ a. IsDrawn-later uuid uuid_injective st.drawn a.id) st.accounts h.accounts_drawn;
    entries_drawn =
        All-map (λ e. IsDrawn uuid uuid_injective st.drawn e.account_id)
          (λ e. IsDrawn uuid uuid_injective (st.drawn + 1) e.account_id)
          (λ e. IsDrawn-later uuid uuid_injective st.drawn e.account_id) st.entries h.entries_drawn;
    distinct = h.distinct;
  }

  -- The outcome of one line, up to the unique index, and what it leaves when it goes through.
  post_line_lem :
      (input : PostTransactionInput) (transaction_id occurred_at : ℕ) (line : PostingLine)
      (st : Ledger)
      → IsReconciled uuid uuid_injective st
      → (id : ℕ) × (st' : Ledger) × (let e = entry_of input transaction_id occurred_at id line in
          post_line uuid input transaction_id occurred_at line st
          ≡ (if any (same_posting e) st.entries then err internal else ok (tt, st')))
        × IsReconciled uuid uuid_injective st'
        × (st'.entries ≡ st.entries ++ entry_of input transaction_id occurred_at id line ∷ [])
  unfolding post_line
  post_line_lem input transaction_id occurred_at line st h =
      let (id, normal, st', returns, ensured) =
        ensure_account-Ensured uuid uuid_injective input.tenant_id input.currency line.account st
          h in
      let e = entry_of input transaction_id occurred_at id line in
      (
        id,
        record st' {
          entries = st'.entries ++ e ∷ [];
          accounts =
              update_where (λ a. a.id == id)
                (add_balance (balance_delta normal e.direction e.amount_minor)) st'.accounts;
        },
        rw (returns, post_line) (rw ensured.entries_kept refl),
        line-IsReconciled st st' id normal e ensured refl,
        ap (λ xs. xs ++ e ∷ []) ensured.entries_kept,
      )

  -- Lines that went through have left their entries.
  post_lines_ok :
      (input : PostTransactionInput) (transaction_id occurred_at : ℕ) (lines : List PostingLine)
      (st st' : Ledger)
      → IsReconciled uuid uuid_injective st
      → post_lines uuid input transaction_id occurred_at lines st ≡ ok (tt, st')
      → (es : List LedgerEntry) × IsReconciled uuid uuid_injective st'
        × (st'.entries ≡ st.entries ++ es)
        × Posted input transaction_id occurred_at lines es
  unfolding post_lines
  post_lines_ok input transaction_id occurred_at [] st st' h e =
      let same : st ≡ st' = cc e in
      ([], rw (← same) h, rw (← same) (sym (append-nil st.entries)), tt)
  post_lines_ok input transaction_id occurred_at (line ∷ lines) st st' h e =
      let (id, mid, first, held, one) = post_line_lem input transaction_id occurred_at line st h in
      let entry = entry_of input transaction_id occurred_at id line in
      elim (Bool-cases (any (same_posting entry) st.entries)) [
        | inl taken ↦ cc (rw (first, taken, post_lines) at e)
        | inr new ↦
            let (es, kept, more, posted) =
              post_lines_ok input transaction_id occurred_at lines mid st' held
                (rw (first, new, post_lines) at e) in
            (
              entry ∷ es,
              kept,
              more ∙ ap (λ xs. xs ++ es) one ∙ append_assoc st.entries (entry ∷ []) es,
              (refl, posted),
            )
      ]

  post_lines_total :
      (input : PostTransactionInput) (transaction_id occurred_at : ℕ) (lines : List PostingLine)
      (st : Ledger)
      → IsReconciled uuid uuid_injective st
      → HasRoom input transaction_id occurred_at lines st.entries
      → (st' : Ledger) × (post_lines uuid input transaction_id occurred_at lines st ≡ ok (tt, st'))
  unfolding post_lines
  post_lines_total input transaction_id occurred_at [] st h room = (st, refl)
  post_lines_total input transaction_id occurred_at (line ∷ lines) st h room =
      let (id, mid, first, held, one) = post_line_lem input transaction_id occurred_at line st h in
      let (st', rest) =
        post_lines_total input transaction_id occurred_at lines mid held
          (subst (HasRoom input transaction_id occurred_at lines) (sym one) (room id).1) in
      (st', rw (first, (room id).0, post_lines) rest)

  -- What a posting that went through has appended.
  pub post_transaction_ok :
      (now : ℕ) (input : PostTransactionInput) (st st' : Ledger) (t : ℕ)
      → IsReconciled uuid uuid_injective st
      → post_transaction uuid now input st ≡ ok (t, st')
      → (es : List LedgerEntry) × IsReconciled uuid uuid_injective st'
        × (st'.entries ≡ st.entries ++ es)
        × Posted input (uuid st.drawn) (or_else input.occurred_at now) input.lines es
  unfolding post_transaction
  post_transaction_ok now input st st' t h e =
      let occurred_at = or_else input.occurred_at now in
      let drawn : Ledger = record st { drawn = st.drawn + 1 } in
      elim (Result-cases (assert_balanced input.lines)) [
        | inr (x, refused) ↦ cc (rw (refused, post_transaction) at e)
        | inl (_, balanced) ↦
            elim (Result-cases
              (post_lines uuid input (uuid st.drawn) occurred_at input.lines drawn)) [
                | inr (x, refused) ↦
                    cc (rw (refused, post_transaction) at (rw (balanced, post_transaction) at e))
                | inl ((_, after), posts) ↦
                    let same : after ≡ st' =
                      cc (rw (posts, post_transaction) at (rw (balanced, post_transaction) at e)) in
                    post_lines_ok input (uuid st.drawn) occurred_at input.lines drawn st'
                      (draw-IsReconciled st h) (posts ∙ ap (λ s. ok (tt, s)) same)
              ]
      ]

  -- On a reconciled ledger, a balanced list of lines is always posted where the input names no source
  -- event, or one that no entry of the tenant names yet and no two of its lines are on one side, so
  -- that the unique index on the source event lets it in: `postTransaction` then returns the id of the transaction,
  -- appends exactly one entry for each line, on its account, and changes no earlier entry, and afterwards every
  -- cached balance is still the sum of its account's entries.
  pub post_transaction_balanced :
      (now : ℕ) (input : PostTransactionInput) (st : Ledger)
      → IsReconciled uuid uuid_injective st
      → IsBalanced input.lines
      → (input.source_event_id ≡ none) ⊎ IsFirst input st
      → (es : List LedgerEntry) × (st' : Ledger) × (post_transaction uuid now input st
          ≡ ok (uuid st.drawn, st'))
        × IsReconciled uuid uuid_injective st'
        × (st'.entries ≡ st.entries ++ es)
        × IsBooked input (uuid st.drawn) (or_else input.occurred_at now) st'.accounts input.lines es
  unfolding post_transaction
  post_transaction_balanced now input st h balanced free =
      let (st', posts) =
        post_lines_total input (uuid st.drawn) (or_else input.occurred_at now) input.lines
          (record st { drawn = st.drawn + 1 }) (draw-IsReconciled st h)
          (first-HasRoom input (uuid st.drawn) (or_else input.occurred_at now) st free) in
      let returns : post_transaction uuid now input st ≡ ok (uuid st.drawn, st') =
        rw (((assert_balanced_iff input.lines).1 balanced), post_transaction)
          (rw (posts, post_transaction)) in
      let (_, kept, _, _) = post_transaction_ok now input st st' (uuid st.drawn) h returns in
      let (es, more, booked, _) =
        post_transaction_books uuid now input st st' (uuid st.drawn) returns in
      (es, st', returns, kept, more, booked)
