-- ===== src/Finance/OnAccounts.antt =====
-- ledger.service.ts, `ensureAccount` and the entries of `postTransaction`: an entry is on the account
-- that is found for its line, and stays on it.
use mathlib.Core.List.{append-nil, append_assoc}
use system_delivery.Prelude.{
  ℕ, ◌+◌, ◌==◌, ==_self, ◌≡◌, refl, inl, inr, Bool, true, none, some, List, [], ◌∷◌, ◌++◌, arith,
  find, update_where, find-append, Bool-cases, Option-cases, any, or_else, sym, ◌∙◌, ap,
}
use system_delivery.Prelude.Int.{ℤ}
use system_delivery.Prelude.Tx.{Result, ok, Result-cases}
use system_delivery.Finance.Ledger.{
  AccountType, OwnerType, Direction, same_owner_type, same_account_type, balance_delta,
}
use system_delivery.Finance.LedgerService.{
  AccountRef, PostingLine, PostTransactionInput, LedgerAccount, LedgerEntry, Ledger, account_where,
  entry_of, add_balance, same_posting, new_account, ensure_account, post_line, post_lines,
  post_transaction, assert_balanced,
}

-- The account that is found for the owner has this id.
abbrev pub IsAt : ℕ → ℕ → AccountRef → List LedgerAccount → ℕ → Type 0
IsAt tenant_id currency ref accounts id =
    (a : LedgerAccount) × (find (account_where tenant_id currency ref) accounts ≡ some a)
    × (a.id ≡ id)

-- Accounts that were found are still found, with the same ids.
abbrev pub StillAt : List LedgerAccount → List LedgerAccount → Type 0
StillAt before after =
    (tenant_id currency id : ℕ) (ref : AccountRef)
    → IsAt tenant_id currency ref before id
    → IsAt tenant_id currency ref after id

same_owner_self : (o : OwnerType) → same_owner_type o o ≡ true
same_owner_self o = ground arith

same_account_self : (t : AccountType) → same_account_type t t ≡ true
same_account_self t = ground arith

new_account-found :
    (uuid : ℕ → ℕ) (tenant_id currency drawn : ℕ) (ref : AccountRef)
    → account_where tenant_id currency ref (new_account uuid tenant_id currency ref drawn) ≡ true
unfolding account_where
new_account-found uuid tenant_id currency drawn ref = rw (
  ==_self tenant_id,
  same_account_self ref.account_type,
  same_owner_self ref.owner_type,
  ==_self ref.owner_id,
  ==_self currency,
)

append-IsAt : (accounts more : List LedgerAccount) → StillAt accounts (accounts ++ more)
append-IsAt accounts more tenant_id currency id ref (a, found, same) =
    (a, find-append (account_where tenant_id currency ref) accounts more a found, same)

find-snoc :
    (p : LedgerAccount → Bool) (xs : List LedgerAccount) (a : LedgerAccount)
    → find p xs ≡ none
    → p a ≡ true
    → find p (xs ++ a ∷ []) ≡ some a
find-snoc p [] a e h = rw h
find-snoc p (x ∷ xs) a e h = elim (Bool-cases (p x)) [
  | inl hit ↦ cc (rw hit at e)
  | inr miss ↦ rw miss (find-snoc p xs a (rw miss at e) h)
]

account_where-add_balance :
    (tenant_id currency : ℕ) (ref : AccountRef) (delta : ℤ) (a : LedgerAccount)
    → account_where tenant_id currency ref (add_balance delta a)
      ≡ account_where tenant_id currency ref a
unfolding account_where
account_where-add_balance tenant_id currency ref delta a = refl

-- A change of balances moves no account.
balances-StillAt :
    (q : LedgerAccount → Bool) (delta : ℤ) (accounts : List LedgerAccount)
    → StillAt accounts (update_where q (add_balance delta) accounts)
balances-StillAt q delta [] tenant_id currency id ref (a, found, same) = cc
balances-StillAt q delta (x ∷ xs) tenant_id currency id ref (a, found, same) =
    let p = account_where tenant_id currency ref in
    let keeps = account_where-add_balance tenant_id currency ref delta x in
    elim (Bool-cases (p x)) [
      | inl here ↦
          let first : x ≡ a = cc (rw here at found) in
          elim (Bool-cases (q x)) [
            | inl hit ↦ rw (hit, keeps, here) (add_balance delta x, refl, rw first same)
            | inr miss ↦ rw (miss, here) (x, refl, rw first same)
          ]
      | inr later ↦
          let rest =
            balances-StillAt q delta xs tenant_id currency id ref (a, rw later at found, same) in
          elim (Bool-cases (q x)) [
            | inl hit ↦ rw (hit, keeps, later) rest
            | inr miss ↦ rw (miss, later) rest
          ]
    ]

-- The columns of an entry that come from the input and the line.
pub record IsEntryOf (input : PostTransactionInput) (t o : ℕ) (line : PostingLine) (e : LedgerEntry)
    : Type 0 where
  pub side : e.direction ≡ line.direction
  pub amount : e.amount_minor ≡ line.amount_minor
  pub in_currency : e.currency ≡ input.currency
  pub in_transaction : (e.tenant_id ≡ input.tenant_id) × (e.transaction_id ≡ t)
  pub kind : e.entry_type ≡ input.entry_type
  pub at_instant : e.occurred_at ≡ o
  pub source : e.source_event_id ≡ input.source_event_id
  pub subjects :
      (e.shipment_id ≡ input.shipment_id)
      × (e.remittance_id ≡ input.remittance_id)
      × (e.settlement_id ≡ input.settlement_id)

entry_of-IsEntryOf :
    (input : PostTransactionInput) (t o id : ℕ) (line : PostingLine)
    → IsEntryOf input t o line (entry_of input t o id line)
entry_of-IsEntryOf input t o id line = record {
  side = refl;
  amount = refl;
  in_currency = refl;
  in_transaction = (refl, refl);
  kind = refl;
  at_instant = refl;
  source = refl;
  subjects = (refl, refl, refl);
}

-- One entry for each line, in order, on the account that is found for the line's owner.
abbrev pub IsBooked :
    PostTransactionInput → ℕ → ℕ → List LedgerAccount → List PostingLine → List LedgerEntry → Type 0
IsBooked input t o accounts [] [] = Unit
IsBooked input t o accounts [] (e ∷ es) = ⊥
IsBooked input t o accounts (line ∷ lines) [] = ⊥
IsBooked input t o accounts (line ∷ lines) (e ∷ es) =
    IsEntryOf input t o line e
    × IsAt input.tenant_id input.currency line.account accounts e.account_id
    × IsBooked input t o accounts lines es

module _ (uuid : ℕ → ℕ) where
  ensure_account-IsAt :
      (tenant_id currency : ℕ) (ref : AccountRef) (st : Ledger)
      → (id : ℕ) × (normal : Direction) × (st' : Ledger) × (ensure_account uuid [] tenant_id
            currency ref st
          ≡ ok ((id, normal), st'))
        × IsAt tenant_id currency ref st'.accounts id
        × StillAt st.accounts st'.accounts
        × (st'.entries ≡ st.entries)
  unfolding ensure_account
  ensure_account-IsAt tenant_id currency ref st =
      let p = account_where tenant_id currency ref in
      elim (Option-cases (find p st.accounts)) [
        | inr (a, found) ↦ (
          a.id,
          a.normal_balance,
          st,
          rw (found, ensure_account),
          (a, found, refl),
          λ t c id r h. h,
          refl,
        )
        | inl missing ↦
            let again : find p (st.accounts ++ []) ≡ none = rw (append-nil st.accounts) missing in
            let created = new_account uuid tenant_id currency ref st.drawn in
            (
              created.id,
              created.normal_balance,
              record st { accounts = (st.accounts ++ []) ++ created ∷ []; drawn = st.drawn + 1 },
              rw (missing, ensure_account) (rw (again, ensure_account)),
              (
                created,
                find-snoc p (st.accounts ++ []) created again
                    (new_account-found uuid tenant_id currency st.drawn ref),
                refl,
              ),
              λ t c id r h.
                  append-IsAt (st.accounts ++ []) (created ∷ []) t c id r
                    (append-IsAt st.accounts [] t c id r h),
              refl,
            )
      ]

  post_line-IsAt :
      (input : PostTransactionInput) (t o : ℕ) (line : PostingLine) (st st' : Ledger)
      → post_line uuid input t o line st ≡ ok (tt, st')
      → (id : ℕ) × IsAt input.tenant_id input.currency line.account st'.accounts id
        × StillAt st.accounts st'.accounts
        × (st'.entries ≡ st.entries ++ entry_of input t o id line ∷ [])
  unfolding post_line
  post_line-IsAt input t o line st st' h =
      let (id, normal, mid, ensures, here, still, kept) =
        ensure_account-IsAt input.tenant_id input.currency line.account st in
      let e = entry_of input t o id line in
      let delta = balance_delta normal line.direction line.amount_minor in
      let moved = balances-StillAt (λ a. a.id == id) delta mid.accounts in
      elim (Bool-cases (any (same_posting e) mid.entries)) [
        | inl taken ↦ cc (rw (ensures, taken, post_line) at h)
        | inr new ↦
            let same : record mid {
              entries = mid.entries ++ e ∷ [];
              accounts = update_where (λ a. a.id == id) (add_balance delta) mid.accounts;
            }
                ≡ st' =
              cc (rw (ensures, new, post_line) at h) in
            (
              id,
              rw (← same) (moved input.tenant_id input.currency id line.account here),
              λ t c k r p. rw (← same) (moved t c k r (still t c k r p)),
              rw (← same, kept) refl,
            )
      ]

  post_lines-IsBooked :
      (input : PostTransactionInput) (t o : ℕ) (lines : List PostingLine) (st st' : Ledger)
      → post_lines uuid input t o lines st ≡ ok (tt, st')
      → (es : List LedgerEntry) × (st'.entries ≡ st.entries ++ es)
        × IsBooked input t o st'.accounts lines es
        × StillAt st.accounts st'.accounts
  unfolding post_lines
  post_lines-IsBooked input t o [] st st' h =
      let same : st ≡ st' = cc h in
      ([], rw (← same) (sym (append-nil st.entries)), tt, λ tenant c k r p. rw (← same) p)
  post_lines-IsBooked input t o (line ∷ lines) st st' h =
      elim (Result-cases (post_line uuid input t o line st)) [
        | inr (x, refused) ↦ cc (rw (refused, post_lines) at h)
        | inl ((_, mid), first) ↦
            let (id, here, still, one) = post_line-IsAt input t o line st mid first in
            let (es, more, booked, later) =
              post_lines-IsBooked input t o lines mid st' (rw (first, post_lines) at h) in
            let e = entry_of input t o id line in
            (
              e ∷ es,
              more ∙ ap (λ xs. xs ++ es) one ∙ append_assoc st.entries (e ∷ []) es,
              (
                entry_of-IsEntryOf input t o id line,
                later input.tenant_id input.currency id line.account here,
                booked,
              ),
              λ tenant c k r p. later tenant c k r (still tenant c k r p),
            )
      ]

  -- A posting that succeeds appends exactly one entry for each line, in order, with the line's
  -- direction and amount, on the account that the ledger then finds for the line's owner, type and
  -- currency; the earlier entries are as they were, and every account that was found for an owner
  -- before keeps its id.
  pub post_transaction_books :
      (now : ℕ) (input : PostTransactionInput) (st st' : Ledger) (t : ℕ)
      → post_transaction uuid now input st ≡ ok (t, st')
      → (es : List LedgerEntry) × (st'.entries ≡ st.entries ++ es)
        × IsBooked input t (or_else input.occurred_at now) st'.accounts input.lines es
        × StillAt st.accounts st'.accounts
  unfolding post_transaction
  post_transaction_books now input st st' t h =
      let o = or_else input.occurred_at now in
      let drawn : Ledger = record st { drawn = st.drawn + 1 } in
      elim (Result-cases (assert_balanced input.lines)) [
        | inr (x, refused) ↦ cc (rw (refused, post_transaction) at h)
        | inl (_, balanced) ↦
            elim (Result-cases (post_lines uuid input (uuid st.drawn) o input.lines drawn)) [
              | inr (x, refused) ↦
                  cc (rw (refused, post_transaction) at (rw (balanced, post_transaction) at h))
              | inl ((_, after), posts) ↦
                  let outcome : ◌≡◌ {A = Result (ℕ × Ledger)} (ok (uuid st.drawn, after))
                      (ok (t, st')) =
                    rw (posts, post_transaction) at (rw (balanced, post_transaction) at h) in
                  let same : after ≡ st' = cc outcome in
                  let drew : uuid st.drawn ≡ t = cc outcome in
                  let result =
                    post_lines-IsBooked input (uuid st.drawn) o input.lines drawn st'
                      (posts ∙ ap (λ s. ok (tt, s)) same) in
                  rw (← drew) result
            ]
      ]
