-- ===== src/Finance/LedgerService.antt =====
-- apps/api/src/modules/finance/application/ledger.service.ts. `ledger_accounts` and
-- `ledger_entries` are lists of rows, oldest first; owners, tenants, currencies, users and events
-- are numbers. `uuid` gives the ids that the database draws, by the number drawn before. A call
-- runs in one transaction, so no other writes between its statements, except where
-- `ensure_account` is told (`others`).
use system_delivery.Prelude.{
  ℕ, ◌+◌, ◌==◌, ltb, Bool, false, ◌&&◌, Option, none, some, List, [], ◌∷◌, ◌++◌, String, length,
  find, any, update_where, if◌then◌else◌, or_else, is_some_of,
}
use system_delivery.Prelude.Int.{ℤ, pos, ◌+ℤ◌, leb_ℤ, eq_ℤ}
use system_delivery.Prelude.Tx.{
  Result, ok, err, internal, business_rule, ledger_unbalanced, ledger_invalid_amount,
}
use system_delivery.Finance.Ledger.{
  AccountType, OwnerType, Direction, EntryType, debit, credit, same_direction, same_owner_type,
  same_account_type, normal_balance_for, balance_delta,
}

pub record AccountRef : Type 0 where
  pub owner_type : OwnerType
  pub owner_id : ℕ
  pub account_type : AccountType

pub record PostingLine : Type 0 where
  pub account : AccountRef
  pub direction : Direction
  pub amount_minor : ℤ

pub record PostTransactionInput : Type 0 where
  pub tenant_id : ℕ
  pub entry_type : EntryType
  pub currency : ℕ
  pub lines : List PostingLine
  pub occurred_at : Option ℕ
  pub description : Option String
  pub source_event_id : Option ℕ
  pub shipment_id : Option ℕ
  pub remittance_id : Option ℕ
  pub settlement_id : Option ℕ
  pub created_by_user_id : Option ℕ

pub record LedgerAccount : Type 0 where
  pub id : ℕ
  pub tenant_id : ℕ
  pub account_type : AccountType
  pub owner_type : OwnerType
  pub owner_id : ℕ
  pub currency : ℕ
  pub normal_balance : Direction
  pub balance_minor : ℤ

pub record LedgerEntry : Type 0 where
  pub tenant_id : ℕ
  pub transaction_id : ℕ
  pub account_id : ℕ
  pub direction : Direction
  pub amount_minor : ℤ
  pub currency : ℕ
  pub entry_type : EntryType
  pub occurred_at : ℕ
  pub description : String
  pub source_event_id : Option ℕ
  pub shipment_id : Option ℕ
  pub remittance_id : Option ℕ
  pub settlement_id : Option ℕ
  pub created_by : Option ℕ

pub record Ledger : Type 0 where
  pub accounts : List LedgerAccount
  pub entries : List LedgerEntry
  -- How many ids the database has drawn.
  pub drawn : ℕ

-- `accountWhere`
unfoldable pub account_where : ℕ → ℕ → AccountRef → LedgerAccount → Bool
account_where tenant_id currency ref a =
    a.tenant_id == tenant_id
    && same_account_type a.account_type ref.account_type
    && same_owner_type a.owner_type ref.owner_type
    && a.owner_id == ref.owner_id
    && a.currency == currency

-- `debits` or `credits` after a line, by whether the line goes to it.
abbrev pub with_line : Direction → PostingLine → ℤ → ℤ
with_line side line total =
    if same_direction line.direction side then total +ℤ line.amount_minor else total

-- The loop of `assertBalanced` over the totals so far.
unfoldable pub sum_lines : List PostingLine → ℤ → ℤ → Result (ℤ × ℤ)
sum_lines [] debits credits = ok (debits, credits)
sum_lines (line ∷ lines) debits credits =
    let rest = sum_lines lines (with_line debit line debits) (with_line credit line credits) in
    if leb_ℤ line.amount_minor (pos 0) then err (business_rule ledger_invalid_amount) else rest

-- `assertBalanced`
unfoldable pub assert_balanced : List PostingLine → Result (Unit {0})
assert_balanced lines =
    if ltb (length lines) 2
    then err (business_rule ledger_unbalanced)
    else elim (sum_lines lines (pos 0) (pos 0)) [
      | err e ↦ err e
      | ok (debits, credits) ↦
          if eq_ℤ debits credits then ok tt else err (business_rule ledger_unbalanced)
    ]

-- The account's columns that `ensureAccount` returns.
abbrev pub found_account : LedgerAccount → ℕ × Direction
found_account a = (a.id, a.normal_balance)

-- The entry of one line.
abbrev pub entry_of : PostTransactionInput → ℕ → ℕ → ℕ → PostingLine → LedgerEntry
entry_of input transaction_id occurred_at account_id line = record {
  tenant_id = input.tenant_id;
  transaction_id = transaction_id;
  account_id = account_id;
  direction = line.direction;
  amount_minor = line.amount_minor;
  currency = input.currency;
  entry_type = input.entry_type;
  occurred_at = occurred_at;
  description = or_else input.description "";
  source_event_id = input.source_event_id;
  shipment_id = input.shipment_id;
  remittance_id = input.remittance_id;
  settlement_id = input.settlement_id;
  created_by = input.created_by_user_id;
}

-- Whether the unique index `ledger_entries_source_event_uq` keeps the new entry out beside `e`; a
-- null source event is distinct from every other.
abbrev pub same_posting : LedgerEntry → LedgerEntry → Bool
same_posting new e = elim new.source_event_id [
  | none ↦ false
  | some event_id ↦
      (e.tenant_id == new.tenant_id && is_some_of e.source_event_id event_id)
      && e.account_id == new.account_id
      && same_direction e.direction new.direction
]

abbrev pub add_balance : ℤ → LedgerAccount → LedgerAccount
add_balance delta a = record a { balance_minor = a.balance_minor +ℤ delta }

module _ (uuid : ℕ → ℕ) where
  -- The row that an insert of an account draws, with the column default of the balance.
  abbrev pub new_account : ℕ → ℕ → AccountRef → ℕ → LedgerAccount
  new_account tenant_id currency ref drawn = record {
    id = uuid drawn;
    tenant_id = tenant_id;
    account_type = ref.account_type;
    owner_type = ref.owner_type;
    owner_id = ref.owner_id;
    currency = currency;
    normal_balance = normal_balance_for ref.account_type;
    balance_minor = pos 0;
  }

  -- `ensureAccount`. `others` are the accounts that concurrent callers committed between the select
  -- and the insert; `ON CONFLICT DO NOTHING` then inserts nothing, and the row is read again.
  unfoldable pub ensure_account :
      List LedgerAccount → ℕ → ℕ → AccountRef → Ledger → Result ((ℕ × Direction) × Ledger)
  ensure_account others tenant_id currency ref st =
      elim (find (account_where tenant_id currency ref) st.accounts) [
        | some found ↦ ok (found_account found, st)
        | none ↦
            let seen = st.accounts ++ others in
            elim (find (account_where tenant_id currency ref) seen) [
              | none ↦
                  let created = new_account tenant_id currency ref st.drawn in
                  ok (
                    found_account created,
                    record st { accounts = seen ++ created ∷ []; drawn = st.drawn + 1 },
                  )
              | some row ↦ ok (found_account row, record st { accounts = seen })
            ]
      ]

  -- The body of the loop over the lines: the account, the entry, the cached balance. A repeated
  -- entry of the same source event violates the unique index, and the insert throws.
  unfoldable pub post_line :
      PostTransactionInput → ℕ → ℕ → PostingLine → Ledger → Result (Unit {0} × Ledger)
  post_line input transaction_id occurred_at line st =
      elim (ensure_account [] input.tenant_id input.currency line.account st) [
        | err e ↦ err e
        | ok ((account_id, normal_balance), st') ↦
            let entry = entry_of input transaction_id occurred_at account_id line in
            if any (same_posting entry) st'.entries
            then err internal
            else ok (
              tt,
              record st' {
                entries = st'.entries ++ entry ∷ [];
                accounts =
                    update_where (λ a. a.id == account_id)
                      (add_balance (balance_delta normal_balance line.direction line.amount_minor))
                      st'.accounts;
              },
            )
      ]

  unfoldable pub post_lines :
      PostTransactionInput → ℕ → ℕ → List PostingLine → Ledger → Result (Unit {0} × Ledger)
  post_lines input transaction_id occurred_at [] st = ok (tt, st)
  post_lines input transaction_id occurred_at (line ∷ lines) st =
      elim (post_line input transaction_id occurred_at line st) [
        | err e ↦ err e
        | ok (_, st') ↦ post_lines input transaction_id occurred_at lines st'
      ]

  -- `postTransaction`; `now` is the clock's reading, used where the input has no instant.
  unfoldable pub post_transaction : ℕ → PostTransactionInput → Ledger → Result (ℕ × Ledger)
  post_transaction now input st = elim (assert_balanced input.lines) [
    | err e ↦ err e
    | ok _ ↦
        let transaction_id = uuid st.drawn in
        elim (post_lines input transaction_id (or_else input.occurred_at now) input.lines
          (record st { drawn = st.drawn + 1 })) [
            | err e ↦ err e
            | ok (_, st') ↦ ok (transaction_id, st')
          ]
  ]

-- `hasPostedForEvent`
unfoldable pub has_posted_for_event : ℕ → ℕ → Ledger → Bool
has_posted_for_event tenant_id event_id st =
    any (λ e. e.tenant_id == tenant_id && is_some_of e.source_event_id event_id) st.entries

-- `balanceOf`
unfoldable pub balance_of : ℕ → ℕ → AccountRef → Ledger → ℤ
balance_of tenant_id currency ref st =
    elim (find (account_where tenant_id currency ref) st.accounts) [
      | none ↦ pos 0
      | some a ↦ a.balance_minor
    ]
