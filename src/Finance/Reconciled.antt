-- ===== src/Finance/Reconciled.antt =====
-- ledger.service.ts: the cached `balance_minor` of every account is the sum of its entries. The
-- ids that the database draws (`uuid`) never repeat.
use mathlib.Core.Path.{subst}
use mathlib.Core.List.{append-nil}
use system_delivery.Prelude.{
  ℕ, ◌+◌, ◌<◌, ◌≤◌, ◌≡◌, refl, ◌≢◌, inl, inr, Bool, true, none, some, List, [], ◌∷◌, ◌++◌, ◌==◌,
  arith, sym, ap, ◌∙◌, All, All-append, All-map, All-update_where, find, update_where,
  if◌then◌else◌, Bool-cases, Option-cases, ==→eq, ==_ne,
}
use system_delivery.Prelude.Int.{ℤ, pos, ◌+ℤ◌, +ℤ_assoc, zero_+ℤ, +ℤ_zero}
use system_delivery.Prelude.Tx.{ok}
use system_delivery.Finance.Ledger.{Direction, balance_delta}
use system_delivery.Finance.LedgerService.{
  AccountRef, LedgerAccount, LedgerEntry, Ledger, account_where, new_account, ensure_account,
  add_balance,
}

-- What one entry adds to the account `id`.
abbrev pub entry_delta : ℕ → Direction → LedgerEntry → ℤ
entry_delta id normal e =
    if e.account_id == id then balance_delta normal e.direction e.amount_minor else pos 0

-- `SUM(entries)` of the account, signed by its normal balance.
abbrev pub booked : ℕ → Direction → List LedgerEntry → ℤ
booked id normal [] = pos 0
booked id normal (e ∷ es) = entry_delta id normal e +ℤ booked id normal es

pub booked-snoc :
    (id : ℕ) (normal : Direction) (es : List LedgerEntry) (e : LedgerEntry)
    → booked id normal (es ++ e ∷ []) ≡ booked id normal es +ℤ entry_delta id normal e
booked-snoc id normal [] e =
    +ℤ_zero (entry_delta id normal e) ∙ sym (zero_+ℤ (entry_delta id normal e))
booked-snoc id normal (x ∷ es) e =
    rw (booked-snoc id normal es e)
      (sym (+ℤ_assoc (entry_delta id normal x) (booked id normal es) (entry_delta id normal e)))

-- No two accounts share an id.
abbrev pub Distinct : List LedgerAccount → Type 0
Distinct [] = Unit
Distinct (a ∷ rest) = All (λ b. b.id ≢ a.id) rest × Distinct rest

Distinct-snoc :
    (accounts : List LedgerAccount) (a : LedgerAccount)
    → Distinct accounts
    → All (λ b. b.id ≢ a.id) accounts
    → Distinct (accounts ++ a ∷ [])
Distinct-snoc [] a d f = (tt, tt)
Distinct-snoc (b ∷ rest) a d f = (
  All-append (λ c. c.id ≢ b.id) rest (a ∷ []) d.0 (λ e. f.0 (sym e), tt),
  Distinct-snoc rest a d.1 f.1,
)

module _ (p : LedgerAccount → Bool) (delta : ℤ) where
  -- Adding to a balance keeps the id.
  pub add_balance_id : (a : LedgerAccount) → (if p a then add_balance delta a else a).id ≡ a.id
  add_balance_id a = elim (Bool-cases (p a)) [ inl e ↦ rw e | inr e ↦ rw e ]

  pub All-ids :
      (P : ℕ → Type 0) (accounts : List LedgerAccount)
      → All (λ a. P a.id) accounts
      → All (λ a. P a.id) (update_where p (add_balance delta) accounts)
  All-ids P =
      All-update_where p (λ a. P a.id) (λ a. P a.id) (add_balance delta)
        (λ a h. rw (add_balance_id a) h)

  pub Distinct-update_where :
      (accounts : List LedgerAccount)
      → Distinct accounts
      → Distinct (update_where p (add_balance delta) accounts)
  Distinct-update_where [] d = tt
  Distinct-update_where (a ∷ rest) d =
      (rw (add_balance_id a) (All-ids (λ i. i ≢ a.id) rest d.0), Distinct-update_where rest d.1)

find_All {κ} :
    (P : LedgerAccount → Type κ) (p : LedgerAccount → Bool) (accounts : List LedgerAccount)
    (r : LedgerAccount)
    → All P accounts
    → find p accounts ≡ some r
    → P r
find_All P p [] r h e = cc
find_All P p (a ∷ rest) r h e = elim (Bool-cases (p a)) [
  | inl here ↦ let same : a ≡ r = cc (rw here at e) in subst P same h.0
  | inr later ↦ find_All P p rest r h.1 (rw later at e)
]

-- With distinct ids, an account that shares the found one's id has its normal balance.
find_normal :
    (p : LedgerAccount → Bool) (accounts : List LedgerAccount) (r : LedgerAccount)
    → Distinct accounts
    → find p accounts ≡ some r
    → All (λ a. a.id == r.id ≡ true → a.normal_balance ≡ r.normal_balance) accounts
find_normal p [] r d e = tt
find_normal p (a ∷ rest) r d e = elim (Bool-cases (p a)) [
  | inl here ↦
      let same : a ≡ r = cc (rw here at e) in
      (
        λ _. ap (λ b. b.normal_balance) same,
        All-map (λ b. b.id ≢ a.id) (λ b. b.id == r.id ≡ true → b.normal_balance ≡ r.normal_balance)
            (λ b apart eq. absurd (apart (==→eq b.id r.id eq ∙ sym (ap (λ c. c.id) same)))) rest
            d.0,
      )
  | inr later ↦
      let there : find p rest ≡ some r = rw later at e in
      let apart : r.id ≢ a.id = find_All (λ b. b.id ≢ a.id) p rest r d.0 there in
      (λ eq. absurd (apart (sym (==→eq a.id r.id eq))), find_normal p rest r d.1 there)
]

module _ (uuid : ℕ → ℕ) (uuid_injective : (m n : ℕ) → uuid m ≡ uuid n → m ≡ n) where
  -- An id among the first `n` that the database drew.
  abbrev pub IsDrawn : ℕ → ℕ → Type 0
  IsDrawn n id = (k : ℕ) × (k < n) × (id ≡ uuid k)

  pub record IsReconciled (st : Ledger) : Type 0 where
    pub cached : All (λ a. a.balance_minor ≡ booked a.id a.normal_balance st.entries) st.accounts
    pub accounts_drawn : All (λ a. IsDrawn st.drawn a.id) st.accounts
    pub entries_drawn : All (λ e. IsDrawn st.drawn e.account_id) st.entries
    pub distinct : Distinct st.accounts

  pub IsDrawn-later : (n : ℕ) (id : ℕ) → IsDrawn n id → IsDrawn (n + 1) id
  IsDrawn-later n id (k, below, e) = (k, omega arith, e)

  drawn_fresh : (n : ℕ) (id : ℕ) → IsDrawn n id → id ≢ uuid n
  drawn_fresh n id (k, below, e) same =
      let hit : k ≡ n = uuid_injective k n (sym e ∙ same) in omega arith

  booked_fresh :
      (n : ℕ) (normal : Direction) (es : List LedgerEntry)
      → All (λ e. IsDrawn n e.account_id) es
      → booked (uuid n) normal es ≡ pos 0
  booked_fresh n normal [] h = refl
  booked_fresh n normal (e ∷ es) h =
      rw
        (==_ne e.account_id (uuid n) (drawn_fresh n e.account_id h.0), booked_fresh n normal es h.1)
        (zero_+ℤ (pos 0))

  -- What `ensureAccount` leaves behind when nobody interferes.
  pub record Ensured (st : Ledger) (id : ℕ) (normal : Direction) (st' : Ledger) : Type 0 where
    pub reconciled : IsReconciled st'
    pub entries_kept : st'.entries ≡ st.entries
    pub id_drawn : IsDrawn st'.drawn id
    pub normal_of : All (λ a. a.id == id ≡ true → a.normal_balance ≡ normal) st'.accounts
    pub drawn_grows : st.drawn ≤ st'.drawn

  Ensured-found :
      (p : LedgerAccount → Bool) (st : Ledger) (r : LedgerAccount)
      → IsReconciled st
      → find p st.accounts ≡ some r
      → Ensured st r.id r.normal_balance st
  Ensured-found p st r h e = record {
    reconciled = h;
    entries_kept = refl;
    id_drawn = find_All (λ a. IsDrawn st.drawn a.id) p st.accounts r h.accounts_drawn e;
    normal_of = find_normal p st.accounts r h.distinct e;
    drawn_grows = omega arith;
  }

  Ensured-created :
      (tenant_id currency : ℕ) (ref : AccountRef) (st : Ledger)
      → IsReconciled st
      → let a = new_account uuid tenant_id currency ref st.drawn in
        Ensured st a.id a.normal_balance
          (record st { accounts = st.accounts ++ a ∷ []; drawn = st.drawn + 1 })
  Ensured-created tenant_id currency ref st h =
      let a = new_account uuid tenant_id currency ref st.drawn in
      let fresh : All (λ b. b.id ≢ a.id) st.accounts =
        All-map (λ b. IsDrawn st.drawn b.id) (λ b. b.id ≢ a.id) (λ b d. drawn_fresh st.drawn b.id d)
          st.accounts h.accounts_drawn in
      let a_drawn : IsDrawn (st.drawn + 1) a.id = (st.drawn, omega arith, refl) in
      record {
        reconciled = record {
          cached =
              All-append (λ b. b.balance_minor ≡ booked b.id b.normal_balance st.entries)
                st.accounts (a ∷ []) h.cached
                (sym (booked_fresh st.drawn a.normal_balance st.entries h.entries_drawn), tt);
          accounts_drawn =
              All-append (λ b. IsDrawn (st.drawn + 1) b.id) st.accounts (a ∷ [])
                (All-map (λ b. IsDrawn st.drawn b.id) (λ b. IsDrawn (st.drawn + 1) b.id)
                  (λ b d. IsDrawn-later st.drawn b.id d) st.accounts h.accounts_drawn)
                (a_drawn, tt);
          entries_drawn =
              All-map (λ e. IsDrawn st.drawn e.account_id)
                (λ e. IsDrawn (st.drawn + 1) e.account_id)
                (λ e d. IsDrawn-later st.drawn e.account_id d) st.entries h.entries_drawn;
          distinct = Distinct-snoc st.accounts a h.distinct fresh;
        };
        entries_kept = refl;
        id_drawn = a_drawn;
        normal_of =
            All-append (λ b. b.id == a.id ≡ true → b.normal_balance ≡ a.normal_balance) st.accounts
              (a ∷ [])
              (All-map (λ b. b.id ≢ a.id)
                (λ b. b.id == a.id ≡ true → b.normal_balance ≡ a.normal_balance)
                (λ b apart eq. absurd (apart (==→eq b.id a.id eq))) st.accounts fresh)
              (λ _. refl, tt);
        drawn_grows = omega arith;
      }

  -- Alone in its transaction, `ensureAccount` returns, and keeps the ledger reconciled.
  pub ensure_account-Ensured :
      (tenant_id currency : ℕ) (ref : AccountRef) (st : Ledger)
      → IsReconciled st
      → (id : ℕ) × (normal : Direction) × (st' : Ledger) × (ensure_account uuid [] tenant_id
            currency ref st
          ≡ ok ((id, normal), st'))
        × Ensured st id normal st'
  unfolding ensure_account
  ensure_account-Ensured tenant_id currency ref st h =
      let p = account_where tenant_id currency ref in
      elim (Option-cases (find p st.accounts)) [
        | inl absent ↦
            let absent' : find p (st.accounts ++ []) ≡ none = rw (append-nil st.accounts) absent in
            let a = new_account uuid tenant_id currency ref st.drawn in
            (
              a.id,
              a.normal_balance,
              record st { accounts = st.accounts ++ a ∷ []; drawn = st.drawn + 1 },
              rw (absent, ensure_account)
                  (rw (absent', ensure_account) (rw (append-nil st.accounts) refl)),
              Ensured-created tenant_id currency ref st h,
            )
        | inr (r, present) ↦ (
          r.id,
          r.normal_balance,
          st,
          rw (present, ensure_account),
          Ensured-found p st r h present,
        )
      ]
