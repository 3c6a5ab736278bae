-- ===== src/Finance/SourceEvents.antt =====
-- The unique index `ledger_entries_source_event_uq` on ledger_entries (migration 0012, schema.ts): when
-- it lets the lines of a posting in.
use system_delivery.Prelude.{
  ℕ, ◌==◌, ◌≡◌, refl, inl, inr, false, Bool, ◌&&◌, ◌||◌, ◌⊎◌, none, some, List, [], ◌∷◌, ◌++◌,
  arith, All, All-map, All-both, any, is_some_of,
}
use system_delivery.Finance.Ledger.{Direction, same_direction}
use system_delivery.Finance.LedgerService.{
  PostingLine, PostTransactionInput, LedgerEntry, Ledger, entry_of, same_posting,
  has_posted_for_event,
}

-- The unique index lets every line in, on whichever account it goes.
abbrev pub HasRoom : PostTransactionInput → ℕ → ℕ → List PostingLine → List LedgerEntry → Type 0
HasRoom input transaction_id occurred_at [] es = Unit
HasRoom input transaction_id occurred_at (line ∷ lines) es =
    (id : ℕ)
    → (any (same_posting (entry_of input transaction_id occurred_at id line)) es ≡ false)
      × HasRoom input transaction_id occurred_at lines
          (es ++ entry_of input transaction_id occurred_at id line ∷ [])

-- No two lines are on one side.
abbrev pub OneEachSide : List PostingLine → Type 0
OneEachSide [] = Unit
OneEachSide (line ∷ lines) =
    All (λ l. same_direction line.direction l.direction ≡ false) lines × OneEachSide lines

-- The input names a source event for which the tenant has no entry, with a line on each side.
abbrev pub IsFirst : PostTransactionInput → Ledger → Type 0
IsFirst input st =
    (event_id : ℕ) × (input.source_event_id ≡ some event_id)
    × (has_posted_for_event input.tenant_id event_id st ≡ false)
    × OneEachSide input.lines

none_taken :
    (input : PostTransactionInput) (t o id : ℕ) (line : PostingLine) (es : List LedgerEntry)
    → input.source_event_id ≡ none
    → any (same_posting (entry_of input t o id line)) es ≡ false
none_taken input t o id line [] e = refl
none_taken input t o id line (x ∷ es) e = rw e (none_taken input t o id line es e)

none-HasRoom :
    (input : PostTransactionInput) (t o : ℕ) (lines : List PostingLine) (es : List LedgerEntry)
    → input.source_event_id ≡ none
    → HasRoom input t o lines es
none-HasRoom input t o [] es e = tt
none-HasRoom input t o (line ∷ lines) es e =
    λ id. (none_taken input t o id line es e, none-HasRoom input t o lines _ e)

neither : (a b : Bool) → (a || b) ≡ false → (a ≡ false) × (b ≡ false)
neither a b h = ground arith

and-first : (a b c : Bool) → a ≡ false → (a && b && c) ≡ false
and-first a b c h = ground arith

and-last : (a b c : Bool) → c ≡ false → (a && b && c) ≡ false
and-last a b c h = ground arith

-- No entry has the key of a line of this direction, whichever its account.
abbrev Free : PostTransactionInput → Direction → List LedgerEntry → Type 0
Free input d es =
    (t o id : ℕ) (line : PostingLine)
    → line.direction ≡ d
    → any (same_posting (entry_of input t o id line)) es ≡ false

unposted-Free :
    (input : PostTransactionInput) (event_id : ℕ) (d : Direction) (es : List LedgerEntry)
    → input.source_event_id ≡ some event_id
    → any (λ e. e.tenant_id == input.tenant_id && is_some_of e.source_event_id event_id) es ≡ false
    → Free input d es
unposted-Free input event_id d [] e h = λ t o id line side. refl
unposted-Free input event_id d (x ∷ es) e h = λ t o id line side.
    let known = x.tenant_id == input.tenant_id && is_some_of x.source_event_id event_id in
    let (here, later) =
      neither known
        (any (λ e. e.tenant_id == input.tenant_id && is_some_of e.source_event_id event_id) es) h in
    let other : same_posting (entry_of input t o id line) x ≡ false =
      rw e
        (and-first known (x.account_id == id) (same_direction x.direction line.direction) here) in
    rw other (unposted-Free input event_id d es e later t o id line side)

any-snoc :
    (p : LedgerEntry → Bool) (es : List LedgerEntry) (e : LedgerEntry)
    → any p es ≡ false
    → p e ≡ false
    → any p (es ++ e ∷ []) ≡ false
any-snoc p [] e h q = rw q
any-snoc p (x ∷ es) e h q = ground (arith, any-snoc p es e)

snoc-Free :
    (input : PostTransactionInput) (event_id t o id : ℕ) (d : Direction) (line : PostingLine)
    (es : List LedgerEntry)
    → input.source_event_id ≡ some event_id
    → same_direction line.direction d ≡ false
    → Free input d es
    → Free input d (es ++ entry_of input t o id line ∷ [])
snoc-Free input event_id t o id d line es e apart free = λ t' o' id' line' side.
    let other : same_posting (entry_of input t' o' id' line') (entry_of input t o id line) ≡ false =
      rw e (
        and-last (input.tenant_id == input.tenant_id && is_some_of (some event_id) event_id)
          (id == id') _ (rw side apart)) in
    any-snoc (same_posting (entry_of input t' o' id' line')) es (entry_of input t o id line)
      (free t' o' id' line' side) other

sides-HasRoom :
    (input : PostTransactionInput) (event_id t o : ℕ) (lines : List PostingLine)
    (es : List LedgerEntry)
    → input.source_event_id ≡ some event_id
    → OneEachSide lines
    → All (λ l. Free input l.direction es) lines
    → HasRoom input t o lines es
sides-HasRoom input event_id t o [] es e one free = tt
sides-HasRoom input event_id t o (line ∷ lines) es e one free = λ id. (
  free.0 t o id line refl,
  sides-HasRoom input event_id t o lines _ e one.1 (
      All-map
        (λ l. (Free input l.direction es) × (same_direction line.direction l.direction ≡ false))
        (λ l. Free input l.direction (es ++ entry_of input t o id line ∷ []))
        (λ l (f, apart). snoc-Free input event_id t o id l.direction line es e apart f) lines
        (All-both (λ l. Free input l.direction es)
          (λ l. same_direction line.direction l.direction ≡ false) lines free.1 one.0)),
)

all-Free :
    (input : PostTransactionInput) (es : List LedgerEntry)
    → ((d : Direction) → Free input d es)
    → (lines : List PostingLine) → All (λ l. Free input l.direction es) lines
all-Free input es free [] = tt
all-Free input es free (l ∷ lines) = (free l.direction, all-Free input es free lines)

-- In both cases the index lets every line in.
pub first-HasRoom :
    (input : PostTransactionInput) (t o : ℕ) (st : Ledger)
    → (input.source_event_id ≡ none) ⊎ IsFirst input st
    → HasRoom input t o input.lines st.entries
unfolding has_posted_for_event
first-HasRoom input t o st (inl e) = none-HasRoom input t o input.lines st.entries e
first-HasRoom input t o st (inr (event_id, e, fresh, one)) =
    sides-HasRoom input event_id t o input.lines st.entries e one (
      all-Free input st.entries (λ d. unposted-Free input event_id d st.entries e fresh)
        input.lines)
