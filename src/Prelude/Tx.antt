-- ===== src/Prelude/Tx.antt =====
-- A database transaction: `DatabaseService.withTenant` runs a callback on the tables and commits
-- what it wrote, or rolls everything back when it throws. So a failed run yields no state.
-- Also the errors of shared/errors/domain-error.ts, by class and machine-readable code.
use mathlib.Core.Path.{◌≡◌, refl, subst}
use mathlib.Core.Logic.{◌⊎◌, inl, inr}
use mathlib.Core.Bool.{Bool, true, false}
use mathlib.Core.Option.{Option, none, some}

-- The `code` of an error that the API exposes; the resource of a NotFoundError.
pub data Code : Type 0 where
  ledger_unbalanced ledger_invalid_amount cod_event_malformed : Code
  shipment_already_created shipment_invalid_transition : Code
  variance_reason_required remittance_not_submitted remittance_invalid_transition : Code
  nothing_to_settle settlement_fees_exceed_gross settlement_not_draft : Code
  settlement_not_approved settlement_not_cancellable : Code
  invalid_amount : Code
  invoice_not_draft invoice_empty invoice_not_creditable invoice_not_issued : Code
  invoice_not_payable invoice_already_issued : Code
  remittance settlement currency_code invoice : Code

pub data DomainError : Type 0 where
  business_rule : Code → DomainError
  conflict : Code → DomainError
  not_found : Code → DomainError
  forbidden : DomainError
  -- An error that is no DomainError: a bug, rendered as a generic 500.
  internal : DomainError

pub data Result {ℓ} (A : Type ℓ) : Type ℓ where
  ok : A → Result A
  err : DomainError → Result A

pub Result-cases {ℓ} :
    {A : Type ℓ} (r : Result A) → ((a : A) × (r ≡ ok a)) ⊎ ((e : DomainError) × (r ≡ err e))
Result-cases (ok a) = inl (a, refl)
Result-cases (err e) = inr (e, refl)

-- A call has one outcome.
pub ok_state :
    {S A : Type 0} (r : Result (A × S)) {a b : A} {s s' : S}
    → r ≡ ok (a, s)
    → r ≡ ok (b, s')
    → s ≡ s'
ok_state r p q = cc

abbrev pub Tx : Type 0 → Type 0 → Type 0
Tx S A = S → Result (A × S)

module _ {S A : Type 0} where
  abbrev pub pure : A → Tx S A
  pure a s = ok (a, s)

  abbrev pub throw : DomainError → Tx S A
  throw e s = err e

  abbrev pub gets : (S → A) → Tx S A
  gets f s = ok (f s, s)

  abbrev pub or_throw : Option A → DomainError → Tx S A
  or_throw none e s = err e
  or_throw (some a) e s = ok (a, s)

  -- `withTenant`: the state after the call, committed or rolled back.
  abbrev pub committed : S → Result (A × S) → S
  committed s (ok (a, s')) = s'
  committed s (err e) = s

infixl 5 ◌>>=◌ ◌>>◌
abbrev pub ◌>>=◌ : {S A B : Type 0} → Tx S A → (A → Tx S B) → Tx S B
◌>>=◌ m f s = elim (m s) [ ok (a, s') ↦ f a s' | err e ↦ err e ]

abbrev pub ◌>>◌ : {S A B : Type 0} → Tx S A → Tx S B → Tx S B
m >> k = m >>= λ _. k

abbrev pub throw_if : {S : Type 0} → Bool → DomainError → Tx S (Unit {0})
throw_if true e s = err e
throw_if false e s = ok (tt, s)

abbrev pub modify : {S : Type 0} → (S → S) → Tx S (Unit {0})
modify f s = ok (tt, f s)

-- Inversion of a successful bind, for proofs where the parts stay shut.
pub >>=-eq-ok :
    {S A B : Type 0} (m : Result (A × S)) (f : A → Tx S B) {r : B × S}
    → elim m [ ok (a, s') ↦ f a s' | err e ↦ err e ] ≡ ok r
    → (a : A) × (s' : S) × (m ≡ ok (a, s')) × (f a s' ≡ ok r)
>>=-eq-ok (ok (a, s')) f h = (a, s', refl, h)
>>=-eq-ok (err e) f h = cc

-- The same as an eliminator, whose parts stay variables in the rest of a proof.
pub bind_ok :
    {S A B P : Type 0} (m : Result (A × S)) (f : A → Tx S B) {r : B × S}
    → elim m [ ok (a, s') ↦ f a s' | err e ↦ err e ] ≡ ok r
    → ((a : A) (s' : S) → m ≡ ok (a, s') → f a s' ≡ ok r → P)
    → P
bind_ok (ok (a, s')) f h k = k a s' refl h
bind_ok (err e) f h k = cc

-- A guard that let the call go on was false.
pub guard_ok :
    {S B P : Type 0} (b : Bool) (e : DomainError) (m : Tx S B) (s : S) {r : B × S}
    → (throw_if b e >> m) s ≡ ok r
    → (b ≡ false → m s ≡ ok r → P)
    → P
guard_ok true e m s h k = cc
guard_ok false e m s h k = k refl h

-- A bind whose first call is known to succeed.
pub bind_at :
    {S A B : Type 0} {m : Result (A × S)} {a : A} {s : S} (f : A → Tx S B) {r : Result (B × S)}
    → m ≡ ok (a, s)
    → elim m [ ok (a', s') ↦ f a' s' | err e ↦ err e ] ≡ r
    → f a s ≡ r
bind_at f {r = r} e h = subst (λ m. elim m [ ok (a', s') ↦ f a' s' | err x ↦ err x ] ≡ r) e h
