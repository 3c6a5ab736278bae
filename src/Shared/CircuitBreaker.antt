-- ===== src/Shared/CircuitBreaker.antt =====
-- apps/api/src/shared/http/circuit-breaker.ts. The clock's readings are arguments, in milliseconds.
use mathlib.Core.Path.{subst, ap, ◌∙◌}
use system_delivery.Prelude.{
  ℕ, ◌+◌, ◌≤◌, ◌<◌, ◌≡◌, refl, inl, inr, Bool, true, false, ◌&&◌, Option, none, some, List, [], ◌∷◌,
  arith, ltb, leb, if◌then◌else◌, length, Bool-cases, is_none, sym, All,
}

pub record CircuitBreaker : Type 0 where
  pub threshold : ℕ
  pub cooldown_ms : ℕ
  pub consecutive_failures : ℕ
  pub opened_at : Option ℕ

-- The constructor; `none` is the RangeError.
unfoldable pub new_breaker : ℕ → ℕ → Option CircuitBreaker
new_breaker threshold cooldown_ms =
    if ltb threshold 1
    then none
    else some (record {
      threshold = threshold;
      cooldown_ms = cooldown_ms;
      consecutive_failures = 0;
      opened_at = none;
    })

-- `get isOpen`, which resets a breaker whose cool-down is over: `now - openedAt >= cooldownMs`.
unfoldable pub is_open : ℕ → CircuitBreaker → Bool × CircuitBreaker
is_open now b = elim b.opened_at [
  | none ↦ (false, b)
  | some opened ↦
      if leb (opened + b.cooldown_ms) now then (false, record b { opened_at = none }) else (true, b)
]

-- `recordSuccess`
unfoldable pub record_success : CircuitBreaker → CircuitBreaker
record_success b = record b { consecutive_failures = 0; opened_at = none }

-- `recordFailure`
unfoldable pub record_failure : ℕ → CircuitBreaker → Bool × CircuitBreaker
record_failure now b =
    let counted = record b { consecutive_failures = b.consecutive_failures + 1 } in
    if leb b.threshold (b.consecutive_failures + 1) && is_none b.opened_at
    then (true, record counted { opened_at = some now })
    else (false, counted)

-- One call of the breaker.
pub data Call : Type 0 where
  poll : ℕ → Call
  succeed : Call
  fail : ℕ → Call

abbrev pub step : Call → CircuitBreaker → CircuitBreaker
step (poll now) b = (is_open now b).1
step succeed b = record_success b
step (fail now) b = (record_failure now b).1

abbrev pub run : List Call → CircuitBreaker → CircuitBreaker
run [] b = b
run (c ∷ cs) b = run cs (step c b)

-- The calls before an instant that report no success.
abbrev pub IsBefore : ℕ → Call → Type 0
IsBefore t (poll now) = now < t
IsBefore t succeed = ⊥
IsBefore t (fail now) = now < t

-- An open breaker has counted its threshold of failures.
abbrev pub IsCounted : CircuitBreaker → Type 0
IsCounted b = is_none b.opened_at ≡ false → b.threshold ≤ b.consecutive_failures

step-IsCounted : (c : Call) (b : CircuitBreaker) → IsCounted b → IsCounted (step c b)
unfolding is_open record_success record_failure
step-IsCounted (poll now) b h = λ e. ground arith
step-IsCounted succeed b h = λ e. cc
step-IsCounted (fail now) b h = λ e. ground arith

step_open :
    (c : Call) (b : CircuitBreaker) (t : ℕ)
    → b.opened_at ≡ some t
    → IsBefore (t + b.cooldown_ms) c
    → ((step c b).opened_at ≡ some t) × ((step c b).cooldown_ms ≡ b.cooldown_ms)
unfolding is_open record_failure
step_open (poll now) b t o h = (ground arith, ground arith)
step_open succeed b t o h = absurd h
step_open (fail now) b t o h = (ground arith, ground arith)

-- Whatever the calls, a breaker that is open only with its threshold of failures counted, as a new
-- one is, stays so.
open-IsCounted : (cs : List Call) (b : CircuitBreaker) → IsCounted b → IsCounted (run cs b)
open-IsCounted [] b h = h
open-IsCounted (c ∷ cs) b h = open-IsCounted cs (step c b) (step-IsCounted c b h)

-- An open breaker fails fast: until its cool-down is over no poll and no further failure closes it,
-- and none prolongs the cool-down.
pub fails_fast :
    (cs : List Call) (b : CircuitBreaker) (opened now : ℕ)
    → b.opened_at ≡ some opened
    → All (IsBefore (opened + b.cooldown_ms)) cs
    → now < opened + b.cooldown_ms
    → (is_open now (run cs b)).0 ≡ true
unfolding is_open
fails_fast [] b opened now o before early = ground arith
fails_fast (c ∷ cs) b opened now o (first, before) early =
    let (still, same) = step_open c b opened o first in
    fails_fast cs (step c b) opened now still
      (subst (λ m. All (IsBefore (opened + m)) cs) (sym same) before)
      (subst (λ m. now < opened + m) (sym same) early)

-- A run of failures.
abbrev pub fail_all : List ℕ → CircuitBreaker → CircuitBreaker
fail_all [] b = b
fail_all (t ∷ ts) b = fail_all ts (record_failure t b).1

stays_open :
    (ts : List ℕ) (b : CircuitBreaker)
    → is_none b.opened_at ≡ false
    → is_none (fail_all ts b).opened_at ≡ false
unfolding record_failure
stays_open [] b h = h
stays_open (t ∷ ts) b h = stays_open ts (record_failure t b).1 (ground arith)

opened_now :
    (t : ℕ) (b : CircuitBreaker)
    → b.opened_at ≡ none
    → leb b.threshold (b.consecutive_failures + 1) ≡ true
    → is_none (record_failure t b).1.opened_at ≡ false
unfolding record_failure
opened_now t b o reached = ground arith

closed_still :
    (t : ℕ) (b : CircuitBreaker)
    → b.opened_at ≡ none
    → leb b.threshold (b.consecutive_failures + 1) ≡ false
    → (record_failure t b).1.opened_at ≡ none
unfolding record_failure
closed_still t b o short = ground arith

-- Failures in a row open a closed breaker that has counted fewer than its threshold exactly when,
-- with those counted before, they reach it.
pub opens_at_threshold :
    (ts : List ℕ) (b : CircuitBreaker)
    → b.opened_at ≡ none
    → b.consecutive_failures < b.threshold
    → is_none (fail_all ts b).opened_at ≡ ltb (b.consecutive_failures + length ts) b.threshold
unfolding record_failure
opens_at_threshold [] b o below = ground arith
opens_at_threshold (t ∷ ts) b o below =
    let next : CircuitBreaker = (record_failure t b).1 in
    let more : next.consecutive_failures ≡ b.consecutive_failures + 1 = ground arith in
    let same : next.threshold ≡ b.threshold = ground arith in
    elim (Bool-cases (leb b.threshold (b.consecutive_failures + 1))) [
      | inl reached ↦
          let past : ltb (b.consecutive_failures + length (t ∷ ts)) b.threshold ≡ false =
            ground arith in
          stays_open ts next (opened_now t b o reached) ∙ sym past
      | inr short ↦
          let rest = opens_at_threshold ts next (closed_still t b o short) (ground arith) in
          let count : next.consecutive_failures + length ts
              ≡ b.consecutive_failures + length (t ∷ ts) =
            omega (arith, more) in
          rest
          ∙ ap (λ n. ltb n next.threshold) count
          ∙ ap (ltb (b.consecutive_failures + length (t ∷ ts))) same
    ]

closed_lets_through :
    (ts : List ℕ) (b : CircuitBreaker) → b.opened_at ≡ none → All (λ t. is_open t b ≡ (false, b)) ts
unfolding is_open
closed_lets_through [] b o = tt
closed_lets_through (t ∷ ts) b o = (ground arith, closed_lets_through ts b o)

half_open :
    (b : CircuitBreaker) (opened now : ℕ)
    → b.opened_at ≡ some opened
    → opened + b.cooldown_ms ≤ now
    → (is_open now b).1 ≡ record b { opened_at = none }
unfolding is_open
half_open b opened now o over = ground arith

-- Of an open breaker that has counted its threshold: in the state after a poll at the end of the
-- cool-down, further polls all let their calls through and change nothing, however many they are, and
-- a failure then opens the breaker again.
pub half_open_reopens :
    (ts : List ℕ) (b : CircuitBreaker) (opened now failed : ℕ)
    → IsCounted b
    → b.opened_at ≡ some opened
    → opened + b.cooldown_ms ≤ now
    → let probing = (is_open now b).1 in
      All (λ t. is_open t probing ≡ (false, probing)) ts
      × ((record_failure failed probing).1.opened_at ≡ some failed)
unfolding record_failure
half_open_reopens ts b opened now failed counted o over =
    let half = half_open b opened now o over in
    let reached : b.threshold ≤ b.consecutive_failures = counted (rw o refl) in
    (
      subst (λ p. All (λ t. is_open t p ≡ (false, p)) ts) (sym half)
          (closed_lets_through ts (record b { opened_at = none }) refl),
      subst (λ p. (record_failure failed p).1.opened_at ≡ some failed) (sym half) (ground arith),
    )
