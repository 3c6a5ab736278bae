-- ===== src/Shared/Tests.antt =====
-- A breaker that two failures open for 100 ms, and an amount of millimes.
use system_delivery.Prelude.{
  ℕ, ◌+◌, ◌≡◌, refl, true, false, none, some, List, [], ◌∷◌, arith, ltb, length, is_none, All,
}
use system_delivery.Prelude.Int.{negsuc}
use system_delivery.Prelude.Tx.{ok}
use system_delivery.Shared.Money.{format_minor_units, parse_minor_units}
use system_delivery.Shared.MoneyRoundTrip.{parse_minor_units-format_minor_units}
use system_delivery.Shared.CircuitBreaker.{
  CircuitBreaker, Call, poll, fail, is_open, record_failure, run, fail_all, fails_fast,
  opens_at_threshold, half_open_reopens,
}

abbrev closed : CircuitBreaker
closed = record { threshold = 2; cooldown_ms = 100; consecutive_failures = 0; opened_at = none }

abbrev tripped : CircuitBreaker
tripped = record { threshold = 2; cooldown_ms = 100; consecutive_failures = 2; opened_at = some 50 }

abbrev calls : List Call
calls = poll 60 ∷ fail 70 ∷ []

fails_fast_example : (is_open 149 (run calls tripped)).0 ≡ true
fails_fast_example =
    fails_fast calls tripped 50 149 refl (omega arith, (omega arith, tt)) (omega arith)

opens_at_threshold_example :
    is_none (fail_all (10 ∷ 20 ∷ []) closed).opened_at ≡ ltb (0 + length {A = ℕ} (10 ∷ 20 ∷ [])) 2
opens_at_threshold_example = opens_at_threshold (10 ∷ 20 ∷ []) closed refl (omega arith)

half_open_reopens_example :
    All (λ t. is_open t (is_open 150 tripped).1 ≡ (false, (is_open 150 tripped).1)) (160 ∷ 161 ∷ [])
    × ((record_failure 170 (is_open 150 tripped).1).1.opened_at ≡ some 170)
half_open_reopens_example =
    half_open_reopens (160 ∷ 161 ∷ []) tripped 50 150 170 (λ e. omega arith) refl (omega arith)

parse_minor_units-format_minor_units_example :
    parse_minor_units (format_minor_units (negsuc 12499) 3) 3 ≡ ok (negsuc 12499)
parse_minor_units-format_minor_units_example = parse_minor_units-format_minor_units (negsuc 12499) 3
