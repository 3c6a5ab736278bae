-- ===== src/Prelude/Machine.antt =====
-- Runs of a table-driven state machine: `TRANSITIONS[from].has(to)`, move after move.
use Prim.Native.Nat.{ℕ, ◌<◌, ◌≤◌}
use mathlib.Core.Path.{◌≡◌}
use mathlib.Core.Bool.{Bool, true}
use native.Mathlib.Omega.{arith}

pub data Run {S : Type 0} (can : S → S → Bool) : S → S → Type 0 where
  stay : {s : S} → Run can s s
  move : {a b c : S} → can a b ≡ true → Run can b c → Run can a c

module _ {S : Type 0} (can : S → S → Bool) where
  -- What every move keeps, a run keeps.
  pub Run-keeps :
      (P : S → Type 0)
      → ((a b : S) → can a b ≡ true → P a → P b)
      → {a b : S} → Run can a b
      → P a
      → P b
  Run-keeps P kept stay p = p
  Run-keeps P kept (move {a = a} {b = b} m r) p = Run-keeps P kept r (kept a b m p)

  -- Where every move climbs, a run never falls.
  pub Run-climbs :
      (rank : S → ℕ)
      → ((a b : S) → can a b ≡ true → rank a < rank b)
      → {a b : S} → Run can a b
      → rank a ≤ rank b
  Run-climbs rank up stay = omega arith
  Run-climbs rank up (move {a = a} {b = b} m r) = omega (arith, up a b m, Run-climbs rank up r)

  -- So no state is left and entered again.
  pub no_return :
      (rank : S → ℕ)
      → ((a b : S) → can a b ≡ true → rank a < rank b)
      → (a b : S) → can a b ≡ true
      → Run can b a
      → ⊥
  no_return rank up a b m r = omega (arith, up a b m, Run-climbs rank up r)
