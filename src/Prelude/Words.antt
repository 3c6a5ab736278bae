-- ===== src/Prelude/Words.antt =====
-- The `toX(value: string): X` functions of the domain modules: a TEXT column narrowed to a union of
-- literals by membership in a set, or an exception.
use text.Mathlib.Text.{◌==◌}
use text.Mathlib.TextEquality.{eq_iff}
use system_delivery.Prelude.Tests.{if◌then◌else◌}
use Prim.Native.String.{String, ◌++◌}
use mathlib.Core.Path.{◌≡◌}
use mathlib.Core.Bool.{Bool}
use mathlib.Core.Option.{Option, none, some}
use mathlib.Core.List.{List, [], ◌∷◌}
use native.Mathlib.Omega.{arith}

abbrev pub concat : String → String → String
concat s t = s ++ t

abbrev pub same_text : String → String → Bool
same_text s t = s == t

module _ {A : Type 0} (name : A → String) where
  -- `none` is the thrown "Unknown ..." error.
  abbrev pub narrow : List A → String → Option A
  narrow [] value = none
  narrow (a ∷ as') value = if name a == value then some a else narrow as' value

  -- What is accepted is the literal itself, never a default.
  pub narrow_sound :
      (as' : List A) (value : String) (a : A) → narrow as' value ≡ some a → name a ≡ value
  narrow_sound [] value a h = cc
  narrow_sound (b ∷ bs) value a h = ground (arith, eq_iff (name b) value, narrow_sound bs value a)
