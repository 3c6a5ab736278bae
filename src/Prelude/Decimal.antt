-- ===== src/Prelude/Decimal.antt =====
-- Decimal texts as lists of character codes: `toString` of a number, `padStart` and `padEnd` with
-- zeros, and `BigInt` of a text of digits.
use Prim.Native.Nat.{ℕ, zero, suc, ◌+◌, ◌-◌, ◌*◌, ◌/◌, ◌%◌, ◌^◌, ◌≤◌, ◌<◌}
use mathlib.Core.Path.{◌≡◌, refl, ap, ◌∙◌}
use mathlib.Core.Logic.{inl, inr}
use mathlib.Core.Bool.{Bool, true, false, ◌&&◌}
use mathlib.Core.List.{List, [], ◌∷◌, ◌++◌}
use native.Mathlib.Omega.{arith}
use native.Mathlib.Nat.{pow-suc}
use system_delivery.Prelude.Tests.{ltb, leb, Bool-cases}
use system_delivery.Prelude.Lists.{length, All, length-append}

abbrev pub Text : Type 0
Text = List ℕ

-- The digits of `n` before `rest`, on fuel; `n + 1` units are enough.
unfoldable pub digits_before : ℕ → ℕ → Text → Text
digits_before zero n rest = rest
digits_before (suc fuel) n rest = elim (ltb n 10) [
  | true ↦ (48 + n) ∷ rest
  | false ↦ digits_before fuel (n / 10) ((48 + n % 10) ∷ rest)
]

-- `n.toString()`
unfoldable pub digits : ℕ → Text
digits n = digits_before (suc n) n []

-- What a text of digits adds to the digits read before it.
abbrev pub read_after : ℕ → Text → ℕ
read_after value [] = value
read_after value (c ∷ cs) = read_after (value * 10 + (c - 48)) cs

-- `BigInt(text)`, for a text of digits.
abbrev pub read_digits : Text → ℕ
read_digits cs = read_after 0 cs

abbrev pub zeros : ℕ → Text
zeros zero = []
zeros (suc k) = 48 ∷ zeros k

-- `text.padStart(width, "0")` and `text.padEnd(width, "0")`
abbrev pub pad_start : ℕ → Text → Text
pad_start width cs = zeros (width - length cs) ++ cs

abbrev pub pad_end : ℕ → Text → Text
pad_end width cs = cs ++ zeros (width - length cs)

-- `\d`
abbrev pub is_digit : ℕ → Bool
is_digit c = leb 48 c && leb c 57

abbrev pub IsDigits : Text → Type 0
IsDigits = All (λ c. is_digit c ≡ true)

read-digits_before :
    (fuel n : ℕ) (rest : Text)
    → n < fuel
    → read_after 0 (digits_before fuel n rest) ≡ read_after n rest
unfolding digits_before
read-digits_before zero n rest h = absurd (omega (arith, h))
read-digits_before (suc fuel) n rest h = elim (Bool-cases (ltb n 10)) [
  | inl small ↦ rw (small, digits_before) (ap (λ k. read_after k rest) (omega arith))
  | inr large ↦
      let l : 10 ≤ n = ground (arith, large) in
      rw (large, digits_before)
        (read-digits_before fuel (n / 10) ((48 + n % 10) ∷ rest) (omega (arith, l, h))
          ∙ ap (λ k. read_after k rest) (omega arith))
]

-- `BigInt(n.toString())` is `n`.
pub read-digits : (n : ℕ) → read_digits (digits n) ≡ n
unfolding digits
read-digits n = read-digits_before (suc n) n [] (omega arith)

digits_before-IsDigits :
    (fuel n : ℕ) (rest : Text) → IsDigits rest → IsDigits (digits_before fuel n rest)
unfolding digits_before
digits_before-IsDigits zero n rest h = h
digits_before-IsDigits (suc fuel) n rest h = elim (Bool-cases (ltb n 10)) [
  | inl small ↦ rw (small, digits_before) (ground (arith, small), h)
  | inr large ↦
      rw (large, digits_before)
        (digits_before-IsDigits fuel (n / 10) ((48 + n % 10) ∷ rest) (ground arith, h))
]

pub digits-IsDigits : (n : ℕ) → IsDigits (digits n)
unfolding digits
digits-IsDigits n = digits_before-IsDigits (suc n) n [] tt

pub zeros-IsDigits : (k : ℕ) → IsDigits (zeros k)
zeros-IsDigits zero = tt
zeros-IsDigits (suc k) = (refl, zeros-IsDigits k)

-- A number below 10^(e + 1) has at most e + 1 digits.
length-digits_before :
    (e fuel n : ℕ) (rest : Text)
    → n < 10 ^ suc e
    → length (digits_before fuel n rest) ≤ suc e + length rest
unfolding digits_before
length-digits_before e zero n rest h = omega arith
length-digits_before zero (suc fuel) n rest h =
    let small : ltb n 10 ≡ true = ground (arith, rw (pow-suc 10 0) at h) in
    rw (small, digits_before) (omega arith)
length-digits_before (suc e) (suc fuel) n rest h = elim (Bool-cases (ltb n 10)) [
  | inl small ↦ rw (small, digits_before) (omega arith)
  | inr large ↦
      let smaller : n / 10 < 10 ^ suc e = omega (arith, rw (pow-suc 10 (suc e)) at h) in
      let rest' = length-digits_before e fuel (n / 10) ((48 + n % 10) ∷ rest) smaller in
      rw (large, digits_before) (omega (arith, rest'))
]

pub length-digits : (e n : ℕ) → n < 10 ^ suc e → length (digits n) ≤ suc e
unfolding digits
length-digits e n h = omega (arith, length-digits_before e (suc n) n [] h)

-- Padding in front does not change what is read.
pub read-zeros : (k : ℕ) (cs : Text) → read_digits (zeros k ++ cs) ≡ read_digits cs
read-zeros zero cs = refl
read-zeros (suc k) cs = read-zeros k cs

pub length-zeros : (k : ℕ) → length (zeros k) ≡ k
length-zeros zero = refl
length-zeros (suc k) = omega (arith, length-zeros k)

pub length-pad_start :
    (width : ℕ) (cs : Text) → length cs ≤ width → length (pad_start width cs) ≡ width
length-pad_start width cs h =
    omega (arith, length-append (zeros (width - length cs)) cs, length-zeros (width - length cs), h)

-- Reading goes on where it stopped.
pub read-append : (k : ℕ) (cs ds : Text) → read_after k (cs ++ ds) ≡ read_after (read_after k cs) ds
read-append k [] ds = refl
read-append k (c ∷ cs) ds = read-append (k * 10 + (c - 48)) cs ds

-- What was read before weighs ten to the number of digits that follow.
pub read_after_lem : (k : ℕ) (cs : Text) → read_after k cs ≡ k * 10 ^ length cs + read_digits cs
read_after_lem k [] = omega arith
read_after_lem k (c ∷ cs) =
    let p = 10 ^ length cs in
    rw
      (
        read_after_lem (k * 10 + (c - 48)) cs,
        read_after_lem (0 + (c - 48)) cs,
        pow-suc 10 (length cs),
      )
      (omega arith)

digits_before-cons :
    (fuel n c : ℕ) (rest : Text)
    → (d : ℕ) × (ds : Text) × (digits_before fuel n (c ∷ rest) ≡ d ∷ ds)
unfolding digits_before
digits_before-cons zero n c rest = (c, rest, refl)
digits_before-cons (suc fuel) n c rest = elim (Bool-cases (ltb n 10)) [
  | inl small ↦ rw (small, digits_before) (48 + n, c ∷ rest, refl)
  | inr large ↦
      rw (large, digits_before) (digits_before-cons fuel (n / 10) (48 + n % 10) (c ∷ rest))
]

-- There is always a digit.
pub digits-cons : (n : ℕ) → (d : ℕ) × (ds : Text) × (digits n ≡ d ∷ ds)
unfolding digits digits_before
digits-cons n = elim (Bool-cases (ltb n 10)) [
  | inl small ↦ rw (small, digits_before) (48 + n, [], refl)
  | inr large ↦ rw (large, digits_before) (digits_before-cons n (n / 10) (48 + n % 10) [])
]
