-- ===== src/Prelude/Lists.antt =====
-- Lists over the native numbers: lengths, filters by a Boolean test, membership of identifiers.
use Prim.Native.Nat.{ℕ, suc, ◌+◌}
use mathlib.Core.Path.{◌≡◌, refl, ap}
use mathlib.Core.Logic.{inl, inr}
use mathlib.Core.Bool.{Bool, true, false, ◌&&◌, ◌||◌}
use mathlib.Core.Option.{Option, none, some}
use mathlib.Core.List.{List, [], ◌∷◌, ◌++◌}
use native.Mathlib.Omega.{arith}
use system_delivery.Prelude.Tests.{◌==◌, if◌then◌else◌, Bool-cases}

module _ {ℓ} {A : Type ℓ} where
  abbrev pub length : List A → ℕ
  length [] = 0
  length (x ∷ xs) = suc (length xs)

  abbrev pub is_empty : List A → Bool
  is_empty [] = true
  is_empty (x ∷ xs) = false

  pub length-append : (xs ys : List A) → length (xs ++ ys) ≡ length xs + length ys
  length-append [] ys = omega arith
  length-append (x ∷ xs) ys = omega (arith, length-append xs ys)

  pub append_nil : (xs : List A) → xs ++ [] ≡ xs
  append_nil [] = refl
  append_nil (x ∷ xs) = ap (λ ys. x ∷ ys) (append_nil xs)

  -- `Array.filter`, by a Boolean test.
  abbrev pub keep : (A → Bool) → List A → List A
  keep p [] = []
  keep p (x ∷ xs) = if p x then x ∷ keep p xs else keep p xs

  -- `Array.find`.
  abbrev pub find : (A → Bool) → List A → Option A
  find p [] = none
  find p (x ∷ xs) = if p x then some x else find p xs

  -- `Array.some` and `Array.every`.
  abbrev pub any : (A → Bool) → List A → Bool
  any p [] = false
  any p (x ∷ xs) = p x || any p xs

  abbrev pub all : (A → Bool) → List A → Bool
  all p [] = true
  all p (x ∷ xs) = p x && all p xs

  -- An `UPDATE ... WHERE`: `f` on the rows that pass the test.
  abbrev pub update_where : (A → Bool) → (A → A) → List A → List A
  update_where p f [] = []
  update_where p f (x ∷ xs) = (if p x then f x else x) ∷ update_where p f xs

  abbrev pub All {κ} : (A → Type κ) → List A → Type κ
  All P [] = Unit
  All P (x ∷ xs) = P x × All P xs

  pub All-unit : (xs : List A) → All (λ x. Unit {0}) xs
  All-unit [] = tt
  All-unit (x ∷ xs) = (tt, All-unit xs)

  pub All-append {κ} : (P : A → Type κ) (xs ys : List A) → All P xs → All P ys → All P (xs ++ ys)
  All-append P [] ys hx hy = hy
  All-append P (x ∷ xs) ys hx hy = (hx.0, All-append P xs ys hx.1 hy)

  pub All-map {κ μ} :
      (P : A → Type κ) (Q : A → Type μ)
      → ((x : A) → P x → Q x)
      → (xs : List A) → All P xs
      → All Q xs
  All-map P Q f [] h = tt
  All-map P Q f (x ∷ xs) h = (f x h.0, All-map P Q f xs h.1)

  pub All-both {κ μ} :
      (P : A → Type κ) (Q : A → Type μ) (xs : List A)
      → All P xs
      → All Q xs
      → All (λ x. P x × Q x) xs
  All-both P Q [] p q = tt
  All-both P Q (x ∷ xs) p q = ((p.0, q.0), All-both P Q xs p.1 q.1)

  pub All-keep {κ} :
      (P : A → Type κ) (p : A → Bool) (xs : List A)
      → All P xs
      → All (λ x. P x × (p x ≡ true)) (keep p xs)
  All-keep P p [] h = tt
  All-keep P p (x ∷ xs) h = elim (Bool-cases (p x)) [
    | inl pass ↦ rw pass ((h.0, pass), All-keep P p xs h.1)
    | inr drop ↦ rw drop (All-keep P p xs h.1)
  ]

  pub find_found : (p : A → Bool) (xs : List A) (x : A) → find p xs ≡ some x → p x ≡ true
  find_found p [] x e = cc
  find_found p (y ∷ ys) x e = ground (arith, find_found p ys x)

module _ {ℓ} {A : Type ℓ} (p : A → Bool) where
  pub keep-append : (xs ys : List A) → keep p (xs ++ ys) ≡ keep p xs ++ keep p ys
  keep-append [] ys = refl
  keep-append (x ∷ xs) ys = ground (arith, keep-append xs ys)

  pub All-update_where {κ μ} :
      (P : A → Type κ) (Q : A → Type μ) (f : A → A)
      → ((x : A) → P x → Q (if p x then f x else x))
      → (xs : List A) → All P xs
      → All Q (update_where p f xs)
  All-update_where P Q f step [] h = tt
  All-update_where P Q f step (x ∷ xs) h = (step x h.0, All-update_where P Q f step xs h.1)

module _ {ℓ} {A : Type ℓ} (p : A → Bool) (f : A → A) where
  -- A row that an update leaves in place is found with its new content.
  pub find-update_where :
      (xs : List A) (x : A)
      → ((y : A) → p y ≡ true → p (f y) ≡ true)
      → find p xs ≡ some x
      → find p (update_where p f xs) ≡ some (f x)
  find-update_where [] x h e = cc
  find-update_where (y ∷ ys) x h e = elim (Bool-cases (p y)) [
    | inl hit ↦
        let same : y ≡ x = cc (rw hit at e) in
        let still : p (f y) ≡ true = h y hit in rw (hit, still) (ap (λ z. some (f z)) same)
    | inr miss ↦ rw (miss, miss) (find-update_where ys x h (rw miss at e))
  ]

  -- A row that no update touches is found as before.
  pub find-update_where_other :
      (q : A → Bool) (xs : List A)
      → ((y : A) → p y ≡ true → (q y ≡ false) × (q (f y) ≡ false))
      → find q (update_where p f xs) ≡ find q xs
  find-update_where_other q [] apart = refl
  find-update_where_other q (y ∷ ys) apart = elim (Bool-cases (p y)) [
    | inl hit ↦
        let (before, after) = apart y hit in
        rw (hit, before, after) (find-update_where_other q ys apart)
    | inr miss ↦ elim (Bool-cases (q y)) [
      | inl here ↦ rw (miss, here)
      | inr later ↦ rw (miss, later) (find-update_where_other q ys apart)
    ]
  ]

-- A row that is found is found in a longer table.
pub find-append {ℓ} :
    {A : Type ℓ} (p : A → Bool) (xs ys : List A) (x : A)
    → find p xs ≡ some x
    → find p (xs ++ ys) ≡ some x
find-append p [] ys x e = cc
find-append p (y ∷ xs) ys x e = elim (Bool-cases (p y)) [
  | inl hit ↦ rw hit (rw hit at e)
  | inr miss ↦ rw miss (find-append p xs ys x (rw miss at e))
]

-- Membership of an identifier in a list of identifiers.
abbrev pub member : ℕ → List ℕ → Bool
member k [] = false
member k (j ∷ js) = k == j || member k js
