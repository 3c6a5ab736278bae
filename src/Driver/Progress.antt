-- ===== src/Driver/Progress.antt =====
-- core/outbox.ts of the driver's app: fewer and fewer actions wait to be sent.
use system_delivery.Prelude.{
  ℕ, ◌<◌, ◌≤◌, ◌==◌, ◌≡◌, refl, inl, inr, true, false, List, [], ◌∷◌, arith, keep, member, length,
  update_where, if◌then◌else◌, Bool-cases, All, ◌∙◌, ap,
}
use system_delivery.Driver.Outbox.{OutboxAction, is_pending}
use system_delivery.Driver.Preserved.{Fits}
use system_delivery.Driver.Gone.{waits, IsGone}

-- A row and what it has become: never again pending.
pub record Moved (x y : OutboxAction) : Type 0 where
  pub same_id : y.id ≡ x.id
  pub same_subject : y.subject_id ≡ x.subject_id
  pub still_pending : is_pending y.state ≡ true → is_pending x.state ≡ true

abbrev pub AllMoved : List OutboxAction → List OutboxAction → Type 0
AllMoved [] [] = Unit
AllMoved [] (y ∷ ys) = ⊥
AllMoved (x ∷ xs) [] = ⊥
AllMoved (x ∷ xs) (y ∷ ys) = Moved x y × AllMoved xs ys

pub AllMoved-refl : (xs : List OutboxAction) → AllMoved xs xs
AllMoved-refl [] = tt
AllMoved-refl (x ∷ xs) =
    (record { same_id = refl; same_subject = refl; still_pending = λ h. h }, AllMoved-refl xs)

Moved-row :
    (a : OutboxAction) (f : OutboxAction → OutboxAction) (x y : OutboxAction)
    → Fits a f
    → Moved x y
    → Moved x (if y.id == a.id then f y else y)
Moved-row a f x y fits m = elim (Bool-cases (y.id == a.id)) [
  | inr other ↦ rw other m
  | inl hit ↦ rw hit (record {
    same_id = fits.same_id y ∙ m.same_id;
    same_subject = fits.same_subject y ∙ m.same_subject;
    still_pending = λ h. m.still_pending (fits.still_pending y h);
  })
]

pub AllMoved-update_where :
    (a : OutboxAction) (f : OutboxAction → OutboxAction) (xs ys : List OutboxAction)
    → Fits a f
    → AllMoved xs ys
    → AllMoved xs (update_where (λ y. y.id == a.id) f ys)
AllMoved-update_where a f [] [] fits m = tt
AllMoved-update_where a f (x ∷ xs) (y ∷ ys) fits m =
    (Moved-row a f x y fits m.0, AllMoved-update_where a f xs ys fits m.1)
AllMoved-update_where a f [] (y ∷ ys) fits m = absurd m
AllMoved-update_where a f (x ∷ xs) [] fits m = absurd m

-- What a list of deferred subjects holds, a later one holds.
abbrev pub Extends : List ℕ → List ℕ → Type 0
Extends ds ds' = (s : ℕ) → member s ds ≡ true → member s ds' ≡ true

still_waits :
    (ds ds' : List ℕ) (x y : OutboxAction)
    → Extends ds ds'
    → Moved x y
    → waits ds' y ≡ true
    → waits ds x ≡ true
still_waits ds ds' x y ext m w =
    let p = m.still_pending (ground arith) in
    elim (Bool-cases (member x.subject_id ds)) [
      | inr free ↦ ground arith
      | inl held ↦
          let held' = ext x.subject_id held in
          let here : member y.subject_id ds' ≡ true = rw m.same_subject held' in ground arith
    ]

pub fewer :
    (ds ds' : List ℕ) (xs ys : List OutboxAction)
    → Extends ds ds'
    → AllMoved xs ys
    → length (keep (waits ds') ys) ≤ length (keep (waits ds) xs)
fewer ds ds' [] [] ext m = omega arith
fewer ds ds' (x ∷ xs) [] ext m = absurd m
fewer ds ds' [] (y ∷ ys) ext m = absurd m
fewer ds ds' (x ∷ xs) (y ∷ ys) ext m =
    let rest = fewer ds ds' xs ys ext m.1 in
    elim (Bool-cases (waits ds' y)) [
      | inr gone ↦ rw gone (ground (arith, rest))
      | inl on ↦
          let before = still_waits ds ds' x y ext m.0 on in rw (on, before) (omega (arith, rest))
    ]

-- With the first of those that wait gone, fewer wait.
pub strictly_fewer :
    (ds ds' : List ℕ) (xs ys : List OutboxAction) (h : OutboxAction) (queue : List OutboxAction)
    → Extends ds ds'
    → AllMoved xs ys
    → All (IsGone h ds') ys
    → keep (waits ds) xs ≡ h ∷ queue
    → length (keep (waits ds') ys) < length (keep (waits ds) xs)
strictly_fewer ds ds' [] ys h queue ext m g e = cc
strictly_fewer ds ds' (x ∷ xs) [] h queue ext m g e = absurd m
strictly_fewer ds ds' (x ∷ xs) (y ∷ ys) h queue ext m g e = elim (Bool-cases (waits ds x)) [
  | inl first ↦
      let same : x ≡ h = cc (rw first at e) in
      let gone : waits ds' y ≡ false =
        g.0 (m.0.same_id ∙ ap (λ z. z.id) same) (m.0.same_subject ∙ ap (λ z. z.subject_id) same) in
      rw (first, gone) (omega (arith, fewer ds ds' xs ys ext m.1))
  | inr past ↦ elim (Bool-cases (waits ds' y)) [
    | inl on ↦ let before = still_waits ds ds' x y ext m.0 on in cc (before, past)
    | inr gone ↦ rw (past, gone) (strictly_fewer ds ds' xs ys h queue ext m.1 g.1 (rw past at e))
  ]
]
