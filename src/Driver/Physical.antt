-- ===== src/Driver/Physical.antt =====
-- core/outbox.ts of the driver's app: what becomes of the actions in a flush.
use mathlib.Core.Path.{subst}
use system_delivery.Prelude.{
  ℕ, ◌==◌, ◌≡◌, refl, inl, inr, true, false, some, List, [], ◌∷◌, map, arith, member, update_where,
  if◌then◌else◌, Bool-cases, not, All, All-unit, All-map, All-keep, All-update_where, ==→eq, sym,
  ◌∙◌, ap,
}
use system_delivery.Driver.Outbox.{
  ActionKind, OutboxAction, Device, is_pending, is_refused, is_physical, pending_actions,
  update_action,
}
use system_delivery.Driver.Ports.{Ports}
use system_delivery.Driver.Batch.{Flush, Turn, patch, sendable}
use system_delivery.Driver.Flush.{flush, final}
use system_delivery.Driver.Preserved.{Fits}
use system_delivery.Driver.Phases.{flush_preserves}

-- The queue holds rows of the table.
pub All-sendable :
    {W : Type 0} (R : OutboxAction → Type 0) (st : Flush W)
    → All R st.device.actions
    → All
        (λ a. R a × (member a.subject_id st.deferred ≡ false) × (is_pending a.state ≡ true))
        (sendable st)
unfolding sendable
All-sendable R st h =
    All-map
      (λ a. (R a × (is_pending a.state ≡ true)) × (not (member a.subject_id st.deferred) ≡ true))
      (λ a. R a × (member a.subject_id st.deferred ≡ false) × (is_pending a.state ≡ true))
      (λ a p. (p.0.0, ground arith, p.0.1)) (sendable st)
      (All-keep (λ a. R a × (is_pending a.state ≡ true))
        (λ a. not (member a.subject_id st.deferred)) (pending_actions st.device)
        (All-keep R (λ a. is_pending a.state) st.device.actions h))

-- Two actions of one id are of one kind, and none that happened in the street is refused.
abbrev pub IsSpared : (ℕ → ActionKind) → OutboxAction → Type 0
IsSpared kind_of a =
    (a.kind ≡ kind_of a.id) × (is_physical a.kind ≡ true → is_refused a.state ≡ false)

module _ (kind_of : ℕ → ActionKind) where
  spared_state :
      (a : OutboxAction) (f : OutboxAction → OutboxAction) (x : OutboxAction)
      → Fits a f
      → x.kind ≡ a.kind
      → (is_physical x.kind ≡ true → is_refused x.state ≡ false)
      → is_physical x.kind ≡ true
      → is_refused (f x).state ≡ false
  spared_state a f x fits kinds spared heavy = elim (Bool-cases (is_refused (f x).state)) [
    | inr good ↦ good
    | inl bad ↦
        let held = fits.still_refused x (ap is_physical (sym kinds) ∙ heavy) bad in
        cc (held, spared heavy)
  ]

  IsSpared-row :
      (a : OutboxAction) (f : OutboxAction → OutboxAction) (x : OutboxAction)
      → a.kind ≡ kind_of a.id
      → Fits a f
      → IsSpared kind_of x
      → IsSpared kind_of (if x.id == a.id then f x else x)
  IsSpared-row a f x q fits (keyed, spared) = elim (Bool-cases (x.id == a.id)) [
    | inr other ↦ rw other (keyed, spared)
    | inl same ↦
        let kinds : x.kind ≡ a.kind = keyed ∙ ap kind_of (==→eq x.id a.id same) ∙ sym q in
        rw same (
          fits.same_kind x ∙ keyed ∙ ap kind_of (sym (fits.same_id x)),
          λ heavy. spared_state a f x fits kinds spared (rw (fits.same_kind x) at heavy),
        )
  ]

  IsSpared-patch :
      {W : Type 0} (a : OutboxAction) (f : OutboxAction → OutboxAction) (st : Flush W)
      → a.kind ≡ kind_of a.id
      → Fits a f
      → All (IsSpared kind_of) st.device.actions
      → All (IsSpared kind_of) (patch a.id f st).device.actions
  unfolding update_action
  IsSpared-patch a f st q fits p =
      All-update_where (λ x. x.id == a.id) (IsSpared kind_of) (IsSpared kind_of) f
        (λ x. IsSpared-row a f x q fits) st.device.actions p

-- What a row is, whatever becomes of it.
abbrev pub tag : OutboxAction → ℕ × ActionKind × ℕ
tag a = (a.id, a.kind, a.subject_id)

map-tag-update_where :
    (a : OutboxAction) (f : OutboxAction → OutboxAction)
    → Fits a f
    → (xs : List OutboxAction) → map tag (update_where (λ x. x.id == a.id) f xs) ≡ map tag xs
map-tag-update_where a f fits [] = refl
map-tag-update_where a f fits (x ∷ xs) =
    ground (
      arith,
      map-tag-update_where a f fits xs,
      fits.same_id x,
      fits.same_kind x,
      fits.same_subject x,
    )

tags_patch :
    {W : Type 0} (a : OutboxAction) (f : OutboxAction → OutboxAction) (st : Flush W)
    → Fits a f
    → map tag (patch a.id f st).device.actions ≡ map tag st.device.actions
unfolding update_action
tags_patch a f st fits = map-tag-update_where a f fits st.device.actions

-- Whatever the server answers, a flush that ends has left every action its id, kind and subject, in
-- the same order; and where two actions with one id were of one kind and no action that happened in
-- the street (a delivery, a completed return) was REFUSED before, none is REFUSED afterwards: it is
-- done, escalated to a person, or still pending.
pub flush_spares :
    {W : Type 0} (ports : Ports W) (kind_of : ℕ → ActionKind) (fuel : ℕ) (d : Device) (w : W)
    (t : Turn W)
    → All (IsSpared kind_of) d.actions
    → flush ports fuel d w ≡ some t
    → (map tag (final t).device.actions ≡ map tag d.actions)
      × All (IsSpared kind_of) (final t).device.actions
flush_spares {W} ports kind_of fuel d w t spared h = (
  flush_preserves ports (λ st. map tag st.device.actions ≡ map tag d.actions) (λ a. Unit {0})
      (λ a f st q fits p. tags_patch a f st fits ∙ p) (λ s st p. p)
      (λ st st' same _ p. ap (map tag) same ∙ p) (λ st p. All-unit (sendable st)) fuel d w t refl h,
  flush_preserves ports (λ st. All (IsSpared kind_of) st.device.actions)
      (λ a. a.kind ≡ kind_of a.id) (IsSpared-patch kind_of) (λ s st p. p)
      (λ st st' same _ p. subst (All (IsSpared kind_of)) (sym same) p)
      (λ st p. All-map _ _ (λ a x. x.0.0) (sendable st) (All-sendable (IsSpared kind_of) st p)) fuel
      d w t spared h,
)
