-- ===== src/Driver/Held.antt =====
-- core/outbox.ts of the driver's app: what follows a deferred action on its subject.
use system_delivery.Prelude.{
  ℕ, ◌==◌, ◌≡◌, refl, inl, inr, true, false, some, List, [], ◌∷◌, arith, keep, member, update_where,
  if◌then◌else◌, Bool-cases, All, All-map, All-update_where, ==→eq, sym, ◌∙◌, ap,
}
use system_delivery.Driver.Outbox.{OutboxAction, update_action}
use system_delivery.Driver.Ports.{Ports}
use system_delivery.Driver.Batch.{Flush, Turn, patch, sendable}
use system_delivery.Driver.Flush.{drain, final}
use system_delivery.Driver.Preserved.{Fits}
use system_delivery.Driver.Phases.{drain_preserves}
use system_delivery.Driver.Physical.{All-sendable}

-- Two actions of one id are on one subject.
abbrev pub IsKeyed : (ℕ → ℕ) → OutboxAction → Type 0
IsKeyed subject_of a = a.subject_id ≡ subject_of a.id

-- The actions on the subject `s`, in their order.
abbrev pub on_subject : ℕ → List OutboxAction → List OutboxAction
on_subject s actions = keep (λ a. a.subject_id == s) actions

module _ (subject_of : ℕ → ℕ) (s : ℕ) where
  IsKeyed-row :
      (a : OutboxAction) (f : OutboxAction → OutboxAction) (x : OutboxAction)
      → Fits a f
      → IsKeyed subject_of x
      → IsKeyed subject_of (if x.id == a.id then f x else x)
  IsKeyed-row a f x fits keyed = elim (Bool-cases (x.id == a.id)) [
    | inr other ↦ rw other keyed
    | inl hit ↦ rw hit (fits.same_subject x ∙ keyed ∙ ap subject_of (sym (fits.same_id x)))
  ]

  on_subject-update_where :
      (a : OutboxAction) (f : OutboxAction → OutboxAction) (xs : List OutboxAction)
      → Fits a f
      → IsKeyed subject_of a
      → a.subject_id == s ≡ false
      → All (IsKeyed subject_of) xs
      → on_subject s (update_where (λ x. x.id == a.id) f xs) ≡ on_subject s xs
  on_subject-update_where a f [] fits q other keyed = refl
  on_subject-update_where a f (x ∷ xs) fits q other (key, keyed) =
      let rest = on_subject-update_where a f xs fits q other keyed in
      elim (Bool-cases (x.id == a.id)) [
        | inr miss ↦ rw miss (ground (arith, rest))
        | inl hit ↦
            let same : x.subject_id ≡ a.subject_id =
              key ∙ ap subject_of (==→eq x.id a.id hit) ∙ sym q in
            let past : x.subject_id == s ≡ false = rw same other in
            rw (hit, fits.same_subject x, past) rest
      ]

  -- The loop after the subject `s` was deferred, from the actions `old`.
  abbrev pub Held : {W : Type 0} → List OutboxAction → Flush W → Type 0
  Held old st =
      (on_subject s st.device.actions ≡ on_subject s old)
      × All (IsKeyed subject_of) st.device.actions
      × (member s st.deferred ≡ true)

  patched-Held :
      {W : Type 0} (old : List OutboxAction) (a : OutboxAction) (f : OutboxAction → OutboxAction)
      (st : Flush W)
      → IsKeyed subject_of a × (a.subject_id == s ≡ false)
      → Fits a f
      → Held old st
      → Held old (patch a.id f st)
  unfolding update_action
  patched-Held old a f st (q, other) fits (same, keyed, held) = (
    on_subject-update_where a f st.device.actions fits q other keyed ∙ same,
    All-update_where (λ x. x.id == a.id) (IsKeyed subject_of) (IsKeyed subject_of) f
        (λ x. IsKeyed-row a f x fits) st.device.actions keyed,
    held,
  )

  apart : (x : ℕ) (ds : List ℕ) → member s ds ≡ true → member x ds ≡ false → x == s ≡ false
  apart x ds held free = elim (Bool-cases (x == s)) [
    | inr other ↦ other
    | inl same ↦ let e = ==→eq x s same in cc (e, held, free)
  ]

-- Where two actions with one id are on one subject: once a subject is deferred, a loop over the rest
-- of the queue that returns leaves the row of every action on it as it is, in its order, whatever the
-- server answers.
pub drain_holds :
    {W : Type 0} (ports : Ports W) (subject_of : ℕ → ℕ) (s : ℕ) (fuel : ℕ) (st : Flush W)
    (t : Turn W)
    → All (IsKeyed subject_of) st.device.actions
    → member s st.deferred ≡ true
    → drain ports fuel st ≡ some t
    → on_subject s (final t).device.actions ≡ on_subject s st.device.actions
drain_holds ports subject_of s fuel st t keyed held ran =
    (drain_preserves ports (Held subject_of s st.device.actions)
      (λ a. IsKeyed subject_of a × (a.subject_id == s ≡ false))
      (patched-Held subject_of s st.device.actions)
      (λ x st' p. (p.0, p.1, let m = p.2 in ground arith))
      (λ st' st'' same_actions same_deferred p. rw (same_actions, same_deferred) p)
      (λ st' p.
        All-map _ _ (λ a h. (h.0, apart subject_of s a.subject_id st'.deferred p.2 h.1))
          (sendable st') (All-sendable (IsKeyed subject_of) st' p.1))
      fuel st t (refl, keyed, held) ran).0
