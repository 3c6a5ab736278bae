-- ===== src/Driver/Ending.antt =====
-- core/outbox.ts of the driver's app: the loop over the queue ends, and so does a flush.
use system_delivery.Prelude.{
  ℕ, ◌<◌, ◌≤◌, ◌≡◌, refl, suc, zero, inl, inr, some, List, [], ◌∷◌, arith, keep, member, length,
  not, All-unit, sym, ◌∙◌,
}
use system_delivery.Driver.Outbox.{
  OutboxAction, Device, is_pending, update_action, pending_actions, open_media,
}
use system_delivery.Driver.Ports.{Ports}
use system_delivery.Driver.Batch.{Flush, Turn, going, broke, offline, patch, sendable}
use system_delivery.Driver.Flush.{round, drain, take_slots, start, after_drain, flush, final}
use system_delivery.Driver.Preserved.{Fits}
use system_delivery.Driver.Rounds.{List-cases, round_preserves}
use system_delivery.Driver.Phases.{Turn-cases, take_slots_preserves}
use system_delivery.Driver.Gone.{waits, round_gone}
use system_delivery.Driver.Progress.{
  AllMoved, AllMoved-refl, AllMoved-update_where, Extends, fewer, strictly_fewer,
}

keep-keep :
    (ds : List ℕ) (xs : List OutboxAction)
    → keep (λ a. not (member a.subject_id ds)) (keep (λ a. is_pending a.state) xs)
      ≡ keep (waits ds) xs
keep-keep ds [] = refl
keep-keep ds (x ∷ xs) = ground (arith, keep-keep ds xs)

pending_lem : (xs : List OutboxAction) → keep (waits []) xs ≡ keep (λ a. is_pending a.state) xs
pending_lem [] = refl
pending_lem (x ∷ xs) = ground (arith, pending_lem xs)

sendable_lem :
    {W : Type 0} (st : Flush W) → sendable st ≡ keep (waits st.deferred) st.device.actions
unfolding sendable
sendable_lem st = keep-keep st.deferred st.device.actions

-- What a flush may have become from `old`.
abbrev pub After : {W : Type 0} → Flush W → Flush W → Type 0
After old st = AllMoved old.device.actions st.device.actions × Extends old.deferred st.deferred

module _ {W : Type 0} (ports : Ports W) where
  patched-After :
      (old : Flush W) (a : OutboxAction) (f : OutboxAction → OutboxAction) (st : Flush W)
      → Unit {0}
      → Fits a f
      → After old st
      → After old (patch a.id f st)
  unfolding update_action
  patched-After old a f st q fits p =
      (AllMoved-update_where a f old.device.actions st.device.actions fits p.0, p.1)

  framed-After :
      (old st st' : Flush W)
      → st'.device.actions ≡ st.device.actions
      → st'.deferred ≡ st.deferred
      → After old st
      → After old st'
  framed-After old st st' same_actions same_deferred p = rw (same_actions, same_deferred) p

  round-After :
      (head : OutboxAction) (queue : List OutboxAction) (st : Flush W)
      → After st (final (round ports head queue st))
  round-After head queue st =
      round_preserves ports (After st) (λ a. Unit {0}) (patched-After st)
        (λ s st' p. (p.0, λ x h. let m = p.1 x h in ground arith)) (framed-After st) head queue st
        tt (All-unit queue) (AllMoved-refl st.device.actions, λ s h. h)

  round_fewer :
      (head : OutboxAction) (queue : List OutboxAction) (st st' : Flush W)
      → sendable st ≡ head ∷ queue
      → round ports head (head ∷ queue) st ≡ going st'
      → length (sendable st') < length (sendable st)
  round_fewer head queue st st' heads on =
      let after = rw on at (round-After head (head ∷ queue) st) in
      rw (sendable_lem st, sendable_lem st')
        (strictly_fewer st.deferred st'.deferred st.device.actions st'.device.actions head queue
          after.1 after.0 (round_gone ports head queue st st' on) (sym (sendable_lem st) ∙ heads))

  pub drain_ends :
      (fuel : ℕ) (st : Flush W)
      → length (sendable st) < fuel
      → (t : Turn W) × (drain ports fuel st ≡ some t)
  unfolding drain
  drain_ends zero st enough = absurd (omega (arith, enough))
  drain_ends (suc fuel) st enough = elim (List-cases (sendable st)) [
    | inl empty ↦ rw (empty, drain) (going st, refl)
    | inr (head, queue, heads) ↦ elim (Turn-cases (round ports head (head ∷ queue) st)) [
      | inl (st', on) ↦
          let less = round_fewer head queue st st' heads on in
          rw (heads, on, drain) (drain_ends fuel st' (omega (arith, less, enough)))
      | inr (inl (st', stop)) ↦ rw (heads, stop, drain) (going st', refl)
      | inr (inr (st', gone)) ↦ rw (heads, gone, drain) (offline st', refl)
    ]
  ]

  loop_ends :
      (u : Turn W)
      → (t : Turn W) × (elim u [
        | going st ↦ some (after_drain ports st)
        | broke st ↦ some (broke st)
        | offline st ↦ some (offline st)
      ]
          ≡ some t)
  loop_ends (going st) = (after_drain ports st, refl)
  loop_ends (broke st) = (broke st, refl)
  loop_ends (offline st) = (offline st, refl)

  slots-After :
      (d : Device) (w : W)
      → After (start ports d w) (final (take_slots ports (open_media d) (start ports d w)))
  slots-After d w =
      let old = start ports d w in
      take_slots_preserves ports (After old) (λ a. Unit {0}) (patched-After old)
        (λ s st' p. (p.0, λ x h. let m = p.1 x h in ground arith)) (framed-After old)
        (λ st p. All-unit (sendable st)) (open_media d) old (AllMoved-refl d.actions, λ s h. h)

  slots_fewer :
      (d : Device) (w : W) (st : Flush W)
      → take_slots ports (open_media d) (start ports d w) ≡ going st
      → length (sendable st) ≤ length (pending_actions d)
  slots_fewer d w st on =
      let after = rw on at (slots-After d w) in
      rw (sendable_lem st, sym (pending_lem d.actions))
        (fewer [] st.deferred d.actions st.device.actions after.1 after.0)

-- Whatever the server answers, a flush ends: one unit of fuel more than the pending actions of the
-- device is enough for the loop over the queue.
pub flush_ends :
    {W : Type 0} (ports : Ports W) (fuel : ℕ) (d : Device) (w : W)
    → length (pending_actions d) < fuel
    → (t : Turn W) × (flush ports fuel d w ≡ some t)
unfolding flush
flush_ends {W} ports fuel d w enough =
    elim (Turn-cases (take_slots ports (open_media d) (start ports d w))) [
      | inr (inl (st, stop)) ↦ rw (stop, flush) (broke st, refl)
      | inr (inr (st, gone)) ↦ rw (gone, flush) (offline st, refl)
      | inl (st, on) ↦
          let ran = drain_ends ports fuel st (omega (arith, enough, slots_fewer ports d w st on)) in
          rw (on, ran.1, flush) (loop_ends ports ran.0)
    ]
