-- ===== src/Driver/Phases.antt =====
-- A property that the patches and a deferral keep, through the loop and the phases of `flush`.
use system_delivery.Prelude.{
  ℕ, ◌≡◌, ◌⊎◌, refl, suc, zero, inl, inr, Bool, true, false, some, List, [], ◌∷◌, if◌then◌else◌,
  Bool-cases, Option-cases, All,
}
use mathlib.Core.Path.{subst}
use system_delivery.Driver.Outbox.{
  OutboxAction, MediaItem, Device, is_captured, is_slotted, update_media, open_media, save_routes,
  route_versions,
}
use system_delivery.Driver.Ports.{attempt, Ports}
use system_delivery.Driver.Batch.{Flush, Turn, going, broke, offline, patch, defer, sendable}
use system_delivery.Driver.Flush.{
  take_slot, take_slots, round, drain, plain_sync, slot_of, upload_one, upload_open, uploads, start,
  after_drain, flush, final, finish_upload,
}
use system_delivery.Driver.Preserved.{Fits}
use system_delivery.Driver.Rounds.{Attempt-cases, List-cases, round_preserves}

pub Turn-cases :
    {W : Type 0} (t : Turn W)
    → ((st : Flush W) × (t ≡ going st))
      ⊎ ((st : Flush W) × (t ≡ broke st))
      ⊎ ((st : Flush W) × (t ≡ offline st))
Turn-cases (going st) = inl (st, refl)
Turn-cases (broke st) = inr (inl (st, refl))
Turn-cases (offline st) = inr (inr (st, refl))

module _ {W : Type 0} (ports : Ports W) (P : Flush W → Type 0) (Q : OutboxAction → Type 0)
    (patched : (a : OutboxAction) (f : OutboxAction → OutboxAction) (st : Flush W)
      → Q a
      → Fits a f
      → P st
      → P (patch a.id f st))
    (deferred : (s : ℕ) (st : Flush W) → P st → P (defer s st))
    (framed : (st st' : Flush W)
      → st'.device.actions ≡ st.device.actions
      → st'.deferred ≡ st.deferred
      → P st
      → P st')
    (current : (st : Flush W) → P st → All Q (sendable st)) where
  ends : {t : Turn W} (u : Turn W) → P (final u) → some u ≡ some t → P (final t)
  ends {t} u p h = let same : u ≡ t = cc h in subst (λ v. P (final v)) same p

  pub drain_preserves :
      (fuel : ℕ) (st : Flush W) (t : Turn W) → P st → drain ports fuel st ≡ some t → P (final t)
  unfolding drain
  drain_preserves zero st t p h = cc
  drain_preserves (suc fuel) st t p h = elim (List-cases (sendable st)) [
    | inl empty ↦ ends (going st) p (rw (empty, drain) at h)
    | inr (head, queue, heads) ↦
        let q : All Q (head ∷ queue) = rw heads at (current st p) in
        let p' = round_preserves ports P Q patched deferred framed head (head ∷ queue) st q.0 q p in
        elim (Turn-cases (round ports head (head ∷ queue) st)) [
          | inl (st', on) ↦ drain_preserves fuel st' t (rw on at p') (rw (heads, on, drain) at h)
          | inr (inl (st', stop)) ↦ ends (going st') (rw stop at p') (rw (heads, stop, drain) at h)
          | inr (inr (st', gone)) ↦
              ends (offline st') (rw gone at p') (rw (heads, gone, drain) at h)
        ]
  ]

  -- A change of the media and the world.
  slot_preserves : (m : MediaItem) (st : Flush W) → P st → P (final (take_slot ports m st))
  unfolding take_slot update_media
  slot_preserves m st p = elim (Attempt-cases (attempt (ports.presign m st.world).0)) [
    | inl (slot, good) ↦ rw (good, take_slot) (framed st _ refl refl p)
    | inr (inl gone) ↦ rw (gone, take_slot) (framed st _ refl refl p)
    | inr (inr (code, detail, refused)) ↦ rw (refused, take_slot) (framed st _ refl refl p)
  ]

  pub take_slots_preserves :
      (ms : List MediaItem) (st : Flush W) → P st → P (final (take_slots ports ms st))
  unfolding take_slots
  take_slots_preserves [] st p = p
  take_slots_preserves (m ∷ ms) st p = elim (Bool-cases (is_captured m.state)) [
    | inr other ↦ rw (other, take_slots) (take_slots_preserves ms st p)
    | inl captures ↦
        let p' = slot_preserves m st p in
        elim (Turn-cases (take_slot ports m st)) [
          | inl (st', on) ↦
              rw (captures, on, take_slots) (take_slots_preserves ms st' (rw on at p'))
          | inr (inl (st', stop)) ↦ rw (captures, stop, take_slots) (rw stop at p')
          | inr (inr (st', gone)) ↦ rw (captures, gone, take_slots) (rw gone at p')
        ]
  ]

  plain_sync_preserves : (st : Flush W) → P st → P (final (plain_sync ports st))
  unfolding plain_sync save_routes
  plain_sync_preserves st p =
      elim (Attempt-cases (attempt (ports.sync (route_versions st.device) [] st.world).0)) [
        | inl (response, good) ↦ rw (good, plain_sync) (framed st _ refl refl p)
        | inr (inl gone) ↦ rw (gone, plain_sync) (framed st _ refl refl p)
        | inr (inr (code, detail, refused)) ↦ rw (refused, plain_sync) (framed st _ refl refl p)
      ]

  upload_one_preserves :
      (m : MediaItem) (artifact : ℕ) (st : Flush W)
      → P st
      → P (final (upload_one ports m artifact st))
  unfolding upload_one update_media
  upload_one_preserves m artifact st p =
      elim (Attempt-cases (
        attempt (finish_upload ports m artifact (slot_of ports m st).0 (slot_of ports m st).1).0)) [
          | inl (unit, good) ↦ rw (good, upload_one) (framed st _ refl refl p)
          | inr (inl gone) ↦ rw (gone, upload_one) (framed st _ refl refl p)
          | inr (inr (code, detail, refused)) ↦ rw (refused, upload_one) (framed st _ refl refl p)
        ]

  upload_open_preserves : (m : MediaItem) (st : Flush W) → P st → P (final (upload_open ports m st))
  upload_open_preserves m st p = elim (Option-cases m.artifact_id) [
    | inl missing ↦ rw (missing, upload_open) p
    | inr (artifact, held) ↦ elim (Bool-cases (is_slotted m.state)) [
      | inl waits ↦ rw (held, waits, upload_open) (upload_one_preserves m artifact st p)
      | inr other ↦ rw (held, other, upload_open) p
    ]
  ]

  uploads_preserves : (ms : List MediaItem) (st : Flush W) → P st → P (final (uploads ports ms st))
  unfolding uploads
  uploads_preserves [] st p = p
  uploads_preserves (m ∷ ms) st p =
      let p' = upload_open_preserves m st p in
      elim (Turn-cases (upload_open ports m st)) [
        | inl (st', on) ↦ rw (on, uploads) (uploads_preserves ms st' (rw on at p'))
        | inr (inl (st', stop)) ↦ rw (stop, uploads) (rw stop at p')
        | inr (inr (st', gone)) ↦ rw (gone, uploads) (rw gone at p')
      ]

  either : (b : Bool) (t u : Turn W) → P (final t) → P (final u) → P (final (if b then t else u))
  either true t u p q = p
  either false t u p q = q

  after_drain_preserves : (st : Flush W) → P st → P (final (after_drain ports st))
  unfolding after_drain
  after_drain_preserves st p =
      let p' = either st.synced (going st) (plain_sync ports st) p (plain_sync_preserves st p) in
      elim (Turn-cases (if st.synced then going st else plain_sync ports st)) [
        | inl (st', on) ↦
            rw (on, after_drain) (uploads_preserves (open_media st'.device) st' (rw on at p'))
        | inr (inl (st', stop)) ↦ rw (stop, after_drain) (rw stop at p')
        | inr (inr (st', gone)) ↦ rw (gone, after_drain) (rw gone at p')
      ]

  after_loop :
      (u : Turn W) (t : Turn W)
      → P (final u)
      → elim u [
        | going st ↦ some (after_drain ports st)
        | broke st ↦ some (broke st)
        | offline st ↦ some (offline st)
      ]
        ≡ some t
      → P (final t)
  after_loop (going st) t p h = ends (after_drain ports st) (after_drain_preserves st p) h
  after_loop (broke st) t p h = ends (broke st) p h
  after_loop (offline st) t p h = ends (offline st) p h

  pub flush_preserves :
      (fuel : ℕ) (d : Device) (w : W) (t : Turn W)
      → P (start ports d w)
      → flush ports fuel d w ≡ some t
      → P (final t)
  unfolding flush
  flush_preserves fuel d w t p h =
      let p' = take_slots_preserves (open_media d) (start ports d w) p in
      elim (Turn-cases (take_slots ports (open_media d) (start ports d w))) [
        | inr (inl (st, stop)) ↦ ends (broke st) (rw stop at p') (rw (stop, flush) at h)
        | inr (inr (st, gone)) ↦ ends (offline st) (rw gone at p') (rw (gone, flush) at h)
        | inl (st, on) ↦ elim (Option-cases (drain ports fuel st)) [
          | inl dry ↦ cc (rw (on, dry, flush) at h)
          | inr (u, ran) ↦
              after_loop u t (drain_preserves fuel st u (rw on at p') ran)
                (rw (on, ran, flush) at h)
        ]
      ]
