-- ===== src/Driver/Rounds.antt =====
-- A property that the patches and a deferral keep, through the rounds and the phases of `flush`.
use system_delivery.Prelude.{
  ℕ, ◌+◌, ◌==◌, ◌≡◌, ◌⊎◌, refl, ltb, inl, inr, Bool, true, false, ◌&&◌, List, [], ◌∷◌, String,
  arith, if◌then◌else◌, Bool-cases, Option-cases, All, All-map,
}
use system_delivery.Driver.Outbox.{
  OutboxAction, Device, ActionKind, is_physical, is_sync_kind, is_scan, is_collect, save_routes,
}
use system_delivery.Driver.Ports.{
  SyncResponse, SyncItem, Answer, Attempt, ok, transient, refusal, attempt, Ports, to_sync_item,
}
use system_delivery.Driver.Batch.{
  Flush, max_sync_items, max_scans, take_while, collect_items, set_sent, patch, defer,
}
use system_delivery.Driver.Flush.{answer_sync, sync_batch, scan_run, pickup_call, round, final}
use system_delivery.Driver.Preserved.{
  Fits, sent-Fits, refuse_preserves, deliver_preserves, apply_results_preserves,
  count_attempts_preserves, refuse_run_preserves, apply_scans_preserves,
}

pub Attempt-cases :
    {A : Type 0} (t : Attempt A)
    → ((a : A) × (t ≡ ok a)) ⊎ (t ≡ transient) ⊎ ((c : String) × (d : String) × (t ≡ refusal c d))
Attempt-cases (ok a) = inl (a, refl)
Attempt-cases transient = inr (inl refl)
Attempt-cases (refusal c d) = inr (inr (c, d, refl))

pub All-take_while :
    (R : OutboxAction → Type 0) (test : OutboxAction → Bool) (max taken : ℕ)
    (xs : List OutboxAction)
    → All R xs
    → All (λ a. R a × (test a ≡ true)) (take_while test max taken xs)
unfolding take_while
All-take_while R test max taken [] h = tt
All-take_while R test max taken (x ∷ xs) h = elim (Bool-cases (ltb taken max)) [
  | inr full ↦ rw full tt
  | inl room ↦ elim (Bool-cases (test x)) [
    | inr stop ↦ rw (room, stop) tt
    | inl pass ↦ rw (room, pass) ((h.0, pass), All-take_while R test max (taken + 1) xs h.1)
  ]
]

pub List-cases : {A : Type 0} (xs : List A) → (xs ≡ []) ⊎ ((y : A) × (ys : List A) × (xs ≡ y ∷ ys))
List-cases [] = inl refl
List-cases (y ∷ ys) = inr (y, ys, refl)

light : (k : ActionKind) → is_sync_kind k ≡ false → is_physical k ≡ false
light k h = ground arith

scan_light : (k : ActionKind) → is_scan k ≡ true → is_physical k ≡ false
scan_light k h = ground arith

module _ {W : Type 0} (ports : Ports W) (P : Flush W → Type 0) (Q : OutboxAction → Type 0)
    (patched : (a : OutboxAction) (f : OutboxAction → OutboxAction) (st : Flush W)
      → Q a
      → Fits a f
      → P st
      → P (patch a.id f st))
    (deferred : (s : ℕ) (st : Flush W) → P st → P (defer s st))
    (framed : (st st' : Flush W)
      → st'.device.actions ≡ st.device.actions
      → st'.deferred ≡ st.deferred
      → P st
      → P st') where
  collected :
      (d : Device) (run : List OutboxAction) (ds : List ℕ) (st : Flush W)
      → All Q run
      → P (record st { deferred = ds })
      → All (λ i. Q i.0) (collect_items d run ds).0
        × P (record st { deferred = (collect_items d run ds).1 })
  unfolding collect_items
  collected d [] ds st q p = (tt, p)
  collected d (a ∷ rest) ds st q p = elim (Option-cases (to_sync_item d a)) [
    | inl waits ↦
        rw (waits, collect_items) (tt, deferred a.subject_id (record st { deferred = ds }) p)
    | inr (item, good) ↦
        let (qs, p') = collected d rest ds st q.1 p in rw (good, collect_items) ((q.0, qs), p')
  ]

  answer_sync_preserves :
      (items : List (OutboxAction × SyncItem)) (answer : Answer SyncResponse) (w : W) (st : Flush W)
      → All (λ i. Q i.0) items
      → P st
      → P (final (answer_sync ports items answer w st))
  unfolding answer_sync save_routes
  answer_sync_preserves items answer w st q p = elim (Attempt-cases (attempt answer)) [
    | inl (response, good) ↦
        rw (good, answer_sync)
          (apply_results_preserves P Q patched deferred framed response.results items _ q
            (framed st _ refl refl p))
    | inr (inl gone) ↦ rw (gone, answer_sync) (framed st _ refl refl p)
    | inr (inr (code, detail, refused)) ↦
        rw (refused, answer_sync)
          (count_attempts_preserves P Q patched deferred framed code detail items _ q
            (framed st _ refl refl p))
  ]

  sync_batch_preserves :
      (run : List OutboxAction) (st : Flush W)
      → All Q run
      → P st
      → P (final (sync_batch ports run st))
  unfolding sync_batch
  sync_batch_preserves run st q p =
      let (qs, p') = collected st.device run st.deferred st q (framed st _ refl refl p) in
      elim (List-cases (collect_items st.device run st.deferred).0) [
        | inl empty ↦ rw (empty, sync_batch) p'
        | inr (i, rest, some_items) ↦
            rw (some_items, sync_batch)
              (answer_sync_preserves (i ∷ rest) _ _ _ (rw some_items at qs) p')
      ]

  scan_run_preserves :
      (pickup : ℕ) (run : List OutboxAction) (st : Flush W)
      → All (λ a. Q a × (is_physical a.kind ≡ false)) run
      → P st
      → P (final (scan_run ports pickup run st))
  unfolding scan_run
  scan_run_preserves pickup run st q p =
      elim (Attempt-cases (attempt (ports.scan_batch pickup run st.world).0)) [
        | inl (results, good) ↦
            rw (good, scan_run)
              (apply_scans_preserves P Q patched deferred framed results 0 run _
                (All-map (λ a. Q a × (is_physical a.kind ≡ false)) Q (λ a h. h.0) run q)
                (framed st _ refl refl p))
        | inr (inl gone) ↦ rw (gone, scan_run) (framed st _ refl refl p)
        | inr (inr (code, detail, refused)) ↦
            rw (refused, scan_run)
              (refuse_run_preserves P Q patched deferred framed code detail run _ q
                (framed st _ refl refl p))
      ]

  pickup_call_preserves :
      (a : OutboxAction) (st : Flush W)
      → Q a
      → is_physical a.kind ≡ false
      → P st
      → P (final (pickup_call ports a st))
  unfolding pickup_call
  pickup_call_preserves a st q weightless p =
      elim (Attempt-cases (
        attempt
          ((if is_collect a.kind then ports.collect_pickup else ports.complete_pickup) a.subject_id
            a st.world).0)) [
              | inl (done, good) ↦
                  rw (good, pickup_call)
                    (deliver_preserves P Q patched deferred framed a set_sent _ q (sent-Fits a)
                      (framed st _ refl refl p))
              | inr (inl gone) ↦ rw (gone, pickup_call) (framed st _ refl refl p)
              | inr (inr (code, detail, refused)) ↦
                  rw (refused, pickup_call)
                    (refuse_preserves P Q patched deferred framed a code detail _ q weightless
                      (framed st _ refl refl p))
            ]

  pub round_preserves :
      (head : OutboxAction) (queue : List OutboxAction) (st : Flush W)
      → Q head
      → All Q queue
      → P st
      → P (final (round ports head queue st))
  unfolding round
  round_preserves head queue st qh q p = elim (Bool-cases (is_sync_kind head.kind)) [
    | inl syncs ↦
        rw (syncs, round)
          (sync_batch_preserves _ st
            (All-map (λ a. Q a × (is_sync_kind a.kind ≡ true)) Q (λ a h. h.0) _
              (All-take_while Q (λ a. is_sync_kind a.kind) max_sync_items 0 queue q))
            p)
    | inr other ↦ elim (Bool-cases (is_scan head.kind)) [
      | inl scans ↦
          rw (other, scans, round)
            (scan_run_preserves head.subject_id _ st
              (All-map (λ a. Q a × ((is_scan a.kind && a.subject_id == head.subject_id) ≡ true))
                (λ a. Q a × (is_physical a.kind ≡ false))
                (λ a h. (h.0, scan_light a.kind (ground arith))) _
                (All-take_while Q (λ a. is_scan a.kind && a.subject_id == head.subject_id) max_scans
                  0 queue q))
              p)
      | inr pickup ↦
          rw (other, pickup, round) (pickup_call_preserves head st qh (light head.kind other) p)
    ]
  ]
