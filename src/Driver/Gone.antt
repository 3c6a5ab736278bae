-- ===== src/Driver/Gone.antt =====
-- core/outbox.ts of the driver's app: the head of the queue leaves it in its round.
use mathlib.Core.Path.{subst}
use system_delivery.Prelude.{
  ℕ, ◌+◌, ◌==◌, ◌≡◌, refl, inl, inr, Bool, true, false, ◌&&◌, none, List, [], ◌∷◌, String, arith,
  find, member, update_where, if◌then◌else◌, or_else, Bool-cases, Option-cases, not, All, All-unit,
  All-map, All-update_where, ==_self,
}
use system_delivery.Driver.Outbox.{
  OutboxAction, is_pending, is_physical, is_sync_kind, is_scan, is_collect, update_action,
}
use system_delivery.Driver.Ports.{
  SyncAction, SyncResult, accepted, rejected, SyncResponse, ScanResult, SyncItem, Answer, attempt,
  Ports, to_sync_item,
}
use system_delivery.Driver.Batch.{
  Flush, going, take_while, collect_items, is_retry, is_discard, set_done, set_sent, set_refused,
  set_escalated, set_attempted, patch, defer, defer_if, refuse, escalate, settle, apply_result,
  apply_results, refuse_run, apply_scan, apply_scans, key_is, max_scans, reach,
}
use system_delivery.Driver.Flush.{answer_sync, sync_batch, scan_run, pickup_call, round}
use system_delivery.Driver.Preserved.{
  Fits, attempted-Fits, apply_results_preserves, apply_scans_preserves, refuse_run_preserves,
}
use system_delivery.Driver.Rounds.{Attempt-cases, All-take_while}

-- An action that the loop may send.
abbrev pub waits : List ℕ → OutboxAction → Bool
waits ds a = is_pending a.state && not (member a.subject_id ds)

-- No row with the id and the subject of `h` is sent any more.
abbrev pub IsGone : OutboxAction → List ℕ → OutboxAction → Type 0
IsGone h ds y = y.id ≡ h.id → y.subject_id ≡ h.subject_id → waits ds y ≡ false

IsGone-row :
    (h : OutboxAction) (ds : List ℕ) (f : OutboxAction → OutboxAction) (x : OutboxAction)
    → (f x).id ≡ x.id
    → (f x).subject_id ≡ x.subject_id
    → (is_pending (f x).state ≡ true → is_pending x.state ≡ true)
    → IsGone h ds x
    → IsGone h ds (f x)
IsGone-row h ds f x i s p g = λ same_id same_subject.
    let old = g (cc (i, same_id)) (cc (s, same_subject)) in ground (arith, s, old, p)

all-IsGone :
    (h : OutboxAction) (ds : List ℕ)
    → ((y : OutboxAction) → IsGone h ds y)
    → (ys : List OutboxAction) → All (IsGone h ds) ys
all-IsGone h ds f [] = tt
all-IsGone h ds f (y ∷ ys) = (f y, all-IsGone h ds f ys)

going_lem : {W : Type 0} {s s' : Flush W} → going s ≡ going s' → s ≡ s'
going_lem e = cc

module _ {W : Type 0} (h : OutboxAction) where
  abbrev pub Gone : Flush W → Type 0
  Gone st = All (IsGone h st.deferred) st.device.actions

  pub patched :
      (a : OutboxAction) (f : OutboxAction → OutboxAction) (st : Flush W)
      → Unit {0}
      → Fits a f
      → Gone st
      → Gone (patch a.id f st)
  unfolding update_action
  patched a f st q fits g =
      All-update_where (λ x. x.id == a.id) (IsGone h st.deferred) (IsGone h st.deferred) f
        (λ x old. elim (Bool-cases (x.id == a.id)) [
          | inl hit ↦ rw hit (
              IsGone-row h st.deferred f x (fits.same_id x) (fits.same_subject x)
                (fits.still_pending x) old)
          | inr miss ↦ rw miss old
        ])
        st.device.actions g

  pub deferred : (s : ℕ) (st : Flush W) → Gone st → Gone (defer s st)
  deferred s st g =
      All-map (IsGone h st.deferred) (IsGone h (s ∷ st.deferred))
        (λ y old i s'. let o = old i s' in ground arith) st.device.actions g

  pub framed :
      (st st' : Flush W)
      → st'.device.actions ≡ st.device.actions
      → st'.deferred ≡ st.deferred
      → Gone st
      → Gone st'
  framed st st' same_actions same_deferred g = rw (same_actions, same_deferred) g

  pub gone_deferred : (st : Flush W) → Gone (defer h.subject_id st)
  gone_deferred st =
      all-IsGone h (h.subject_id ∷ st.deferred) (λ y i s. ground arith) st.device.actions

  pub gone_patched :
      (f : OutboxAction → OutboxAction) (st : Flush W)
      → ((x : OutboxAction) → is_pending (f x).state ≡ false)
      → Gone (patch h.id f st)
  unfolding update_action
  gone_patched f st finished = go st.device.actions
    where
      go :
          (xs : List OutboxAction)
          → All (IsGone h st.deferred) (update_where (λ x. x.id == h.id) f xs)
      go [] = tt
      go (x ∷ xs) = (λ i s. ground (arith, finished x), go xs)

  escalated_gone : (code detail : String) (st : Flush W) → Gone (escalate h code detail st)
  escalated_gone code detail st = gone_patched (set_escalated code detail) st (λ x. refl)

  refused_gone : (code detail : String) (st : Flush W) → Gone (refuse h code detail st)
  refused_gone code detail st = gone_patched (set_refused code detail) st (λ x. refl)

  settled_gone :
      (verdict : SyncAction) (code detail : String) (st : Flush W)
      → Gone (settle h verdict code detail (defer_if (is_retry verdict) h.subject_id st))
  unfolding settle
  settled_gone verdict code detail st = elim (Bool-cases (is_retry verdict)) [
    | inl retry ↦
        rw (retry, settle)
          (patched h (set_attempted (h.attempts + 1) code detail) (defer h.subject_id st) tt
            (attempted-Fits h (h.attempts + 1) code detail) (gone_deferred st))
    | inr final ↦ elim (Bool-cases (is_discard verdict && not (is_physical h.kind))) [
      | inl discard ↦ rw (final, discard, settle) (refused_gone code detail st)
      | inr keeps ↦ rw (final, keeps, settle) (escalated_gone code detail st)
    ]
  ]

  result_gone : (results : List SyncResult) (st : Flush W) → Gone (apply_result results h st)
  unfolding apply_result
  result_gone results st = elim (Option-cases (find (key_is h.id) results)) [
    | inl missing ↦ rw (missing, apply_result) (gone_deferred st)
    | inr (accepted key, found) ↦ rw (found, apply_result) (gone_patched set_done st (λ x. refl))
    | inr (rejected key code detail verdict, found) ↦
        rw (found, apply_result) (settled_gone verdict code detail st)
  ]

  scan_gone :
      (results : List ScanResult) (index : ℕ) (st : Flush W) → Gone (apply_scan results index h st)
  unfolding apply_scan
  scan_gone results index st = elim (Option-cases (find (λ r. r.index == index) results)) [
    | inl missing ↦ rw (missing, apply_scan) (gone_deferred st)
    | inr (r, found) ↦ elim (Option-cases r.action) [
      | inl good ↦ rw (found, good, apply_scan) (gone_patched set_sent st (λ x. refl))
      | inr (verdict, bad) ↦
          rw (found, bad, apply_scan) (settled_gone verdict r.status (or_else r.reason "") st)
    ]
  ]

  results_gone :
      (results : List SyncResult) (item : SyncItem) (rest : List (OutboxAction × SyncItem))
      (st : Flush W)
      → Gone (apply_results results ((h, item) ∷ rest) st)
  unfolding apply_results
  results_gone results item rest st =
      apply_results_preserves Gone (λ a. Unit {0}) patched deferred framed results rest
        (apply_result results h st) (All-unit rest) (result_gone results st)

  scans_gone :
      (results : List ScanResult) (run : List OutboxAction) (st : Flush W)
      → Gone (apply_scans results 0 (h ∷ run) st)
  unfolding apply_scans
  scans_gone results run st =
      apply_scans_preserves Gone (λ a. Unit {0}) patched deferred framed results (0 + 1) run
        (apply_scan results 0 h st) (All-unit run) (scan_gone results 0 st)

-- The rest of a batch of scans.
scans_light :
    (test : OutboxAction → Bool) (queue : List OutboxAction)
    → ((a : OutboxAction) → test a ≡ true → is_physical a.kind ≡ false)
    → All (λ a. Unit {0} × (is_physical a.kind ≡ false)) (take_while test max_scans (0 + 1) queue)
scans_light test queue f =
    All-map (λ a. Unit {0} × (test a ≡ true)) (λ a. Unit {0} × (is_physical a.kind ≡ false))
      (λ a p. (tt, f a p.1)) (take_while test max_scans (0 + 1) queue)
      (All-take_while (λ a. Unit {0}) test max_scans (0 + 1) queue (All-unit queue))

module _ {W : Type 0} (ports : Ports W) (h : OutboxAction) where
  collected_gone :
      (rest : List OutboxAction) (st : Flush W)
      → to_sync_item st.device h ≡ none
      → Gone h (record st { deferred = (collect_items st.device (h ∷ rest) st.deferred).1 })
  unfolding collect_items
  collected_gone rest st none_yet = rw (none_yet, collect_items) (gone_deferred h st)

  answered_gone :
      (item : SyncItem) (rest : List (OutboxAction × SyncItem)) (answer : Answer SyncResponse)
      (w : W) (st st' : Flush W)
      → answer_sync ports ((h, item) ∷ rest) answer w st ≡ going st'
      → Gone h st'
  unfolding answer_sync
  answered_gone item rest answer w st st' e = elim (Attempt-cases (attempt answer)) [
    | inl (response, good) ↦
        let same = going_lem (rw (good, answer_sync) at e) in
        subst (Gone h) same (results_gone h response.results item rest _)
    | inr (inl gone) ↦ cc (rw (gone, answer_sync) at e)
    | inr (inr (code, detail, refused)) ↦ cc (rw (refused, answer_sync) at e)
  ]

  sync_gone :
      (rest : List OutboxAction) (st st' : Flush W)
      → sync_batch ports (h ∷ rest) st ≡ going st'
      → Gone h st'
  unfolding sync_batch collect_items
  sync_gone rest st st' e = elim (Option-cases (to_sync_item st.device h)) [
    | inl none_yet ↦
        subst (Gone h) (going_lem (rw (none_yet, sync_batch, collect_items) at e))
          (collected_gone rest st none_yet)
    | inr (item, good) ↦
        answered_gone item (collect_items st.device rest st.deferred).0 _ _ _ st'
          (rw (good, sync_batch, collect_items) at e)
  ]

  scanned_gone :
      (pickup : ℕ) (rest : List OutboxAction) (st st' : Flush W)
      → All (λ a. Unit {0} × (is_physical a.kind ≡ false)) rest
      → scan_run ports pickup (h ∷ rest) st ≡ going st'
      → Gone h st'
  unfolding scan_run refuse_run
  scanned_gone pickup rest st st' light e =
      let w = (ports.scan_batch pickup (h ∷ rest) st.world).1 in
      elim (Attempt-cases (attempt (ports.scan_batch pickup (h ∷ rest) st.world).0)) [
        | inl (results, good) ↦
            subst (Gone h) (going_lem (rw (good, scan_run) at e)) (scans_gone h results rest _)
        | inr (inl gone) ↦ cc (rw (gone, scan_run) at e)
        | inr (inr (code, detail, refused)) ↦
            subst (Gone h) (going_lem (rw (refused, scan_run) at e)) (
              refuse_run_preserves (Gone h) (λ a. Unit {0}) (patched h) (deferred h) (framed h) code
                detail rest (refuse h code detail (reach w st)) light
                (refused_gone h code detail (reach w st)))
      ]

  called_gone : (st st' : Flush W) → pickup_call ports h st ≡ going st' → Gone h st'
  unfolding pickup_call
  called_gone st st' e =
      let w =
        ((if is_collect h.kind then ports.collect_pickup else ports.complete_pickup) h.subject_id h
          st.world).1 in
      elim (Attempt-cases (
        attempt
          ((if is_collect h.kind then ports.collect_pickup else ports.complete_pickup) h.subject_id
            h st.world).0)) [
              | inl (done, good) ↦
                  subst (Gone h) (going_lem (rw (good, pickup_call) at e))
                    (gone_patched h set_sent (reach w st) (λ x. refl))
              | inr (inl gone) ↦ cc (rw (gone, pickup_call) at e)
              | inr (inr (code, detail, refused)) ↦
                  subst (Gone h) (going_lem (rw (refused, pickup_call) at e))
                    (refused_gone h code detail (reach w st))
            ]

  -- A round that goes on has taken the head of the queue out of it.
  pub round_gone :
      (queue : List OutboxAction) (st st' : Flush W)
      → round ports h (h ∷ queue) st ≡ going st'
      → Gone h st'
  unfolding round take_while
  round_gone queue st st' e = elim (Bool-cases (is_sync_kind h.kind)) [
    | inl syncs ↦ sync_gone _ st st' (rw (syncs, round, take_while) at e)
    | inr other ↦ elim (Bool-cases (is_scan h.kind)) [
      | inl scans ↦
          scanned_gone h.subject_id _ st st'
            (scans_light (λ a. is_scan a.kind && a.subject_id == h.subject_id) queue
              (λ a e. ground arith))
            (rw (other, scans, ==_self h.subject_id, round, take_while) at e)
      | inr pickup ↦ called_gone st st' (rw (other, pickup, round) at e)
    ]
  ]
