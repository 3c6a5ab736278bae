-- ===== src/Driver/Preserved.antt =====
-- What the calls of a flush keep: any property of the actions and of what is deferred that their
-- patches and a deferral keep. `Fits a f` says what a patch sent for the action `a` may do to a row.
use system_delivery.Prelude.{
  ℕ, ◌+◌, ◌==◌, ◌≡◌, refl, inl, inr, Bool, true, false, ◌&&◌, List, [], ◌∷◌, String, arith, find,
  or_else, Bool-cases, Option-cases, not, All,
}
use system_delivery.Driver.Outbox.{OutboxAction, is_pending, is_refused, is_physical}
use system_delivery.Driver.Ports.{SyncAction, SyncResult, accepted, rejected, ScanResult, SyncItem}
use system_delivery.Driver.Batch.{
  Flush, is_retry, is_discard, set_done, set_sent, set_refused, set_escalated, set_attempted, patch,
  defer, defer_if, refuse, escalate, deliver, settle, apply_result, apply_results, count_attempts,
  refuse_run, apply_scan, apply_scans, key_is,
}

pub record Fits (a : OutboxAction) (f : OutboxAction → OutboxAction) : Type 0 where
  pub same_id : (x : OutboxAction) → (f x).id ≡ x.id
  pub same_subject : (x : OutboxAction) → (f x).subject_id ≡ x.subject_id
  pub same_kind : (x : OutboxAction) → (f x).kind ≡ x.kind
  pub still_pending : (x : OutboxAction) → is_pending (f x).state ≡ true → is_pending x.state ≡ true
  pub still_refused :
      (x : OutboxAction)
      → is_physical a.kind ≡ true
      → is_refused (f x).state ≡ true
      → is_refused x.state ≡ true

pub done-Fits : (a : OutboxAction) → Fits a set_done
done-Fits a = record {
  same_id = λ x. refl;
  same_subject = λ x. refl;
  same_kind = λ x. refl;
  still_pending = λ x h. cc;
  still_refused = λ x p h. cc;
}

pub sent-Fits : (a : OutboxAction) → Fits a set_sent
sent-Fits a = record {
  same_id = λ x. refl;
  same_subject = λ x. refl;
  same_kind = λ x. refl;
  still_pending = λ x h. cc;
  still_refused = λ x p h. cc;
}

pub escalated-Fits : (a : OutboxAction) (code detail : String) → Fits a (set_escalated code detail)
escalated-Fits a code detail = record {
  same_id = λ x. refl;
  same_subject = λ x. refl;
  same_kind = λ x. refl;
  still_pending = λ x h. cc;
  still_refused = λ x p h. cc;
}

pub attempted-Fits :
    (a : OutboxAction) (n : ℕ) (code detail : String) → Fits a (set_attempted n code detail)
attempted-Fits a n code detail = record {
  same_id = λ x. refl;
  same_subject = λ x. refl;
  same_kind = λ x. refl;
  still_pending = λ x h. h;
  still_refused = λ x p h. h;
}

pub refused-Fits :
    (a : OutboxAction) (code detail : String)
    → is_physical a.kind ≡ false
    → Fits a (set_refused code detail)
refused-Fits a code detail light = record {
  same_id = λ x. refl;
  same_subject = λ x. refl;
  same_kind = λ x. refl;
  still_pending = λ x h. cc;
  still_refused = λ x p h. cc;
}

module _ {W : Type 0} (P : Flush W → Type 0) (Q : OutboxAction → Type 0)
    (patched : (a : OutboxAction) (f : OutboxAction → OutboxAction) (st : Flush W)
      → Q a
      → Fits a f
      → P st
      → P (patch a.id f st))
    (deferred : (s : ℕ) (st : Flush W) → P st → P (defer s st))
    (framed : (st st' : Flush W)
      → st'.device.actions ≡ st.device.actions
      → st'.deferred ≡ st.deferred
      → P st
      → P st') where
  pub refuse_preserves :
      (a : OutboxAction) (code detail : String) (st : Flush W)
      → Q a
      → is_physical a.kind ≡ false
      → P st
      → P (refuse a code detail st)
  refuse_preserves a code detail st q light p =
      framed (patch a.id (set_refused code detail) st) (refuse a code detail st) refl refl
        (patched a (set_refused code detail) st q (refused-Fits a code detail light) p)

  escalate_preserves :
      (a : OutboxAction) (code detail : String) (st : Flush W)
      → Q a
      → P st
      → P (escalate a code detail st)
  escalate_preserves a code detail st q p =
      framed (patch a.id (set_escalated code detail) st) (escalate a code detail st) refl refl
        (patched a (set_escalated code detail) st q (escalated-Fits a code detail) p)

  pub deliver_preserves :
      (a : OutboxAction) (f : OutboxAction → OutboxAction) (st : Flush W)
      → Q a
      → Fits a f
      → P st
      → P (deliver a f st)
  deliver_preserves a f st q fits p =
      framed (patch a.id f st) (deliver a f st) refl refl (patched a f st q fits p)

  pub settle_preserves :
      (a : OutboxAction) (verdict : SyncAction) (code detail : String) (st : Flush W)
      → Q a
      → P st
      → P (settle a verdict code detail st)
  unfolding settle
  settle_preserves a verdict code detail st q p = elim (Bool-cases (is_retry verdict)) [
    | inl retry ↦
        rw (retry, settle)
          (patched a (set_attempted (a.attempts + 1) code detail) st q
            (attempted-Fits a (a.attempts + 1) code detail) p)
    | inr final ↦ elim (Bool-cases (is_discard verdict && not (is_physical a.kind))) [
      | inl discard ↦
          rw (final, discard, settle) (refuse_preserves a code detail st q (ground arith) p)
      | inr physical ↦ rw (final, physical, settle) (escalate_preserves a code detail st q p)
    ]
  ]

  defer_if_preserves : (b : Bool) (s : ℕ) (st : Flush W) → P st → P (defer_if b s st)
  defer_if_preserves true s st p = deferred s st p
  defer_if_preserves false s st p = p

  pub apply_result_preserves :
      (results : List SyncResult) (a : OutboxAction) (st : Flush W)
      → Q a
      → P st
      → P (apply_result results a st)
  unfolding apply_result
  apply_result_preserves results a st q p = elim (Option-cases (find (key_is a.id) results)) [
    | inl none_found ↦ rw (none_found, apply_result) (deferred a.subject_id st p)
    | inr (accepted key, found) ↦
        rw (found, apply_result) (deliver_preserves a set_done st q (done-Fits a) p)
    | inr (rejected key code detail verdict, found) ↦
        rw (found, apply_result)
          (settle_preserves a verdict code detail (defer_if (is_retry verdict) a.subject_id st) q
            (defer_if_preserves (is_retry verdict) a.subject_id st p))
  ]

  pub apply_results_preserves :
      (results : List SyncResult) (items : List (OutboxAction × SyncItem)) (st : Flush W)
      → All (λ i. Q i.0) items
      → P st
      → P (apply_results results items st)
  unfolding apply_results
  apply_results_preserves results [] st q p = p
  apply_results_preserves results ((a, item) ∷ rest) st q p =
      apply_results_preserves results rest (apply_result results a st) q.1
        (apply_result_preserves results a st q.0 p)

  pub count_attempts_preserves :
      (code detail : String) (items : List (OutboxAction × SyncItem)) (st : Flush W)
      → All (λ i. Q i.0) items
      → P st
      → P (count_attempts code detail items st)
  unfolding count_attempts
  count_attempts_preserves code detail [] st q p = p
  count_attempts_preserves code detail ((a, item) ∷ rest) st q p =
      count_attempts_preserves code detail rest
        (patch a.id (set_attempted (a.attempts + 1) code detail) st) q.1
        (patched a (set_attempted (a.attempts + 1) code detail) st q.0
          (attempted-Fits a (a.attempts + 1) code detail) p)

  pub refuse_run_preserves :
      (code detail : String) (run : List OutboxAction) (st : Flush W)
      → All (λ a. Q a × (is_physical a.kind ≡ false)) run
      → P st
      → P (refuse_run code detail run st)
  unfolding refuse_run
  refuse_run_preserves code detail [] st q p = p
  refuse_run_preserves code detail (a ∷ rest) st q p =
      refuse_run_preserves code detail rest (refuse a code detail st) q.1
        (refuse_preserves a code detail st q.0.0 q.0.1 p)

  pub apply_scan_preserves :
      (results : List ScanResult) (index : ℕ) (a : OutboxAction) (st : Flush W)
      → Q a
      → P st
      → P (apply_scan results index a st)
  unfolding apply_scan
  apply_scan_preserves results index a st q p =
      elim (Option-cases (find (λ r. r.index == index) results)) [
        | inl none_found ↦ rw (none_found, apply_scan) (deferred a.subject_id st p)
        | inr (r, found) ↦ elim (Option-cases r.action) [
          | inl good ↦
              rw (found, good, apply_scan) (deliver_preserves a set_sent st q (sent-Fits a) p)
          | inr (verdict, bad) ↦
              rw (found, bad, apply_scan)
                (settle_preserves a verdict r.status (or_else r.reason "")
                  (defer_if (is_retry verdict) a.subject_id st) q
                  (defer_if_preserves (is_retry verdict) a.subject_id st p))
        ]
      ]

  pub apply_scans_preserves :
      (results : List ScanResult) (index : ℕ) (run : List OutboxAction) (st : Flush W)
      → All Q run
      → P st
      → P (apply_scans results index run st)
  unfolding apply_scans
  apply_scans_preserves results index [] st q p = p
  apply_scans_preserves results index (a ∷ rest) st q p =
      apply_scans_preserves results (index + 1) rest (apply_scan results index a st) q.1
        (apply_scan_preserves results index a st q.0 p)
