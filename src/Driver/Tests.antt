-- ===== src/Driver/Tests.antt =====
-- Witnesses for core/outbox.ts and platform/outbox-store.ts of apps/driver/src: a device whose queue
-- holds a delivery, a pickup scan, an attempt on the same shipment as the delivery, and a collection.
use system_delivery.Prelude.{
  ◌++◌, ◌+◌, ℕ, ◌<◌, ◌≡◌, refl, none, some, List, [], ◌∷◌, All, map, arith, suc, ◌==◌,
  if◌then◌else◌, length,
}
use system_delivery.Driver.Outbox.{
  ActionKind, delivered, failed, pickup_scan, pickup_collect, pending, pod_photo, pending_actions,
  OutboxAction, Device,
}
use system_delivery.Driver.Store.{
  NewMedia, media_row, action_row, enqueue, insert_media, prune_actions, unsafe_to_forget,
}
use system_delivery.Driver.Unsafe.{enqueue_counts}
use system_delivery.Driver.Ports.{
  Ports, value, api_error, rejected, retry_later, discard_and_refresh, SyncResult,
}
use system_delivery.Driver.Batch.{Flush, Turn, sendable}
use system_delivery.Driver.Flush.{flush, drain, start, final}
use system_delivery.Driver.Physical.{flush_spares, IsSpared, tag}
use system_delivery.Driver.Ending.{drain_ends, flush_ends}
use system_delivery.Driver.Held.{drain_holds, on_subject, IsKeyed}

abbrev action : ℕ → ActionKind → ℕ → OutboxAction
action id kind subject = record {
  id = id;
  seq = id;
  kind = kind;
  subject_id = subject;
  payload = record { pod = none; others = [] };
  media = [];
  state = pending;
  attempts = 0;
  code = none;
  detail = none;
  created_at = 1000;
}

abbrev phone : Device
phone = record {
  actions =
      action 1 delivered 7
      ∷ action 2 pickup_scan 9
      ∷ action 3 failed 7
      ∷ action 4 pickup_collect 9
      ∷ [];
  media = [];
  routes = [];
}

-- What the server has against each sync item: the delivery is a conflict, the attempt comes later.
abbrev verdicts : List SyncResult
verdicts =
    rejected (some 1) "VERSION_CONFLICT" "stale" discard_and_refresh
    ∷ rejected (some 3) "BUSY" "again" retry_later
    ∷ []

-- A server that counts its calls and refuses a collection.
abbrev server : Ports ℕ
server = record {
  presign = λ m n. (api_error 503 "DOWN" "media", n);
  upload = λ m url headers n. (value tt, n);
  complete_media = λ artifact n. (value tt, n);
  discard_file = λ m n. n;
  sync = λ versions items n. (
    value (record { results = verdicts; active_routes = []; route_updates = []; features = [] }),
    suc n,
  );
  scan_batch = λ pickup run n. (value [], suc n);
  collect_pickup = λ pickup a n. (api_error 409 "CONFLICT" "collected", suc n);
  complete_pickup = λ pickup a n. (value tt, suc n);
}

abbrev kind_of : ℕ → ActionKind
kind_of id =
    if id == 1
    then delivered
    else if id == 2
    then pickup_scan
    else if id == 3
    then failed
    else pickup_collect

abbrev subject_of : ℕ → ℕ
subject_of id = if id == 1 then 7 else if id == 3 then 7 else 9

abbrev ended : (t : Turn ℕ) × (flush server 5 phone 0 ≡ some t)
ended = flush_ends server 5 phone 0 (omega arith)

flush_ends_example : (t : Turn ℕ) × (flush server 5 phone 0 ≡ some t)
flush_ends_example = flush_ends server 5 phone 0 (omega arith)

IsSpared-phone : All (IsSpared kind_of) phone.actions
IsSpared-phone =
    ((refl, λ h. refl), ((refl, λ h. refl), ((refl, λ h. refl), ((refl, λ h. refl), tt))))

flush_spares_example :
    (map tag (final ended.0).device.actions ≡ map tag phone.actions)
    × All (IsSpared kind_of) (final ended.0).device.actions
flush_spares_example = flush_spares server kind_of 5 phone 0 ended.0 IsSpared-phone ended.1

-- The loop with the shipment deferred.
abbrev deferring : Flush ℕ
deferring = record (start server phone 0) { deferred = 7 ∷ [] }

few_wait : length (sendable deferring) < 5
unfolding sendable
few_wait = omega arith

abbrev looped : (t : Turn ℕ) × (drain server 5 deferring ≡ some t)
looped = drain_ends server 5 deferring few_wait

IsKeyed-phone : All (IsKeyed subject_of) phone.actions
IsKeyed-phone = (refl, (refl, (refl, (refl, tt))))

drain_holds_example : on_subject 7 (final looped.0).device.actions ≡ on_subject 7 phone.actions
drain_holds_example =
    drain_holds server subject_of 7 5 deferring looped.0 IsKeyed-phone refl looped.1

-- A delivery with a photo is recorded.
abbrev photo : NewMedia
photo = record {
  id = 70;
  shipment_id = 7;
  purpose = pod_photo;
  uri = "file:///pod.jpg";
  content_type = "image/jpeg";
  size_bytes = 90000;
}

abbrev unlocked : Device
unlocked = record phone {
  media = media_row 2000 photo ∷ [];
  actions =
      phone.actions
      ++ action_row 2000 5 5 delivered 8 (record { pod = none; others = [] }) (photo ∷ []) ∷ [];
}

records :
    enqueue 2000 5 5 delivered 8 (record { pod = none; others = [] }) (photo ∷ []) phone
    ≡ some unlocked
unfolding enqueue insert_media
records = refl

enqueue_counts_example :
    (pending_actions unlocked
      ≡ pending_actions phone
        ++ action_row 2000 5 5 delivered 8 (record { pod = none; others = [] }) (photo ∷ []) ∷ [])
    × (unsafe_to_forget unlocked ≡ unsafe_to_forget phone + 1 + 1)
    × (unsafe_to_forget (prune_actions 9000 unlocked) ≡ unsafe_to_forget unlocked)
enqueue_counts_example =
    enqueue_counts 2000 5 5 delivered 8 (record { pod = none; others = [] }) (photo ∷ []) phone
      unlocked 9000 records
