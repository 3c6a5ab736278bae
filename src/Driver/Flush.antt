-- ===== src/Driver/Flush.antt =====
-- `flushOutbox` of apps/driver/src/core/outbox.ts: its four phases. The loop over the queue runs on
-- fuel, one unit for each batch; `none` means that the fuel ran out.
use system_delivery.Prelude.{
  ℕ, ◌==◌, suc, zero, true, false, ◌&&◌, Option, none, some, List, [], ◌∷◌, find, if◌then◌else◌,
  or_else,
}
use system_delivery.Driver.Outbox.{
  OutboxAction, MediaItem, slotted, uploaded, media_failed, Device, is_captured, is_slotted,
  is_sync_kind, is_scan, is_collect, open_media, update_media, route_versions,
}
use system_delivery.Driver.Ports.{
  SyncResponse, MediaSlot, SyncItem, Answer, value, api_error, ok, transient, refusal, attempt,
  Ports,
}
use system_delivery.Driver.Batch.{
  Flush, FlushReport, Turn, going, broke, offline, max_sync_items, max_scans, take_while,
  collect_items, items_of, set_sent, sendable, deliver, refuse, apply_results, count_attempts,
  refuse_run, apply_scans, reach, lost, refresh,
}

module _ {W : Type 0} (ports : Ports W) where
  -- The slot of one of the open media.
  unfoldable pub take_slot : MediaItem → Flush W → Turn W
  take_slot m st =
      let (answer, w) = ports.presign m st.world in
      elim (attempt answer) [
        | transient ↦ lost w st
        | refusal code detail ↦ going (record (reach w st) {
          device =
              update_media m.id (λ r. record r { state = media_failed; code = some code })
                st.device;
        })
        | ok slot ↦ going (record (reach w st) {
          fresh = (m.id, slot) ∷ st.fresh;
          device =
              update_media m.id
                (λ r. record r {
                  state = slotted;
                  artifact_id = some slot.artifact_id;
                  object_key = some slot.object_key;
                })
                st.device;
        })
      ]

  unfoldable pub take_slots : List MediaItem → Flush W → Turn W
  take_slots [] st = going st
  take_slots (m ∷ ms) st = elim (if is_captured m.state then take_slot m st else going st) [
    | going st' ↦ take_slots ms st'
    | broke st' ↦ broke st'
    | offline st' ↦ offline st'
  ]

  -- The answer to a batch of sync items.
  unfoldable pub answer_sync :
      List (OutboxAction × SyncItem) → Answer SyncResponse → W → Flush W → Turn W
  answer_sync items answer w st = elim (attempt answer) [
    | transient ↦ lost w st
    | refusal code detail ↦ broke (count_attempts code detail items (reach w st))
    | ok response ↦ going (
        apply_results response.results items
          (refresh response (record (reach w st) { synced = true })))
  ]

  unfoldable pub sync_batch : List OutboxAction → Flush W → Turn W
  sync_batch run st =
      let (items, deferred) = collect_items st.device run st.deferred in
      let st' = record st { deferred = deferred } in
      elim items [
        | [] ↦ going st'
        | item ∷ more ↦
            let (answer, w) =
              ports.sync (route_versions st.device) (items_of (item ∷ more)) st.world in
            answer_sync (item ∷ more) answer w st'
      ]

  unfoldable pub scan_run : ℕ → List OutboxAction → Flush W → Turn W
  scan_run pickup run st =
      let (answer, w) = ports.scan_batch pickup run st.world in
      elim (attempt answer) [
        | transient ↦ lost w st
        | refusal code detail ↦ going (refuse_run code detail run (reach w st))
        | ok results ↦ going (apply_scans results 0 run (reach w st))
      ]

  unfoldable pub pickup_call : OutboxAction → Flush W → Turn W
  pickup_call a st =
      let (answer, w) =
        (if is_collect a.kind then ports.collect_pickup else ports.complete_pickup) a.subject_id a
          st.world in
      elim (attempt answer) [
        | transient ↦ lost w st
        | refusal code detail ↦ going (refuse a code detail (reach w st))
        | ok _ ↦ going (deliver a set_sent (reach w st))
      ]

  -- The body of the loop over the queue.
  unfoldable pub round : OutboxAction → List OutboxAction → Flush W → Turn W
  round head queue st =
      if is_sync_kind head.kind
      then sync_batch (take_while (λ a. is_sync_kind a.kind) max_sync_items 0 queue) st
      else if is_scan head.kind
      then scan_run head.subject_id
          (take_while (λ a. is_scan a.kind && a.subject_id == head.subject_id) max_scans 0 queue) st
      else pickup_call head st

  unfoldable pub drain : ℕ → Flush W → Option (Turn W)
  drain zero st = none
  drain (suc fuel) st = elim (sendable st) [
    | [] ↦ some (going st)
    | head ∷ queue ↦ elim (round head (head ∷ queue) st) [
      | going st' ↦ drain fuel st'
      | broke st' ↦ some (going st')
      | offline st' ↦ some (offline st')
    ]
  ]

  -- A plain sync, where no batch was one.
  unfoldable pub plain_sync : Flush W → Turn W
  plain_sync st =
      let (answer, w) = ports.sync (route_versions st.device) [] st.world in
      elim (attempt answer) [
        | transient ↦ lost w st
        | refusal code detail ↦ going (record st { world = w })
        | ok response ↦ going (refresh response (reach w st))
      ]

  -- The calls of one upload: the slot again if it is not fresh, the upload where it still waits, and
  -- its completion.
  unfoldable pub finish_upload : MediaItem → ℕ → Answer MediaSlot → W → Answer (Unit {0}) × W
  finish_upload m artifact (api_error status code detail) w = (api_error status code detail, w)
  finish_upload m artifact (value slot) w = elim slot.upload_url [
    | none ↦ ports.complete_media artifact w
    | some url ↦
        let (answer, w') = ports.upload m url (or_else slot.required_headers []) w in
        elim answer [
          | api_error status code detail ↦ (api_error status code detail, w')
          | value _ ↦ ports.complete_media artifact w'
        ]
  ]

  -- `fresh.get(media.id) ?? (await ports.presign(media))`
  unfoldable pub slot_of : MediaItem → Flush W → Answer MediaSlot × W
  slot_of m st = elim (find (λ f. f.0 == m.id) st.fresh) [
    | some (_, slot) ↦ (value slot, st.world)
    | none ↦ ports.presign m st.world
  ]

  unfoldable pub upload_one : MediaItem → ℕ → Flush W → Turn W
  upload_one m artifact st =
      let (slot, w) = slot_of m st in
      let (answer, w') = finish_upload m artifact slot w in
      elim (attempt answer) [
        | transient ↦ lost w' st
        | refusal code detail ↦ going (record (reach w' st) {
          device =
              update_media m.id (λ r. record r { state = media_failed; code = some code })
                st.device;
        })
        | ok _ ↦ going (record (reach (ports.discard_file m w') st) {
          device = update_media m.id (λ r. record r { state = uploaded; code = none }) st.device;
        })
      ]

  abbrev pub upload_open : MediaItem → Flush W → Turn W
  upload_open m st = elim m.artifact_id [
    | none ↦ going st
    | some artifact ↦ if is_slotted m.state then upload_one m artifact st else going st
  ]

  unfoldable pub uploads : List MediaItem → Flush W → Turn W
  uploads [] st = going st
  uploads (m ∷ ms) st = elim (upload_open m st) [
    | going st' ↦ uploads ms st'
    | broke st' ↦ broke st'
    | offline st' ↦ offline st'
  ]

  -- The flush before its first call.
  abbrev pub start : Device → W → Flush W
  start device world = record {
    device = device;
    world = world;
    sent = 0;
    refused_count = 0;
    escalated_count = 0;
    reached_server = false;
    features = none;
    fresh = [];
    synced = false;
    deferred = [];
  }

  -- The phases after the loop.
  unfoldable pub after_drain : Flush W → Turn W
  after_drain st = elim (if st.synced then going st else plain_sync st) [
    | going st' ↦ uploads (open_media st'.device) st'
    | broke st' ↦ broke st'
    | offline st' ↦ offline st'
  ]

  -- `flushOutbox`: how it ended, with its variables.
  unfoldable pub flush : ℕ → Device → W → Option (Turn W)
  flush fuel device world = elim (take_slots (open_media device) (start device world)) [
    | going st ↦ elim (drain fuel st) [
      | none ↦ none
      | some (going st') ↦ some (after_drain st')
      | some (broke st') ↦ some (broke st')
      | some (offline st') ↦ some (offline st')
    ]
    | broke st ↦ some (broke st)
    | offline st ↦ some (offline st)
  ]

abbrev pub final : {W : Type 0} → Turn W → Flush W
final (going st) = st
final (broke st) = st
final (offline st) = st

-- The report that a flush returns.
unfoldable pub report : {W : Type 0} → Turn W → FlushReport
report t = record {
  sent = (final t).sent;
  refused = (final t).refused_count;
  escalated = (final t).escalated_count;
  reached_server = (final t).reached_server;
  offline = elim t [ offline _ ↦ true | _ ↦ false ];
  features = (final t).features;
}
