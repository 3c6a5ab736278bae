-- ===== src/Driver/Store.antt =====
-- apps/driver/src/platform/outbox-store.ts: what the screens read and write. The time of the clock
-- and the row id that the database draws are arguments; a stored manifest counts as readable where
-- `is_readable` says so.
use system_delivery.Prelude.Words.{same_text}
use system_delivery.Prelude.{
  ℕ, ◌+◌, ◌==◌, ltb, leb, not, Bool, true, false, ◌&&◌, ◌||◌, Option, none, some, List, [], ◌∷◌,
  ◌++◌, String, any, find, keep, length, map, if◌then◌else◌,
}
use system_delivery.Driver.Outbox.{
  ActionKind, delivered, failed, return_completed, ActionState, pending, done, text, Fields,
  ActionPayload, OutboxAction, MediaPurpose, MediaState, captured, uploaded, media_failed,
  MediaItem, Route, Device, is_pending, is_escalated, is_captured, is_slotted, is_scan,
}

pub record NewMedia : Type 0 where
  pub id : ℕ
  pub shipment_id : ℕ
  pub purpose : MediaPurpose
  pub uri : String
  pub content_type : String
  pub size_bytes : ℕ

abbrev pub media_row : ℕ → NewMedia → MediaItem
media_row now m = record {
  id = m.id;
  shipment_id = m.shipment_id;
  purpose = m.purpose;
  uri = m.uri;
  content_type = m.content_type;
  size_bytes = m.size_bytes;
  artifact_id = none;
  object_key = none;
  state = captured;
  code = none;
  created_at = now;
}

-- `INSERT INTO media`, row after row; the primary key aborts it.
unfoldable pub insert_media : ℕ → List NewMedia → List MediaItem → Option (List MediaItem)
insert_media now [] rows = some rows
insert_media now (m ∷ ms) rows =
    let rest = insert_media now ms (rows ++ media_row now m ∷ []) in
    if any (λ r. r.id == m.id) rows then none else rest

abbrev pub action_row : ℕ → ℕ → ℕ → ActionKind → ℕ → ActionPayload → List NewMedia → OutboxAction
action_row now seq id kind subject_id payload media = record {
  id = id;
  seq = seq;
  kind = kind;
  subject_id = subject_id;
  payload = payload;
  media = map (λ (m : NewMedia). m.id) media;
  state = pending;
  attempts = 0;
  code = none;
  detail = none;
  created_at = now;
}

-- `enqueue`: the action and its media in one transaction, or `none` and nothing.
unfoldable pub enqueue :
    ℕ → ℕ → ℕ → ActionKind → ℕ → ActionPayload → List NewMedia → Device → Option Device
enqueue now seq id kind subject_id payload media d = elim (insert_media now media d.media) [
  | none ↦ none
  | some rows ↦
      if any (λ a. a.id == id) d.actions
      then none
      else some (record d {
        media = rows;
        actions = d.actions ++ action_row now seq id kind subject_id payload media ∷ [];
      })
]

abbrev pub reversed : List OutboxAction → List OutboxAction
reversed [] = []
reversed (a ∷ as') = reversed as' ++ a ∷ []

-- `recentActions`
abbrev pub recent_actions : ℕ → Device → List OutboxAction
recent_actions since d = reversed (keep (λ a. leb since a.created_at) d.actions)

-- `state IN ('PENDING', 'ESCALATED')`
abbrev pub is_unsettled : ActionState → Bool
is_unsettled state = is_pending state || is_escalated state

abbrev pub is_outcome : ActionKind → Bool
is_outcome delivered = true
is_outcome failed = true
is_outcome return_completed = true
is_outcome _ = false

-- `pendingOutcomes`
abbrev pub pending_outcomes : Device → List (ℕ × ActionKind)
pending_outcomes d =
    map (λ (a : OutboxAction). (a.subject_id, a.kind))
      (keep (λ a. is_unsettled a.state && is_outcome a.kind) d.actions)

abbrev pub is_done : ActionState → Bool
is_done done = true
is_done _ = false

abbrev pub text_at : String → Fields → Option String
text_at key fields = elim (find (λ f. same_text f.0 key) fields) [
  | some (_, text t) ↦ some t
  | _ ↦ none
]

abbrev pub tracking_numbers : List OutboxAction → List String
tracking_numbers [] = []
tracking_numbers (a ∷ as') =
    let rest = tracking_numbers as' in
    elim (text_at "trackingNumber" a.payload.others) [ none ↦ rest | some t ↦ t ∷ rest ]

-- `localScans`
abbrev pub local_scans : ℕ → Device → List String
local_scans pickup_id d = tracking_numbers (
    keep
      (λ a. is_scan a.kind && a.subject_id == pickup_id && (is_pending a.state || is_done a.state))
      d.actions)

-- `storedManifests`: the device without the routes of earlier days, the active manifests, and all.
unfoldable pub stored_manifests : (ℕ → Bool) → ℕ → Device → Device × List ℕ × List ℕ
stored_manifests is_readable today d =
    let routes = keep (λ r. not (ltb r.planned_date today && not r.active)) d.routes in
    let readable = keep (λ r. is_readable r.manifest) in
    let active = map (λ (r : Route). r.manifest) (readable (keep (λ r. r.active) routes)) in
    let idle = map (λ (r : Route). r.manifest) (readable (keep (λ r. not r.active) routes)) in
    (record d { routes = routes }, active, active ++ idle)

abbrev pub is_closed : MediaState → Bool
is_closed uploaded = true
is_closed media_failed = true
is_closed _ = false

-- `pruneActions`
unfoldable pub prune_actions : ℕ → Device → Device
prune_actions older_than d = record d {
  actions = keep (λ a. not (is_done a.state && ltb a.created_at older_than)) d.actions;
  media = keep (λ m. not (is_closed m.state && ltb m.created_at older_than)) d.media;
}

-- `wipeFieldData`
abbrev pub wipe_field_data : Device → Device
wipe_field_data d = record { actions = []; media = []; routes = [] }

-- `unsafeToForget`
unfoldable pub unsafe_to_forget : Device → ℕ
unsafe_to_forget d =
    length (keep (λ a. is_unsettled a.state) d.actions)
    + length (keep (λ m. is_captured m.state || is_slotted m.state) d.media)
