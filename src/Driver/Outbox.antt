-- ===== src/Driver/Outbox.antt =====
-- The device's outbox: the rows of apps/driver/src/core/outbox.ts, and the store's calls of
-- apps/driver/src/platform/outbox-store.ts, with which core/outbox.ts works. A table is the list of
-- its rows, actions in the order of `seq`; identifiers and instants are numbers; a stored manifest is
-- a number too, for the outbox only keeps it.
use system_delivery.Prelude.{
  ℕ, ◌==◌, Bool, true, false, ◌&&◌, ◌||◌, Option, List, [], ◌∷◌, ◌++◌, String, map, any, keep,
  member, update_where, if◌then◌else◌,
}

pub data ActionKind : Type 0 where
  delivered failed return_completed address_corrected : ActionKind
  pickup_scan pickup_collect pickup_complete : ActionKind

pub data ActionState : Type 0 where
  pending done refused escalated : ActionState

-- A field of a payload that the flush writes or passes on.
pub data Json : Type 0 where
  text : String → Json
  texts : List String → Json

abbrev pub Fields : Type 0
Fields = List (String × Json)

-- A payload by its field `pod`, where that is an object, and its other fields.
pub record ActionPayload : Type 0 where
  pub pod : Option Fields
  pub others : Fields

pub record OutboxAction : Type 0 where
  pub id : ℕ
  pub seq : ℕ
  pub kind : ActionKind
  pub subject_id : ℕ
  pub payload : ActionPayload
  pub media : List ℕ
  pub state : ActionState
  pub attempts : ℕ
  pub code : Option String
  pub detail : Option String
  pub created_at : ℕ

pub data MediaPurpose : Type 0 where
  pod_photo pod_signature : MediaPurpose

pub data MediaState : Type 0 where
  captured slotted uploaded media_failed : MediaState

pub record MediaItem : Type 0 where
  pub id : ℕ
  pub shipment_id : ℕ
  pub purpose : MediaPurpose
  pub uri : String
  pub content_type : String
  pub size_bytes : ℕ
  pub artifact_id : Option ℕ
  pub object_key : Option String
  pub state : MediaState
  pub code : Option String
  -- a column of the table only
  pub created_at : ℕ

pub record Route : Type 0 where
  pub route_id : ℕ
  pub version : String
  pub status : String
  pub active : Bool
  pub planned_date : ℕ
  pub manifest : ℕ

-- The device's tables.
pub record Device : Type 0 where
  pub actions : List OutboxAction
  pub media : List MediaItem
  pub routes : List Route

abbrev pub is_pending : ActionState → Bool
is_pending pending = true
is_pending _ = false

abbrev pub is_refused : ActionState → Bool
is_refused refused = true
is_refused _ = false

abbrev pub is_escalated : ActionState → Bool
is_escalated escalated = true
is_escalated _ = false

abbrev pub is_captured : MediaState → Bool
is_captured captured = true
is_captured _ = false

abbrev pub is_slotted : MediaState → Bool
is_slotted slotted = true
is_slotted _ = false

abbrev pub is_media_failed : MediaState → Bool
is_media_failed media_failed = true
is_media_failed _ = false

abbrev pub is_photo : MediaPurpose → Bool
is_photo pod_photo = true
is_photo pod_signature = false

-- `isSyncKind`
abbrev pub is_sync_kind : ActionKind → Bool
is_sync_kind delivered = true
is_sync_kind failed = true
is_sync_kind return_completed = true
is_sync_kind address_corrected = true
is_sync_kind _ = false

-- `isPhysical`
abbrev pub is_physical : ActionKind → Bool
is_physical delivered = true
is_physical return_completed = true
is_physical _ = false

abbrev pub is_scan : ActionKind → Bool
is_scan pickup_scan = true
is_scan _ = false

abbrev pub is_collect : ActionKind → Bool
is_collect pickup_collect = true
is_collect _ = false

-- `store.pending()`
abbrev pub pending_actions : Device → List OutboxAction
pending_actions d = keep (λ a. is_pending a.state) d.actions

-- `store.updateAction(id, patch)`: the patch as a function on the row.
unfoldable pub update_action : ℕ → (OutboxAction → OutboxAction) → Device → Device
update_action id patch d = record d { actions = update_where (λ a. a.id == id) patch d.actions }

-- `store.openMedia()`
unfoldable pub open_media : Device → List MediaItem
open_media d = keep (λ m. is_captured m.state || is_slotted m.state) d.media

-- `store.mediaByIds(ids)`
unfoldable pub media_by_ids : List ℕ → Device → List MediaItem
media_by_ids ids d = keep (λ m. member m.id ids) d.media

-- `store.updateMedia(id, patch)`
unfoldable pub update_media : ℕ → (MediaItem → MediaItem) → Device → Device
update_media id patch d = record d { media = update_where (λ m. m.id == id) patch d.media }

-- `store.routeVersions()`
unfoldable pub route_versions : Device → List (ℕ × String)
route_versions d = map (λ r. (r.route_id, r.version)) (keep (λ r. r.active) d.routes)

-- What the server lists of a route, and a route that it sends anew.
pub record ActiveRoute : Type 0 where
  pub route_id : ℕ
  pub status : String
  pub version : String

pub record RouteUpdate : Type 0 where
  pub route_id : ℕ
  pub version : String
  -- `manifest.status`
  pub status : String
  -- `manifest.plannedDate`
  pub planned_date : ℕ
  pub manifest : ℕ

-- `INSERT … ON CONFLICT(route_id) DO UPDATE`
abbrev pub upsert_route : RouteUpdate → List Route → List Route
upsert_route u rows =
    let row : Route = record {
      route_id = u.route_id;
      version = u.version;
      status = u.status;
      active = true;
      planned_date = u.planned_date;
      manifest = u.manifest;
    } in
    if any (λ r. r.route_id == u.route_id) rows
    then update_where (λ r. r.route_id == u.route_id) (λ _. row) rows
    else rows ++ row ∷ []

abbrev pub upsert_routes : List RouteUpdate → List Route → List Route
upsert_routes [] rows = rows
upsert_routes (u ∷ us) rows = upsert_routes us (upsert_route u rows)

abbrev pub activate_routes : List ActiveRoute → List Route → List Route
activate_routes [] rows = rows
activate_routes (a ∷ as') rows = activate_routes as' (
    update_where (λ r. r.route_id == a.route_id)
      (λ r. record r { active = true; status = a.status }) rows)

-- `store.saveRoutes(active, updates)`
unfoldable pub save_routes : List ActiveRoute → List RouteUpdate → Device → Device
save_routes listed updates d =
    let idle = map (λ (r : Route). record r { active = false }) d.routes in
    record d { routes = activate_routes listed (upsert_routes updates idle) }

-- `dismiss(id)`: the driver has read a refused or an escalated item.
unfoldable pub dismiss : ℕ → Device → Device
dismiss id d = record d {
  actions =
      update_where (λ a. a.id == id && (is_refused a.state || is_escalated a.state))
        (λ a. record a { state = done }) d.actions;
}
