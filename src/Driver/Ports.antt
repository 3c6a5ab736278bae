-- ===== src/Driver/Ports.antt =====
-- The server as core/outbox.ts of apps/driver/src sees it: requests, answers, and what an answer
-- means to the flush. The server's calls are parameters over a state `W` of the world.
use system_delivery.Prelude.{
  ℕ, ◌==◌, leb, Bool, true, false, ◌&&◌, ◌||◌, Option, none, some, List, [], ◌∷◌, ◌++◌, String, any,
  if◌then◌else◌, not,
}
use system_delivery.Driver.Outbox.{
  ActionKind, delivered, address_corrected, ActionPayload, Fields, text, texts, OutboxAction,
  MediaItem, Device, ActiveRoute, RouteUpdate, is_captured, is_media_failed, is_photo, media_by_ids,
}

pub data SyncAction : Type 0 where
  discard_and_refresh retry_later escalate_to_dispatcher : SyncAction

-- An item of `syncResponseSchema.results`, its idempotency key first.
pub data SyncResult : Type 0 where
  accepted : Option ℕ → SyncResult
  rejected : Option ℕ → String → String → SyncAction → SyncResult

pub record SyncResponse : Type 0 where
  pub results : List SyncResult
  pub active_routes : List ActiveRoute
  pub route_updates : List RouteUpdate
  pub features : List (String × Bool)

-- An item of `scanBatchResponseSchema.results`.
pub record ScanResult : Type 0 where
  pub index : ℕ
  pub status : String
  pub action : Option SyncAction
  pub reason : Option String

pub record MediaSlot : Type 0 where
  pub artifact_id : ℕ
  pub object_key : String
  pub upload_url : Option String
  pub required_headers : Option (List (String × String))

-- A sync item: the address for a correction, the shipment for any other kind.
pub data Subject : Type 0 where
  address : ℕ → Subject
  shipment : ℕ → Subject

pub record SyncItem : Type 0 where
  pub idempotency_key : ℕ
  pub kind : ActionKind
  pub subject : Subject
  pub payload : ActionPayload

-- A call's value, or the ApiError that it threw: status (0 for the network), code, message. Any
-- other exception is a defect of the app and is not modelled.
pub data Answer {ℓ} (A : Type ℓ) : Type ℓ where
  value : A → Answer A
  api_error : ℕ → String → String → Answer A

pub data Attempt {ℓ} (A : Type ℓ) : Type ℓ where
  ok : A → Attempt A
  transient : Attempt A
  refusal : String → String → Attempt A

-- `ApiError.transient`
abbrev pub is_transient : ℕ → Bool
is_transient status = status == 0 || status == 429 || leb 500 status

-- `attempt`
abbrev pub attempt {ℓ} : {A : Type ℓ} → Answer A → Attempt A
attempt (value a) = ok a
attempt (api_error status code detail) =
    if is_transient status || status == 401 then transient else refusal code detail

pub record Ports (W : Type 0) : Type 0 where
  pub presign : MediaItem → W → Answer MediaSlot × W
  pub upload : MediaItem → String → List (String × String) → W → Answer (Unit {0}) × W
  pub complete_media : ℕ → W → Answer (Unit {0}) × W
  pub discard_file : MediaItem → W → W
  pub sync : List (ℕ × String) → List SyncItem → W → Answer SyncResponse × W
  -- Each scan is sent with its action's id as the idempotency key.
  pub scan_batch : ℕ → List OutboxAction → W → Answer (List ScanResult) × W
  pub collect_pickup : ℕ → OutboxAction → W → Answer (Unit {0}) × W
  pub complete_pickup : ℕ → OutboxAction → W → Answer (Unit {0}) × W

-- The object keys of the media with a purpose that have one.
abbrev pub keys_of : Bool → List MediaItem → List String
keys_of photo [] = []
keys_of photo (m ∷ ms) =
    let rest = keys_of photo ms in
    elim m.object_key [
      | none ↦ rest
      | some key ↦
          if (if photo then is_photo m.purpose else not (is_photo m.purpose))
            && not (is_media_failed m.state)
          then key ∷ rest
          else rest
    ]

abbrev pub signature_field : List String → Fields
signature_field [] = []
signature_field (key ∷ _) = ("signatureObjectKey", text key) ∷ []

abbrev pub photo_field : List String → Fields
photo_field [] = []
photo_field (key ∷ keys) = ("photoObjectKeys", texts (key ∷ keys)) ∷ []

-- The payload with the keys of the media in `pod`; where a field stands twice, the later counts.
abbrev pub with_pod : ActionKind → List MediaItem → ActionPayload → ActionPayload
with_pod delivered media payload = elim payload.pod [
  | none ↦ payload
  | some pod ↦ record payload {
    pod = some (pod ++ signature_field (keys_of false media) ++ photo_field (keys_of true media));
  }
]
with_pod _ media payload = payload

abbrev pub subject_of : ActionKind → ℕ → Subject
subject_of address_corrected id = address id
subject_of _ id = shipment id

-- `toSyncItem`; `none` while a photo has no slot.
unfoldable pub to_sync_item : Device → OutboxAction → Option SyncItem
to_sync_item d a =
    let media = media_by_ids a.media d in
    if any (λ m. is_captured m.state) media
    then none
    else some (record {
      idempotency_key = a.id;
      kind = a.kind;
      subject = subject_of a.kind a.subject_id;
      payload = with_pod a.kind media a.payload;
    })
