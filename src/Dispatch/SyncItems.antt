-- ===== src/Dispatch/SyncItems.antt =====
-- apps/api/src/modules/dispatch: domain/sync-dtos.ts, and the types and the verdicts of
-- application/driver-sync.service.ts. Identifiers are numbers; an idempotency key is the list of its
-- character codes.
use system_delivery.Prelude.Words.{concat, narrow}
use system_delivery.Prelude.{
  is_empty, ℕ, zero, suc, ◌==◌, leb, same_option, is_none, Bool, true, false, ◌||◌, Option, none,
  some, List, [], ◌∷◌, ◌++◌, String, any, if◌then◌else◌,
}

pub data SyncItemType : Type 0 where
  delivered failed return_completed address_corrected : SyncItemType

pub data SyncAction : Type 0 where
  discard_and_refresh retry_later escalate_to_dispatcher : SyncAction

-- A payload by the fields that the schema looks at, and the others.
pub record SyncPayload : Type 0 where
  -- `"idempotencyKey" in item.payload`
  pub repeats_key : Bool
  -- `payload["occurredAt"]`, where it is a string
  pub occurred_at : Option String
  pub others : List (String × String)

abbrev pub Key : Type 0
Key = List ℕ

pub record SyncItem : Type 0 where
  pub idempotency_key : Key
  pub type : SyncItemType
  pub shipment_id : Option ℕ
  pub address_id : Option ℕ
  pub payload : SyncPayload

-- An item as it arrives: whether it is an object that is not null, its fields `idempotencyKey` and
-- `type` where they are strings, and what the object schema of zod makes of it, `none` where it
-- refuses the item's shape with the issues in `shape_issues`.
pub record RawItem : Type 0 where
  pub is_object : Bool
  pub key_field : Option Key
  pub type_field : Option String
  pub shape : Option SyncItem
  pub shape_issues : List String

pub data SyncItemResult : Type 0 where
  -- key, type, replayed, resulting status
  accepted : Option Key → Option SyncItemType → Bool → String → SyncItemResult
  -- key, type, code, detail, action
  rejected : Option Key → Option SyncItemType → String → String → SyncAction → SyncItemResult

-- An error that a command throws: a DomainError by code, status and message, or another.
pub data ItemError : Type 0 where
  domain : String → ℕ → String → ItemError
  unexpected : ItemError

pub data Outcome (A : Type 0) : Type 0 where
  returned : A → Outcome A
  thrown : ItemError → Outcome A

pub data Permission : Type 0 where
  shipment_deliver shipment_fail address_correct : Permission

pub data Role : Type 0 where
  driver_role : Role
  other_role : String → Role

pub record SyncCaller : Type 0 where
  pub user_id : ℕ
  pub roles : List Role
  pub permissions : List Permission

abbrev pub is_address_corrected : SyncItemType → Bool
is_address_corrected address_corrected = true
is_address_corrected _ = false

abbrev pub repeated_key : String
repeated_key =
    "payload.idempotencyKey: the item's idempotencyKey is the command's; do not repeat it"

abbrev pub no_device_time : String
no_device_time = "payload.occurredAt: required: when the action happened on the device"

-- `superRefine`: the issues of an item of the right shape.
unfoldable pub refine_issues : SyncItem → List String
refine_issues item =
    let needs_address = is_address_corrected item.type in
    (if is_none (if needs_address then item.address_id else item.shipment_id)
      then (if needs_address
          then "addressId: required for this type"
          else "shipmentId: required for this type")
        ∷ []
      else [])
    ++ (if is_none (if needs_address then item.shipment_id else item.address_id)
        then []
        else (if needs_address
            then "shipmentId: not allowed for this type"
            else "addressId: not allowed for this type")
          ∷ [])
    ++ (if item.payload.repeats_key then repeated_key ∷ [] else [])
    ++ (if is_none item.payload.occurred_at then no_device_time ∷ [] else [])

-- `issues.map(…).join("; ")`
abbrev pub joined : List String → String
joined [] = ""
joined (issue ∷ []) = issue
joined (issue ∷ issues) = concat issue (concat "; " (joined issues))

abbrev pub issues_of : RawItem → String
issues_of raw = elim raw.shape [
  | none ↦ joined raw.shape_issues
  | some item ↦ joined (refine_issues item)
]

-- `syncItemSchema.safeParse`; `none` for a failure.
unfoldable pub parse_item : RawItem → Option SyncItem
parse_item raw = elim raw.shape [
  | none ↦ none
  | some item ↦ if is_empty (refine_issues item) then some item else none
]

-- The literal of a type.
abbrev pub type_name : SyncItemType → String
type_name delivered = "DELIVERED"
type_name failed = "FAILED"
type_name return_completed = "RETURN_COMPLETED"
type_name address_corrected = "ADDRESS_CORRECTED"

abbrev item_types : List SyncItemType
item_types = delivered ∷ failed ∷ return_completed ∷ address_corrected ∷ []

-- `key.slice(0, n)`
abbrev pub slice : ℕ → Key → Key
slice n [] = []
slice zero (c ∷ cs) = []
slice (suc n) (c ∷ cs) = c ∷ slice n cs

abbrev pub max_key : ℕ
max_key = 200

-- `identify`: the key and the type that a result echoes for an item that could not be read.
unfoldable pub identify : RawItem → Option Key × Option SyncItemType
identify raw =
    if raw.is_object
    then (
      (elim raw.key_field [ none ↦ none | some key ↦ some (slice max_key key) ]),
      (elim raw.type_field [ none ↦ none | some text ↦ narrow type_name item_types text ]),
    )
    else (none, none)

-- `ITEM_PERMISSION`
abbrev pub item_permission : SyncItemType → Permission
item_permission delivered = shipment_deliver
item_permission failed = shipment_fail
item_permission return_completed = shipment_deliver
item_permission address_corrected = address_correct

-- `PHYSICAL`
abbrev pub is_physical : SyncItemType → Bool
is_physical delivered = true
is_physical return_completed = true
is_physical _ = false

-- What `aggregateOf` names: `address:` or `shipment:` with an id.
pub data Aggregate : Type 0 where
  address shipment : Option ℕ → Aggregate

abbrev pub aggregate_of : SyncItem → Aggregate
aggregate_of item =
    if is_address_corrected item.type then address item.address_id else shipment item.shipment_id

abbrev pub same_aggregate : Aggregate → Aggregate → Bool
same_aggregate (address a) (address b) = same_option a b
same_aggregate (shipment a) (shipment b) = same_option a b
same_aggregate _ _ = false

-- `held.has(aggregate)`
abbrev pub is_held : Aggregate → List Aggregate → Bool
is_held g held = any (same_aggregate g) held

abbrev pub same_permission : Permission → Permission → Bool
same_permission shipment_deliver shipment_deliver = true
same_permission shipment_fail shipment_fail = true
same_permission address_correct address_correct = true
same_permission _ _ = false

abbrev pub is_discard : SyncAction → Bool
is_discard discard_and_refresh = true
is_discard _ = false

-- `reject`: the code, the detail and what the device must do.
unfoldable pub reject : SyncItem → ItemError → String × String × SyncAction
reject item unexpected =
    ("INTERNAL_ERROR", "The server could not process this item; it will be retried.", retry_later)
reject item (domain code status message) = (
  code,
  message,
  (if leb 500 status || status == 429
      then retry_later
      else if is_physical item.type
      then escalate_to_dispatcher
      else if status == 403 || status == 404 || status == 409
      then discard_and_refresh
      else escalate_to_dispatcher),
)
