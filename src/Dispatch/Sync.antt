-- ===== src/Dispatch/Sync.antt =====
-- apps/api/src/modules/dispatch/application/driver-sync.service.ts: the driver's offline sync. The
-- commands that it replays belong to other services, and are parameters over a state `W`.
use system_delivery.Prelude.Words.{concat}
use system_delivery.Prelude.{ℕ, Bool, none, some, List, [], ◌∷◌, String, any, if◌then◌else◌, not}
use system_delivery.Dispatch.SyncItems.{
  SyncItemType, delivered, failed, address_corrected, retry_later, escalate_to_dispatcher, SyncItem,
  RawItem, SyncItemResult, accepted, rejected, unexpected, Outcome, returned, thrown, SyncCaller,
  parse_item, item_permission, Aggregate, aggregate_of, is_held, same_permission, is_discard,
  reject, issues_of, type_name, identify,
}

-- What the sync reads of a shipment that a command returns.
pub record Shipment : Type 0 where
  pub id : ℕ
  pub status : String
  pub is_replay : Bool

-- The outcome of a correction.
pub record CorrectionOutcome : Type 0 where
  pub replayed : Bool
  pub status : String

-- The commands of ShipmentService, AddressCorrectionService and RouteService that a sync calls: each
-- is given the id of its target and the item, whose payload and key make the command.
pub record ItemCommands (W : Type 0) : Type 0 where
  pub submit_correction : ℕ → SyncItem → W → Outcome CorrectionOutcome × W
  pub confirm_delivery : ℕ → SyncItem → W → Outcome Shipment × W
  pub record_failed_attempt : ℕ → SyncItem → W → Outcome Shipment × W
  pub complete_return : ℕ → SyncItem → W → Outcome Shipment × W
  pub settle_stops_for_shipment : ℕ → W → Outcome (Unit {0}) × W

-- The code and the verdict for an item that waits.
abbrev pub held_code : String
held_code = "HELD_BEHIND_EARLIER_ITEM"

abbrev pub held_detail : String
held_detail =
    "An earlier item for the same parcel or address was not applied; this one waits for it."

abbrev pub held_result : SyncItem → SyncItemResult
held_result item =
    rejected (some item.idempotency_key) (some item.type) held_code held_detail retry_later

module _ {W : Type 0} (commands : ItemCommands W) where
  -- `shipments.…` by the type of the item.
  abbrev pub shipment_command : SyncItemType → ℕ → SyncItem → W → Outcome Shipment × W
  shipment_command delivered = commands.confirm_delivery
  shipment_command failed = commands.record_failed_attempt
  shipment_command _ = commands.complete_return

  -- After the command of a shipment, its stops are settled.
  abbrev pub settled : Outcome Shipment → W → Outcome (Bool × String) × W
  settled (thrown e) w = (thrown e, w)
  settled (returned s) w =
      let (outcome, w') = commands.settle_stops_for_shipment s.id w in
      elim outcome [
        | thrown e ↦ (thrown e, w')
        | returned _ ↦ (returned (s.is_replay, s.status), w')
      ]

  abbrev pub corrected : Outcome CorrectionOutcome → Outcome (Bool × String)
  corrected (thrown e) = thrown e
  corrected (returned c) = returned (c.replayed, c.status)

  -- `execute`; a missing id is an error of the code, `target`'s.
  unfoldable pub execute : SyncItem → W → Outcome (Bool × String) × W
  execute item w = elim item.type [
    | address_corrected ↦ elim item.address_id [
      | none ↦ (thrown unexpected, w)
      | some id ↦
          let (outcome, w') = commands.submit_correction id item w in (corrected outcome, w')
    ]
    | type ↦ elim item.shipment_id [
      | none ↦ (thrown unexpected, w)
      | some id ↦ let (outcome, w') = shipment_command type id item w in settled outcome w'
    ]
  ]

  -- The result of an item that ran, and what is held after it.
  unfoldable pub conclude :
      SyncItem → Outcome (Bool × String) → List Aggregate → SyncItemResult × List Aggregate
  conclude item (returned (replayed, status)) held =
      (accepted (some item.idempotency_key) (some item.type) replayed status, held)
  conclude item (thrown e) held =
      let (code, detail, action) = reject item e in
      (
        rejected (some item.idempotency_key) (some item.type) code detail action,
        (if is_discard action then held else aggregate_of item ∷ held),
      )

  -- An item that was read.
  unfoldable pub apply_item :
      SyncCaller → SyncItem → List Aggregate → W → SyncItemResult × List Aggregate × W
  apply_item caller item held w =
      if is_held (aggregate_of item) held
      then (held_result item, held, w)
      else if not (any (same_permission (item_permission item.type)) caller.permissions)
      then (
        rejected (some item.idempotency_key) (some item.type) "FORBIDDEN"
            (concat "This login may not record " (concat (type_name item.type) "."))
            escalate_to_dispatcher,
        aggregate_of item ∷ held,
        w,
      )
      else (let (outcome, w') = execute item w in
          let (result, held') = conclude item outcome held in (result, held', w'))

  -- `apply`
  unfoldable pub apply :
      SyncCaller → RawItem → List Aggregate → W → SyncItemResult × List Aggregate × W
  apply caller raw held w = elim (parse_item raw) [
    | none ↦ (
      rejected (identify raw).0 (identify raw).1 "VALIDATION_FAILED" (issues_of raw)
          escalate_to_dispatcher,
      held,
      w,
    )
    | some item ↦ apply_item caller item held w
  ]

  -- The loop over `pendingEvents`.
  unfoldable pub drain :
      SyncCaller → List RawItem → List Aggregate → W → List SyncItemResult × List Aggregate × W
  drain caller [] held w = ([], held, w)
  drain caller (raw ∷ raws) held w =
      let (result, held', w') = apply caller raw held w in
      let (results, held'', w'') = drain caller raws held' w' in (result ∷ results, held'', w'')
