-- ===== src/Shipment/Event.antt =====
-- apps/api/src/modules/shipment/domain/shipment-status.ts: what an event does to a shipment's
-- status and custody, and under which name it is published.
use system_delivery.Prelude.{ℕ, Bool, true, false, Option, none, some, String, if◌then◌else◌}
use system_delivery.Shipment.Status.{
  ShipmentStatus, TransitionMode, allow, override, is_terminal, transitions,
}

pub data ShipmentEventType : Type 0 where
  created assigned picked_up arrived_at_hub loaded departed out_for_delivery : ShipmentEventType
  arrived_at_stop delivery_attempted delivered delivery_failed : ShipmentEventType
  return_initiated returned cancelled : ShipmentEventType

pub data CustodyType : Type 0 where
  merchant driver hub : CustodyType

pub data CodStatus : Type 0 where
  not_applicable pending collected remitted settled cancelled_cod : CodStatus

unfoldable pub outbox_event_name : ShipmentEventType → String
outbox_event_name created = "shipment.created"
outbox_event_name assigned = "shipment.assigned"
outbox_event_name picked_up = "shipment.picked_up"
outbox_event_name arrived_at_hub = "shipment.arrived_at_hub"
outbox_event_name loaded = "shipment.loaded"
outbox_event_name departed = "shipment.departed"
outbox_event_name out_for_delivery = "shipment.out_for_delivery"
outbox_event_name arrived_at_stop = "shipment.arrived_at_stop"
outbox_event_name delivery_attempted = "delivery.attempted"
outbox_event_name delivered = "shipment.delivered"
outbox_event_name delivery_failed = "delivery.failed"
outbox_event_name return_initiated = "shipment.return_initiated"
outbox_event_name returned = "shipment.returned"
outbox_event_name cancelled = "shipment.cancelled"

unfoldable pub target_status_for : ShipmentEventType → Option ShipmentStatus
target_status_for created = none
target_status_for assigned = some ShipmentStatus.assigned
target_status_for picked_up = some ShipmentStatus.picked_up
target_status_for arrived_at_hub = some ShipmentStatus.at_hub
target_status_for loaded = none
target_status_for departed = some ShipmentStatus.in_transit
target_status_for out_for_delivery = some ShipmentStatus.out_for_delivery
target_status_for arrived_at_stop = none
target_status_for delivery_attempted = none
target_status_for delivered = some ShipmentStatus.delivered
target_status_for delivery_failed = some ShipmentStatus.attempt_failed
target_status_for return_initiated = some ShipmentStatus.return_pending
target_status_for returned = some ShipmentStatus.returned
target_status_for cancelled = some ShipmentStatus.cancelled

-- `ANNOTATION_SOURCES[eventType]`, as the membership test of the set; `none` is a missing key.
unfoldable pub annotation_sources : ShipmentEventType → ShipmentStatus → Option Bool
annotation_sources loaded ShipmentStatus.at_hub = some true
annotation_sources loaded _ = some false
annotation_sources arrived_at_stop ShipmentStatus.out_for_delivery = some true
annotation_sources arrived_at_stop _ = some false
annotation_sources delivery_attempted ShipmentStatus.out_for_delivery = some true
annotation_sources delivery_attempted _ = some false
annotation_sources _ _ = none

pub data TransitionCheck : Type 0 where
  allowed requires_override rejected : TransitionCheck

abbrev pub is_created : ShipmentEventType → Bool
is_created created = true
is_created _ = false

-- The lookup of an event that keeps the status.
abbrev check_annotation : Option Bool → TransitionCheck
check_annotation none = allowed
check_annotation (some true) = allowed
check_annotation (some false) = rejected

abbrev check_mode : Option TransitionMode → TransitionCheck
check_mode none = rejected
check_mode (some override) = requires_override
check_mode (some allow) = allowed

unfoldable pub check_transition : ShipmentStatus → ShipmentEventType → TransitionCheck
unfolding is_terminal target_status_for annotation_sources transitions
check_transition from event_type =
    if is_created event_type
    then rejected
    else if is_terminal from
    then rejected
    else elim (target_status_for event_type) [
      | none ↦ check_annotation (annotation_sources event_type from)
      | some target ↦ check_mode (transitions from target)
    ]

pub record Custody : Type 0 where
  pub type : Option CustodyType
  pub id : Option ℕ

-- `undefined` is `none`: custody unchanged.
unfoldable pub custody_after : ShipmentEventType → Option ℕ → Option ℕ → Option Custody
custody_after picked_up driver_id hub_id = some (record { type = some driver; id = driver_id })
custody_after out_for_delivery driver_id hub_id =
    some (record { type = some driver; id = driver_id })
custody_after arrived_at_hub driver_id hub_id = some (record { type = some hub; id = hub_id })
custody_after returned driver_id hub_id = some (record { type = some hub; id = hub_id })
custody_after delivered driver_id hub_id = some (record { type = none; id = none })
custody_after cancelled driver_id hub_id = some (record { type = none; id = none })
custody_after _ driver_id hub_id = none
