-- ===== src/Shipment/Status.antt =====
-- apps/api/src/modules/shipment/domain/shipment-status.ts: the statuses, the events and the
-- transition matrix. Reasons of a rejection are dropped; the union of literals is a data type, and
-- a Set or a Record over it is a function by clauses.
use system_delivery.Prelude.{Bool, true, false, Option, none, some, List, [], ◌∷◌, String}
use system_delivery.Prelude.Words.{narrow}

pub data ShipmentStatus : Type 0 where
  created assigned picked_up at_hub in_transit out_for_delivery delivered : ShipmentStatus
  attempt_failed return_pending returned cancelled : ShipmentStatus

-- The literals of `SHIPMENT_STATUSES`.
abbrev pub status_name : ShipmentStatus → String
status_name created = "CREATED"
status_name assigned = "ASSIGNED"
status_name picked_up = "PICKED_UP"
status_name at_hub = "AT_HUB"
status_name in_transit = "IN_TRANSIT"
status_name out_for_delivery = "OUT_FOR_DELIVERY"
status_name delivered = "DELIVERED"
status_name attempt_failed = "ATTEMPT_FAILED"
status_name return_pending = "RETURN_PENDING"
status_name returned = "RETURNED"
status_name cancelled = "CANCELLED"

abbrev pub shipment_statuses : List ShipmentStatus
shipment_statuses =
    created ∷ assigned ∷ picked_up ∷ at_hub ∷ in_transit ∷ out_for_delivery ∷ delivered
    ∷ attempt_failed ∷ return_pending ∷ returned ∷ cancelled ∷ []

unfoldable pub to_shipment_status : String → Option ShipmentStatus
to_shipment_status value = narrow status_name shipment_statuses value

-- `TERMINAL_STATUSES`.
unfoldable pub is_terminal : ShipmentStatus → Bool
is_terminal delivered = true
is_terminal returned = true
is_terminal cancelled = true
is_terminal _ = false

-- `IN_CUSTODY_STATUSES`.
unfoldable pub is_in_custody : ShipmentStatus → Bool
is_in_custody picked_up = true
is_in_custody at_hub = true
is_in_custody in_transit = true
is_in_custody out_for_delivery = true
is_in_custody attempt_failed = true
is_in_custody _ = false

pub data TransitionMode : Type 0 where
  allow override : TransitionMode

-- `TRANSITIONS[from][target]`; `none` is a missing cell.
unfoldable pub transitions : ShipmentStatus → ShipmentStatus → Option TransitionMode
transitions created assigned = some allow
transitions created cancelled = some allow
transitions assigned assigned = some allow
transitions assigned picked_up = some allow
transitions assigned cancelled = some allow
transitions picked_up at_hub = some allow
transitions picked_up out_for_delivery = some allow
transitions picked_up cancelled = some override
transitions at_hub in_transit = some allow
transitions at_hub out_for_delivery = some allow
transitions at_hub return_pending = some allow
transitions at_hub cancelled = some override
transitions in_transit at_hub = some allow
transitions in_transit cancelled = some override
transitions out_for_delivery at_hub = some allow
transitions out_for_delivery delivered = some allow
transitions out_for_delivery attempt_failed = some allow
transitions out_for_delivery cancelled = some override
transitions attempt_failed at_hub = some allow
transitions attempt_failed out_for_delivery = some allow
transitions attempt_failed return_pending = some allow
transitions attempt_failed cancelled = some override
transitions return_pending at_hub = some allow
transitions return_pending in_transit = some allow
transitions return_pending returned = some allow
transitions _ _ = none
