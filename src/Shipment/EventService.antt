-- ===== src/Shipment/EventService.antt =====
-- apps/api/src/modules/shipment/application/shipment-event.service.ts: the writer of the event log
-- and of its projection, `shipments.status`. The tables are lists of rows; identifiers, reason
-- codes and instants are numbers; a point literal and the metadata are opaque texts. A draw of the
-- database (`event_id`) is an argument.
use system_delivery.Prelude.{
  ℕ, ◌+◌, ◌==◌, Bool, Option, none, some, List, [], ◌∷◌, ◌++◌, String, update_where, if◌then◌else◌,
  or_else, overriding, not, any, ◌&&◌, ◌||◌,
}
use system_delivery.Prelude.Tx.{
  Result, ok, err, internal, business_rule, forbidden, shipment_already_created,
  shipment_invalid_transition,
}
use system_delivery.Prelude.Words.{same_text}
use system_delivery.Platform.Outbox.{DomainEventInput, OutboxRow, Payload, publish}
use system_delivery.Shipment.Status.{ShipmentStatus}
use system_delivery.Shipment.Event.{
  ShipmentEventType, CustodyType, CodStatus, Custody, allowed, requires_override, rejected,
  check_transition, target_status_for, custody_after, outbox_event_name, is_created,
}

pub data ActorType : Type 0 where
  driver dispatcher hub_operator system api_client : ActorType

-- The columns of `shipments` that the writer reads or sets.
pub record Shipment : Type 0 where
  pub id : ℕ
  pub tenant_id : ℕ
  pub status : ShipmentStatus
  pub last_sequence : ℕ
  pub current_custody_type : Option CustodyType
  pub current_custody_id : Option ℕ
  pub attempt_count : ℕ
  pub cod_status : CodStatus
  pub last_driver_id : Option ℕ

pub record ShipmentEvent : Type 0 where
  pub tenant_id : ℕ
  pub shipment_id : ℕ
  pub sequence : ℕ
  pub event_type : ShipmentEventType
  pub occurred_at : ℕ
  pub actor_type : ActorType
  pub actor_id : Option ℕ
  pub idempotency_key : String
  pub metadata : String
  pub location : Option String
  pub location_accuracy_m : Option ℕ
  pub hub_id : Option ℕ
  pub driver_id : Option ℕ
  pub route_id : Option ℕ
  pub leg_id : Option ℕ
  pub reason_code : Option ℕ

pub record Store : Type 0 where
  pub shipments : List Shipment
  pub events : List ShipmentEvent
  pub outbox : List OutboxRow

pub record ShipmentSnapshot : Type 0 where
  pub id : ℕ
  pub tenant_id : ℕ
  pub status : ShipmentStatus
  pub last_sequence : ℕ

pub record AppendEventParams : Type 0 where
  pub event_type : ShipmentEventType
  pub actor_type : ActorType
  pub actor_id : Option ℕ
  pub idempotency_key : String
  pub occurred_at : ℕ
  pub location : Option String
  pub location_accuracy_m : Option ℕ
  pub hub_id : Option ℕ
  pub driver_id : Option ℕ
  pub route_id : Option ℕ
  pub leg_id : Option ℕ
  pub reason_code : Option ℕ
  pub metadata : Option String
  pub can_override : Bool
  pub outbox_payload : Payload
  pub increment_attempt : Bool
  pub cod_status : Option CodStatus

pub record AppendResult : Type 0 where
  pub status : ShipmentStatus
  pub sequence : ℕ
  pub event_id : ℕ

-- `resolveTargetStatus`
unfoldable pub resolve_target_status : ShipmentSnapshot → AppendEventParams → Result ShipmentStatus
resolve_target_status current params =
    if is_created params.event_type
    then if not (current.last_sequence == 0)
      then err (business_rule shipment_already_created)
      else ok current.status
    else elim (check_transition current.status params.event_type) [
      | rejected ↦ err (business_rule shipment_invalid_transition)
      | requires_override ↦
          if not params.can_override
          then err forbidden
          else ok (or_else (target_status_for params.event_type) current.status)
      | allowed ↦ ok (or_else (target_status_for params.event_type) current.status)
    ]

-- The row inserted into `shipment_events`.
unfoldable pub event_row : ShipmentSnapshot → AppendEventParams → ShipmentEvent
event_row current params = record {
  tenant_id = current.tenant_id;
  shipment_id = current.id;
  sequence = current.last_sequence + 1;
  event_type = params.event_type;
  occurred_at = params.occurred_at;
  actor_type = params.actor_type;
  actor_id = params.actor_id;
  idempotency_key = params.idempotency_key;
  metadata = or_else params.metadata "{}";
  location = params.location;
  location_accuracy_m = params.location_accuracy_m;
  hub_id = params.hub_id;
  driver_id = params.driver_id;
  route_id = params.route_id;
  leg_id = params.leg_id;
  reason_code = params.reason_code;
}

-- The custody columns after the event; `undefined` leaves them alone.
abbrev set_custody : Option Custody → Shipment → Shipment
set_custody none row = row
set_custody (some c) row = record row { current_custody_type = c.type; current_custody_id = c.id }

-- The `UPDATE shipments SET ...` of the projection, on one row.
unfoldable pub project_row : ShipmentStatus → ℕ → AppendEventParams → Shipment → Shipment
project_row new_status sequence params row =
    let moved = set_custody (custody_after params.event_type params.driver_id params.hub_id) row in
    record moved {
      status = new_status;
      last_sequence = sequence;
      attempt_count = if params.increment_attempt then row.attempt_count + 1 else row.attempt_count;
      cod_status = or_else params.cod_status row.cod_status;
      last_driver_id = overriding params.driver_id row.last_driver_id;
    }

-- Whether a unique index of `shipment_events` keeps the new row out beside `e`.
abbrev pub same_event : ShipmentEvent → ShipmentEvent → Bool
same_event new e =
    (e.shipment_id == new.shipment_id && e.sequence == new.sequence)
    || (e.tenant_id == new.tenant_id && same_text e.idempotency_key new.idempotency_key)

abbrev pub event_input : ShipmentSnapshot → AppendEventParams → DomainEventInput
event_input current params = record {
  event_type = outbox_event_name params.event_type;
  aggregate_type = "shipment";
  aggregate_id = current.id;
  payload = params.outbox_payload;
  event_version = none;
  occurred_at = some params.occurred_at;
  correlation_id = none;
  causation_id = none;
}

-- The three writes, once the new status is known. The insert throws where the sequence of the
-- shipment or the idempotency key of the tenant is already taken.
unfoldable pub write_event :
    ℕ
    → ℕ
    → ShipmentSnapshot
    → AppendEventParams
    → ShipmentStatus
    → Store
    → Result (AppendResult × Store)
write_event tenant_id drawn current params new_status st =
    let sequence = current.last_sequence + 1 in
    if any (same_event (event_row current params)) st.events
    then err internal
    else elim (publish tenant_id drawn (event_input current params) st.outbox) [
      | err e ↦ err e
      | ok outbox' ↦ ok (
        record { status = new_status; sequence = sequence; event_id = drawn },
        record {
          shipments =
              update_where (λ row. row.id == current.id) (project_row new_status sequence params)
                st.shipments;
          events = st.events ++ event_row current params ∷ [];
          outbox = outbox';
        },
      )
    ]

-- `ShipmentEventService.applyTo`
unfoldable pub apply_to :
    ℕ → ℕ → ShipmentSnapshot → AppendEventParams → Store → Result (AppendResult × Store)
apply_to tenant_id drawn current params st = elim (resolve_target_status current params) [
  | err e ↦ err e
  | ok new_status ↦ write_event tenant_id drawn current params new_status st
]
