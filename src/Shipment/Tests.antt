-- ===== src/Shipment/Tests.antt =====
-- A parcel that is delivered at the first attempt, and the theorems at this run.
use system_delivery.Prelude.{
  ℕ, ◌≡◌, refl, ◌↔◌, inr, true, false, none, some, List, [], ◌∷◌, arith, All,
}
use system_delivery.Prelude.Tx.{ok, err, business_rule, shipment_invalid_transition}
use system_delivery.Platform.Outbox.{publish, outbox_row}
use system_delivery.Shipment.Status.{ShipmentStatus}
use system_delivery.Shipment.Event.{
  ShipmentEventType, CodStatus, check_transition, target_status_for, outbox_event_name,
}
use system_delivery.Shipment.Status.{is_terminal, transitions, status_name, to_shipment_status}
use system_delivery.Shipment.EventService.{
  ActorType, Shipment, Store, ShipmentSnapshot, AppendEventParams, AppendResult, apply_to,
  write_event, resolve_target_status, event_input, event_row, ShipmentEvent, project_row,
}
use system_delivery.Shipment.Lifecycle.{closable, run_allowed, to_shipment_status_exact}
use system_delivery.Shipment.Projection.{Projected, apply_to-Projected, history}
use system_delivery.Shipment.History.{
  Has, terminal_event_is_last, delivered_needs_dispatch, apply_to_terminal, apply_to_iff, Accepts,
  IsNew,
}

-- Tenant 9, shipment 1, just booked, beside another shipment.
abbrev booked_row : ℕ → Shipment
booked_row k = record {
  id = k;
  tenant_id = 9;
  status = ShipmentStatus.created;
  last_sequence = 0;
  current_custody_type = none;
  current_custody_id = none;
  attempt_count = 0;
  cod_status = CodStatus.pending;
  last_driver_id = none;
}

abbrev empty_log : Store
empty_log = record { shipments = booked_row 1 ∷ booked_row 2 ∷ []; events = []; outbox = [] }

abbrev snapshot : ShipmentSnapshot
snapshot = record { id = 1; tenant_id = 9; status = ShipmentStatus.created; last_sequence = 0 }

abbrev params : ShipmentEventType → AppendEventParams
params t = record {
  event_type = t;
  actor_type = ActorType.dispatcher;
  actor_id = some 5;
  idempotency_key = "k1";
  occurred_at = 1000;
  location = none;
  location_accuracy_m = none;
  hub_id = none;
  driver_id = some 7;
  route_id = none;
  leg_id = none;
  reason_code = none;
  metadata = none;
  can_override = false;
  outbox_payload = [];
  increment_attempt = false;
  cod_status = none;
}

row_Projected : (k : ℕ) → Projected [] (booked_row k)
row_Projected k = record { status_replays = refl; sequence_counts = refl; log_legal = tt }

apply_to-Projected_example :
    All (Projected (event_row snapshot (params ShipmentEventType.assigned) ∷ [])) (
      project_row ShipmentStatus.assigned 1 (params ShipmentEventType.assigned) (booked_row 1)
      ∷ booked_row 2
      ∷ [])
unfolding apply_to write_event resolve_target_status check_transition target_status_for is_terminal
    transitions publish outbox_event_name
apply_to-Projected_example =
    apply_to-Projected 9 40 snapshot (params ShipmentEventType.assigned) empty_log
      (record {
        shipments =
            project_row ShipmentStatus.assigned 1 (params ShipmentEventType.assigned) (booked_row 1)
            ∷ booked_row 2
            ∷ [];
        events = event_row snapshot (params ShipmentEventType.assigned) ∷ [];
        outbox = outbox_row 9 40 (event_input snapshot (params ShipmentEventType.assigned)) ∷ [];
      })
      (record { status = ShipmentStatus.assigned; sequence = 1; event_id = 40 })
      ((λ _. (refl, refl), row_Projected 1), ((λ e. cc, row_Projected 2), tt)) refl

-- The events of a delivery at the first attempt.
abbrev event_at : ℕ → ShipmentEventType → ShipmentEvent
event_at n t = event_row (record snapshot { last_sequence = n }) (params t)

abbrev delivery_log : List ShipmentEvent
delivery_log =
    event_at 0 ShipmentEventType.assigned
    ∷ event_at 1 ShipmentEventType.picked_up
    ∷ event_at 2 ShipmentEventType.out_for_delivery
    ∷ event_at 3 ShipmentEventType.delivered
    ∷ []

abbrev delivered_row : Shipment
delivered_row = record (booked_row 1) { status = ShipmentStatus.delivered; last_sequence = 4 }

delivered_row-Projected : Projected delivery_log delivered_row
unfolding event_row target_status_for check_transition
delivered_row-Projected = record {
  status_replays = refl;
  sequence_counts = refl;
  log_legal = (
    inr (refl, λ e. cc),
    refl,
    (inr (refl, λ e. cc), refl, (inr (refl, λ e. cc), refl, (inr (refl, λ e. cc), refl, tt))),
  );
}

terminal_event_is_last_example : ◌≡◌ {A = List ShipmentEvent} [] []
unfolding event_row target_status_for is_terminal
terminal_event_is_last_example =
    terminal_event_is_last delivery_log delivered_row
      (event_at 0 ShipmentEventType.assigned
        ∷ event_at 1 ShipmentEventType.picked_up
        ∷ event_at 2 ShipmentEventType.out_for_delivery
        ∷ [])
      [] (event_at 3 ShipmentEventType.delivered) delivered_row-Projected refl refl

delivered_needs_dispatch_example : Has ShipmentEventType.out_for_delivery (history 1 delivery_log)
delivered_needs_dispatch_example =
    delivered_needs_dispatch delivery_log delivered_row delivered_row-Projected refl

apply_to_iff_example :
    ((r : AppendResult) × (st' : Store) × (apply_to 9 40 snapshot
          (params ShipmentEventType.assigned)
          empty_log
        ≡ ok (r, st')))
    ↔ (Accepts snapshot (params ShipmentEventType.assigned)
        × IsNew snapshot (params ShipmentEventType.assigned) empty_log)
apply_to_iff_example = apply_to_iff 9 40 snapshot (params ShipmentEventType.assigned) empty_log

apply_to_terminal_example :
    let late = record snapshot { status = ShipmentStatus.delivered; last_sequence = 4 } in
    apply_to 9 40 late (params ShipmentEventType.out_for_delivery) empty_log
    ≡ err (business_rule shipment_invalid_transition)
unfolding is_terminal
apply_to_terminal_example =
    apply_to_terminal 9 40
      (record snapshot { status = ShipmentStatus.delivered; last_sequence = 4 })
      (params ShipmentEventType.out_for_delivery) empty_log refl (omega arith)

closable_example :
    (es : List ShipmentEventType) × (t : ShipmentStatus) × (run_allowed ShipmentStatus.in_transit es
      ≡ some t)
    × (is_terminal t ≡ true)
closable_example = closable ShipmentStatus.in_transit

to_shipment_status_exact_example :
    (to_shipment_status (status_name ShipmentStatus.at_hub) ≡ some ShipmentStatus.at_hub)
    × (to_shipment_status "AT_HUB" ≡ some ShipmentStatus.at_hub
        → status_name ShipmentStatus.at_hub ≡ "AT_HUB")
to_shipment_status_exact_example = to_shipment_status_exact ShipmentStatus.at_hub "AT_HUB"
