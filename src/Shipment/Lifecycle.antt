-- ===== src/Shipment/Lifecycle.antt =====
-- What the transition matrix of shipment-status.ts guarantees: which statuses are final, who may
-- cancel, and that a parcel can always be closed out.
use system_delivery.Prelude.{
  ◌≡◌, refl, ◌≢◌, ◌↔◌, ◌⊎◌, Bool, true, false, Option, none, some, List, [], ◌∷◌, arith, String,
}
use system_delivery.Prelude.Words.{narrow_sound}
use system_delivery.Platform.Outbox.{is_valid_event_type}
use system_delivery.Shipment.Status.{
  ShipmentStatus, shipment_statuses, status_name, to_shipment_status, is_terminal, is_in_custody,
}
use system_delivery.Shipment.Event.{
  ShipmentEventType, allowed, requires_override, rejected, check_transition, target_status_for,
  outbox_event_name,
}

-- A status is terminal exactly when it rejects every event.
terminal_iff_rejects_all :
    (s : ShipmentStatus)
    → (is_terminal s ≡ true) ↔ ((e : ShipmentEventType) → check_transition s e ≡ rejected)
unfolding check_transition
terminal_iff_rejects_all s = (λ t e. rejects s e t, λ all. detects s all)
  where
    rejects :
        (s : ShipmentStatus) (e : ShipmentEventType)
        → is_terminal s ≡ true
        → check_transition s e ≡ rejected
    rejects s e t = ground arith

    detects :
        (s : ShipmentStatus)
        → ((e : ShipmentEventType) → check_transition s e ≡ rejected)
        → is_terminal s ≡ true
    detects s all = ground (
      arith,
      all ShipmentEventType.assigned,
      all ShipmentEventType.arrived_at_hub,
      all ShipmentEventType.departed,
    )

-- Cancelling needs the owner's override exactly while the courier holds the parcel.
cancel_needs_override :
    (s : ShipmentStatus)
    → (check_transition s ShipmentEventType.cancelled ≡ requires_override)
      ↔ (is_in_custody s ≡ true)
unfolding check_transition is_in_custody
cancel_needs_override s = (λ h. ground arith, λ h. ground arith)

-- Nothing but a cancellation ever needs the override.
override_is_cancel :
    (s : ShipmentStatus) (e : ShipmentEventType)
    → check_transition s e ≡ requires_override
    → e ≡ ShipmentEventType.cancelled
unfolding check_transition
override_is_cancel s e h = ground arith

-- `OUT_FOR_DELIVERY` is the only status that a delivery attempt, a delivery or a failed delivery
-- is accepted in.
pub delivery_needs_out_for_delivery :
    (s : ShipmentStatus) (e : ShipmentEventType)
    → (e ≡ ShipmentEventType.delivered)
      ⊎ (e ≡ ShipmentEventType.delivery_failed)
      ⊎ (e ≡ ShipmentEventType.delivery_attempted)
    → check_transition s e ≢ rejected
    → s ≡ ShipmentStatus.out_for_delivery
unfolding check_transition
delivery_needs_out_for_delivery s e k h = ground arith

-- The status after a run of events, each of which is allowed without an override.
pub run_allowed : ShipmentStatus → List ShipmentEventType → Option ShipmentStatus
run_allowed s [] = some s
run_allowed s (e ∷ es) = elim (check_transition s e) [
  | allowed ↦ run_allowed (elim (target_status_for e) [ none ↦ s | some t ↦ t ]) es
  | _ ↦ none
]

-- A way on from each status, as the operations would take it.
abbrev way_out : ShipmentStatus → List ShipmentEventType
way_out ShipmentStatus.created = ShipmentEventType.cancelled ∷ []
way_out ShipmentStatus.assigned = ShipmentEventType.cancelled ∷ []
way_out ShipmentStatus.picked_up =
    ShipmentEventType.out_for_delivery ∷ ShipmentEventType.delivered ∷ []
way_out ShipmentStatus.at_hub =
    ShipmentEventType.out_for_delivery ∷ ShipmentEventType.delivered ∷ []
way_out ShipmentStatus.in_transit =
    ShipmentEventType.arrived_at_hub ∷ ShipmentEventType.return_initiated
    ∷ ShipmentEventType.returned ∷ []
way_out ShipmentStatus.out_for_delivery = ShipmentEventType.delivered ∷ []
way_out ShipmentStatus.attempt_failed =
    ShipmentEventType.return_initiated ∷ ShipmentEventType.returned ∷ []
way_out ShipmentStatus.return_pending = ShipmentEventType.returned ∷ []
way_out ShipmentStatus.delivered = []
way_out ShipmentStatus.returned = []
way_out ShipmentStatus.cancelled = []

abbrev end_of : Option ShipmentStatus → Bool
end_of none = false
end_of (some t) = is_terminal t

closes : (s : ShipmentStatus) → end_of (run_allowed s (way_out s)) ≡ true
unfolding run_allowed check_transition
closes ShipmentStatus.created = refl
closes _ = refl

end_of-some :
    (o : Option ShipmentStatus)
    → end_of o ≡ true
    → (t : ShipmentStatus) × (o ≡ some t) × (is_terminal t ≡ true)
end_of-some none h = cc
end_of-some (some t) h = (t, refl, h)

-- From every status some run of events, none of which needs the override, ends in a terminal
-- status: no parcel is stuck.
pub closable :
    (s : ShipmentStatus)
    → (es : List ShipmentEventType) × (t : ShipmentStatus) × (run_allowed s es ≡ some t)
      × (is_terminal t ≡ true)
closable s =
    let (t, reached, terminal) = end_of-some (run_allowed s (way_out s)) (closes s) in
    (way_out s, t, reached, terminal)

-- Every event is published under a name that the outbox accepts.
pub outbox_event_name_valid :
    (e : ShipmentEventType) → is_valid_event_type (outbox_event_name e) ≡ true
unfolding outbox_event_name
outbox_event_name_valid ShipmentEventType.created = refl
outbox_event_name_valid _ = refl

named : (s : ShipmentStatus) → to_shipment_status (status_name s) ≡ some s
unfolding to_shipment_status
named ShipmentStatus.created = refl
named _ = refl

-- `toShipmentStatus` reads back the literal of every status, and accepts no other text.
pub to_shipment_status_exact :
    (s : ShipmentStatus) (value : String)
    → (to_shipment_status (status_name s) ≡ some s)
      × (to_shipment_status value ≡ some s → status_name s ≡ value)
unfolding to_shipment_status
to_shipment_status_exact s value = (named s, narrow_sound status_name shipment_statuses value s)
