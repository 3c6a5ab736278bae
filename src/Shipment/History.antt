-- ===== src/Shipment/History.antt =====
-- What a legal event log (shipment-event.service.ts) says about the life of a parcel, and when
-- `applyTo` accepts an event.
use system_delivery.Prelude.{
  ℕ, ◌+◌, ◌<◌, ◌≡◌, refl, ◌↔◌, ◌⊎◌, inl, inr, true, false, List, [], ◌∷◌, ◌++◌, arith, sym, ◌∙◌,
  any, Bool-cases, if◌then◌else◌,
}
use system_delivery.Prelude.Tx.{
  ok, err, Result-cases, business_rule, shipment_already_created, shipment_invalid_transition,
}
use system_delivery.Platform.Outbox.{publish_lem}
use system_delivery.Shipment.Status.{ShipmentStatus, is_terminal}
use system_delivery.Shipment.Event.{
  ShipmentEventType, requires_override, check_transition, target_status_for, is_created,
}
use system_delivery.Shipment.EventService.{
  Shipment, ShipmentEvent, Store, ShipmentSnapshot, AppendEventParams, AppendResult, event_input,
  resolve_target_status, write_event, apply_to, event_row, same_event,
}
use system_delivery.Shipment.Lifecycle.{outbox_event_name_valid}
use system_delivery.Shipment.Projection.{
  next_status, replay, history, Permitted, Legal, Projected, apply_to_lem,
}

-- The log holds an event of this type.
abbrev pub Has : ShipmentEventType → List ShipmentEvent → Type 0
Has t [] = ⊥
Has t (e ∷ es) = (e.event_type ≡ t) ⊎ Has t es

terminal_permits_nothing :
    (s : ShipmentStatus) (n : ℕ) (e : ShipmentEventType)
    → is_terminal s ≡ true
    → 0 < n
    → ¬ Permitted s n e
unfolding check_transition
terminal_permits_nothing s n e t later p = ground arith

Legal-after :
    (s : ShipmentStatus) (n : ℕ) (before after : List ShipmentEvent) (e : ShipmentEvent)
    → Legal s n (before ++ e ∷ after)
    → is_terminal (replay s (before ++ e ∷ [])) ≡ true
    → after ≡ []
Legal-after s n [] [] e h t = refl
Legal-after s n [] (x ∷ after) e h t =
    absurd (terminal_permits_nothing _ (n + 1) x.event_type t (omega arith) h.2.0)
Legal-after s n (x ∷ before) after e h t =
    Legal-after (next_status s x.event_type) (n + 1) before after e h.2 t

-- Once the events of a parcel have reached a terminal status, no further event follows in its log.
pub terminal_event_is_last :
    (events : List ShipmentEvent) (row : Shipment) (before after : List ShipmentEvent)
    (e : ShipmentEvent)
    → Projected events row
    → history row.id events ≡ before ++ e ∷ after
    → is_terminal (replay ShipmentStatus.created (before ++ e ∷ [])) ≡ true
    → after ≡ []
terminal_event_is_last events row before after e p split t =
    Legal-after ShipmentStatus.created 0 before after e (rw split at p.log_legal) t

-- A status in which the parcel has been, or may be just before, out for delivery.
step_to_delivered :
    (s : ShipmentStatus) (n : ℕ) (e : ShipmentEventType)
    → Permitted s n e
    → next_status s e ≡ ShipmentStatus.delivered
    → (s ≡ ShipmentStatus.delivered) ⊎ (s ≡ ShipmentStatus.out_for_delivery)
unfolding check_transition
step_to_delivered s n e p h = ground arith

step_to_out :
    (s : ShipmentStatus) (n : ℕ) (e : ShipmentEventType)
    → Permitted s n e
    → next_status s e ≡ ShipmentStatus.out_for_delivery
    → (s ≡ ShipmentStatus.out_for_delivery) ⊎ (e ≡ ShipmentEventType.out_for_delivery)
unfolding check_transition
step_to_out s n e p h = ground arith

out_was_dispatched :
    (s : ShipmentStatus) (n : ℕ) (es : List ShipmentEvent)
    → Legal s n es
    → replay s es ≡ ShipmentStatus.out_for_delivery
    → (s ≡ ShipmentStatus.out_for_delivery) ⊎ Has ShipmentEventType.out_for_delivery es
out_was_dispatched s n [] h end = inl end
out_was_dispatched s n (e ∷ es) h end =
    elim (out_was_dispatched (next_status s e.event_type) (n + 1) es h.2 end) [
      | inl here ↦ elim (step_to_out s n e.event_type h.0 here) [
        | inl already ↦ inl already
        | inr now ↦ inr (inl now)
      ]
      | inr there ↦ inr (inr there)
    ]

delivered_was_dispatched :
    (s : ShipmentStatus) (n : ℕ) (es : List ShipmentEvent)
    → Legal s n es
    → replay s es ≡ ShipmentStatus.delivered
    → (s ≡ ShipmentStatus.delivered)
      ⊎ (s ≡ ShipmentStatus.out_for_delivery)
      ⊎ Has ShipmentEventType.out_for_delivery es
delivered_was_dispatched s n [] h end = inl end
delivered_was_dispatched s n (e ∷ es) h end =
    elim (delivered_was_dispatched (next_status s e.event_type) (n + 1) es h.2 end) [
      | inl done ↦ elim (step_to_delivered s n e.event_type h.0 done) [
        | inl before ↦ inl before
        | inr out ↦ inr (inl out)
      ]
      | inr (inl here) ↦ elim (step_to_out s n e.event_type h.0 here) [
        | inl already ↦ inr (inl already)
        | inr now ↦ inr (inr (inl now))
      ]
      | inr (inr there) ↦ inr (inr (inr there))
    ]

-- A row that reads DELIVERED has an `out_for_delivery` event in its log.
pub delivered_needs_dispatch :
    (events : List ShipmentEvent) (row : Shipment)
    → Projected events row
    → row.status ≡ ShipmentStatus.delivered
    → Has ShipmentEventType.out_for_delivery (history row.id events)
delivered_needs_dispatch events row p d =
    elim (delivered_was_dispatched ShipmentStatus.created 0 (history row.id events) p.log_legal
      (sym p.status_replays ∙ d)) [ inl e ↦ cc | inr (inl e) ↦ cc | inr (inr found) ↦ found ]

-- When an event is accepted.
abbrev pub Accepts : ShipmentSnapshot → AppendEventParams → Type 0
Accepts current params =
    Permitted current.status current.last_sequence params.event_type
    × (is_created params.event_type ≡ false
        → check_transition current.status params.event_type ≡ requires_override
        → params.can_override ≡ true)

resolve-Accepts :
    (current : ShipmentSnapshot) (params : AppendEventParams)
    → Accepts current params
    → resolve_target_status current params ≡ ok (next_status current.status params.event_type)
unfolding resolve_target_status target_status_for
resolve-Accepts current params a = ground arith

Accepts-resolve :
    (current : ShipmentSnapshot) (params : AppendEventParams) (s : ShipmentStatus)
    → resolve_target_status current params ≡ ok s
    → Accepts current params
unfolding resolve_target_status
Accepts-resolve current params s h = ground arith

-- The event's sequence and idempotency key are not in the log.
abbrev pub IsNew : ShipmentSnapshot → AppendEventParams → Store → Type 0
IsNew current params st = any (same_event (event_row current params)) st.events ≡ false

write_event_total :
    (tenant_id drawn : ℕ) (current : ShipmentSnapshot) (params : AppendEventParams)
    (s : ShipmentStatus) (st : Store)
    → IsNew current params st
    → (r : AppendResult) × (st' : Store) × (write_event tenant_id drawn current params s st
        ≡ ok (r, st'))
unfolding write_event
write_event_total tenant_id drawn current params s st new =
    let sent =
      publish_lem tenant_id drawn (event_input current params) st.outbox
        (outbox_event_name_valid params.event_type) in
    rw (new, write_event) (rw (sent, write_event) (_, _, refl))

write_event-IsNew :
    (tenant_id drawn : ℕ) (current : ShipmentSnapshot) (params : AppendEventParams)
    (s : ShipmentStatus) (st st' : Store) (r : AppendResult)
    → write_event tenant_id drawn current params s st ≡ ok (r, st')
    → IsNew current params st
unfolding write_event
write_event-IsNew tenant_id drawn current params s st st' r h =
    elim (Bool-cases (any (same_event (event_row current params)) st.events)) [
      | inl taken ↦ cc (rw (taken, write_event) at h)
      | inr new ↦ new
    ]

apply_to-IsNew :
    (tenant_id drawn : ℕ) (current : ShipmentSnapshot) (params : AppendEventParams) (st st' : Store)
    (r : AppendResult)
    → apply_to tenant_id drawn current params st ≡ ok (r, st')
    → IsNew current params st
unfolding apply_to
apply_to-IsNew tenant_id drawn current params st st' r h =
    elim (Result-cases (resolve_target_status current params)) [
      | inl (s, e) ↦
          write_event-IsNew tenant_id drawn current params s st st' r (rw (e, apply_to) at h)
      | inr (x, e) ↦ cc (rw (e, apply_to) at h)
    ]

-- `applyTo` succeeds exactly when the event is the first one and is `created`, or the matrix permits
-- it and any override that it needs is granted, and neither its sequence is taken in the log of the
-- shipment nor its idempotency key in that of the tenant.
pub apply_to_iff :
    (tenant_id drawn : ℕ) (current : ShipmentSnapshot) (params : AppendEventParams) (st : Store)
    → ((r : AppendResult) × (st' : Store) × (apply_to tenant_id drawn current params st
          ≡ ok (r, st')))
      ↔ (Accepts current params × IsNew current params st)
unfolding apply_to
apply_to_iff tenant_id drawn current params st = (
  λ (r, st', h). (
    Accepts-resolve current params r.status
        (apply_to_lem tenant_id drawn current params st st' r h).0,
    apply_to-IsNew tenant_id drawn current params st st' r h,
  ),
  λ (a, new).
      rw (resolve-Accepts current params a, apply_to)
        (write_event_total tenant_id drawn current params
          (next_status current.status params.event_type) st new),
)

-- Once a parcel has had an event and is in a terminal status, every further event is refused:
-- `created` with the code of a parcel that already exists, any other with that of an invalid
-- transition.
pub apply_to_terminal :
    (tenant_id drawn : ℕ) (current : ShipmentSnapshot) (params : AppendEventParams) (st : Store)
    → is_terminal current.status ≡ true
    → 0 < current.last_sequence
    → apply_to tenant_id drawn current params st
      ≡ err (
          business_rule (
            if is_created params.event_type
            then shipment_already_created
            else shipment_invalid_transition))
unfolding apply_to resolve_target_status check_transition
apply_to_terminal tenant_id drawn current params st t later = ground arith
