-- ===== src/Shipment/Projection.antt =====
-- `shipments.status` is a projection of the event log: shipment-event.service.ts keeps every row
-- equal to a replay of its own events, and the log itself legal.
use system_delivery.Prelude.{
  ℕ, suc, ◌+◌, ◌≡◌, refl, ◌≢◌, ◌⊎◌, inl, inr, true, false, List, [], ◌∷◌, ◌++◌, ◌∙◌, sym, arith,
  ◌==◌, length, length-append, keep, keep-append, All, All-update_where, if◌then◌else◌,
  update_where, or_else, Bool-cases, ==→eq,
}
use mathlib.Core.Path.{subst}
use mathlib.Core.List.{append-nil}
use native.Mathlib.Nat.{add-zero}
use system_delivery.Prelude.Tx.{ok, Result-cases}
use system_delivery.Shipment.Status.{ShipmentStatus}
use system_delivery.Shipment.Event.{
  ShipmentEventType, rejected, check_transition, target_status_for, is_created,
}
use system_delivery.Shipment.EventService.{
  Shipment, ShipmentEvent, Store, ShipmentSnapshot, AppendEventParams, AppendResult, event_row,
  project_row, resolve_target_status, write_event, apply_to,
}

abbrev pub next_status : ShipmentStatus → ShipmentEventType → ShipmentStatus
next_status s e = or_else (target_status_for e) s

-- The status that a log of events amounts to.
abbrev pub replay : ShipmentStatus → List ShipmentEvent → ShipmentStatus
replay s [] = s
replay s (e ∷ es) = replay (next_status s e.event_type) es

abbrev pub history : ℕ → List ShipmentEvent → List ShipmentEvent
history id events = keep (λ e. e.shipment_id == id) events

-- An event that the state machine permits as event number `n + 1` of a shipment in status `s`.
abbrev pub Permitted : ShipmentStatus → ℕ → ShipmentEventType → Type 0
Permitted s n e =
    ((is_created e ≡ true) × (n ≡ 0)) ⊎ ((is_created e ≡ false) × (check_transition s e ≢ rejected))

-- Every event is permitted where it stands, and the sequence numbers count 1, 2, 3, …
abbrev pub Legal : ShipmentStatus → ℕ → List ShipmentEvent → Type 0
Legal s n [] = Unit
Legal s n (e ∷ es) =
    Permitted s n e.event_type
    × (e.sequence ≡ n + 1)
    × Legal (next_status s e.event_type) (n + 1) es

-- A row agrees with its own events.
pub record Projected (events : List ShipmentEvent) (row : Shipment) : Type 0 where
  pub status_replays : row.status ≡ replay ShipmentStatus.created (history row.id events)
  pub sequence_counts : row.last_sequence ≡ length (history row.id events)
  pub log_legal : Legal ShipmentStatus.created 0 (history row.id events)

-- The snapshot was read from the table under the row lock.
abbrev pub IsSnapshot : ShipmentSnapshot → Shipment → Type 0
IsSnapshot current row =
    row.id == current.id ≡ true
    → (row.status ≡ current.status) × (row.last_sequence ≡ current.last_sequence)

replay-snoc :
    (s : ShipmentStatus) (es : List ShipmentEvent) (e : ShipmentEvent)
    → replay s (es ++ e ∷ []) ≡ next_status (replay s es) e.event_type
replay-snoc s [] e = refl
replay-snoc s (x ∷ es) e = replay-snoc (next_status s x.event_type) es e

Legal-snoc :
    (s : ShipmentStatus) (n : ℕ) (es : List ShipmentEvent) (e : ShipmentEvent)
    → Legal s n es
    → Permitted (replay s es) (n + length es) e.event_type
    → e.sequence ≡ n + length es + 1
    → Legal s n (es ++ e ∷ [])
Legal-snoc s n [] e h p q =
    (subst (λ k. Permitted s k e.event_type) (add-zero n) p, omega arith, tt)
Legal-snoc s n (x ∷ es) e h p q =
    let shift : n + suc (length es) ≡ n + 1 + length es = omega arith in
    (
      h.0,
      h.1,
      Legal-snoc (next_status s x.event_type) (n + 1) es e h.2
          (subst (λ k. Permitted (replay s (x ∷ es)) k e.event_type) shift p) (omega arith),
    )

resolve_permitted :
    (current : ShipmentSnapshot) (params : AppendEventParams) (s : ShipmentStatus)
    → resolve_target_status current params ≡ ok s
    → (s ≡ next_status current.status params.event_type)
      × Permitted current.status current.last_sequence params.event_type
unfolding resolve_target_status target_status_for
resolve_permitted current params s h = ground arith

history-snoc_self :
    (id : ℕ) (es : List ShipmentEvent) (e : ShipmentEvent)
    → e.shipment_id == id ≡ true
    → history id (es ++ e ∷ []) ≡ history id es ++ e ∷ []
history-snoc_self id es e h = rw (keep-append (λ e. e.shipment_id == id) es (e ∷ []), h)

history-snoc_other :
    (id : ℕ) (es : List ShipmentEvent) (e : ShipmentEvent)
    → e.shipment_id == id ≡ false
    → history id (es ++ e ∷ []) ≡ history id es
history-snoc_other id es e h =
    rw (keep-append (λ e. e.shipment_id == id) es (e ∷ []), h) (append-nil _)

project_row_lem :
    (s : ShipmentStatus) (n : ℕ) (params : AppendEventParams) (row : Shipment)
    → let row' = project_row s n params row in
      (row'.id ≡ row.id) × (row'.status ≡ s) × (row'.last_sequence ≡ n)
unfolding project_row
project_row_lem s n params row = ground arith

-- A row that takes over the status and the sequence of the event just logged for it.
take_over :
    (current : ShipmentSnapshot) (params : AppendEventParams) (s : ShipmentStatus)
    (events : List ShipmentEvent) (row row' : Shipment)
    → (s ≡ next_status current.status params.event_type)
      × Permitted current.status current.last_sequence params.event_type
    → (row.status ≡ current.status) × (row.last_sequence ≡ current.last_sequence)
    → Projected events row
    → row.id ≡ current.id
    → (row'.id ≡ row.id) × (row'.status ≡ s) × (row'.last_sequence ≡ current.last_sequence + 1)
    → Projected (events ++ event_row current params ∷ []) row'
unfolding event_row
take_over current params s events row row' (next, permitted) (st, seq) before same
      (id', st', seq') =
    let e = event_row current params in
    let past = history row.id events in
    let grown : history row'.id (events ++ e ∷ []) ≡ past ++ e ∷ [] =
      rw id' (history-snoc_self row.id events e (ground arith)) in
    let count : length past ≡ current.last_sequence = sym before.sequence_counts ∙ seq in
    let held : replay ShipmentStatus.created past ≡ current.status =
      sym before.status_replays ∙ st in
    let permitted_here : Permitted current.status (0 + length past) e.event_type =
      subst (λ k. Permitted current.status k e.event_type) (omega arith) permitted in
    record {
      status_replays = rw (grown, replay-snoc ShipmentStatus.created past e, held, st', next);
      sequence_counts = rw (grown, length-append past (e ∷ [])) (omega arith);
      log_legal = rw grown (
          Legal-snoc ShipmentStatus.created 0 past e before.log_legal (rw held permitted_here)
            (omega arith));
    }

row-Projected :
    (current : ShipmentSnapshot) (params : AppendEventParams) (s : ShipmentStatus)
    (events : List ShipmentEvent)
    → (s ≡ next_status current.status params.event_type)
      × Permitted current.status current.last_sequence params.event_type
    → (row : Shipment) → IsSnapshot current row × Projected events row
    → Projected
        (events ++ event_row current params ∷ [])
        (if row.id == current.id then project_row s (current.last_sequence + 1) params row else row)
unfolding event_row
row-Projected current params s events step row (snap, before) =
    elim (Bool-cases (row.id == current.id)) [
      | inl same ↦ rw same (
          take_over current params s events row
            (project_row s (current.last_sequence + 1) params row) step (snap same) before
            (==→eq row.id current.id same)
            (project_row_lem s (current.last_sequence + 1) params row))
      | inr other ↦
          let kept : history row.id (events ++ event_row current params ∷ [])
              ≡ history row.id events =
            history-snoc_other row.id events (event_row current params) (ground arith) in
          rw other (record {
            status_replays = rw kept before.status_replays;
            sequence_counts = rw kept before.sequence_counts;
            log_legal = rw kept before.log_legal;
          })
    ]

write_event_lem :
    (tenant_id drawn : ℕ) (current : ShipmentSnapshot) (params : AppendEventParams)
    (s : ShipmentStatus) (st st' : Store) (r : AppendResult)
    → write_event tenant_id drawn current params s st ≡ ok (r, st')
    → (st'.shipments
        ≡ update_where
            (λ row. row.id == current.id)
            (project_row s (current.last_sequence + 1) params)
            st.shipments)
      × (st'.events ≡ st.events ++ event_row current params ∷ [])
      × (r.status ≡ s)
      × (r.sequence ≡ current.last_sequence + 1)
unfolding write_event
write_event_lem tenant_id drawn current params s st st' r h = ground arith

-- What a call that succeeds has written.
pub apply_to_lem :
    (tenant_id drawn : ℕ) (current : ShipmentSnapshot) (params : AppendEventParams) (st st' : Store)
    (r : AppendResult)
    → apply_to tenant_id drawn current params st ≡ ok (r, st')
    → (resolve_target_status current params ≡ ok r.status)
      × (st'.shipments
          ≡ update_where
              (λ row. row.id == current.id)
              (project_row r.status (current.last_sequence + 1) params)
              st.shipments)
      × (st'.events ≡ st.events ++ event_row current params ∷ [])
      × (r.sequence ≡ current.last_sequence + 1)
unfolding apply_to
apply_to_lem tenant_id drawn current params st st' r h =
    elim (Result-cases (resolve_target_status current params)) [
      | inl (s, e) ↦
          let (rows, events, status, sequence) =
            write_event_lem tenant_id drawn current params s st st' r (rw (e, apply_to) at h) in
          rw status (e, rows, events, sequence)
      | inr (x, e) ↦ cc (rw (e, apply_to) at h)
    ]

-- Applied to a snapshot that was read under the row lock, `applyTo` keeps every row of the table
-- equal to the replay of its own events, its sequence equal to their number, and the log legal.
pub apply_to-Projected :
    (tenant_id drawn : ℕ) (current : ShipmentSnapshot) (params : AppendEventParams) (st st' : Store)
    (r : AppendResult)
    → All (λ row. IsSnapshot current row × Projected st.events row) st.shipments
    → apply_to tenant_id drawn current params st ≡ ok (r, st')
    → All (Projected st'.events) st'.shipments
apply_to-Projected tenant_id drawn current params st st' r before h =
    let (resolved, rows, events, _) = apply_to_lem tenant_id drawn current params st st' r h in
    rw (events, rows)
      (All-update_where (λ row. row.id == current.id)
        (λ row. IsSnapshot current row × Projected st.events row)
        (Projected (st.events ++ event_row current params ∷ []))
        (project_row r.status (current.last_sequence + 1) params)
        (row-Projected current params r.status st.events
          (resolve_permitted current params r.status resolved))
        st.shipments before)
