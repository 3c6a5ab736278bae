-- ===== src/Platform/Outbox.antt =====
-- apps/api/src/modules/platform: application/outbox.service.ts and domain/domain-event.ts. The
-- outbox table is the list of its rows, oldest first. Identifiers are numbers, for they are only
-- compared; the id that the database draws for a row is an argument. The trace context of the
-- OpenTelemetry library is left out.
use Prim.Native.Char.{code}
use Prim.Native.String.{String}
use system_delivery.Prelude.{
  ℕ, ◌≡◌, Bool, true, false, ◌&&◌, ◌||◌, Option, none, some, List, [], ◌∷◌, ◌++◌, ◌==◌, leb,
  if◌then◌else◌, or_else,
}
use system_delivery.Prelude.Int.{ℤ}
use system_delivery.Prelude.Tx.{Result, ok, err, internal}

-- A value of a JSON payload, by what it stands for.
pub data Value : Type 0 where
  null : Value
  text : String → Value
  -- A text by its character codes.
  letters : List ℕ → Value
  id : ℕ → Value
  ids : List ℕ → Value
  count : ℕ → Value
  flag : Bool → Value
  -- A `bigint` in minor units, written in decimal.
  minor : ℤ → Value
  -- An ISO timestamp.
  at : ℕ → Value

abbrev pub Payload : Type 0
Payload = List (String × Value)

pub record DomainEventInput : Type 0 where
  pub event_type : String
  pub aggregate_type : String
  pub aggregate_id : ℕ
  pub payload : Payload
  pub event_version : Option ℕ
  pub occurred_at : Option ℕ
  pub correlation_id : Option ℕ
  pub causation_id : Option ℕ

pub record OutboxRow : Type 0 where
  pub event_id : ℕ
  pub tenant_id : ℕ
  pub event_type : String
  pub event_version : ℕ
  pub aggregate_type : String
  pub aggregate_id : ℕ
  pub payload : Payload
  pub occurred_at : Option ℕ
  pub correlation_id : Option ℕ
  pub causation_id : Option ℕ

-- `[a-z_]`
abbrev is_word_char : ℕ → Bool
is_word_char c = leb b'a' c && leb c b'z' || c == b'_'

-- How much of `^[a-z_]+\.[a-z_]+$` has been read.
pub data Phase : Type 0 where
  start domain dot fact : Phase

abbrev next_phase : Phase → ℕ → Option Phase
next_phase start c = if is_word_char c then some domain else none
next_phase domain c = if is_word_char c then some domain else if c == b'.' then some dot else none
next_phase dot c = if is_word_char c then some fact else none
next_phase fact c = if is_word_char c then some fact else none

abbrev is_final : Phase → Bool
is_final fact = true
is_final _ = false

abbrev run_pattern : String → Option Phase → Bool
run_pattern _ none = false
run_pattern String.[] (some p) = is_final p
run_pattern (String.◌∷◌ c s) (some p) = run_pattern s (next_phase p (code c))

-- `EVENT_TYPE_PATTERN.test(eventType)`
abbrev pub is_valid_event_type : String → Bool
is_valid_event_type s = run_pattern s (some start)

-- The row that `publish` inserts, with the column defaults.
unfoldable pub outbox_row : ℕ → ℕ → DomainEventInput → OutboxRow
outbox_row tenant_id drawn event = record {
  event_id = drawn;
  tenant_id = tenant_id;
  event_type = event.event_type;
  event_version = or_else event.event_version 1;
  aggregate_type = event.aggregate_type;
  aggregate_id = event.aggregate_id;
  payload = event.payload;
  occurred_at = event.occurred_at;
  correlation_id = event.correlation_id;
  causation_id = event.causation_id;
}

-- `OutboxService.publish`: the outbox with the new row, or the thrown naming error.
unfoldable pub publish : ℕ → ℕ → DomainEventInput → List OutboxRow → Result (List OutboxRow)
publish tenant_id drawn event outbox =
    if is_valid_event_type event.event_type
    then ok (outbox ++ outbox_row tenant_id drawn event ∷ [])
    else err internal

pub publish_lem :
    (tenant_id drawn : ℕ) (event : DomainEventInput) (outbox : List OutboxRow)
    → is_valid_event_type event.event_type ≡ true
    → publish tenant_id drawn event outbox ≡ ok (outbox ++ outbox_row tenant_id drawn event ∷ [])
unfolding publish
publish_lem tenant_id drawn event outbox h = rw h
