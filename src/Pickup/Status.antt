-- ===== src/Pickup/Status.antt =====
-- apps/api/src/modules/pickup/domain/pickup-status.ts: the pickup-request state machine.
use system_delivery.Prelude.{
  ℕ, ◌<◌, ◌≡◌, ◌≢◌, refl, Bool, true, false, Option, some, List, [], ◌∷◌, String, any, arith,
}
use system_delivery.Prelude.Words.{narrow, narrow_sound}
use system_delivery.Prelude.Machine.{Run, Run-keeps, no_return}

pub data PickupStatus : Type 0 where
  requested accepted assigned collected completed cancelled : PickupStatus

abbrev pub pickup_status_name : PickupStatus → String
pickup_status_name requested = "REQUESTED"
pickup_status_name accepted = "ACCEPTED"
pickup_status_name assigned = "ASSIGNED"
pickup_status_name collected = "COLLECTED"
pickup_status_name completed = "COMPLETED"
pickup_status_name cancelled = "CANCELLED"

abbrev pub pickup_statuses : List PickupStatus
pickup_statuses = requested ∷ accepted ∷ assigned ∷ collected ∷ completed ∷ cancelled ∷ []

-- `toPickupStatus`
unfoldable pub to_pickup_status : String → Option PickupStatus
to_pickup_status value = narrow pickup_status_name pickup_statuses value

abbrev same_pickup_status : PickupStatus → PickupStatus → Bool
same_pickup_status requested requested = true
same_pickup_status accepted accepted = true
same_pickup_status assigned assigned = true
same_pickup_status collected collected = true
same_pickup_status completed completed = true
same_pickup_status cancelled cancelled = true
same_pickup_status _ _ = false

-- `TERMINAL_PICKUP_STATUSES`
unfoldable pub is_terminal_pickup : PickupStatus → Bool
is_terminal_pickup completed = true
is_terminal_pickup cancelled = true
is_terminal_pickup _ = false

-- The table of transitions.
unfoldable pub pickup_transitions : PickupStatus → List PickupStatus
pickup_transitions requested = accepted ∷ cancelled ∷ []
pickup_transitions accepted = assigned ∷ cancelled ∷ []
pickup_transitions assigned = collected ∷ cancelled ∷ []
pickup_transitions collected = completed ∷ []
pickup_transitions completed = []
pickup_transitions cancelled = []

-- `canPickupTransition`
unfoldable pub can_pickup_transition : PickupStatus → PickupStatus → Bool
can_pickup_transition from to = any (λ s. same_pickup_status s to) (pickup_transitions from)

named :
    (s : PickupStatus) → narrow pickup_status_name pickup_statuses (pickup_status_name s) ≡ some s
named requested = refl
named accepted = refl
named assigned = refl
named collected = refl
named completed = refl
named cancelled = refl

abbrev rank : PickupStatus → ℕ
rank requested = 0
rank accepted = 1
rank assigned = 2
rank collected = 3
rank completed = 4
rank cancelled = 4

climbs : (a b : PickupStatus) → can_pickup_transition a b ≡ true → rank a < rank b
unfolding can_pickup_transition pickup_transitions
climbs a b m = ground arith

-- A status that has been left is never entered again.
pickup_no_return :
    (a b : PickupStatus) → can_pickup_transition a b ≡ true → Run can_pickup_transition b a → ⊥
pickup_no_return a b m r = no_return can_pickup_transition rank climbs a b m r

-- The courier holds the parcels, or has passed them on.
abbrev is_collected : PickupStatus → Bool
is_collected collected = true
is_collected completed = true
is_collected _ = false

still_collected :
    (a b : PickupStatus)
    → can_pickup_transition a b ≡ true
    → is_collected a ≡ true
    → is_collected b ≡ true
unfolding can_pickup_transition pickup_transitions
still_collected a b m p = ground arith

-- Invariant I21: no run of transitions takes a pickup that was COLLECTED to CANCELLED.
pub collected_not_cancelled :
    (s : PickupStatus) → Run can_pickup_transition collected s → s ≢ cancelled
collected_not_cancelled s r =
    let kept =
      Run-keeps can_pickup_transition (λ s. is_collected s ≡ true) still_collected r refl in
    ground arith

-- `toPickupStatus` reads back the literal of every status, and accepts no other text.
pub to_pickup_status_exact :
    (s : PickupStatus) (value : String)
    → (to_pickup_status (pickup_status_name s) ≡ some s)
      × (to_pickup_status value ≡ some s → pickup_status_name s ≡ value)
unfolding to_pickup_status
to_pickup_status_exact s value = (named s, narrow_sound pickup_status_name pickup_statuses value s)
