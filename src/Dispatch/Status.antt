-- ===== src/Dispatch/Status.antt =====
-- apps/api/src/modules/dispatch/domain/route-status.ts: the route state machine, and the statuses of
-- its stops.
use system_delivery.Prelude.{
  ◌≡◌, ◌≢◌, refl, Bool, true, false, Option, some, List, [], ◌∷◌, String, any, arith, not,
}
use system_delivery.Prelude.Words.{narrow, narrow_sound}
use system_delivery.Prelude.Machine.{Run, Run-keeps}

pub data RouteStatus : Type 0 where
  draft optimizing published in_progress completed cancelled : RouteStatus

abbrev pub route_status_name : RouteStatus → String
route_status_name draft = "DRAFT"
route_status_name optimizing = "OPTIMIZING"
route_status_name published = "PUBLISHED"
route_status_name in_progress = "IN_PROGRESS"
route_status_name completed = "COMPLETED"
route_status_name cancelled = "CANCELLED"

abbrev pub route_statuses : List RouteStatus
route_statuses = draft ∷ optimizing ∷ published ∷ in_progress ∷ completed ∷ cancelled ∷ []

-- `toRouteStatus`
unfoldable pub to_route_status : String → Option RouteStatus
to_route_status value = narrow route_status_name route_statuses value

abbrev same_route_status : RouteStatus → RouteStatus → Bool
same_route_status draft draft = true
same_route_status optimizing optimizing = true
same_route_status published published = true
same_route_status in_progress in_progress = true
same_route_status completed completed = true
same_route_status cancelled cancelled = true
same_route_status _ _ = false

-- `TERMINAL_ROUTE_STATUSES`
unfoldable pub is_terminal_route : RouteStatus → Bool
is_terminal_route completed = true
is_terminal_route cancelled = true
is_terminal_route _ = false

-- The table of transitions.
unfoldable pub route_transitions : RouteStatus → List RouteStatus
route_transitions draft = optimizing ∷ published ∷ cancelled ∷ []
route_transitions optimizing = draft ∷ cancelled ∷ []
route_transitions published = in_progress ∷ cancelled ∷ []
route_transitions in_progress = completed ∷ cancelled ∷ []
route_transitions completed = []
route_transitions cancelled = []

-- `canRouteTransition`
unfoldable pub can_route_transition : RouteStatus → RouteStatus → Bool
can_route_transition from to = any (λ s. same_route_status s to) (route_transitions from)

pub data RouteStopStatus : Type 0 where
  pending arrived stop_completed failed skipped : RouteStopStatus

-- `TERMINAL_STOP_STATUSES`
unfoldable pub is_terminal_stop : RouteStopStatus → Bool
is_terminal_stop stop_completed = true
is_terminal_stop failed = true
is_terminal_stop skipped = true
is_terminal_stop _ = false

named : (s : RouteStatus) → narrow route_status_name route_statuses (route_status_name s) ≡ some s
named draft = refl
named optimizing = refl
named published = refl
named in_progress = refl
named completed = refl
named cancelled = refl

abbrev is_planning : RouteStatus → Bool
is_planning draft = true
is_planning optimizing = true
is_planning _ = false

still_released :
    (a b : RouteStatus)
    → can_route_transition a b ≡ true
    → is_planning a ≡ false
    → is_planning b ≡ false
unfolding can_route_transition route_transitions
still_released a b m p = ground arith

-- A route that was published is never a DRAFT or OPTIMIZING again: the stops of a driver on the road
-- are not replanned.
pub published_not_replanned :
    (s : RouteStatus) → Run can_route_transition published s → (s ≢ draft) × (s ≢ optimizing)
published_not_replanned s r =
    let kept = Run-keeps can_route_transition (λ s. is_planning s ≡ false) still_released r refl in
    (ground arith, ground arith)

-- A route can be cancelled exactly while it is not terminal, and a terminal one has no transition.
route_cancellable :
    (a : RouteStatus)
    → (can_route_transition a cancelled ≡ not (is_terminal_route a))
      × ((b : RouteStatus) → is_terminal_route a ≡ true → can_route_transition a b ≡ false)
unfolding can_route_transition route_transitions is_terminal_route
route_cancellable a = (ground arith, λ b t. ground arith)

-- `toRouteStatus` reads back the literal of every status, and accepts no other text.
pub to_route_status_exact :
    (s : RouteStatus) (value : String)
    → (to_route_status (route_status_name s) ≡ some s)
      × (to_route_status value ≡ some s → route_status_name s ≡ value)
unfolding to_route_status
to_route_status_exact s value = (named s, narrow_sound route_status_name route_statuses value s)
