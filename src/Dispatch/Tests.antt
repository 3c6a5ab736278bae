-- ===== src/Dispatch/Tests.antt =====
-- Routes at concrete statuses.
use system_delivery.Prelude.{◌≢◌, refl}
use system_delivery.Prelude.Machine.{Run, stay, move}
use system_delivery.Dispatch.Status.{
  draft, optimizing, published, in_progress, completed, can_route_transition, route_transitions,
  published_not_replanned,
}

drives : Run can_route_transition published completed
unfolding can_route_transition route_transitions
drives = move {b = in_progress} refl (move refl stay)

published_not_replanned_example : (completed ≢ draft) × (completed ≢ optimizing)
published_not_replanned_example = published_not_replanned completed drives
