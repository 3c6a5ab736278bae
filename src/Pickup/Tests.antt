-- ===== src/Pickup/Tests.antt =====
-- Pickups at concrete statuses.
use system_delivery.Prelude.{◌≡◌, ◌≢◌, refl, true}
use system_delivery.Prelude.Machine.{Run, stay, move}
use system_delivery.Pickup.Status.{
  requested, accepted, completed, cancelled, collected, can_pickup_transition, pickup_transitions,
  collected_not_cancelled,
}

done : Run can_pickup_transition collected completed
unfolding can_pickup_transition pickup_transitions
done = move refl stay

accepts : can_pickup_transition requested accepted ≡ true
unfolding can_pickup_transition pickup_transitions
accepts = refl

collected_not_cancelled_example : completed ≢ cancelled
collected_not_cancelled_example = collected_not_cancelled completed done
