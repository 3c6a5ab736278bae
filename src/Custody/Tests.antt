-- ===== src/Custody/Tests.antt =====
-- Manifests at concrete statuses.
use system_delivery.Prelude.{◌≡◌, ◌↔◌, refl, true, []}
use system_delivery.Prelude.Machine.{Run}
use system_delivery.Custody.Status.{
  opened, sealed, reconciled, can_manifest_transition, manifest_transitions, is_terminal_manifest,
  manifest_closable,
}

seals : can_manifest_transition opened sealed ≡ true
unfolding can_manifest_transition manifest_transitions
seals = refl

manifest_closable_example :
    Run can_manifest_transition sealed reconciled
    × ((is_terminal_manifest sealed ≡ true) ↔ (manifest_transitions sealed ≡ []))
manifest_closable_example = manifest_closable sealed
