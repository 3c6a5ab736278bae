-- ===== src/Complaint/Tests.antt =====
-- Complaints at concrete statuses.
use system_delivery.Prelude.{◌≡◌, refl, true, false, not}
use system_delivery.Complaint.Status.{
  ComplaintStatus, opened, escalated, resolved, rejected, can_complaint_transition,
  complaint_transitions, is_terminal_complaint, complaint_closable,
}

escalates : can_complaint_transition opened escalated ≡ true
unfolding can_complaint_transition complaint_transitions
escalates = refl

complaint_closable_example :
    (can_complaint_transition opened resolved ≡ not (is_terminal_complaint opened))
    × (can_complaint_transition opened rejected ≡ not (is_terminal_complaint opened))
    × ((b : ComplaintStatus)
        → is_terminal_complaint opened ≡ true
        → can_complaint_transition opened b ≡ false)
complaint_closable_example = complaint_closable opened
