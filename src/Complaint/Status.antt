-- ===== src/Complaint/Status.antt =====
-- apps/api/src/modules/complaint/domain/complaint-status.ts: the complaint lifecycle.
use system_delivery.Prelude.{
  ℕ, ◌<◌, ◌≡◌, refl, Bool, true, false, Option, some, List, [], ◌∷◌, String, any, arith, not,
}
use system_delivery.Prelude.Words.{narrow, narrow_sound}
use system_delivery.Prelude.Machine.{Run, no_return}

pub data ComplaintStatus : Type 0 where
  opened investigating escalated resolved rejected : ComplaintStatus

abbrev pub complaint_status_name : ComplaintStatus → String
complaint_status_name opened = "OPEN"
complaint_status_name investigating = "INVESTIGATING"
complaint_status_name escalated = "ESCALATED"
complaint_status_name resolved = "RESOLVED"
complaint_status_name rejected = "REJECTED"

abbrev pub complaint_statuses : List ComplaintStatus
complaint_statuses = opened ∷ investigating ∷ escalated ∷ resolved ∷ rejected ∷ []

-- `toComplaintStatus`
unfoldable pub to_complaint_status : String → Option ComplaintStatus
to_complaint_status value = narrow complaint_status_name complaint_statuses value

abbrev same_complaint_status : ComplaintStatus → ComplaintStatus → Bool
same_complaint_status opened opened = true
same_complaint_status investigating investigating = true
same_complaint_status escalated escalated = true
same_complaint_status resolved resolved = true
same_complaint_status rejected rejected = true
same_complaint_status _ _ = false

-- `TERMINAL_COMPLAINT_STATUSES`
unfoldable pub is_terminal_complaint : ComplaintStatus → Bool
is_terminal_complaint resolved = true
is_terminal_complaint rejected = true
is_terminal_complaint _ = false

-- The table of transitions.
unfoldable pub complaint_transitions : ComplaintStatus → List ComplaintStatus
complaint_transitions opened = investigating ∷ escalated ∷ resolved ∷ rejected ∷ []
complaint_transitions investigating = escalated ∷ resolved ∷ rejected ∷ []
complaint_transitions escalated = resolved ∷ rejected ∷ []
complaint_transitions resolved = []
complaint_transitions rejected = []

-- `canComplaintTransition`
unfoldable pub can_complaint_transition : ComplaintStatus → ComplaintStatus → Bool
can_complaint_transition from to =
    any (λ s. same_complaint_status s to) (complaint_transitions from)

pub data ComplaintType : Type 0 where
  damaged lost late wrong_item driver_conduct cod_dispute other : ComplaintType

-- `DEFAULT_COMPLAINT_SLA_HOURS`
unfoldable pub default_complaint_sla_hours : ComplaintType → ℕ
default_complaint_sla_hours damaged = 24
default_complaint_sla_hours lost = 48
default_complaint_sla_hours late = 48
default_complaint_sla_hours wrong_item = 24
default_complaint_sla_hours driver_conduct = 24
default_complaint_sla_hours cod_dispute = 24
default_complaint_sla_hours other = 72

named :
    (s : ComplaintStatus)
    → narrow complaint_status_name complaint_statuses (complaint_status_name s) ≡ some s
named opened = refl
named investigating = refl
named escalated = refl
named resolved = refl
named rejected = refl

abbrev rank : ComplaintStatus → ℕ
rank opened = 0
rank investigating = 1
rank escalated = 2
rank resolved = 3
rank rejected = 3

climbs : (a b : ComplaintStatus) → can_complaint_transition a b ≡ true → rank a < rank b
unfolding can_complaint_transition complaint_transitions
climbs a b m = ground arith

-- A status that has been left is never entered again.
complaint_no_return :
    (a b : ComplaintStatus)
    → can_complaint_transition a b ≡ true
    → Run can_complaint_transition b a
    → ⊥
complaint_no_return a b m r = no_return can_complaint_transition rank climbs a b m r

-- By the transition table a complaint can be resolved, and rejected, from every status that is not
-- terminal, OPEN among them, and from no other; and no transition leaves a terminal status.
pub complaint_closable :
    (a : ComplaintStatus)
    → (can_complaint_transition a resolved ≡ not (is_terminal_complaint a))
      × (can_complaint_transition a rejected ≡ not (is_terminal_complaint a))
      × ((b : ComplaintStatus)
          → is_terminal_complaint a ≡ true
          → can_complaint_transition a b ≡ false)
unfolding can_complaint_transition complaint_transitions is_terminal_complaint
complaint_closable a = (ground arith, ground arith, λ b t. ground arith)

-- `toComplaintStatus` reads back the literal of every status, and accepts no other text.
pub to_complaint_status_exact :
    (s : ComplaintStatus) (value : String)
    → (to_complaint_status (complaint_status_name s) ≡ some s)
      × (to_complaint_status value ≡ some s → complaint_status_name s ≡ value)
unfolding to_complaint_status
to_complaint_status_exact s value =
    (named s, narrow_sound complaint_status_name complaint_statuses value s)
