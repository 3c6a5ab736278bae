-- ===== src/Custody/Status.antt =====
-- apps/api/src/modules/custody/domain/manifest-status.ts: the manifest state machine, and the kinds
-- of handover.
use system_delivery.Prelude.{
  ℕ, ◌<◌, ◌≡◌, refl, ◌↔◌, Bool, true, false, Option, some, List, [], ◌∷◌, String, any, arith,
}
use system_delivery.Prelude.Words.{narrow, narrow_sound}
use system_delivery.Prelude.Machine.{Run, stay, move, no_return}

pub data ManifestStatus : Type 0 where
  opened sealed in_transit received reconciled : ManifestStatus

abbrev pub manifest_status_name : ManifestStatus → String
manifest_status_name opened = "OPEN"
manifest_status_name sealed = "SEALED"
manifest_status_name in_transit = "IN_TRANSIT"
manifest_status_name received = "RECEIVED"
manifest_status_name reconciled = "RECONCILED"

abbrev pub manifest_statuses : List ManifestStatus
manifest_statuses = opened ∷ sealed ∷ in_transit ∷ received ∷ reconciled ∷ []

-- `toManifestStatus`
unfoldable pub to_manifest_status : String → Option ManifestStatus
to_manifest_status value = narrow manifest_status_name manifest_statuses value

abbrev same_manifest_status : ManifestStatus → ManifestStatus → Bool
same_manifest_status opened opened = true
same_manifest_status sealed sealed = true
same_manifest_status in_transit in_transit = true
same_manifest_status received received = true
same_manifest_status reconciled reconciled = true
same_manifest_status _ _ = false

-- `TERMINAL_MANIFEST_STATUSES`
unfoldable pub is_terminal_manifest : ManifestStatus → Bool
is_terminal_manifest reconciled = true
is_terminal_manifest _ = false

-- The table of transitions.
unfoldable pub manifest_transitions : ManifestStatus → List ManifestStatus
manifest_transitions opened = sealed ∷ []
manifest_transitions sealed = in_transit ∷ received ∷ []
manifest_transitions in_transit = received ∷ []
manifest_transitions received = reconciled ∷ []
manifest_transitions reconciled = []

-- `canManifestTransition`
unfoldable pub can_manifest_transition : ManifestStatus → ManifestStatus → Bool
can_manifest_transition from to = any (λ s. same_manifest_status s to) (manifest_transitions from)

pub data ManifestType : Type 0 where
  linehaul dispatch return transfer : ManifestType

-- `toManifestType`
abbrev pub manifest_type_name : ManifestType → String
manifest_type_name linehaul = "LINEHAUL"
manifest_type_name dispatch = "DISPATCH"
manifest_type_name return = "RETURN"
manifest_type_name transfer = "TRANSFER"

unfoldable pub to_manifest_type : String → Option ManifestType
to_manifest_type value =
    narrow manifest_type_name (linehaul ∷ dispatch ∷ return ∷ transfer ∷ []) value

-- `originatesAtHub`
unfoldable pub originates_at_hub : ManifestType → Bool
originates_at_hub return = false
originates_at_hub _ = true

-- `travelsInTransit`
unfoldable pub travels_in_transit : ManifestType → Bool
travels_in_transit linehaul = true
travels_in_transit transfer = true
travels_in_transit _ = false

named :
    (s : ManifestStatus)
    → narrow manifest_status_name manifest_statuses (manifest_status_name s) ≡ some s
named opened = refl
named sealed = refl
named in_transit = refl
named received = refl
named reconciled = refl

abbrev rank : ManifestStatus → ℕ
rank opened = 0
rank sealed = 1
rank in_transit = 2
rank received = 3
rank reconciled = 4

climbs : (a b : ManifestStatus) → can_manifest_transition a b ≡ true → rank a < rank b
unfolding can_manifest_transition manifest_transitions
climbs a b m = ground arith

-- A status that has been left is never entered again.
manifest_no_return :
    (a b : ManifestStatus)
    → can_manifest_transition a b ≡ true
    → Run can_manifest_transition b a
    → ⊥
manifest_no_return a b m r = no_return can_manifest_transition rank climbs a b m r

-- From every status some run ends in RECONCILED, and only RECONCILED has nothing left to do.
pub manifest_closable :
    (a : ManifestStatus)
    → Run can_manifest_transition a reconciled
      × ((is_terminal_manifest a ≡ true) ↔ (manifest_transitions a ≡ []))
unfolding can_manifest_transition manifest_transitions is_terminal_manifest
manifest_closable opened =
    (move {b = sealed} refl (move {b = received} refl (move refl stay)), (λ t. cc, λ e. cc))
manifest_closable sealed = (move {b = received} refl (move refl stay), (λ t. cc, λ e. cc))
manifest_closable in_transit = (move {b = received} refl (move refl stay), (λ t. cc, λ e. cc))
manifest_closable received = (move refl stay, (λ t. cc, λ e. cc))
manifest_closable reconciled = (stay, (λ t. refl, λ e. refl))

-- A handover that travels starts at a hub; one that starts at a hub and does not travel is the
-- handing out to a last-mile driver.
travel_starts_at_hub :
    (t : ManifestType)
    → (travels_in_transit t ≡ true → originates_at_hub t ≡ true)
      × (originates_at_hub t ≡ true → travels_in_transit t ≡ false → t ≡ dispatch)
unfolding travels_in_transit originates_at_hub
travel_starts_at_hub t = (λ h. ground arith, λ o n. ground arith)

-- `toManifestStatus` reads back the literal of every status, and accepts no other text.
pub to_manifest_status_exact :
    (s : ManifestStatus) (value : String)
    → (to_manifest_status (manifest_status_name s) ≡ some s)
      × (to_manifest_status value ≡ some s → manifest_status_name s ≡ value)
unfolding to_manifest_status
to_manifest_status_exact s value =
    (named s, narrow_sound manifest_status_name manifest_statuses value s)
