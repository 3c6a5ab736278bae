-- ===== src/Driver/Batch.antt =====
-- The parts of `flushOutbox` in apps/driver/src/core/outbox.ts that settle one batch.
use system_delivery.Prelude.{
  ℕ, ◌+◌, ◌==◌, ltb, Bool, true, false, ◌&&◌, Option, none, some, List, [], ◌∷◌, String, find, keep,
  member, if◌then◌else◌, or_else, not, is_some_of,
}
use system_delivery.Driver.Outbox.{
  done, refused, escalated, OutboxAction, Device, is_physical, pending_actions, update_action,
  save_routes,
}
use system_delivery.Driver.Ports.{
  SyncAction, discard_and_refresh, retry_later, SyncResult, accepted, rejected, SyncResponse,
  ScanResult, MediaSlot, SyncItem, to_sync_item,
}

-- The variables of a flush, with the world that the ports act on.
pub record Flush (W : Type 0) : Type 0 where
  pub device : Device
  pub world : W
  pub sent : ℕ
  pub refused_count : ℕ
  pub escalated_count : ℕ
  pub reached_server : Bool
  pub features : Option (List (String × Bool))
  pub fresh : List (ℕ × MediaSlot)
  pub synced : Bool
  pub deferred : List ℕ

pub record FlushReport : Type 0 where
  pub sent : ℕ
  pub refused : ℕ
  pub escalated : ℕ
  pub reached_server : Bool
  pub offline : Bool
  pub features : Option (List (String × Bool))

-- How a part of the flush ends: it goes on, breaks out of the loop, or returns `offline()`.
pub data Turn (W : Type 0) : Type 0 where
  going : Flush W → Turn W
  broke : Flush W → Turn W
  offline : Flush W → Turn W

-- `MAX_SYNC_ITEMS`, `MAX_SCANS`
abbrev pub max_sync_items : ℕ
max_sync_items = 100

abbrev pub max_scans : ℕ
max_scans = 200

-- `takeWhile`, with `out.length` counted in `taken`.
unfoldable pub take_while : (OutboxAction → Bool) → ℕ → ℕ → List OutboxAction → List OutboxAction
take_while test max taken [] = []
take_while test max taken (a ∷ as') =
    let rest = take_while test max (taken + 1) as' in
    if ltb taken max && test a then a ∷ rest else []

-- The items of a batch and what is deferred: the first action whose photo has no slot ends it.
unfoldable pub collect_items :
    Device → List OutboxAction → List ℕ → List (OutboxAction × SyncItem) × List ℕ
collect_items d [] deferred = ([], deferred)
collect_items d (a ∷ as') deferred =
    let (items, deferred') = collect_items d as' deferred in
    elim (to_sync_item d a) [
      | none ↦ ([], a.subject_id ∷ deferred)
      | some item ↦ ((a, item) ∷ items, deferred')
    ]

abbrev pub items_of : List (OutboxAction × SyncItem) → List SyncItem
items_of [] = []
items_of ((a, item) ∷ rest) = item ∷ items_of rest

abbrev pub key_is : ℕ → SyncResult → Bool
key_is id (accepted key) = is_some_of key id
key_is id (rejected key _ _ _) = is_some_of key id

abbrev pub is_retry : SyncAction → Bool
is_retry retry_later = true
is_retry _ = false

abbrev pub is_discard : SyncAction → Bool
is_discard discard_and_refresh = true
is_discard _ = false

-- The patches of the flush.
abbrev pub set_done : OutboxAction → OutboxAction
set_done a = record a { state = done; code = none; detail = none }

abbrev pub set_sent : OutboxAction → OutboxAction
set_sent a = record a { state = done }

abbrev pub set_refused : String → String → OutboxAction → OutboxAction
set_refused code detail a = record a { state = refused; code = some code; detail = some detail }

abbrev pub set_escalated : String → String → OutboxAction → OutboxAction
set_escalated code detail a = record a { state = escalated; code = some code; detail = some detail }

abbrev pub set_attempted : ℕ → String → String → OutboxAction → OutboxAction
set_attempted attempts code detail a = record a {
  attempts = attempts;
  code = some code;
  detail = some detail;
}

module _ {W : Type 0} where
  abbrev pub patch : ℕ → (OutboxAction → OutboxAction) → Flush W → Flush W
  patch id f st = record st { device = update_action id f st.device }

  abbrev pub defer : ℕ → Flush W → Flush W
  defer subject st = record st { deferred = subject ∷ st.deferred }

  abbrev pub defer_if : Bool → ℕ → Flush W → Flush W
  defer_if b subject st = if b then defer subject st else st

  -- `sendable`
  unfoldable pub sendable : Flush W → List OutboxAction
  sendable st = keep (λ a. not (member a.subject_id st.deferred)) (pending_actions st.device)

  abbrev pub refuse : OutboxAction → String → String → Flush W → Flush W
  refuse a code detail st = record (patch a.id (set_refused code detail) st) {
    refused_count = st.refused_count + 1;
  }

  abbrev pub escalate : OutboxAction → String → String → Flush W → Flush W
  escalate a code detail st = record (patch a.id (set_escalated code detail) st) {
    escalated_count = st.escalated_count + 1;
  }

  abbrev pub deliver : OutboxAction → (OutboxAction → OutboxAction) → Flush W → Flush W
  deliver a f st = record (patch a.id f st) { sent = st.sent + 1 }

  -- `settle`
  unfoldable pub settle : OutboxAction → SyncAction → String → String → Flush W → Flush W
  settle a verdict code detail st =
      if is_retry verdict
      then patch a.id (set_attempted (a.attempts + 1) code detail) st
      else if is_discard verdict && not (is_physical a.kind)
      then refuse a code detail st
      else escalate a code detail st

  -- The server's result for one action of a sync batch.
  unfoldable pub apply_result : List SyncResult → OutboxAction → Flush W → Flush W
  apply_result results a st = elim (find (key_is a.id) results) [
    | none ↦ defer a.subject_id st
    | some (accepted _) ↦ deliver a set_done st
    | some (rejected _ code detail verdict) ↦
        settle a verdict code detail (defer_if (is_retry verdict) a.subject_id st)
  ]

  unfoldable pub apply_results :
      List SyncResult → List (OutboxAction × SyncItem) → Flush W → Flush W
  apply_results results [] st = st
  apply_results results ((a, _) ∷ rest) st = apply_results results rest (apply_result results a st)

  -- The envelope was refused: everything is kept, and the attempt counted.
  unfoldable pub count_attempts :
      String → String → List (OutboxAction × SyncItem) → Flush W → Flush W
  count_attempts code detail [] st = st
  count_attempts code detail ((a, _) ∷ rest) st =
      count_attempts code detail rest (patch a.id (set_attempted (a.attempts + 1) code detail) st)

  unfoldable pub refuse_run : String → String → List OutboxAction → Flush W → Flush W
  refuse_run code detail [] st = st
  refuse_run code detail (a ∷ as') st = refuse_run code detail as' (refuse a code detail st)

  -- The server's result for one scan of a batch, by its index.
  unfoldable pub apply_scan : List ScanResult → ℕ → OutboxAction → Flush W → Flush W
  apply_scan results index a st = elim (find (λ r. r.index == index) results) [
    | none ↦ defer a.subject_id st
    | some r ↦ elim r.action [
      | none ↦ deliver a set_sent st
      | some verdict ↦
          settle a verdict r.status (or_else r.reason "")
            (defer_if (is_retry verdict) a.subject_id st)
    ]
  ]

  unfoldable pub apply_scans : List ScanResult → ℕ → List OutboxAction → Flush W → Flush W
  apply_scans results index [] st = st
  apply_scans results index (a ∷ as') st =
      apply_scans results (index + 1) as' (apply_scan results index a st)

  abbrev pub reach : W → Flush W → Flush W
  reach w st = record st { world = w; reached_server = true }

  abbrev pub lost : W → Flush W → Turn W
  lost w st = offline (record st { world = w })

  -- `features = …; await store.saveRoutes(…)`
  abbrev pub refresh : SyncResponse → Flush W → Flush W
  refresh r st = record st {
    features = some r.features;
    device = save_routes r.active_routes r.route_updates st.device;
  }
