-- ===== src/Dispatch/SyncAnswer.antt =====
-- apps/api/src/modules/dispatch/application/driver-sync.service.ts: the answer to a driver's sync, and
-- the driver's commands on a route. What belongs to other services is a parameter.
use system_delivery.Prelude.Words.{same_text}
use system_delivery.Prelude.{
  ℕ, ◌==◌, is_some_of, Bool, true, false, ◌&&◌, Option, none, some, List, [], ◌∷◌, ◌++◌, String,
  any, map, find, if◌then◌else◌, not,
}
use system_delivery.Dispatch.Status.{RouteStatus, published, in_progress}
use system_delivery.Dispatch.SyncItems.{
  RawItem, SyncItemResult, ItemError, domain, Outcome, returned, thrown, Role, driver_role,
  other_role, SyncCaller,
}
use system_delivery.Dispatch.Sync.{ItemCommands, drain}

-- A route as `routes.list` gives it.
pub record RouteRow : Type 0 where
  pub id : ℕ
  pub driver_id : Option ℕ
  pub status : RouteStatus

pub record ActiveRoute : Type 0 where
  pub route_id : ℕ
  pub status : RouteStatus
  pub version : String

pub record RouteUpdate (M : Type 0) : Type 0 where
  pub route_id : ℕ
  pub version : String
  pub manifest : M

-- What the sync reads of the other services, and the commands on a route: `getManifest` with
-- `toManifestResponse`, the fingerprint of a manifest, the pages of `list`, and `enabledKeys`.
pub record RouteQueries (W M K : Type 0) : Type 0 where
  pub list : RouteStatus → W → List RouteRow
  pub manifest_response : ℕ → W → M
  pub fingerprint : M → String
  pub feature_keys : List K
  -- Whether `enabledKeys` has the key.
  pub is_enabled : K → W → Bool
  pub get_by_id : ℕ → W → Option RouteRow
  pub start : ℕ → W → Outcome RouteRow × W
  pub complete : ℕ → W → Outcome RouteRow × W

abbrev pub known_version : ℕ → List (ℕ × String) → Option String
known_version id known = elim (find (λ k. k.0 == id) known) [ none ↦ none | some k ↦ some k.1 ]

-- `known[route.id] !== version`
abbrev pub is_stale : List (ℕ × String) → ℕ → String → Bool
is_stale known id version = elim (known_version id known) [
  | none ↦ true
  | some held ↦ not (same_text held version)
]

module _ {W M K : Type 0} (queries : RouteQueries W M K) where
  -- `routeState`, over its list of active routes.
  unfoldable pub route_states :
      List (ℕ × String) → List RouteRow → W → List ActiveRoute × List (RouteUpdate M)
  route_states known [] w = ([], [])
  route_states known (route ∷ routes) w =
      let manifest = queries.manifest_response route.id w in
      let version = queries.fingerprint manifest in
      let (active, updates) = route_states known routes w in
      (
        record { route_id = route.id; status = route.status; version = version } ∷ active,
        (if is_stale known route.id version
            then record { route_id = route.id; version = version; manifest = manifest } ∷ updates
            else updates),
      )

  unfoldable pub route_state : List (ℕ × String) → W → List ActiveRoute × List (RouteUpdate M)
  route_state known w =
      route_states known (queries.list published w ++ queries.list in_progress w) w

pub record SyncRequest : Type 0 where
  pub known_route_versions : List (ℕ × String)
  pub pending_events : List RawItem

pub record SyncResult (M K : Type 0) : Type 0 where
  pub results : List SyncItemResult
  pub active_routes : List ActiveRoute
  pub route_updates : List (RouteUpdate M)
  pub features : List (K × Bool)

abbrev pub is_driver : Role → Bool
is_driver driver_role = true
is_driver (other_role name) = false

-- The driver that the login stands for: `driverId`, unless it is `NO_DRIVER` or missing.
abbrev pub own_driver : ℕ → SyncCaller → Option ℕ → Option ℕ
own_driver no_driver caller driver_id =
    if any is_driver caller.roles && not (is_some_of driver_id no_driver) then driver_id else none

abbrev pub forbidden : String → ItemError
forbidden message = domain "FORBIDDEN" 403 message

abbrev pub not_found : ItemError
not_found = domain "NOT_FOUND" 404 "Route not found"

module _ {W M K : Type 0} (commands : ItemCommands W) (queries : RouteQueries W M K)
    (no_driver : ℕ) where
  -- `sync`, for the driver of the tenant context.
  unfoldable pub sync : SyncRequest → SyncCaller → Option ℕ → W → Outcome (SyncResult M K) × W
  sync dto caller driver_id w = elim (own_driver no_driver caller driver_id) [
    | none ↦ (thrown (forbidden "Sync is for a driver's own device"), w)
    | some driver ↦
        let (results, held, w') = drain commands caller dto.pending_events [] w in
        let (active, updates) = route_state queries dto.known_route_versions w' in
        (
          returned (record {
            results = results;
            active_routes = active;
            route_updates = updates;
            features = map (λ key. (key, queries.is_enabled key w')) queries.feature_keys;
          }),
          w',
        )
  ]

  -- `ownRoute`
  unfoldable pub own_route : ℕ → SyncCaller → Option ℕ → W → Outcome RouteRow
  own_route route_id caller driver_id w = elim (own_driver no_driver caller driver_id) [
    | none ↦ thrown (forbidden "Only the driver of a route may run it")
    | some driver ↦ elim (queries.get_by_id route_id w) [
      | none ↦ thrown not_found
      | some route ↦ if is_some_of route.driver_id driver then returned route else thrown not_found
    ]
  ]

  -- `startRoute`
  unfoldable pub start_route : ℕ → SyncCaller → Option ℕ → W → Outcome RouteRow × W
  start_route route_id caller driver_id w = elim (own_route route_id caller driver_id w) [
    | thrown e ↦ (thrown e, w)
    | returned route ↦ queries.start route.id w
  ]

  -- `completeRoute`
  unfoldable pub complete_route : ℕ → SyncCaller → Option ℕ → W → Outcome RouteRow × W
  complete_route route_id caller driver_id w = elim (own_route route_id caller driver_id w) [
    | thrown e ↦ (thrown e, w)
    | returned route ↦ queries.complete route.id w
  ]
