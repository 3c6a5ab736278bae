-- ===== src/Dispatch/SyncCases.antt =====
-- application/driver-sync.service.ts of the dispatch context: how one item of a sync ends.
use system_delivery.Prelude.Words.{concat}
use system_delivery.Prelude.{
  ◌≡◌, ◌⊎◌, refl, inl, inr, Bool, true, false, some, List, ◌∷◌, String, any, if◌then◌else◌,
  Bool-cases,
}
use system_delivery.Dispatch.SyncItems.{
  escalate_to_dispatcher, SyncItem, SyncItemResult, accepted, rejected, ItemError, Outcome,
  returned, thrown, SyncCaller, item_permission, Aggregate, aggregate_of, is_held, same_permission,
  is_discard, reject, type_name,
}
use system_delivery.Dispatch.Sync.{ItemCommands, held_result, execute, conclude, apply_item}

pub Outcome-cases :
    {A : Type 0} (o : Outcome A) → ((a : A) × (o ≡ returned a)) ⊎ ((e : ItemError) × (o ≡ thrown e))
Outcome-cases (returned a) = inl (a, refl)
Outcome-cases (thrown e) = inr (e, refl)

-- What holds of each of the five ways in which an item ends holds of its end.
module _ {W : Type 0} (commands : ItemCommands W) (caller : SyncCaller) (held : List Aggregate)
    (Z : SyncItem → SyncItemResult → List Aggregate → W → Type 0)
    (waits : (item : SyncItem) (w : W)
      → is_held (aggregate_of item) held ≡ true
      → Z item (held_result item) held w)
    (bars : (item : SyncItem) (detail : String) (w : W)
      → is_held (aggregate_of item) held ≡ false
      → Z item
          (rejected
            (some item.idempotency_key)
            (some item.type)
            "FORBIDDEN"
            detail
            escalate_to_dispatcher)
          (aggregate_of item ∷ held)
          w)
    (accepts : (item : SyncItem) (replayed : Bool) (status : String) (w : W)
      → is_held (aggregate_of item) held ≡ false
      → Z item (accepted (some item.idempotency_key) (some item.type) replayed status) held w)
    (rejects : (item : SyncItem) (e : ItemError) (w : W)
      → is_held (aggregate_of item) held ≡ false
      → Z item
          (rejected
            (some item.idempotency_key)
            (some item.type)
            (reject item e).0
            (reject item e).1
            (reject item e).2)
          (if is_discard (reject item e).2 then held else aggregate_of item ∷ held)
          w) where
  pub apply_item_ends :
      (item : SyncItem) (w : W)
      → let r = apply_item commands caller item held w in Z item r.0 r.1 r.2
  unfolding apply_item conclude
  apply_item_ends item w = elim (Bool-cases (is_held (aggregate_of item) held)) [
    | inl behind ↦ rw (behind, apply_item) (waits item w behind)
    | inr free ↦
        elim (Bool-cases (any (same_permission (item_permission item.type)) caller.permissions)) [
          | inr barred ↦
              rw (free, barred, apply_item)
                (bars item (concat "This login may not record " (concat (type_name item.type) "."))
                  w free)
          | inl may ↦ elim (Outcome-cases (execute commands item w).0) [
            | inl ((replayed, status), good) ↦
                rw (free, may, good, apply_item, conclude)
                  (accepts item replayed status (execute commands item w).1 free)
            | inr (e, bad) ↦
                rw (free, may, bad, apply_item, conclude)
                  (rejects item e (execute commands item w).1 free)
          ]
        ]
  ]
