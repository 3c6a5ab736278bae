-- ===== src/Dispatch/SyncTests.antt =====
-- Witnesses for application/driver-sync.service.ts: a batch with a delivery that is refused, a later
-- attempt on the same parcel, a correction of an address, and an item that cannot be read.
use system_delivery.Prelude.{
  ℕ, ◌≡◌, ◌==◌, arith, zero, true, if◌then◌else◌, refl, suc, false, none, some, List, [], ◌∷◌, map,
  All, keep, not,
}
use system_delivery.Dispatch.SyncItems.{
  Key, type_name, SyncItemType, delivered, failed, address_corrected, SyncItem, RawItem, domain,
  returned, thrown, shipment_deliver, shipment_fail, address_correct, driver_role, SyncCaller,
  SyncPayload, shipment,
}
use system_delivery.Dispatch.Sync.{ItemCommands, drain}
use system_delivery.Dispatch.SyncOrder.{InOrder, drain-InOrder, drain_skips, is_on}
use system_delivery.Dispatch.SyncVerdict.{
  drain_answers, IsKeyed, sent_key, result_key, drops_physical,
}

-- Commands that count themselves; a delivery is refused for its proof.
abbrev counting : ItemCommands ℕ
counting = record {
  submit_correction =
      λ id item n. (returned (record { replayed = false; status = "PENDING" }), suc n);
  confirm_delivery = λ id item n. (thrown (domain "POD_INCOMPLETE" 422 "no photo"), n);
  record_failed_attempt = λ id item n.
      (returned (record { id = id; status = "DELIVERY_FAILED"; is_replay = false }), suc n);
  complete_return =
      λ id item n. (returned (record { id = id; status = "RETURNED"; is_replay = false }), suc n);
  settle_stops_for_shipment = λ id n. (returned tt, n);
}

abbrev payload : SyncPayload
payload = record { repeats_key = false; occurred_at = some "2026-01-05T10:00:00Z"; others = [] }

abbrev raw : SyncItem → RawItem
raw item = record {
  is_object = true;
  key_field = some item.idempotency_key;
  type_field = some (type_name item.type);
  shape = some item;
  shape_issues = [];
}

abbrev parcel : Key → SyncItemType → RawItem
parcel key type = raw (record {
  idempotency_key = key;
  type = type;
  shipment_id = some 7;
  address_id = none;
  payload = payload;
})

abbrev letters : ℕ → Key
letters zero = []
letters (suc n) = 65 ∷ letters n

-- `trim`, of the blanks in front.
abbrev trim : Key → Key
trim [] = []
trim (c ∷ cs) = if c == 32 then trim cs else c ∷ cs

abbrev batch : List RawItem
batch =
    parcel (65 ∷ 49 ∷ []) delivered
    ∷ parcel (65 ∷ 50 ∷ []) failed
    ∷ raw (record {
      idempotency_key = 65 ∷ 51 ∷ [];
      type = address_corrected;
      shipment_id = none;
      address_id = some 5;
      payload = payload;
    })
    ∷ record {
      is_object = true;
      key_field = some (letters 250);
      type_field = some "LOST";
      shape = none;
      shape_issues = "type: invalid" ∷ [];
    }
    ∷ []

abbrev caller : SyncCaller
caller = record {
  user_id = 8;
  roles = driver_role ∷ [];
  permissions = shipment_deliver ∷ shipment_fail ∷ address_correct ∷ [];
}

drain-InOrder_example : InOrder batch (drain counting caller batch [] 0).0
drain-InOrder_example = drain-InOrder counting caller batch [] 0

drain_skips_example :
    let held = shipment (some 7) ∷ [] in
    let without =
      drain counting caller (keep (λ r. not (is_on (shipment (some 7)) r)) batch) held 0 in
    let with_them = drain counting caller batch held 0 in
    (with_them.1 ≡ without.1) × (with_them.2 ≡ without.2)
drain_skips_example =
    drain_skips counting caller (shipment (some 7)) batch (shipment (some 7) ∷ []) 0 refl

parcel-IsKeyed :
    (item : SyncItem) (n : ℕ) → item.idempotency_key ≡ 65 ∷ n ∷ [] → IsKeyed trim (raw item)
parcel-IsKeyed item n key = record {
  schema_key = λ i h.
      let same : item ≡ i = cc h in rw (← same, key) (refl, 65 ∷ n ∷ [], refl, refl, omega arith);
  untrimmed = λ k h. let same : 65 ∷ n ∷ [] ≡ k = cc (h, key) in rw (← same) refl;
}

batch-IsKeyed : All (IsKeyed trim) batch
batch-IsKeyed = (
  parcel-IsKeyed _ 49 refl,
  (
    parcel-IsKeyed _ 50 refl,
    (
      parcel-IsKeyed _ 51 refl,
      (
        record {
          schema_key = λ i h. cc;
          untrimmed = λ k h. let same : letters 250 ≡ k = cc h in rw (← same) refl;
        },
        tt,
      ),
    ),
  ),
)

drain_answers_example :
    let results = (drain counting caller batch [] 0).0 in
    (map result_key results ≡ map sent_key batch) × All (λ r. drops_physical r ≡ false) results
drain_answers_example = drain_answers counting caller trim batch [] 0 batch-IsKeyed
