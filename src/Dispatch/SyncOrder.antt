-- ===== src/Dispatch/SyncOrder.antt =====
-- application/driver-sync.service.ts of the dispatch context: the order of the items on one parcel
-- or address.
use system_delivery.Prelude.{
  ℕ, ◌≡◌, refl, sym, ap, inl, inr, Bool, true, false, Option, none, some, List, [], ◌∷◌, arith,
  keep, not, Bool-cases, Option-cases, same_option,
}
use system_delivery.Dispatch.SyncItems.{
  SyncItem, RawItem, SyncItemResult, accepted, rejected, SyncCaller, parse_item, Aggregate, address,
  shipment, aggregate_of, same_aggregate, is_held, is_discard, reject,
}
use system_delivery.Dispatch.Sync.{ItemCommands, held_result, apply_item, apply, drain}
use system_delivery.Dispatch.SyncCases.{apply_item_ends}

same_option→eq : (a b : Option ℕ) → same_option a b ≡ true → a ≡ b
same_option→eq none none h = refl
same_option→eq none (some b) h = cc
same_option→eq (some a) none h = cc
same_option→eq (some a) (some b) h = ground arith

same_aggregate→eq : (a b : Aggregate) → same_aggregate a b ≡ true → a ≡ b
same_aggregate→eq (address a) (address b) h = ap address (same_option→eq a b h)
same_aggregate→eq (shipment a) (shipment b) h = ap shipment (same_option→eq a b h)
same_aggregate→eq (address a) (shipment b) h = cc
same_aggregate→eq (shipment a) (address b) h = cc

same_aggregate_self : (a : Aggregate) → same_aggregate a a ≡ true
same_aggregate_self (address none) = refl
same_aggregate_self (address (some a)) = ground arith
same_aggregate_self (shipment none) = refl
same_aggregate_self (shipment (some a)) = ground arith

-- An item that can be read, on an aggregate.
abbrev pub is_on : Aggregate → RawItem → Bool
is_on g raw = elim (parse_item raw) [
  | none ↦ false
  | some item ↦ same_aggregate g (aggregate_of item)
]

-- A result that keeps the item in the queue or shows it to a person.
abbrev pub holds_back : SyncItemResult → Bool
holds_back (accepted _ _ _ _) = false
holds_back (rejected _ _ _ _ action) = not (is_discard action)

-- Every item on `g` is told to wait.
abbrev pub Waits : Aggregate → List RawItem → List SyncItemResult → Type 0
Waits g [] [] = Unit
Waits g [] (r ∷ rs) = ⊥
Waits g (raw ∷ raws) [] = ⊥
Waits g (raw ∷ raws) (r ∷ rs) =
    ((item : SyncItem) → parse_item raw ≡ some item → aggregate_of item ≡ g → r ≡ held_result item)
    × Waits g raws rs

-- After an item that is held back, every later one on its parcel or address waits.
abbrev pub InOrder : List RawItem → List SyncItemResult → Type 0
InOrder [] [] = Unit
InOrder [] (r ∷ rs) = ⊥
InOrder (raw ∷ raws) [] = ⊥
InOrder (raw ∷ raws) (r ∷ rs) =
    ((item : SyncItem)
      → parse_item raw ≡ some item
      → holds_back r ≡ true
      → Waits (aggregate_of item) raws rs)
    × InOrder raws rs

module _ {W : Type 0} (commands : ItemCommands W) (caller : SyncCaller) where
  -- What is held stays held, and what is held back is held.
  item_holds :
      (g : Aggregate) (item : SyncItem) (held : List Aggregate) (w : W)
      → let r = apply_item commands caller item held w in
        (is_held g held ≡ true → is_held g r.1 ≡ true)
        × (holds_back r.0 ≡ true → is_held (aggregate_of item) r.1 ≡ true)
  item_holds g item held w =
      apply_item_ends commands caller held
        (λ i r held' w'.
          (is_held g held ≡ true → is_held g held' ≡ true)
          × (holds_back r ≡ true → is_held (aggregate_of i) held' ≡ true))
        (λ i w' behind. (λ h. h, λ b. behind))
        (λ i detail w' free.
          (λ h. ground (arith, h), λ b. ground (arith, same_aggregate_self (aggregate_of i))))
        (λ i replayed status w' free. (λ h. h, λ b. cc))
        (λ i e w' free. elim (Bool-cases (is_discard (reject i e).2)) [
          | inl drops ↦ rw drops (λ h. h, λ b. cc)
          | inr keeps ↦
              rw keeps
                (λ h. ground (arith, h), λ b. ground (arith, same_aggregate_self (aggregate_of i)))
        ])
        item w

  -- An item on what is held waits, and nothing is done for it.
  item_waits :
      (item : SyncItem) (held : List Aggregate) (w : W)
      → is_held (aggregate_of item) held ≡ true
      → apply_item commands caller item held w ≡ (held_result item, held, w)
  unfolding apply_item
  item_waits item held w behind = rw (behind, apply_item) refl

  apply_holds :
      (g : Aggregate) (raw : RawItem) (held : List Aggregate) (w : W)
      → is_held g held ≡ true
      → is_held g (apply commands caller raw held w).1 ≡ true
  unfolding apply
  apply_holds g raw held w h = elim (Option-cases (parse_item raw)) [
    | inl unread ↦ rw (unread, apply) h
    | inr (item, read) ↦ rw (read, apply) ((item_holds g item held w).0 h)
  ]

  drain-Waits :
      (g : Aggregate) (raws : List RawItem) (held : List Aggregate) (w : W)
      → is_held g held ≡ true
      → Waits g raws (drain commands caller raws held w).0
  unfolding drain apply
  drain-Waits g [] held w h = tt
  drain-Waits g (raw ∷ raws) held w h = (
    λ item read on.
        let behind : is_held (aggregate_of item) held ≡ true = rw on h in
        rw (read, apply) (ap (λ r. r.0) (item_waits item held w behind)),
    drain-Waits g raws (apply commands caller raw held w).1 (apply commands caller raw held w).2
        (apply_holds g raw held w h),
  )

  -- Once an item for a parcel or an address is answered RETRY_LATER or ESCALATE_TO_DISPATCHER, every
  -- later readable item for it in the batch is told to wait with RETRY_LATER, whatever the commands
  -- do; and every item has one result, in the order of the batch.
  pub drain-InOrder :
      (raws : List RawItem) (held : List Aggregate) (w : W)
      → InOrder raws (drain commands caller raws held w).0
  unfolding drain apply
  drain-InOrder [] held w = tt
  drain-InOrder (raw ∷ raws) held w = (
    λ item read back.
        drain-Waits (aggregate_of item) raws (apply commands caller raw held w).1
          (apply commands caller raw held w).2
          (rw (read, apply)
            ((item_holds (aggregate_of item) item held w).1 (rw (read, apply) at back))),
    drain-InOrder raws (apply commands caller raw held w).1 (apply commands caller raw held w).2,
  )

  raw_waits :
      (g : Aggregate) (raw : RawItem) (held : List Aggregate) (w : W)
      → is_held g held ≡ true
      → is_on g raw ≡ true
      → (item : SyncItem) × (apply commands caller raw held w ≡ (held_result item, held, w))
  unfolding apply
  raw_waits g raw held w h on = elim (Option-cases (parse_item raw)) [
    | inl unread ↦ cc (rw (unread, is_on) at on)
    | inr (item, read) ↦
        let same = rw (read, is_on) at on in
        let behind : is_held (aggregate_of item) held ≡ true =
          rw (sym (same_aggregate→eq g (aggregate_of item) same)) h in
        rw (read, apply) (item, item_waits item held w behind)
  ]

  -- What the sync does once a parcel or an address is held does not depend on the readable items for
  -- it: without them, the same is held at the end and the same is done.
  pub drain_skips :
      (g : Aggregate) (raws : List RawItem) (held : List Aggregate) (w : W)
      → is_held g held ≡ true
      → let without = drain commands caller (keep (λ raw. not (is_on g raw)) raws) held w in
        let with_them = drain commands caller raws held w in
        (with_them.1 ≡ without.1) × (with_them.2 ≡ without.2)
  unfolding drain
  drain_skips g [] held w h = (refl, refl)
  drain_skips g (raw ∷ raws) held w h = elim (Bool-cases (is_on g raw)) [
    | inr off ↦ rw off (
        drain_skips g raws (apply commands caller raw held w).1 (apply commands caller raw held w).2
          (apply_holds g raw held w h))
    | inl on ↦
        let same = (raw_waits g raw held w h on).1 in
        rw (on, same, drain) (drain_skips g raws held w h)
  ]
