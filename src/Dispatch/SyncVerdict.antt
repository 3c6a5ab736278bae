-- ===== src/Dispatch/SyncVerdict.antt =====
-- application/driver-sync.service.ts of the dispatch context: what a result says of its item.
use system_delivery.Prelude.{
  ℕ, ◌≡◌, ◌≤◌, zero, suc, length, ap, true, if◌then◌else◌, refl, sym, ◌∙◌, inl, inr, Bool, false,
  ◌&&◌, Option, none, some, List, [], ◌∷◌, arith, map, All, Option-cases,
}
use system_delivery.Dispatch.SyncItems.{
  Key, slice, max_key, identify, SyncItem, RawItem, SyncItemResult, accepted, rejected, ItemError,
  domain, unexpected, SyncCaller, parse_item, is_physical, Aggregate, is_discard, reject,
}
use system_delivery.Dispatch.Sync.{ItemCommands, apply_item, apply, drain}
use system_delivery.Dispatch.SyncCases.{apply_item_ends}

abbrev pub result_key : SyncItemResult → Option Key
result_key (accepted key _ _ _) = key
result_key (rejected key _ _ _ _) = key

-- A result that lets the app drop an item that happened in the street.
abbrev pub drops_physical : SyncItemResult → Bool
drops_physical (accepted _ _ _ _) = false
drops_physical (rejected _ none _ _ _) = false
drops_physical (rejected _ (some type) _ _ action) = is_discard action && is_physical type

-- What the schema makes of the key, `z.string().trim().min(1).max(200)`, and that the key was sent
-- without blanks around it.
pub record IsKeyed (trim : Key → Key) (raw : RawItem) : Type 0 where
  pub schema_key :
      (item : SyncItem)
      → raw.shape ≡ some item
      → (raw.is_object ≡ true)
        × (k : Key) × (raw.key_field ≡ some k)
        × (item.idempotency_key ≡ trim k)
        × (length item.idempotency_key ≤ max_key)
  pub untrimmed : (k : Key) → raw.key_field ≡ some k → trim k ≡ k

slice-length : (n : ℕ) (k : Key) → length k ≤ n → slice n k ≡ k
slice-length n [] h = refl
slice-length zero (c ∷ cs) h = absurd (omega arith)
slice-length (suc n) (c ∷ cs) h = ap (λ k. c ∷ k) (slice-length n cs (omega arith))

identify-schema :
    (trim : Key → Key) (raw : RawItem) (item : SyncItem)
    → IsKeyed trim raw
    → raw.shape ≡ some item
    → (identify raw).0 ≡ some item.idempotency_key
unfolding identify
identify-schema trim raw item p shape =
    let (object, k, sent, trimmed, short) = p.schema_key item shape in
    let whole : item.idempotency_key ≡ k = trimmed ∙ p.untrimmed k sent in
    rw (object, sent, whole) (ap some (slice-length max_key k (rw whole at short)))

-- The key that an item was sent with, as far as a result repeats it.
abbrev pub sent_key : RawItem → Option Key
sent_key raw =
    if raw.is_object
    then elim raw.key_field [ none ↦ none | some key ↦ some (slice 200 key) ]
    else none

sent_key-identify : (raw : RawItem) → (identify raw).0 ≡ sent_key raw
unfolding identify
sent_key-identify raw = ground arith

reject-is_physical :
    (item : SyncItem) (e : ItemError)
    → is_discard (reject item e).2 && is_physical item.type ≡ false
unfolding reject
reject-is_physical item unexpected = ground arith
reject-is_physical item (domain code status message) = ground arith

parse_item_shape :
    (raw : RawItem) (item : SyncItem) → parse_item raw ≡ some item → raw.shape ≡ some item
unfolding parse_item
parse_item_shape raw item h = ground (arith, h)

module _ {W : Type 0} (commands : ItemCommands W) (caller : SyncCaller) (trim : Key → Key) where
  item_result :
      (item : SyncItem) (held : List Aggregate) (w : W)
      → let r = (apply_item commands caller item held w).0 in
        (result_key r ≡ some item.idempotency_key) × (drops_physical r ≡ false)
  item_result item held w =
      apply_item_ends commands caller held
        (λ i r held' w'. (result_key r ≡ some i.idempotency_key) × (drops_physical r ≡ false))
        (λ i w' behind. (refl, refl)) (λ i detail w' free. (refl, refl))
        (λ i replayed status w' free. (refl, refl)) (λ i e w' free. (refl, reject-is_physical i e))
        item w

  raw_result :
      (raw : RawItem) (held : List Aggregate) (w : W)
      → IsKeyed trim raw
      → let r = (apply commands caller raw held w).0 in
        (result_key r ≡ (identify raw).0) × (drops_physical r ≡ false)
  unfolding apply
  raw_result raw held w keyed = elim (Option-cases (parse_item raw)) [
    | inl unread ↦ elim (Option-cases ((identify raw).1)) [
      | inl untyped ↦ rw (unread, untyped, apply) (refl, refl)
      | inr (type, typed) ↦ rw (unread, typed, apply) (refl, refl)
    ]
    | inr (item, read) ↦
        let r = item_result item held w in
        rw (read, apply)
          (r.0 ∙ sym (identify-schema trim raw item keyed (parse_item_shape raw item read)), r.1)
  ]

  -- Where the schema trims keys and takes at most 200 characters, and no key is sent with blanks
  -- around it: a batch is answered with one result for each item, in its order, with the first 200
  -- characters of the key it was sent with, or none where it has no text as its key, and no result
  -- lets the app drop a delivery or a completed return.
  pub drain_answers :
      (raws : List RawItem) (held : List Aggregate) (w : W)
      → All (IsKeyed trim) raws
      → let results = (drain commands caller raws held w).0 in
        (map result_key results ≡ map sent_key raws) × All (λ r. drops_physical r ≡ false) results
  unfolding drain
  drain_answers [] held w keyed = (refl, tt)
  drain_answers (raw ∷ raws) held w (key, keyed) =
      let r = raw_result raw held w key in
      let rest =
        drain_answers raws (apply commands caller raw held w).1 (apply commands caller raw held w).2
          keyed in
      (cc (r.0, rest.0, sent_key-identify raw), (r.1, rest.1))
