-- ===== src/Driver/Unsafe.antt =====
-- apps/driver/src/platform/outbox-store.ts: what would be lost if the phone forgot everything.
use system_delivery.Prelude.{
  ℕ, ◌+◌, ◌==◌, ◌≡◌, ltb, not, refl, inl, inr, Bool, true, false, ◌&&◌, ◌||◌, some, List, [], ◌∷◌,
  ◌++◌, any, keep, length, Bool-cases, Option-cases, arith, keep-append, length-append, sym, ◌∙◌,
}
use system_delivery.Driver.Outbox.{
  ActionKind, ActionPayload, MediaItem, Device, is_captured, is_slotted, is_pending,
  pending_actions,
}
use system_delivery.Driver.Store.{
  NewMedia, media_row, insert_media, action_row, enqueue, is_unsettled, is_done, is_closed,
  prune_actions, unsafe_to_forget,
}

abbrev pub is_open : MediaItem → Bool
is_open m = is_captured m.state || is_slotted m.state

-- What a deletion of other rows leaves.
length-keep_kept :
    {A : Type 0} (p q : A → Bool) (xs : List A)
    → ((x : A) → q x ≡ true → p x ≡ true)
    → length (keep q (keep p xs)) ≡ length (keep q xs)
length-keep_kept p q [] h = refl
length-keep_kept p q (x ∷ xs) h =
    let rest = length-keep_kept p q xs h in
    elim (Bool-cases (q x)) [
      | inl wanted ↦ let kept = h x wanted in ground (arith, rest, wanted, kept)
      | inr other ↦ elim (Bool-cases (p x)) [
        | inl kept ↦ ground (arith, rest, other, kept)
        | inr gone ↦ ground (arith, rest, other, gone)
      ]
    ]

inserted_open :
    (now : ℕ) (ms : List NewMedia) (rows rows' : List MediaItem)
    → insert_media now ms rows ≡ some rows'
    → length (keep is_open rows') ≡ length (keep is_open rows) + length ms
unfolding insert_media
inserted_open now [] rows rows' h = let same : rows ≡ rows' = cc h in rw (sym same) (omega arith)
inserted_open now (m ∷ ms) rows rows' h = elim (Bool-cases (any (λ r. r.id == m.id) rows)) [
  | inl taken ↦ cc (rw (taken, insert_media) at h)
  | inr fresh ↦
      let rest =
        inserted_open now ms (rows ++ media_row now m ∷ []) rows' (rw (fresh, insert_media) at h) in
      let row = keep-append is_open rows (media_row now m ∷ []) in
      let more = length-append (keep is_open rows) (media_row now m ∷ []) in
      rest ∙ rw row (omega (arith, more))
]

pruned_same :
    (older_than : ℕ) (d : Device)
    → unsafe_to_forget (prune_actions older_than d) ≡ unsafe_to_forget d
unfolding unsafe_to_forget prune_actions
pruned_same older_than d =
    let a =
      length-keep_kept (λ a. not (is_done a.state && ltb a.created_at older_than))
        (λ a. is_unsettled a.state) d.actions (λ a h. ground (arith, h)) in
    let m =
      length-keep_kept (λ m. not (is_closed m.state && ltb m.created_at older_than)) is_open d.media
        (λ m h. ground (arith, h)) in
    rw (a, m) refl

module _ (now seq id : ℕ) (kind : ActionKind) (subject_id : ℕ) (payload : ActionPayload)
    (media : List NewMedia) (d d' : Device) where
  enqueued :
      enqueue now seq id kind subject_id payload media d ≡ some d'
      → (rows : List MediaItem) × (insert_media now media d.media ≡ some rows)
        × (any (λ a. a.id == id) d.actions ≡ false)
        × (record d {
          media = rows;
          actions = d.actions ++ action_row now seq id kind subject_id payload media ∷ [];
        }
            ≡ d')
  unfolding enqueue
  enqueued h = elim (Option-cases (insert_media now media d.media)) [
    | inl none_left ↦ cc (rw (none_left, enqueue) at h)
    | inr (rows, put) ↦ elim (Bool-cases (any (λ a. a.id == id) d.actions)) [
      | inl taken ↦ cc (rw (put, taken, enqueue) at h)
      | inr fresh ↦ (rows, put, fresh, cc (rw (put, fresh, enqueue) at h))
    ]
  ]

  -- An action that was recorded stands last in the queue; with its media it adds to what would be
  -- lost; and no housekeeping takes anything of that away.
  pub enqueue_counts :
      (older_than : ℕ)
      → enqueue now seq id kind subject_id payload media d ≡ some d'
      → (pending_actions d'
          ≡ pending_actions d ++ action_row now seq id kind subject_id payload media ∷ [])
        × (unsafe_to_forget d' ≡ unsafe_to_forget d + 1 + length media)
        × (unsafe_to_forget (prune_actions older_than d') ≡ unsafe_to_forget d')
  unfolding unsafe_to_forget
  enqueue_counts older_than h =
      let (rows, put, fresh, same) = enqueued h in
      let row = action_row now seq id kind subject_id payload media in
      let open_media = inserted_open now media d.media rows put in
      let kept = keep-append (λ a. is_unsettled a.state) d.actions (row ∷ []) in
      let more = length-append (keep (λ a. is_unsettled a.state) d.actions) (row ∷ []) in
      (
        rw (sym same) (keep-append (λ a. is_pending a.state) d.actions (row ∷ [])),
        rw (sym same, kept) (omega (arith, more, open_media)),
        pruned_same older_than d',
      )
