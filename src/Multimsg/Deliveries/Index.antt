-- ===== src/Multimsg/Deliveries/Index.antt =====
-- internal/multimsg/store.go: the two indices of FileDeliveryStore.
use nex_talk.Base.{
  ◌≡◌, ◌≢◌, refl, none, some, List, [], ◌∷◌, ◌++◌, arith, Bytes, beq, beq_refl, beq_iff, All,
  All-append, if◌then◌else◌, Map, lookup, insert, lookup-insert, err, inl, inr, Bool-cases,
  Option-cases,
}
use nex_talk.External.{External}
use nex_talk.Multimsg.Types.{MessageDelivery, duplicate_delivery_id}
use nex_talk.Multimsg.Deliveries.{
  DeliveryStore, ids_of, append_id, add_delivery, has_delivery, save_locked, save_delivery, resolve,
  list_by_message, list_by_recipient, list_undelivered, without_ciphertext, mark_delivered,
}

-- Every ID of either index is the ID of a stored delivery.
pub record IsIndexed (s : DeliveryStore) : Type 0 where
  pub messages : (m : Bytes) → All (λ id. lookup id s.deliveries ≢ none) (ids_of s.by_message m)
  pub recipients : (p : Bytes) → All (λ id. lookup id s.deliveries ≢ none) (ids_of s.by_recipient p)

ids_of-append_id :
    (index : Map (List Bytes)) (key id other : Bytes)
    → ids_of (append_id index key id) other
      ≡ (if beq key other then ids_of index key ++ id ∷ [] else ids_of index other)
unfolding ids_of append_id
ids_of-append_id index key id other =
    ground (arith, lookup-insert key other (ids_of index key ++ id ∷ []) index)

-- A new delivery does not disturb what known IDs stand for.
resolve-insert :
    (m : Map MessageDelivery) (d : MessageDelivery) (ids : List Bytes)
    → lookup d.delivery_id m ≡ none
    → All (λ id. lookup id m ≢ none) ids
    → resolve (insert d.delivery_id d m) ids ≡ resolve m ids
unfolding resolve
resolve-insert m d [] new known = refl
resolve-insert m d (id ∷ ids) new (here, later) = ground (
  arith,
  lookup-insert d.delivery_id id d m,
  beq_iff d.delivery_id id,
  resolve-insert m d ids new later,
)

resolve-append :
    (m : Map MessageDelivery) (xs ys : List Bytes)
    → resolve m (xs ++ ys) ≡ resolve m xs ++ resolve m ys
unfolding resolve
resolve-append m [] ys = refl
resolve-append m (x ∷ xs) ys = ground (arith, resolve-append m xs ys)

resolve_self :
    (m : Map MessageDelivery) (d : MessageDelivery)
    → resolve (insert d.delivery_id d m) (d.delivery_id ∷ []) ≡ d ∷ []
unfolding resolve
resolve_self m d =
    ground (arith, lookup-insert d.delivery_id d.delivery_id d m, beq_refl d.delivery_id)

-- One index after an addition.
resolve-append_id :
    (m : Map MessageDelivery) (index : Map (List Bytes)) (d : MessageDelivery) (key other : Bytes)
    → lookup d.delivery_id m ≡ none
    → ((k : Bytes) → All (λ id. lookup id m ≢ none) (ids_of index k))
    → resolve (insert d.delivery_id d m) (ids_of (append_id index key d.delivery_id) other) ≡ (
        if beq key other
        then resolve m (ids_of index key) ++ d ∷ []
        else resolve m (ids_of index other))
resolve-append_id m index d key other new known =
    rw (ids_of-append_id index key d.delivery_id other) (elim (Bool-cases (beq key other)) [
      | inl this ↦ rw (
        this,
        resolve-append _ (ids_of index key) (d.delivery_id ∷ []),
        resolve-insert m d (ids_of index key) new (known key),
        resolve_self m d,
      )
      | inr that ↦ rw (that, resolve-insert m d (ids_of index other) new (known other))
    ])

insert-All :
    (m : Map MessageDelivery) (d : MessageDelivery) (ids : List Bytes)
    → All (λ id. lookup id m ≢ none) ids
    → All (λ id. lookup id (insert d.delivery_id d m) ≢ none) ids
insert-All m d [] h = tt
insert-All m d (id ∷ ids) (here, later) =
    (λ gone. ground (arith, lookup-insert d.delivery_id id d m), insert-All m d ids later)

append_id-All :
    (m : Map MessageDelivery) (index : Map (List Bytes)) (d : MessageDelivery) (key other : Bytes)
    → ((k : Bytes) → All (λ id. lookup id m ≢ none) (ids_of index k))
    → All
        (λ id. lookup id (insert d.delivery_id d m) ≢ none)
        (ids_of (append_id index key d.delivery_id) other)
append_id-All m index d key other known =
    rw (ids_of-append_id index key d.delivery_id other) (elim (Bool-cases (beq key other)) [
      | inl this ↦ rw this (
          All-append _ (ids_of index key) (d.delivery_id ∷ []) (insert-All m d _ (known key)) (
            λ gone.
                ground
                  (arith, lookup-insert d.delivery_id d.delivery_id d m, beq_refl d.delivery_id),
            tt,
          ))
      | inr that ↦ rw that (insert-All m d _ (known other))
    ])

abbrev pub LacksCiphertext : MessageDelivery → Type 0
LacksCiphertext d = d.ciphertext ≡ none

-- What is listed as undelivered has no ciphertext.
pub list_undelivered-All : (s : DeliveryStore) → All LacksCiphertext (list_undelivered s)
unfolding list_undelivered
list_undelivered-All s = go s.deliveries
  where
    go : (m : Map MessageDelivery) → All LacksCiphertext (without_ciphertext m)
    go [] = tt
    go ((k, d) ∷ m) = ground (arith, go m)

without_ciphertext-insert :
    (m : Map MessageDelivery) (d : MessageDelivery) (c : Bytes)
    → lookup d.delivery_id m ≡ none
    → d.ciphertext ≡ some c
    → without_ciphertext (insert d.delivery_id d m) ≡ without_ciphertext m
unfolding without_ciphertext insert lookup
without_ciphertext-insert [] d c new full = ground arith
without_ciphertext-insert ((k, e) ∷ m) d c new full =
    ground (arith, without_ciphertext-insert m d c)

module _ (x : External) where
  pub save_locked-keeps :
      (s : DeliveryStore)
      → ((save_locked x s).1.deliveries ≡ s.deliveries)
        × ((save_locked x s).1.by_message ≡ s.by_message)
        × ((save_locked x s).1.by_recipient ≡ s.by_recipient)
  unfolding save_locked
  save_locked-keeps s = ground arith

  pub save_delivery-new :
      (s : DeliveryStore) (d : MessageDelivery)
      → lookup d.delivery_id s.deliveries ≡ none
      → ((save_delivery x s d).1.deliveries ≡ insert d.delivery_id d s.deliveries)
        × ((save_delivery x s d).1.by_message ≡ append_id s.by_message d.message_id d.delivery_id)
        × ((save_delivery x s d).1.by_recipient
            ≡ append_id s.by_recipient d.recipient d.delivery_id)
  unfolding save_delivery has_delivery add_delivery
  save_delivery-new s d new =
      ground (arith, save_locked-keeps (unfold add_delivery in add_delivery s d))

  -- A delivery whose ID is new is listed last under its message and under its recipient, and every
  -- other listing is as it was, whether or not the file could be written.
  pub list-save_delivery :
      (s : DeliveryStore) (d : MessageDelivery) (m p : Bytes)
      → IsIndexed s
      → lookup d.delivery_id s.deliveries ≡ none
      → (list_by_message (save_delivery x s d).1 m ≡ (
          if beq d.message_id m
          then list_by_message s d.message_id ++ d ∷ []
          else list_by_message s m))
        × (list_by_recipient (save_delivery x s d).1 p ≡ (
            if beq d.recipient p
            then list_by_recipient s d.recipient ++ d ∷ []
            else list_by_recipient s p))
  unfolding list_by_message list_by_recipient
  list-save_delivery s d m p v new =
      let (ds, ms, rs) = save_delivery-new s d new in
      (
        rw (ds, ms) (resolve-append_id s.deliveries s.by_message d d.message_id m new v.messages),
        rw (ds, rs)
            (resolve-append_id s.deliveries s.by_recipient d d.recipient p new v.recipients),
      )

  -- A delivery whose ID is taken is refused, and nothing changes.
  pub save_delivery_duplicate :
      (s : DeliveryStore) (d old : MessageDelivery)
      → lookup d.delivery_id s.deliveries ≡ some old
      → save_delivery x s d ≡ (err duplicate_delivery_id, s)
  unfolding save_delivery has_delivery
  save_delivery_duplicate s d old found = ground arith

  -- Saving keeps the indices within the store.
  pub save_delivery-IsIndexed :
      (s : DeliveryStore) (d : MessageDelivery) → IsIndexed s → IsIndexed (save_delivery x s d).1
  save_delivery-IsIndexed s d v = elim (Option-cases (lookup d.delivery_id s.deliveries)) [
    | inl new ↦
        let (ds, ms, rs) = save_delivery-new s d new in
        record {
          messages = λ m.
              rw (ds, ms) (append_id-All s.deliveries s.by_message d d.message_id m v.messages);
          recipients = λ p.
              rw (ds, rs) (append_id-All s.deliveries s.by_recipient d d.recipient p v.recipients);
        }
    | inr (old, found) ↦ rw (save_delivery_duplicate s d old found) v
  ]

  -- Saving a delivery that has a ciphertext, or marking any, adds nothing to the undelivered ones.
  pub list_undelivered-save_delivery :
      (s : DeliveryStore) (d : MessageDelivery) (c : Bytes)
      → d.ciphertext ≡ some c
      → list_undelivered (save_delivery x s d).1 ≡ list_undelivered s
  unfolding list_undelivered
  list_undelivered-save_delivery s d c full =
      elim (Option-cases (lookup d.delivery_id s.deliveries)) [
        | inl new ↦
            rw ((save_delivery-new s d new).0) (without_ciphertext-insert s.deliveries d c new full)
        | inr (old, found) ↦ rw (save_delivery_duplicate s d old found)
      ]

  pub list_undelivered-mark_delivered :
      (s : DeliveryStore) (id : Bytes)
      → list_undelivered (mark_delivered x s id).1 ≡ list_undelivered s
  unfolding list_undelivered mark_delivered
  list_undelivered-mark_delivered s id = ground (arith, save_locked-keeps s)
