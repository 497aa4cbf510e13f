-- ===== src/Multimsg/Deliveries.antt =====
-- internal/multimsg/store.go: FileDeliveryStore, its two indices and its record file. A method that
-- writes returns its result and the store as it leaves it.
pub mod Index
use nex_talk.Base.{
  ℕ, zero, suc, ◌+◌, ◌<◌, ◌≤◌, ◌^◌, ◌≡◌, ◌≢◌, refl, Bool, true, false, not, Option, none, some,
  List, [], ◌∷◌, ◌++◌, arith, Bytes, beq, length, leb, ltb, ◌==◌, if◌then◌else◌, Map, lookup,
  insert, delete, Result, ok, err, ◌>>=◌, ◌>>◌, require, or_fail,
}
use nex_talk.External.{External, Field}
use nex_talk.Multimsg.Types.{
  MessageDelivery, MultiError, MultiResult, delivery_not_found, delivery_pending,
  duplicate_delivery_id, marshal_failed, save_failed, field,
}

pub record DeliveryStore : Type 0 where
  pub records : Option (List Bytes)
  pub writable : Bool
  pub deliveries : Map MessageDelivery
  pub by_message : Map (List Bytes)
  pub by_recipient : Map (List Bytes)

abbrev pub StoreResult : Type 0 → Type 0
StoreResult A = MultiResult A × DeliveryStore

-- An index entry, nil if it is missing.
unfoldable pub ids_of : Map (List Bytes) → Bytes → List Bytes
ids_of index key = elim (lookup key index) [ none ↦ [] | some ids ↦ ids ]

-- `index[key] = append(index[key], id)`
unfoldable pub append_id : Map (List Bytes) → Bytes → Bytes → Map (List Bytes)
append_id index key id = insert key (ids_of index key ++ id ∷ []) index

-- The three writes of SaveDelivery and indexLocked.
unfoldable pub add_delivery : DeliveryStore → MessageDelivery → DeliveryStore
add_delivery s d = record s {
  deliveries = insert d.delivery_id d s.deliveries;
  by_message = append_id s.by_message d.message_id d.delivery_id;
  by_recipient = append_id s.by_recipient d.recipient d.delivery_id;
}

unfoldable pub has_delivery : DeliveryStore → Bytes → Bool
has_delivery s id = elim (lookup id s.deliveries) [ none ↦ false | some d ↦ true ]

-- indexLocked
unfoldable pub index_locked : DeliveryStore → MessageDelivery → DeliveryStore
index_locked s d = if has_delivery s d.delivery_id then s else add_delivery s d

module _ (x : External) where
  -- (*MessageDelivery).MarshalBinID under nanopack.MarshalFastID; a nil ciphertext has no bytes.
  unfoldable pub marshal_delivery : MessageDelivery → Option Bytes
  marshal_delivery d = elim (x.uint64_data d.timestamp) [
    | none ↦ none
    | some t ↦ x.encode_id (
        field 1 d.delivery_id
        ∷ field 2 d.message_id
        ∷ field 3 d.recipient
        ∷ field 4 d.channel_id
        ∷ field 5 (elim d.ciphertext [ none ↦ [] | some c ↦ c ])
        ∷ field 6 d.context_id
        ∷ field 7 t
        ∷ [])
  ]

  unfoldable pub marshal_deliveries : Map MessageDelivery → Option (List Bytes)
  marshal_deliveries [] = some []
  marshal_deliveries ((k, d) ∷ m) =
      let rest = marshal_deliveries m in
      elim (marshal_delivery d) [
        | none ↦ none
        | some b ↦ elim rest [ none ↦ none | some bs ↦ some (b ∷ bs) ]
      ]

  -- saveLocked
  unfoldable pub save_locked : DeliveryStore → StoreResult (Unit {0})
  save_locked s = elim (marshal_deliveries s.deliveries) [
    | none ↦ (err marshal_failed, s)
    | some records ↦
        if s.writable then (ok tt, record s { records = some records }) else (err save_failed, s)
  ]

  -- SaveDelivery
  unfoldable pub save_delivery : DeliveryStore → MessageDelivery → StoreResult (Unit {0})
  save_delivery s d =
      if has_delivery s d.delivery_id
      then (err duplicate_delivery_id, s)
      else save_locked (add_delivery s d)

  after_mark : DeliveryStore → MessageDelivery → StoreResult (Unit {0})
  after_mark s d = elim d.ciphertext [ none ↦ (err delivery_pending, s) | some c ↦ save_locked s ]

  -- MarkDelivered
  unfoldable pub mark_delivered : DeliveryStore → Bytes → StoreResult (Unit {0})
  unfolding after_mark
  mark_delivered s id = elim (lookup id s.deliveries) [
    | none ↦ (err delivery_not_found, s)
    | some d ↦ after_mark s d
  ]

-- LoadDelivery
unfoldable pub load_delivery : DeliveryStore → Bytes → MultiResult MessageDelivery
load_delivery s id = or_fail (lookup id s.deliveries) delivery_not_found

-- The deliveries of a row of IDs that are in the store.
unfoldable pub resolve : Map MessageDelivery → List Bytes → List MessageDelivery
resolve m [] = []
resolve m (id ∷ ids) =
    let rest = resolve m ids in elim (lookup id m) [ none ↦ rest | some d ↦ d ∷ rest ]

-- ListDeliveriesByMessage
unfoldable pub list_by_message : DeliveryStore → Bytes → List MessageDelivery
list_by_message s id = resolve s.deliveries (ids_of s.by_message id)

-- ListDeliveriesByRecipient
unfoldable pub list_by_recipient : DeliveryStore → Bytes → List MessageDelivery
list_by_recipient s peer = resolve s.deliveries (ids_of s.by_recipient peer)

pub without_ciphertext : Map MessageDelivery → List MessageDelivery
without_ciphertext [] = []
without_ciphertext ((k, d) ∷ m) =
    let rest = without_ciphertext m in elim d.ciphertext [ none ↦ d ∷ rest | some c ↦ rest ]

-- ListUndeliveredDeliveries
unfoldable pub list_undelivered : DeliveryStore → List MessageDelivery
unfolding without_ciphertext
list_undelivered s = without_ciphertext s.deliveries

-- The loop of NewFileDeliveryStore over the deliveries that it has decoded.
unfoldable pub index_all : DeliveryStore → List MessageDelivery → DeliveryStore
index_all s [] = s
index_all s (d ∷ ds) = index_all (index_locked s d) ds
