-- ===== src/Multimsg/Memory.antt =====
-- internal/multimsg/store.go: MemoryContextStore and MemoryDeliveryStore, the stores without files.
pub mod Equivalence
use nex_talk.Base.{
  ℕ, ◌≡◌, Bool, true, false, Option, none, some, List, [], ◌∷◌, ◌++◌, arith, Bytes, bytes_lt,
  if◌then◌else◌, Map, lookup, insert, delete, Result, ok, err, ◌>>=◌, or_fail,
}
use nex_talk.Multimsg.Types.{
  MessageContext, LocalRecipientPolicy, MessageDelivery, MultiResult, context_not_found,
  policy_not_found, delivery_not_found, delivery_pending,
}
use nex_talk.Multimsg.Contexts.{insert_policy, remove_policy}
use nex_talk.Multimsg.Deliveries.{append_id, ids_of, resolve, without_ciphertext}

pub record MemoryContexts : Type 0 where
  pub contexts : Map MessageContext
  pub policies : Map (Map LocalRecipientPolicy)

pub record MemoryDeliveries : Type 0 where
  pub deliveries : Map MessageDelivery
  pub by_message : Map (List Bytes)
  pub by_recipient : Map (List Bytes)

-- NewMemoryContextStore and NewMemoryDeliveryStore
abbrev pub new_contexts : MemoryContexts
new_contexts = record { contexts = []; policies = [] }

abbrev pub new_deliveries : MemoryDeliveries
new_deliveries = record { deliveries = []; by_message = []; by_recipient = [] }

-- MemoryContextStore; its methods do not fail, but for the two loads.
-- SaveContext
unfoldable pub save_context : MemoryContexts → MessageContext → MemoryContexts
save_context s c = record s { contexts = insert c.context_id c s.contexts }

-- LoadContext
unfoldable pub load_context : MemoryContexts → Bytes → MultiResult MessageContext
load_context s id = or_fail (lookup id s.contexts) context_not_found

-- sortContexts
unfoldable pub insert_context : MessageContext → List MessageContext → List MessageContext
insert_context c [] = c ∷ []
insert_context c (d ∷ ds) =
    let rest = insert_context c ds in
    if bytes_lt c.context_id d.context_id then c ∷ d ∷ ds else d ∷ rest

unfoldable pub sort_contexts : Map MessageContext → List MessageContext
sort_contexts [] = []
sort_contexts ((k, c) ∷ m) = insert_context c (sort_contexts m)

-- ListContexts
unfoldable pub list_contexts : MemoryContexts → List MessageContext
list_contexts s = sort_contexts s.contexts

-- DeleteContext
unfoldable pub delete_context : MemoryContexts → Bytes → MemoryContexts
delete_context s id = record s { contexts = delete id s.contexts; policies = delete id s.policies }

-- SavePolicy
unfoldable pub save_policy : MemoryContexts → LocalRecipientPolicy → MemoryContexts
save_policy s p = record s { policies = insert_policy s.policies p }

-- LoadPolicy
unfoldable pub load_policy : MemoryContexts → Bytes → Bytes → MultiResult LocalRecipientPolicy
load_policy s id recipient = do
  m ← or_fail (lookup id s.policies) policy_not_found
  or_fail (lookup recipient m) policy_not_found

-- DeletePolicy
unfoldable pub delete_policy : MemoryContexts → Bytes → Bytes → MemoryContexts
delete_policy s id recipient = record s { policies = remove_policy s.policies id recipient }

-- MemoryDeliveryStore
-- SaveDelivery: an ID that is there already is indexed again.
unfoldable pub save_delivery : MemoryDeliveries → MessageDelivery → MemoryDeliveries
save_delivery s d = record s {
  deliveries = insert d.delivery_id d s.deliveries;
  by_message = append_id s.by_message d.message_id d.delivery_id;
  by_recipient = append_id s.by_recipient d.recipient d.delivery_id;
}

-- LoadDelivery
unfoldable pub load_delivery : MemoryDeliveries → Bytes → MultiResult MessageDelivery
load_delivery s id = or_fail (lookup id s.deliveries) delivery_not_found

-- ListDeliveriesByMessage
unfoldable pub list_by_message : MemoryDeliveries → Bytes → List MessageDelivery
list_by_message s id = resolve s.deliveries (ids_of s.by_message id)

-- ListDeliveriesByRecipient
unfoldable pub list_by_recipient : MemoryDeliveries → Bytes → List MessageDelivery
list_by_recipient s peer = resolve s.deliveries (ids_of s.by_recipient peer)

-- ListUndeliveredDeliveries
unfoldable pub list_undelivered : MemoryDeliveries → List MessageDelivery
list_undelivered s = without_ciphertext s.deliveries

-- MarkDelivered
unfoldable pub mark_delivered : MemoryDeliveries → Bytes → MultiResult (Unit {0})
mark_delivered s id = do
  d ← or_fail (lookup id s.deliveries) delivery_not_found
  or_fail (elim d.ciphertext [ none ↦ none | some c ↦ some tt ]) delivery_pending
