-- ===== src/Multimsg/Memory/Equivalence.antt =====
-- internal/multimsg/store.go: the stores with files against those without.
use nex_talk.Base.{◌≡◌, refl, false, arith, Bytes, insert, delete}
use nex_talk.External.{External}
use nex_talk.Multimsg.Types.{MessageContext, LocalRecipientPolicy, MessageDelivery}
use nex_talk.Multimsg.Contexts.{ContextStore, insert_policy, remove_policy, is_stale, save_locked}
use nex_talk.Multimsg.Contexts
use nex_talk.Multimsg.Contexts.Versions.{save_locked-keeps}
use nex_talk.Multimsg.Deliveries.{DeliveryStore, add_delivery, has_delivery}
use nex_talk.Multimsg.Deliveries
use nex_talk.Multimsg.Memory.{MemoryContexts, MemoryDeliveries}
use nex_talk.Multimsg.Memory

-- What a store with files holds beside them.
unfoldable pub contexts_of : ContextStore → MemoryContexts
contexts_of s = record { contexts = s.contexts; policies = s.policies }

unfoldable pub deliveries_of : DeliveryStore → MemoryDeliveries
deliveries_of s = record {
  deliveries = s.deliveries;
  by_message = s.by_message;
  by_recipient = s.by_recipient;
}

module _ (x : External) where
  contexts_of-save_locked : (s : ContextStore) → contexts_of (save_locked x s).1 ≡ contexts_of s
  unfolding contexts_of
  contexts_of-save_locked s = rw ((save_locked-keeps x s).0, (save_locked-keeps x s).1) refl

  -- The changes of contexts and policies leave the same in both stores, whether the files are written
  -- or not, unless the store with files refuses a stale context.
  pub contexts_of-changes :
      (s : ContextStore) (c : MessageContext) (p : LocalRecipientPolicy) (id recipient : Bytes)
      → is_stale x s c ≡ false
      → (contexts_of (Contexts.save_context x s c).1 ≡ Memory.save_context (contexts_of s) c)
        × (contexts_of (Contexts.delete_context x s id).1
            ≡ Memory.delete_context (contexts_of s) id)
        × (contexts_of (Contexts.save_policy x s p).1 ≡ Memory.save_policy (contexts_of s) p)
        × (contexts_of (Contexts.delete_policy x s id recipient).1
            ≡ Memory.delete_policy (contexts_of s) id recipient)
        × (Contexts.load_context s id ≡ Memory.load_context (contexts_of s) id)
        × (Contexts.load_policy s id recipient ≡ Memory.load_policy (contexts_of s) id recipient)
  unfolding Contexts.save_context Contexts.delete_context Contexts.save_policy
      Contexts.delete_policy Contexts.load_context Contexts.load_policy Memory.save_context
      Memory.delete_context Memory.save_policy Memory.delete_policy Memory.load_context
      Memory.load_policy contexts_of
  contexts_of-changes s c p id recipient fresh = (
    rw (Contexts.save_context, fresh)
        (contexts_of-save_locked (record s { contexts = insert c.context_id c s.contexts })),
    contexts_of-save_locked
        (record s { contexts = delete id s.contexts; policies = delete id s.policies }),
    contexts_of-save_locked (record s { policies = insert_policy s.policies p }),
    contexts_of-save_locked (record s { policies = remove_policy s.policies id recipient }),
    refl,
    refl,
  )

  -- A delivery under a new ID leaves the same in both stores.
  pub deliveries_of-save_delivery :
      (s : DeliveryStore) (d : MessageDelivery)
      → has_delivery s d.delivery_id ≡ false
      → deliveries_of (Deliveries.save_delivery x s d).1 ≡ Memory.save_delivery (deliveries_of s) d
  unfolding Deliveries.save_delivery Deliveries.save_locked Memory.save_delivery deliveries_of
      add_delivery
  deliveries_of-save_delivery s d new = ground arith
