-- ===== src/Multimsg/Fanout/Send/Undelivered.antt =====
-- internal/multimsg/fanout.go: pending deliveries, and RetryUndelivered.
use nex_talk.Base.{
  ℕ, ◌≡◌, inl, inr, refl, ◌∙◌, Bool, List, [], ◌∷◌, ◌+◌, arith, Bytes, All, lookup, ok, err,
  Option-cases,
}
use nex_talk.External.{External}
use nex_talk.Crypto.Ratchet.{KeyPair}
use nex_talk.Client.{save_client}
use nex_talk.Multimsg.Types.{MessageContext, MessageDelivery, MultiResult}
use nex_talk.Multimsg.Deliveries.{list_undelivered}
use nex_talk.Multimsg.Deliveries.Index.{
  LacksCiphertext, list_undelivered-All, list_undelivered-save_delivery,
  list_undelivered-mark_delivered,
}
use nex_talk.Multimsg.Fanout.{Fanout}
use nex_talk.Multimsg.Fanout.Send.{
  Draws, Progress, deliver_offline, deliver_sealed, deliver_encrypted, deliver_online, deliver,
  deliver_all, send_delivery, send_deliveries, finish_send, prepare_send, send_prepared,
  send_multi_message, retry_one, retry_all, retry_undelivered,
}

module _ (x : External) (accepts : Bytes → Bytes → Bool) where
  retry_one-idle :
      (f : Fanout) (d : MessageDelivery) → LacksCiphertext d → retry_one x accepts f d ≡ f
  unfolding retry_one
  retry_one-idle f d none' = ground arith

  retry_all-idle :
      (f : Fanout) (ds : List MessageDelivery)
      → All LacksCiphertext ds
      → retry_all x accepts f ds ≡ f
  unfolding retry_all
  retry_all-idle f [] h = refl
  retry_all-idle f (d ∷ ds) (here, later) = rw (retry_one-idle f d here) (retry_all-idle f ds later)

  -- RetryUndelivered sends nothing and changes nothing, in every state: what it lists has no
  -- ciphertext, and it passes over what has none.
  pub retry_undelivered_idle : (f : Fanout) → retry_undelivered x accepts f ≡ f
  unfolding retry_undelivered
  retry_undelivered_idle f =
      retry_all-idle f (list_undelivered f.delivery_store) (list_undelivered-All f.delivery_store)

module _ (x : External) where
  deliver_offline-keeps :
      (p : Progress) (draws : Draws) (id context_id r : Bytes)
      → (deliver_offline x p draws id context_id r).fanout ≡ p.fanout
  unfolding deliver_offline
  deliver_offline-keeps p draws id context_id r = ground arith

  deliver_sealed-keeps :
      (p : Progress) (draws : Draws) (id context_id r wire : Bytes)
      → list_undelivered (deliver_sealed x p draws id context_id r wire).fanout.delivery_store
        ≡ list_undelivered p.fanout.delivery_store
  unfolding deliver_sealed
  deliver_sealed-keeps p draws id context_id r wire =
      list_undelivered-save_delivery x p.fanout.delivery_store _ wire refl

  deliver_encrypted-keeps :
      (p : Progress) (draws : Draws) (id context_id r : Bytes) (result : MultiResult Bytes)
      → list_undelivered (deliver_encrypted x p draws id context_id r result).fanout.delivery_store
        ≡ list_undelivered p.fanout.delivery_store
  unfolding deliver_encrypted
  deliver_encrypted-keeps p draws id context_id r (err e) = refl
  deliver_encrypted-keeps p draws id context_id r (ok wire) =
      unfold deliver_sealed in deliver_sealed-keeps p draws id context_id r wire

  deliver_online-keeps :
      (p : Progress) (draws : Draws) (id : Bytes) (pair : KeyPair) (c : MessageContext)
      (context_id text r : Bytes) (a : ℕ)
      → list_undelivered
          (deliver_online x p draws id pair c context_id text r a).fanout.delivery_store
        ≡ list_undelivered p.fanout.delivery_store
  unfolding deliver_online
  deliver_online-keeps p draws id pair c context_id text r a =
      deliver_encrypted-keeps _ draws id context_id r _

  deliver-keeps :
      (p : Progress) (draws : Draws) (i : ℕ) (c : MessageContext) (id text r : Bytes)
      → list_undelivered (deliver x p draws i c id text r).fanout.delivery_store
        ≡ list_undelivered p.fanout.delivery_store
  unfolding deliver
  deliver-keeps p draws i c id text r =
      elim (Option-cases (lookup r p.fanout.client.sessions.table)) [
        | inl absent ↦ rw (absent, deliver, deliver_offline-keeps)
        | inr (a, found) ↦
            rw (found, deliver)
              (deliver_online-keeps p draws (draws.delivery_id i) (draws.pair i) c id text r a)
      ]

  deliver_all-keeps :
      (p : Progress) (draws : Draws) (i : ℕ) (c : MessageContext) (id text : Bytes)
      (rs : List Bytes)
      → list_undelivered (deliver_all x p draws i c id text rs).fanout.delivery_store
        ≡ list_undelivered p.fanout.delivery_store
  unfolding deliver_all
  deliver_all-keeps p draws i c id text [] = refl
  deliver_all-keeps p draws i c id text (r ∷ rs) =
      deliver_all-keeps (deliver x p draws i c id text r) draws (i + 1) c id text rs
      ∙ deliver-keeps p draws i c id text r

module _ (x : External) (accepts : Bytes → Bytes → Bool) where
  send_delivery-keeps :
      (f : Fanout) (d : MessageDelivery) (wire : Bytes)
      → list_undelivered (send_delivery x accepts f d wire).1.delivery_store
        ≡ list_undelivered f.delivery_store
  unfolding send_delivery
  send_delivery-keeps f d wire =
      ground (arith, list_undelivered-mark_delivered x f.delivery_store d.delivery_id)

  send_deliveries-keeps :
      (f : Fanout) (ds : List MessageDelivery)
      → list_undelivered (send_deliveries x accepts f ds).delivery_store
        ≡ list_undelivered f.delivery_store
  unfolding send_deliveries
  send_deliveries-keeps f [] = refl
  send_deliveries-keeps f (d ∷ ds) = elim (Option-cases d.ciphertext) [
    | inl absent ↦ rw (absent, send_deliveries) (send_deliveries-keeps f ds)
    | inr (wire, found) ↦
        rw (found, send_deliveries)
          (ground (
            arith,
            send_delivery-keeps f d wire,
            send_deliveries-keeps (send_delivery x accepts f d wire).1 ds,
          ))
  ]

  finish_send-keeps :
      (draws : Draws) (c : MessageContext) (p : Progress)
      → list_undelivered (finish_send x accepts draws c p).1.delivery_store
        ≡ list_undelivered p.fanout.delivery_store
  unfolding finish_send
  finish_send-keeps draws c p = ground (
    arith,
    send_deliveries-keeps (record p.fanout { client = save_client p.fanout.client }) p.deliveries,
    send_deliveries-keeps p.fanout p.deliveries,
  )

  send_prepared-keeps :
      (f : Fanout) (draws : Draws) (id text : Bytes)
      (prepared : MultiResult (MessageContext × List Bytes))
      → list_undelivered (send_prepared x accepts f draws id text prepared).1.delivery_store
        ≡ list_undelivered f.delivery_store
  unfolding send_prepared
  send_prepared-keeps f draws id text (err e) = refl
  send_prepared-keeps f draws id text (ok (c, effective)) =
      finish_send-keeps draws c _ ∙ deliver_all-keeps x _ draws 0 c id text effective

  -- SendMultiMessage adds nothing to the undelivered deliveries of the store: a delivery that waits for a
  -- session is in the result and nowhere else, whatever the outcome.
  pub send_multi_message_keeps_undelivered :
      (f : Fanout) (draws : Draws) (id text : Bytes) (recipients : List Bytes)
      → list_undelivered (send_multi_message x accepts f draws id text recipients).1.delivery_store
        ≡ list_undelivered f.delivery_store
  unfolding send_multi_message
  send_multi_message_keeps_undelivered f draws id text recipients =
      send_prepared-keeps f draws id text (prepare_send x accepts f id recipients)
