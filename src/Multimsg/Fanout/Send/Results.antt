-- ===== src/Multimsg/Fanout/Send/Results.antt =====
-- internal/multimsg/fanout.go: the results of SendMultiMessage.
use nex_talk.Base.{
  ℕ, ◌+◌, ◌≡◌, inl, inr, refl, sym, Bool, List, [], ◌∷◌, ◌++◌, append_assoc, append-nil, map, arith,
  Bytes, lookup, ok, err, Bool-cases, Option-cases, Result-cases,
}
use mathlib.Core.List.{map-append}
use nex_talk.External.{External}
use nex_talk.Multimsg.Types.{
  MessageContext, MessageDelivery, DeliveryResult, FanoutResult, MultiResult,
}
use nex_talk.Multimsg.Contexts.{load_context}
use nex_talk.Multimsg.Fanout.{Fanout, get_effective_recipients}
use nex_talk.Multimsg.Fanout.Send.{
  Draws, Progress, deliver_offline, deliver_encrypted, deliver_online, deliver, deliver_all,
  send_delivery, send_deliveries, finish_send, prepare_send, send_prepared, send_multi_message,
}

abbrev pub names : List DeliveryResult → List Bytes
names = map (λ d. d.recipient)

module _ (x : External) where
  names-snoc :
      (rs : List DeliveryResult) (d : DeliveryResult)
      → names (rs ++ d ∷ []) ≡ names rs ++ d.recipient ∷ []
  names-snoc rs d = map-append (λ (e : DeliveryResult). e.recipient) rs (d ∷ [])

  names-deliver_offline :
      (p : Progress) (draws : Draws) (id context_id r : Bytes)
      → names (deliver_offline x p draws id context_id r).results ≡ names p.results ++ r ∷ []
  unfolding deliver_offline
  names-deliver_offline p draws id context_id r = elim (Bool-cases p.fanout.config.skip_offline) [
    | inl on ↦ rw on (names-snoc p.results _)
    | inr off ↦ rw off (names-snoc p.results _)
  ]

  names-deliver_encrypted :
      (p : Progress) (draws : Draws) (id context_id r : Bytes) (result : MultiResult Bytes)
      → names (deliver_encrypted x p draws id context_id r result).results
        ≡ names p.results ++ r ∷ []
  unfolding deliver_encrypted
  names-deliver_encrypted p draws id context_id r (err e) = names-snoc p.results _
  names-deliver_encrypted p draws id context_id r (ok wire) = names-snoc p.results _

  names-deliver :
      (p : Progress) (draws : Draws) (i : ℕ) (c : MessageContext) (id text r : Bytes)
      → names (deliver x p draws i c id text r).results ≡ names p.results ++ r ∷ []
  unfolding deliver deliver_online
  names-deliver p draws i c id text r =
      elim (Option-cases (lookup r p.fanout.client.sessions.table)) [
        | inl absent ↦ rw (absent, deliver) (names-deliver_offline p draws _ id r)
        | inr (a, found) ↦ rw (found, deliver) (names-deliver_encrypted _ draws _ id r _)
      ]

  names-deliver_all :
      (p : Progress) (draws : Draws) (i : ℕ) (c : MessageContext) (id text : Bytes)
      (rs : List Bytes)
      → names (deliver_all x p draws i c id text rs).results ≡ names p.results ++ rs
  unfolding deliver_all
  names-deliver_all p draws i c id text [] = sym (append-nil (names p.results))
  names-deliver_all p draws i c id text (r ∷ rs) = rw (
    names-deliver_all (deliver x p draws i c id text r) draws (i + 1) c id text rs,
    names-deliver,
    append_assoc,
  )

module _ (x : External) (accepts : Bytes → Bytes → Bool) where
  send_delivery-client :
      (f : Fanout) (d : MessageDelivery) (wire : Bytes)
      → (send_delivery x accepts f d wire).1.client ≡ f.client
  unfolding send_delivery
  send_delivery-client f d wire = ground arith

  pub send_deliveries-client :
      (f : Fanout) (ds : List MessageDelivery) → (send_deliveries x accepts f ds).client ≡ f.client
  unfolding send_deliveries
  send_deliveries-client f [] = refl
  send_deliveries-client f (d ∷ ds) = elim (Option-cases d.ciphertext) [
    | inl absent ↦ rw (absent, send_deliveries) (send_deliveries-client f ds)
    | inr (wire, found) ↦
        rw (found, send_deliveries)
          (ground (
            arith,
            send_delivery-client f d wire,
            send_deliveries-client (send_delivery x accepts f d wire).1 ds,
          ))
  ]

  pub send_prepared-ok :
      (f : Fanout) (draws : Draws) (id text : Bytes)
      (prepared : MultiResult (MessageContext × List Bytes)) (r : FanoutResult)
      → (send_prepared x accepts f draws id text prepared).0 ≡ ok r
      → (c : MessageContext) × (rs : List Bytes) × (prepared ≡ ok (c, rs))
        × (r.deliveries
            ≡ (deliver_all x
                (record { fanout = f; results = []; deliveries = [] })
                draws
                0
                c
                id
                text
                rs).results)
  unfolding send_prepared finish_send
  send_prepared-ok f draws id text (err e) r h = absurd (ground arith)
  send_prepared-ok f draws id text (ok (c, rs)) r h = (c, rs, refl, ground arith)

  pub prepare_send-ok :
      (f : Fanout) (id : Bytes) (all rs : List Bytes) (c : MessageContext)
      → prepare_send x accepts f id all ≡ ok (c, rs)
      → (rs ≡ get_effective_recipients f id all) × (load_context f.ctx_store id ≡ ok c)
  unfolding prepare_send
  prepare_send-ok f id all rs c h = elim (Result-cases (load_context f.ctx_store id)) [
    | inr (e, bad) ↦ absurd (ground arith)
    | inl (c', found) ↦ (ground arith, ground arith)
  ]

  -- A send that succeeds has one result for each recipient that the policies leave, in their order.
  pub send_multi_message_recipients :
      (f : Fanout) (draws : Draws) (id text : Bytes) (all : List Bytes) (r : FanoutResult)
      → (send_multi_message x accepts f draws id text all).0 ≡ ok r
      → names r.deliveries ≡ get_effective_recipients f id all
  unfolding send_multi_message
  send_multi_message_recipients f draws id text all r h =
      let (c, rs, prepared, made) = send_prepared-ok f draws id text _ r h in
      rw (made, names-deliver_all) (prepare_send-ok f id all rs c prepared).0
