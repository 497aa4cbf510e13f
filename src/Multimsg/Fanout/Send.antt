-- ===== src/Multimsg/Fanout/Send.antt =====
-- internal/multimsg/fanout.go: the sending half.
pub mod Results
pub mod Undelivered
pub mod Oversize
pub mod Saved
use nex_talk.Base.{
  ℕ, zero, suc, ◌+◌, ◌≡◌, refl, Bool, true, false, not, ◌&&◌, ◌||◌, Option, none, some, List, [],
  ◌∷◌, ◌++◌, arith, Bytes, codes, beq, is_empty, ◌==◌, if◌then◌else◌, Map, lookup, insert, Result,
  ok, err, ◌>>=◌, ◌>>◌, require, or_fail,
}
use nex_talk.External.{External}
use nex_talk.Relay.{wrap_envelope, multi_msg, message, peer_id_to_ed25519_pub}
use nex_talk.Crypto.SecureMessage.{CryptoResult}
use nex_talk.Crypto.Ratchet.{SecurePeer, KeyPair}
use nex_talk.Crypto.Ratchet
use nex_talk.Client.{Client, save_client, update_peer}
use nex_talk.Multimsg.Types.{
  MessageContext, MessageDelivery, DeliveryResult, DeliveryStatus, sent, pending, failed, is_status,
  FanoutResult, MultiError, MultiResult, zero_version, no_effective_recipients, no_deliveries,
  encrypt_failed, bad_recipient,
}
use nex_talk.Multimsg.Wire.{verify_context_signature, wrap_payload_v2, build_delivery_aad}
use nex_talk.Multimsg.Contexts.{load_context}
use nex_talk.Multimsg.Deliveries.{DeliveryStore, list_undelivered, save_delivery, mark_delivered}
use nex_talk.Multimsg.Fanout.{Fanout, FanoutOutcome, get_effective_recipients}

-- What one call draws: IDs, ratchet keys and the time, by the place of the recipient in the loop.
pub record Draws : Type 0 where
  pub message_id : Bytes
  pub timestamp : ℕ
  pub delivery_id : ℕ → Bytes
  pub pair : ℕ → KeyPair

-- What the loop has made: one result for each recipient, and the deliveries.
pub record Progress : Type 0 where
  pub fanout : Fanout
  pub results : List DeliveryResult
  pub deliveries : List MessageDelivery

-- `r.Status == DeliverySent` for some result
unfoldable pub any_sent : List DeliveryResult → Bool
unfolding is_status
any_sent [] = false
any_sent (r ∷ rs) = is_status r.status sent || any_sent rs

module _ (x : External) where
  -- encryptWithAAD
  unfoldable pub encrypt_with_aad :
      SecurePeer → KeyPair → Bytes → Bytes → Bytes → MessageContext → MultiResult Bytes × SecurePeer
  encrypt_with_aad session pair sender plaintext aad c =
      elim (wrap_payload_v2 x aad (some c) plaintext) [
        | err e ↦ (err e, session)
        | ok wrapped ↦
            let (result, session') = Ratchet.encrypt x session pair sender wrapped in
            (elim result [ err e ↦ err encrypt_failed | ok wire ↦ ok wire ], session')
      ]

  unfoldable pub fail_result : Progress → Bytes → Bytes → Progress
  fail_result p id recipient = record p {
    results =
        p.results
        ++ record { delivery_id = id; recipient = recipient; status = failed; ciphertext = none }
          ∷ [];
  }

  -- The branch with no session.
  unfoldable pub deliver_offline : Progress → Draws → Bytes → Bytes → Bytes → Progress
  unfolding fail_result
  deliver_offline p draws id context_id recipient =
      if p.fanout.config.skip_offline then fail_result p id recipient else record p {
        results =
            p.results
            ++ record {
              delivery_id = id;
              recipient = recipient;
              status = pending;
              ciphertext = none;
            }
              ∷ [];
        deliveries =
            p.deliveries
            ++ record {
              delivery_id = id;
              message_id = draws.message_id;
              recipient = recipient;
              channel_id = codes "pending";
              ciphertext = none;
              context_id = context_id;
              timestamp = draws.timestamp;
            }
              ∷ [];
      }

  -- The delivery of a ciphertext, and what is kept of it.
  unfoldable pub deliver_sealed : Progress → Draws → Bytes → Bytes → Bytes → Bytes → Progress
  deliver_sealed p draws id context_id recipient wire =
      let delivery : MessageDelivery = record {
        delivery_id = id;
        message_id = draws.message_id;
        recipient = recipient;
        channel_id = recipient;
        ciphertext = some wire;
        context_id = context_id;
        timestamp = draws.timestamp;
      } in
      record {
        fanout = record p.fanout {
          delivery_store = (save_delivery x p.fanout.delivery_store delivery).1;
        };
        results =
            p.results
            ++ record {
              delivery_id = id;
              recipient = recipient;
              status = sent;
              ciphertext = some wire;
            }
              ∷ [];
        deliveries = p.deliveries ++ delivery ∷ [];
      }

  unfoldable pub deliver_encrypted :
      Progress → Draws → Bytes → Bytes → Bytes → MultiResult Bytes → Progress
  unfolding fail_result deliver_sealed
  deliver_encrypted p draws id context_id recipient (err e) = fail_result p id recipient
  deliver_encrypted p draws id context_id recipient (ok wire) =
      deliver_sealed p draws id context_id recipient wire

  -- The branch with a session at address `a`.
  unfoldable pub deliver_online :
      Progress → Draws → Bytes → KeyPair → MessageContext → Bytes → Bytes → Bytes → ℕ → Progress
  deliver_online p draws id pair c context_id plaintext recipient a =
      let client = p.fanout.client in
      let aad =
        build_delivery_aad draws.message_id c.context_id client.id recipient c.metadata_version in
      let (result, session) =
        encrypt_with_aad (client.sessions.peers a) pair client.id plaintext aad c in
      deliver_encrypted
        (record p { fanout = record p.fanout { client = update_peer client a session } }) draws id
        context_id recipient result

  -- One round of the loop.
  unfoldable pub deliver : Progress → Draws → ℕ → MessageContext → Bytes → Bytes → Bytes → Progress
  deliver p draws i c context_id plaintext recipient =
      elim (lookup recipient p.fanout.client.sessions.table) [
        | none ↦ deliver_offline p draws (draws.delivery_id i) context_id recipient
        | some a ↦
            deliver_online p draws (draws.delivery_id i) (draws.pair i) c context_id plaintext
              recipient a
      ]

  unfoldable pub deliver_all :
      Progress → Draws → ℕ → MessageContext → Bytes → Bytes → List Bytes → Progress
  deliver_all p draws i c context_id plaintext [] = p
  deliver_all p draws i c context_id plaintext (r ∷ rs) =
      deliver_all (deliver p draws i c context_id plaintext r) draws (i + 1) c context_id plaintext
        rs

  module _ (accepts : Bytes → Bytes → Bool) where
    -- sendDeliveries for one delivery with a ciphertext: `false` where it ends the loop.
    unfoldable pub send_delivery : Fanout → MessageDelivery → Bytes → Bool × Fanout
    send_delivery f d wire = elim (peer_id_to_ed25519_pub x d.recipient) [
      | err e ↦ (false, f)
      | ok key ↦
          let envelope = wrap_envelope multi_msg wire in
          let f' : Fanout = record f { outbox = f.outbox ++ (key, envelope) ∷ [] } in
          if accepts key envelope
          then (
            true,
            record f' { delivery_store = (mark_delivered x f.delivery_store d.delivery_id).1 },
          )
          else (false, f')
    ]

    -- sendDeliveries; its error is dropped by the caller.
    unfoldable pub send_deliveries : Fanout → List MessageDelivery → Fanout
    send_deliveries f [] = f
    send_deliveries f (d ∷ ds) = elim d.ciphertext [
      | none ↦ send_deliveries f ds
      | some wire ↦
          let (on, f') = send_delivery f d wire in
          elim on [ false ↦ f' | true ↦ send_deliveries f' ds ]
    ]

    -- SendMultiMessage behind the loop.
    unfoldable pub finish_send : Draws → MessageContext → Progress → FanoutOutcome FanoutResult
    finish_send draws c p =
        let f = p.fanout in
        let f' = if any_sent p.results then record f { client = save_client f.client } else f in
        if is_empty p.results then (err no_deliveries, f) else (
          ok (record {
            message_id = draws.message_id;
            sender = f.client.id;
            context = c;
            deliveries = p.results;
            timestamp = draws.timestamp;
          }),
          if f'.relay_bound then send_deliveries f' p.deliveries else f',
        )

    -- The tests of SendMultiMessage: the context, and the recipients that policy leaves.
    unfoldable pub prepare_send :
        Fanout → Bytes → List Bytes → MultiResult (MessageContext × List Bytes)
    prepare_send f id recipients = do
      c ← load_context f.ctx_store id
      require (not (c.metadata_version == 0)) zero_version
      verify_context_signature x c
      let effective = get_effective_recipients f id recipients
      require (not (is_empty effective)) no_effective_recipients
      ok (c, effective)

    unfoldable pub send_prepared :
        Fanout
        → Draws
        → Bytes
        → Bytes
        → MultiResult (MessageContext × List Bytes)
        → FanoutOutcome FanoutResult
    send_prepared f draws id plaintext (err e) = (err e, f)
    send_prepared f draws id plaintext (ok (c, effective)) = finish_send draws c (
        deliver_all (record { fanout = f; results = []; deliveries = [] }) draws 0 c id plaintext
          effective)

    -- SendMultiMessage
    unfoldable pub send_multi_message :
        Fanout → Draws → Bytes → Bytes → List Bytes → FanoutOutcome FanoutResult
    send_multi_message f draws id plaintext recipients =
        send_prepared f draws id plaintext (prepare_send f id recipients)

    -- One round of RetryUndelivered.
    unfoldable pub retry_one : Fanout → MessageDelivery → Fanout
    retry_one f d = elim (lookup d.recipient f.client.sessions.table) [
      | none ↦ f
      | some a ↦ elim d.ciphertext [
        | none ↦ f
        | some wire ↦ elim (peer_id_to_ed25519_pub x d.recipient) [
          | err e ↦ f
          | ok key ↦
              let envelope = wrap_envelope message wire in
              let f' : Fanout = record f { outbox = f.outbox ++ (key, envelope) ∷ [] } in
              if accepts key envelope
              then record f' {
                delivery_store = (mark_delivered x f.delivery_store d.delivery_id).1;
              }
              else f'
        ]
      ]
    ]

    unfoldable pub retry_all : Fanout → List MessageDelivery → Fanout
    retry_all f [] = f
    retry_all f (d ∷ ds) = retry_all (retry_one f d) ds

    -- RetryUndelivered
    unfoldable pub retry_undelivered : Fanout → Fanout
    retry_undelivered f = retry_all f (list_undelivered f.delivery_store)
