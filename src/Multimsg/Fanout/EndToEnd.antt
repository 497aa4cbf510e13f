-- ===== src/Multimsg/Fanout/EndToEnd.antt =====
-- internal/multimsg/fanout.go: encryptWithAAD at one end against ProcessDelivery at the other.
use nex_talk.Base.{
  ℕ, ◌<◌, ◌^◌, ◌≡◌, refl, true, false, Option, some, arith, Bytes, beq, beq_refl, ok, Result-cases,
  inl, inr,
}
use nex_talk.External.{External, Laws}
use nex_talk.Crypto.SecureMessage.{max_wire_nonce}
use nex_talk.Crypto.Ratchet.{SecurePeer, KeyPair}
use nex_talk.Crypto.Ratchet
use nex_talk.Crypto.Ratchet.Sync.{IsInSync, decrypt-encrypt}
use nex_talk.Client.{Client, find_session, decrypt_in}
use nex_talk.Client
use nex_talk.Client.Messages.{client_decrypt-ok}
use nex_talk.Multimsg.Types.{MessageContext}
use nex_talk.Multimsg.Wire.{
  DeliveryMeta, Parsed, parse_wrapped, wrap_payload_v2, verify_context_signature,
}
use nex_talk.Multimsg.Wire.Binding.{IsBindable, aad_of}
use nex_talk.Multimsg.Wire.RoundTrip.{parse_wrapped-wrap_payload_v2}
use nex_talk.Multimsg.Fanout.{Fanout}
use nex_talk.Multimsg.Fanout.Send.{encrypt_with_aad}
use nex_talk.Multimsg.Fanout.Receive.{
  has_key, check_binding, accept, dedup, process_plain, process_checked, process_delivery,
}

module _ (x : External) where
  encrypt_with_aad-ok :
      (s : SecurePeer) (pair : KeyPair) (who text aad wire : Bytes) (c : MessageContext)
      → (encrypt_with_aad x s pair who text aad c).0 ≡ ok wire
      → (wrapped : Bytes) × (wrap_payload_v2 x aad (some c) text ≡ ok wrapped)
        × ((Ratchet.encrypt x s pair who wrapped).0 ≡ ok wire)
  unfolding encrypt_with_aad
  encrypt_with_aad-ok s pair who text aad wire c e =
      elim (Result-cases (wrap_payload_v2 x aad (some c) text)) [
        | inr (bad, failed) ↦ absurd (ground arith)
        | inl (wrapped, found) ↦ (wrapped, found, ground arith)
      ]

  check_binding-own :
      (self : Bytes) (m : DeliveryMeta) → m.recipient ≡ self → check_binding self m.sender m ≡ ok m
  unfolding check_binding
  check_binding-own self m mine =
      let same : beq m.recipient self ≡ true = rw mine (beq_refl self) in
      ground (arith, beq_refl m.sender, same)

  dedup-new :
      (f : Fanout) (m : DeliveryMeta) (parsed : Parsed)
      → has_key f.seen_messages m.sender m.message_id ≡ false
      → (context : Option MessageContext) × ((dedup x f m.sender m parsed).0
          ≡ ok (record {
            sender = m.sender;
            meta = m;
            context = context;
            plaintext = parsed.plaintext;
          }))
  unfolding dedup accept
  dedup-new f m parsed new = rw new (_, refl)

  process_plain-own :
      (f : Fanout) (self wrapped text : Bytes) (m : DeliveryMeta) (c : Option MessageContext)
      → m.recipient ≡ self
      → parse_wrapped x wrapped ≡ ok (record { meta = m; context = c; plaintext = text })
      → has_key f.seen_messages m.sender m.message_id ≡ false
      → (context : Option MessageContext) × ((process_plain x f self (ok (m.sender, wrapped))).0
          ≡ ok (record { sender = m.sender; meta = m; context = context; plaintext = text }))
  unfolding process_plain process_checked
  process_plain-own f self wrapped text m c mine parsed new =
      let (context, given) =
        dedup-new f m (record { meta = m; context = c; plaintext = text }) new in
      (context, rw (parsed, check_binding-own self m mine) given)

module _ (x : External) (laws : Laws x) where
  -- A group message that is sealed for a recipient, in a session that is in step with the one the
  -- recipient finds for the sender, is accepted there unless it was seen before: the result names the
  -- sender, and carries the binding and the text. The lengths of the binding fit a byte, the
  -- context's signature verifies, and the counter is below 2^31.
  pub process_delivery-encrypt_with_aad :
      (s : SecurePeer) (pair : KeyPair) (f : Fanout) (a : ℕ) (m : DeliveryMeta) (c : MessageContext)
      (text wire : Bytes)
      → IsBindable m
      → c.metadata_version < 2 ^ 64
      → verify_context_signature x c ≡ ok tt
      → IsInSync s (f.client.sessions.peers a)
      → s.send_nonce < max_wire_nonce
      → find_session f.client.sessions m.sender ≡ some a
      → has_key f.seen_messages m.sender m.message_id ≡ false
      → (encrypt_with_aad x s pair m.sender text (aad_of m) c).0 ≡ ok wire
      → (context : Option MessageContext) × ((process_delivery x f m.recipient wire).0
          ≡ ok (record { sender = m.sender; meta = m; context = context; plaintext = text }))
  unfolding process_delivery
  process_delivery-encrypt_with_aad s pair f a m c text wire fits uint good sync small found new
        sealed =
      let (wrapped, written, sent) =
        encrypt_with_aad-ok x s pair m.sender text (aad_of m) wire c sealed in
      let (read, later) =
        decrypt-encrypt x laws s (f.client.sessions.peers a) pair m.sender wrapped wire sync small
          sent in
      let opened = client_decrypt-ok x f.client wire m.sender wrapped a found read in
      let parsed = parse_wrapped-wrap_payload_v2 x laws m c text wrapped fits uint good written in
      let (context, given) =
        process_plain-own x (record f { client = (Client.decrypt x f.client wire).1 }) m.recipient
          wrapped text m (some c) refl parsed new in
      (context, rw opened given)
