-- ===== src/Crypto/Ratchet/Sync.antt =====
-- crypto/kex_hybrid.go: Encrypt and Decrypt, at the two ends of a session.
use nex_talk.Base.{
  ℕ, ◌+◌, ◌<◌, ◌≤◌, ◌≡◌, refl, sym, ap, ◌∙◌, subst, true, false, Option, none, some, List, [], ◌∷◌,
  inl, inr, arith, Bytes, beq_refl, ok, err, lookup, Option-cases, length, map,
}
use nex_talk.External.{External, Laws}
use nex_talk.Crypto.SecureMessage.{
  SecureMessage, CryptoResult, max_wire_nonce, marshal_bin_id, hmac_payload, wire_frame,
}
use nex_talk.Crypto.SecureMessage.RoundTrip.{parse-wire_frame}
use nex_talk.Crypto.Ratchet.{
  SecurePeer, KeyPair, skip_key, int_to_bytes, ratchet_step, associated, sealed_message, seal_frame,
  count_sent, encrypt_chain, encrypt, advance, decrypt_with_key, authenticate, open_chain,
  open_next, is_new_epoch, open_message, decrypt,
}

-- The receiver `r` expects the next message of the sender `s`, and holds no key of a later one.
pub record IsInSync (s r : SecurePeer) : Type 0 where
  pub chain : r.recv_ck ≡ s.send_ck
  pub count : r.recv_nonce ≡ s.send_nonce
  pub mac : r.hmac_key ≡ s.hmac_key
  pub remote : r.remote_dh_public ≡ some s.dh_public
  pub settled : s.pending_dh_ratchet ≡ false
  pub fresh : (i : ℕ) → s.send_nonce ≤ i → lookup (skip_key s.dh_public i) r.skipped_messages ≡ none

module _ (x : External) where
  -- What stands behind a frame that was written.
  pub record IsSealed (sp : SecurePeer) (mk who text wire : Bytes) : Type 0 where
    pub canonical : Bytes
    pub key_fits : x.new_x mk ≡ true
    pub payload : hmac_payload x (sealed_message x sp mk who text) ≡ some canonical
    pub framed :
        wire_frame x
          (record (sealed_message x sp mk who text) { tag = x.hmac sp.hmac_key canonical })
        ≡ some wire

  pub seal_frame-IsSealed :
      (sp : SecurePeer) (mk who text wire : Bytes)
      → seal_frame x sp mk who text ≡ ok wire
      → IsSealed sp mk who text wire
  unfolding seal_frame
  seal_frame-IsSealed sp mk who text wire e =
      elim (Option-cases (hmac_payload x (sealed_message x sp mk who text))) [
        | inl absent ↦ absurd (ground arith)
        | inr (c, found) ↦ record {
          canonical = c;
          key_fits = ground arith;
          payload = found;
          framed = ground arith;
        }
      ]

hmac_payload_tag :
    (x : External) (m : SecureMessage) (t : Bytes)
    → hmac_payload x (record m { tag = t }) ≡ hmac_payload x m
unfolding hmac_payload marshal_bin_id
hmac_payload_tag x m t = refl

count_sent-ok :
    (x : External) (sp : SecurePeer) (c : CryptoResult Bytes) (wire : Bytes)
    → (count_sent x sp c).0 ≡ ok wire
    → (c ≡ ok wire) × ((count_sent x sp c).1 ≡ record sp { send_nonce = sp.send_nonce + 1 })
unfolding count_sent
count_sent-ok x sp (ok w) wire e = (e, refl)
count_sent-ok x sp (err c) wire e = cc

pub is_new_epoch-known :
    (x : External) (r : SecurePeer) (m : SecureMessage) (dh : Bytes)
    → r.remote_dh_public ≡ some dh
    → m.ratchet_key ≡ dh
    → is_new_epoch x r m ≡ false
unfolding is_new_epoch
is_new_epoch-known x r m dh known same = ground (arith, beq_refl dh)

open_next_now :
    (x : External) (r : SecurePeer) (m : SecureMessage)
    → m.nonce ≡ r.recv_nonce
    → open_next x r m ≡ open_chain x r m
unfolding open_next advance
open_next_now x r m n = ground arith

module _ (x : External) (laws : Laws x) where
  -- A sealed frame passes the receiver's test of the tag, and is the sender's message.
  pub authenticate-IsSealed :
      (s r : SecurePeer) (mk who text wire : Bytes)
      → r.hmac_key ≡ s.hmac_key
      → s.send_nonce < max_wire_nonce
      → (sealed : IsSealed x s mk who text wire)
      → authenticate x r wire
        ≡ ok (record (sealed_message x s mk who text) { tag = x.hmac s.hmac_key sealed.canonical })
  unfolding authenticate sealed_message
  authenticate-IsSealed s r mk who text wire mac small sealed =
      let m = sealed_message x s mk who text in
      let t = x.hmac s.hmac_key sealed.canonical in
      rw (
        parse-wire_frame x laws (record m { tag = t }) wire small sealed.framed,
        hmac_payload_tag x m t,
        sealed.payload,
        mac,
        beq_refl t,
      )

  pub decrypt_with_key-IsSealed :
      (s : SecurePeer) (mk who text wire t : Bytes)
      → IsSealed x s mk who text wire
      → decrypt_with_key x mk (record (sealed_message x s mk who text) { tag = t }) ≡ ok (who, text)
  unfolding decrypt_with_key sealed_message
  decrypt_with_key-IsSealed s mk who text wire t sealed = ground (
    arith,
    laws.open-seal mk (int_to_bytes s.send_nonce 24) text (associated x s.dh_public s.send_nonce),
  )

  -- The state behind a frame that was written.
  pub encrypt_chain-ok :
      (s : SecurePeer) (who text wire : Bytes)
      → (encrypt_chain x s who text).0 ≡ ok wire
      → (seal_frame x
            (record s { send_ck = (ratchet_step x s.send_ck).0 })
            (ratchet_step x s.send_ck).1
            who
            text
          ≡ ok wire)
        × ((encrypt_chain x s who text).1
            ≡ record s { send_ck = (ratchet_step x s.send_ck).0; send_nonce = s.send_nonce + 1 })
  unfolding encrypt_chain
  encrypt_chain-ok s who text wire e = count_sent-ok x _ _ wire e

  -- The receiver takes the next message of its chain with no gap.
  pub open_message-IsInSync :
      (s r : SecurePeer) (m : SecureMessage)
      → IsInSync s r
      → m.ratchet_key ≡ s.dh_public
      → m.nonce ≡ s.send_nonce
      → open_message x r m ≡ open_chain x r m
  unfolding open_message
  open_message-IsInSync s r m v dh n =
      let unknown : lookup (skip_key m.ratchet_key m.nonce) r.skipped_messages ≡ none =
        rw (dh, n) (v.fresh s.send_nonce (omega arith)) in
      rw (unknown, open_message, is_new_epoch-known x r m s.dh_public v.remote dh)
        (open_next_now x r m (n ∙ sym v.count))

  pub encrypt-settled :
      (s : SecurePeer) (pair : KeyPair) (who text : Bytes)
      → s.pending_dh_ratchet ≡ false
      → encrypt x s pair who text ≡ encrypt_chain x s who text
  unfolding encrypt
  encrypt-settled s pair who text e = rw e

  pub decrypt-IsSealed :
      (s r : SecurePeer) (who text wire : Bytes)
      → IsInSync s r
      → s.send_nonce < max_wire_nonce
      → IsSealed x
          (record s { send_ck = (ratchet_step x s.send_ck).0 })
          (ratchet_step x s.send_ck).1
          who
          text
          wire
      → decrypt x r wire ≡ (
        ok (who, text),
        record r { recv_ck = (ratchet_step x s.send_ck).0; recv_nonce = s.send_nonce + 1 },
      )
  unfolding decrypt open_chain sealed_message
  decrypt-IsSealed s r who text wire v small sealed =
      let s' = record s { send_ck = (ratchet_step x s.send_ck).0 } in
      let mk = (ratchet_step x s.send_ck).1 in
      let m = sealed_message x s' mk who text in
      let t = x.hmac s.hmac_key sealed.canonical in
      rw (
        authenticate-IsSealed s' r mk who text wire v.mac small sealed,
        decrypt,
        open_message-IsInSync s r (record m { tag = t }) v refl refl,
        v.chain,
        v.count,
        decrypt_with_key-IsSealed s' mk who text wire t sealed,
      )

  -- A frame that the sender in step with a receiver writes is decrypted by that receiver to its
  -- sender and text, and both are in step for the next one; the counter is below 2^31.
  pub decrypt-encrypt :
      (s r : SecurePeer) (pair : KeyPair) (who text wire : Bytes)
      → IsInSync s r
      → s.send_nonce < max_wire_nonce
      → (encrypt x s pair who text).0 ≡ ok wire
      → ((decrypt x r wire).0 ≡ ok (who, text))
        × IsInSync (encrypt x s pair who text).1 (decrypt x r wire).1
  decrypt-encrypt s r pair who text wire v small e =
      let (sealed, after) =
        encrypt_chain-ok s who text wire (rw (encrypt-settled s pair who text v.settled) at e) in
      let received =
        decrypt-IsSealed s r who text wire v small
          (seal_frame-IsSealed x _ _ who text wire sealed) in
      (
        ap (λ o. o.0) received,
        rw (received, encrypt-settled s pair who text v.settled, after)
            (record {
              chain = refl;
              count = refl;
              mac = v.mac;
              remote = v.remote;
              settled = v.settled;
              fresh = λ i h. v.fresh i (omega arith);
            }),
      )

join_sent : CryptoResult Bytes → Option (List Bytes) → Option (List Bytes)
join_sent (err e) rest = none
join_sent (ok wire) none = none
join_sent (ok wire) (some wires) = some (wire ∷ wires)

join_sent-some :
    (sent : CryptoResult Bytes) (rest : Option (List Bytes)) (wires : List Bytes)
    → join_sent sent rest ≡ some wires
    → (w : Bytes) × (ws : List Bytes) × (sent ≡ ok w) × (rest ≡ some ws) × (wires ≡ w ∷ ws)
unfolding join_sent
join_sent-some (err e) rest wires h = absurd (ground arith)
join_sent-some (ok w) none wires h = absurd (ground arith)
join_sent-some (ok w) (some ws) wires h = (w, ws, refl, refl, ground arith)

module _ (x : External) where
  -- A run of sends that stops at the first failure, and the results of reading frames in order.
  unfoldable pub encrypt_all : SecurePeer → KeyPair → Bytes → List Bytes → Option (List Bytes)
  unfolding join_sent
  encrypt_all s pair who [] = some []
  encrypt_all s pair who (text ∷ texts) =
      let (sent, s') = encrypt x s pair who text in
      let rest = encrypt_all s' pair who texts in join_sent sent rest

  unfoldable pub decrypt_all : SecurePeer → List Bytes → List (CryptoResult (Bytes × Bytes))
  decrypt_all r [] = []
  decrypt_all r (wire ∷ wires) = (decrypt x r wire).0 ∷ decrypt_all (decrypt x r wire).1 wires

module _ (x : External) (laws : Laws x) where
  send_nonce-encrypt :
      (s : SecurePeer) (pair : KeyPair) (who text wire : Bytes)
      → s.pending_dh_ratchet ≡ false
      → (encrypt x s pair who text).0 ≡ ok wire
      → (encrypt x s pair who text).1.send_nonce ≡ s.send_nonce + 1
  send_nonce-encrypt s pair who text wire settled e =
      rw (encrypt-settled x laws s pair who text settled) (
        ap (λ (sp : SecurePeer). sp.send_nonce)
          (encrypt_chain-ok x laws s who text wire
            (rw (encrypt-settled x laws s pair who text settled) at e)).1)

  -- Every message of a run that an end in step with a receiver sends is decrypted there, in order,
  -- to its sender and text, as long as the counter stays within 2^31.
  pub decrypt_all-encrypt_all :
      (s r : SecurePeer) (pair : KeyPair) (who : Bytes) (texts wires : List Bytes)
      → IsInSync s r
      → s.send_nonce + length texts ≤ max_wire_nonce
      → encrypt_all x s pair who texts ≡ some wires
      → decrypt_all x r wires ≡ map (λ text. ok (who, text)) texts
  unfolding encrypt_all decrypt_all
  decrypt_all-encrypt_all s r pair who [] wires v small e =
      let same : [] ≡ wires = ground arith in subst (λ ws. decrypt_all x r ws ≡ []) same refl
  decrypt_all-encrypt_all s r pair who (text ∷ texts) wires v small e =
      let (w, ws, sent, rest, split) = join_sent-some _ _ wires e in
      let (read, v') = decrypt-encrypt x laws s r pair who text w v (omega arith) sent in
      let count = send_nonce-encrypt s pair who text w v.settled sent in
      rw (split, decrypt_all, read)
        (ap (λ rs. ok (who, text) ∷ rs)
          (decrypt_all-encrypt_all (encrypt x s pair who text).1 (decrypt x r w).1 pair who texts ws
            v' (omega arith) rest))
