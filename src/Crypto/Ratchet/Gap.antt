-- ===== src/Crypto/Ratchet/Gap.antt =====
-- crypto/kex_hybrid.go: Decrypt, for two messages of a chain in the wrong order.
use nex_talk.Base.{
  ◌+◌, ◌-◌, ◌<◌, ◌≡◌, refl, sym, ap, ◌∙◌, subst, none, some, arith, Bytes, beq_refl, ok, lookup,
  lookup-insert,
}
use nex_talk.External.{External, Laws}
use nex_talk.Crypto.SecureMessage.{SecureMessage, max_wire_nonce}
use nex_talk.Crypto.Ratchet.{
  SecurePeer, KeyPair, skip_key, ratchet_step, sealed_message, encrypt, stash, advance,
  decrypt_with_key, open_chain, open_next, open_message, decrypt,
}
use nex_talk.Crypto.Ratchet.Replay.{decrypt-authentic}
use nex_talk.Crypto.Ratchet.Sync.{
  IsInSync, IsSealed, seal_frame-IsSealed, authenticate-IsSealed, decrypt_with_key-IsSealed,
  encrypt_chain-ok, encrypt-settled, is_new_epoch-known,
}

module _ (x : External) where
  open_next-ahead :
      (r : SecurePeer) (m : SecureMessage)
      → m.nonce ≡ r.recv_nonce + 1
      → open_next x r m ≡ open_chain x (stash x r) m
  unfolding open_next advance
  open_next-ahead r m n =
      let one : m.nonce - r.recv_nonce ≡ 1 = omega arith in rw one (ground arith)

  open_message-ahead :
      (r : SecurePeer) (m : SecureMessage)
      → r.remote_dh_public ≡ some m.ratchet_key
      → m.nonce ≡ r.recv_nonce + 1
      → lookup (skip_key m.ratchet_key m.nonce) r.skipped_messages ≡ none
      → open_message x r m ≡ open_chain x (stash x r) m
  unfolding open_message
  open_message-ahead r m same n unknown =
      rw (unknown, open_message, is_new_epoch-known x r m m.ratchet_key same refl)
        (open_next-ahead r m n)

  open_message-kept :
      (r : SecurePeer) (m : SecureMessage) (mk : Bytes)
      → lookup (skip_key m.ratchet_key m.nonce) r.skipped_messages ≡ some mk
      → (open_message x r m).0 ≡ decrypt_with_key x mk m
  unfolding open_message
  open_message-kept r m mk known = rw (known, open_message) refl

  -- The key of the message that was passed over.
  stash-kept :
      (r : SecurePeer) (dh : Bytes)
      → r.remote_dh_public ≡ some dh
      → lookup (skip_key dh r.recv_nonce) (stash x r).skipped_messages
        ≡ some (ratchet_step x r.recv_ck).1
  unfolding stash
  stash-kept r dh same = rw (same, lookup-insert, beq_refl) refl

module _ (x : External) (laws : Laws x) where
  decrypt-kept :
      (s r : SecurePeer) (mk who text wire : Bytes)
      → IsSealed x s mk who text wire
      → r.hmac_key ≡ s.hmac_key
      → s.send_nonce < max_wire_nonce
      → lookup (skip_key s.dh_public s.send_nonce) r.skipped_messages ≡ some mk
      → (decrypt x r wire).0 ≡ ok (who, text)
  unfolding sealed_message
  decrypt-kept s r mk who text wire sealed mac small known =
      let m = record (sealed_message x s mk who text) {
        tag = x.hmac s.hmac_key sealed.canonical;
      } in
      rw
        (decrypt-authentic x r wire m
          (authenticate-IsSealed x laws s r mk who text wire mac small sealed))
        (open_message-kept x r m mk known
          ∙ decrypt_with_key-IsSealed x laws s mk who text wire _ sealed)

  decrypt-ahead :
      (s r : SecurePeer) (mk who text wire : Bytes)
      → IsSealed x s mk who text wire
      → r.hmac_key ≡ s.hmac_key
      → s.send_nonce < max_wire_nonce
      → r.remote_dh_public ≡ some s.dh_public
      → s.send_nonce ≡ r.recv_nonce + 1
      → lookup (skip_key s.dh_public s.send_nonce) r.skipped_messages ≡ none
      → mk ≡ (ratchet_step x (stash x r).recv_ck).1
      → ((decrypt x r wire).0 ≡ ok (who, text))
        × ((decrypt x r wire).1.skipped_messages ≡ (stash x r).skipped_messages)
        × ((decrypt x r wire).1.hmac_key ≡ r.hmac_key)
  unfolding sealed_message open_chain
  decrypt-ahead s r mk who text wire sealed mac small remote n unknown next =
      let m = record (sealed_message x s mk who text) {
        tag = x.hmac s.hmac_key sealed.canonical;
      } in
      let read = decrypt_with_key-IsSealed x laws s mk who text wire m.tag sealed in
      rw
        (
          decrypt-authentic x r wire m
              (authenticate-IsSealed x laws s r mk who text wire mac small sealed),
          open_message-ahead x r m remote n unknown,
        )
        (subst (λ k. decrypt_with_key x k m ≡ ok (who, text)) next read, refl, unfold stash in refl)

  -- Two messages that an end in step with a receiver sends one behind the other are both decrypted
  -- there to the sender and their texts when the second comes first; the counters are below 2^31.
  pub decrypt_swapped :
      (s r : SecurePeer) (pair : KeyPair) (who first second w1 w2 : Bytes)
      → IsInSync s r
      → s.send_nonce + 1 < max_wire_nonce
      → (encrypt x s pair who first).0 ≡ ok w1
      → (encrypt x (encrypt x s pair who first).1 pair who second).0 ≡ ok w2
      → ((decrypt x r w2).0 ≡ ok (who, second))
        × ((decrypt x (decrypt x r w2).1 w1).0 ≡ ok (who, first))
  decrypt_swapped s r pair who first second w1 w2 v small e1 e2 =
      let (sealed1, after) =
        encrypt_chain-ok x laws s who first w1
          (rw (encrypt-settled x laws s pair who first v.settled) at e1) in
      let s1 = record s { send_ck = (ratchet_step x s.send_ck).0; send_nonce = s.send_nonce + 1 } in
      let moved : (encrypt x s pair who first).1 ≡ s1 =
        ap (λ o. o.1) (encrypt-settled x laws s pair who first v.settled) ∙ after in
      let (sealed2, after2) = encrypt_chain-ok x laws s1 who second w2 (
        rw (encrypt-settled x laws s1 pair who second v.settled) at
          (subst (λ (t : SecurePeer). (encrypt x t pair who second).0 ≡ ok w2) moved e2)) in
      let unknown : lookup (skip_key s.dh_public (s.send_nonce + 1)) r.skipped_messages ≡ none =
        v.fresh (s.send_nonce + 1) (omega arith) in
      let next : (ratchet_step x s1.send_ck).1 ≡ (ratchet_step x (stash x r).recv_ck).1 =
        unfold stash in ap (λ ck. (ratchet_step x (ratchet_step x ck).0).1) (sym v.chain) in
      let (read, kept, mac) =
        decrypt-ahead (record s1 { send_ck = (ratchet_step x s1.send_ck).0 }) r
          (ratchet_step x s1.send_ck).1 who second w2
          (seal_frame-IsSealed x _ _ who second w2 sealed2) v.mac small v.remote
          (omega (arith, v.count)) unknown next in
      let known : lookup (skip_key s.dh_public s.send_nonce) (decrypt x r w2).1.skipped_messages
          ≡ some (ratchet_step x s.send_ck).1 =
        ap (lookup (skip_key s.dh_public s.send_nonce)) kept
        ∙ ap (λ n. lookup (skip_key s.dh_public n) (stash x r).skipped_messages) (sym v.count)
        ∙ stash-kept x r s.dh_public v.remote
        ∙ ap (λ ck. some (ratchet_step x ck).1) v.chain in
      (
        read,
        decrypt-kept (record s { send_ck = (ratchet_step x s.send_ck).0 }) (decrypt x r w2).1
            (ratchet_step x s.send_ck).1 who first w1
            (seal_frame-IsSealed x _ _ who first w1 sealed1) (mac ∙ v.mac) (omega (arith, small))
            known,
      )
