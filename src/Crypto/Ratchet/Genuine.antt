-- ===== src/Crypto/Ratchet/Genuine.antt =====
-- crypto/kex_hybrid.go: what stands behind a text that Decrypt returns.
use nex_talk.Base.{
  ◌-◌, ◌≡◌, true, some, arith, Bytes, beq, beq_iff, ok, lookup, Option-cases, Result-cases, inl,
  inr,
}
use nex_talk.External.{External}
use nex_talk.Crypto.SecureMessage.{SecureMessage, hmac_payload, parse_secure_message}
use nex_talk.Crypto.Ratchet.{
  SecurePeer, int_to_bytes, associated, decrypt_with_key, authenticate, open_chain, open_next,
  open_message, decrypt, skip_key, advance, ratchet_step,
}

module _ (x : External) where
  -- The parsed frame, the bytes that its tag is of, and the key that opened it.
  pub record IsGenuine (sp : SecurePeer) (payload who text : Bytes) : Type 0 where
    pub frame : SecureMessage
    pub canonical : Bytes
    pub key : Bytes
    pub parsed : parse_secure_message x payload ≡ ok frame
    pub encoded : hmac_payload x frame ≡ some canonical
    pub tagged : frame.tag ≡ x.hmac sp.hmac_key canonical
    pub named : who ≡ frame.sender_id
    pub opened :
        x.open_sealed key
          (int_to_bytes frame.nonce 24)
          frame.ciphertext
          (associated x frame.ratchet_key frame.nonce)
        ≡ some text

  authenticate-ok :
      (sp : SecurePeer) (payload : Bytes) (msg : SecureMessage)
      → authenticate x sp payload ≡ ok msg
      → (canonical : Bytes) × (parse_secure_message x payload ≡ ok msg)
        × (hmac_payload x msg ≡ some canonical)
        × (msg.tag ≡ x.hmac sp.hmac_key canonical)
  unfolding authenticate
  authenticate-ok sp payload msg e = elim (Result-cases (parse_secure_message x payload)) [
    | inr (bad, failed) ↦ absurd (ground arith)
    | inl (m, parsed) ↦ elim (Option-cases (hmac_payload x m)) [
      | inl bad ↦ absurd (ground arith)
      | inr (c, encoded) ↦
          let same : m ≡ msg = ground arith in
          let tagged : beq m.tag (x.hmac sp.hmac_key c) ≡ true = ground arith in
          (
            c,
            ground arith,
            ground arith,
            ground (arith, (beq_iff m.tag (x.hmac sp.hmac_key c)).0 tagged),
          )
    ]
  ]

  decrypt_with_key-ok :
      (mk who text : Bytes) (msg : SecureMessage)
      → decrypt_with_key x mk msg ≡ ok (who, text)
      → (who ≡ msg.sender_id)
        × (x.open_sealed mk
              (int_to_bytes msg.nonce 24)
              msg.ciphertext
              (associated x msg.ratchet_key msg.nonce)
            ≡ some text)
  unfolding decrypt_with_key
  decrypt_with_key-ok mk who text msg e =
      elim (Option-cases (
        x.open_sealed mk (int_to_bytes msg.nonce 24) msg.ciphertext
          (associated x msg.ratchet_key msg.nonce))) [
            | inl bad ↦ absurd (ground arith)
            | inr (t, opened) ↦ (ground arith, ground arith)
          ]

  open_next-ok :
      (sp : SecurePeer) (msg : SecureMessage) (who text : Bytes)
      → (open_next x sp msg).0 ≡ ok (who, text)
      → (mk : Bytes) × (decrypt_with_key x mk msg ≡ ok (who, text))
  unfolding open_next open_chain
  open_next-ok sp msg who text e =
      ((ratchet_step x (advance x (msg.nonce - sp.recv_nonce) sp).recv_ck).1, ground arith)

  open_message-ok :
      (sp : SecurePeer) (msg : SecureMessage) (who text : Bytes)
      → (open_message x sp msg).0 ≡ ok (who, text)
      → (mk : Bytes) × (decrypt_with_key x mk msg ≡ ok (who, text))
  unfolding open_message
  open_message-ok sp msg who text e =
      elim (Option-cases (lookup (skip_key msg.ratchet_key msg.nonce) sp.skipped_messages)) [
        | inl unknown ↦ open_next-ok _ msg who text (rw (unknown, open_message) at e)
        | inr (mk, known) ↦ (mk, rw (known, open_message) at e)
      ]

  -- A text that a session decrypts comes from a frame whose tag is that of its canonical bytes under
  -- the session's key: the sender returned is the one that the tag covers, and the text is what the
  -- frame's ciphertext opens to under the frame's own ratchet key and counter.
  pub decrypt-IsGenuine :
      (sp : SecurePeer) (payload who text : Bytes)
      → (decrypt x sp payload).0 ≡ ok (who, text)
      → IsGenuine sp payload who text
  unfolding decrypt
  decrypt-IsGenuine sp payload who text e = elim (Result-cases (authenticate x sp payload)) [
    | inr (bad, failed) ↦ absurd (ground arith)
    | inl (msg, real) ↦
        let (canonical, parsed, encoded, tagged) = authenticate-ok sp payload msg real in
        let (mk, read) = open_message-ok sp msg who text (rw (real, decrypt) at e) in
        let (named, opened) = decrypt_with_key-ok mk who text msg read in
        record {
          frame = msg;
          canonical = canonical;
          key = mk;
          parsed = parsed;
          encoded = encoded;
          tagged = tagged;
          named = named;
          opened = opened;
        }
  ]
