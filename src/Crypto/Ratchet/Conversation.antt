-- ===== src/Crypto/Ratchet/Conversation.antt =====
-- crypto/kex_hybrid.go and ratchet.go: two ends that take turns, with the ratchet step of Encrypt and
-- of Decrypt at each change of turn.
use nex_talk.Base.{
  ℕ, ◌+◌, ◌<◌, ◌≡◌, ◌≢◌, refl, sym, ap, ◌∙◌, true, false, some, [], arith, Bytes, beq_iff, ok,
  lookup, take, drop,
}
use nex_talk.External.{External, Laws}
use nex_talk.External.Suite.{Suite, SuiteLaws}
use nex_talk.Crypto.SecureMessage.{SecureMessage, max_wire_nonce}
use nex_talk.Crypto.Ratchet.{
  SecurePeer, KeyPair, or_nil, root_info, ratchet_step, rotate, encrypt, encrypt_chain, dh_ratchet,
  sealed_message, authenticate, is_new_epoch, open_message, open_next, decrypt,
}
use nex_talk.Crypto.Ratchet.Sync.{
  IsInSync, IsSealed, seal_frame-IsSealed, authenticate-IsSealed, decrypt-IsSealed,
  encrypt_chain-ok, encrypt-settled, is_new_epoch-known,
}

-- What `r` must hold to read the next message of `s`: the sender's chain, unless the sender turns
-- the ratchet first.
pub data Follows : SecurePeer → SecurePeer → Type 0 where
  settled :
      {s r : SecurePeer}
      → s.pending_dh_ratchet ≡ false
      → r.recv_ck ≡ s.send_ck
      → r.recv_nonce ≡ s.send_nonce
      → Follows s r
  turning : {s r : SecurePeer} → s.pending_dh_ratchet ≡ true → Follows s r

-- Nothing of what the other direction stands on changes with a frame.
Follows-other :
    (a b : SecurePeer) (send recv : Bytes) (m n : ℕ)
    → Follows b a
    → Follows
        (record b { recv_ck = recv; recv_nonce = n })
        (record a { send_ck = send; send_nonce = m })
Follows-other a b send recv m n (settled still chain count) = settled still chain count
Follows-other a b send recv m n (turning turns) = turning turns

module _ (y : Suite) where
  -- Two ends with no message under way.
  pub record Linked (a b : SecurePeer) : Type 0 where
    pub root : a.root_key ≡ b.root_key
    pub mac : a.hmac_key ≡ b.hmac_key
    pub remote_a : a.remote_dh_public ≡ some b.dh_public
    pub remote_b : b.remote_dh_public ≡ some a.dh_public
    pub paired_a : a.dh_public ≡ y.x25519_base a.dh_private
    pub paired_b : b.dh_public ≡ y.x25519_base b.dh_private
    pub none_a : a.skipped_messages ≡ []
    pub none_b : b.skipped_messages ≡ []
    pub forth : Follows a b
    pub back : Follows b a

  pub Linked-sym : (a b : SecurePeer) → Linked a b → Linked b a
  Linked-sym a b l = record {
    root = sym l.root;
    mac = sym l.mac;
    remote_a = l.remote_b;
    remote_b = l.remote_a;
    paired_a = l.paired_b;
    paired_b = l.paired_a;
    none_a = l.none_b;
    none_b = l.none_a;
    forth = l.back;
    back = l.forth;
  }

  Linked-IsInSync :
      (a b : SecurePeer)
      → Linked a b
      → a.pending_dh_ratchet ≡ false
      → b.recv_ck ≡ a.send_ck
      → b.recv_nonce ≡ a.send_nonce
      → IsInSync a b
  unfolding lookup
  Linked-IsInSync a b l still chain count = record {
    chain = chain;
    count = count;
    mac = sym l.mac;
    remote = l.remote_b;
    settled = still;
    fresh = λ i h. rw (l.none_b, lookup) refl;
  }

module _ (x : External) where
  decrypt-authentic :
      (r : SecurePeer) (wire : Bytes) (m : SecureMessage)
      → authenticate x r wire ≡ ok m
      → decrypt x r wire ≡ open_message x r m
  unfolding decrypt
  decrypt-authentic r wire m e = rw (e, decrypt) refl

  open_message-old :
      (r : SecurePeer) (m : SecureMessage) (dh : Bytes)
      → r.skipped_messages ≡ []
      → r.remote_dh_public ≡ some dh
      → m.ratchet_key ≡ dh
      → open_message x r m ≡ open_next x r m
  unfolding open_message lookup
  open_message-old r m dh nothing remote same =
      ground (arith, is_new_epoch-known x r m dh remote same)

  open_message-new :
      (r : SecurePeer) (m : SecureMessage) (dh : Bytes)
      → r.skipped_messages ≡ []
      → r.remote_dh_public ≡ some dh
      → m.ratchet_key ≢ dh
      → open_message x r m ≡ open_next x (dh_ratchet x r m.ratchet_key) m
  unfolding open_message is_new_epoch lookup
  open_message-new r m dh nothing remote new = ground (arith, beq_iff m.ratchet_key dh)

module _ (x : External) (y : Suite) (laws : Laws x) (suite : SuiteLaws x y) where
  Linked-sent :
      (a b : SecurePeer) (send : Bytes) (n : ℕ)
      → Linked y a b
      → a.pending_dh_ratchet ≡ false
      → Linked y
          (record a { send_ck = send; send_nonce = n })
          (record b { recv_ck = send; recv_nonce = n })
  Linked-sent a b send n l still = record {
    root = l.root;
    mac = l.mac;
    remote_a = l.remote_a;
    remote_b = l.remote_b;
    paired_a = l.paired_a;
    paired_b = l.paired_b;
    none_a = l.none_a;
    none_b = l.none_b;
    forth = settled still refl refl;
    back = Follows-other a b send send n n l.back;
  }

  -- The frame of a sender that keeps its chain.
  speak_settled :
      (a b : SecurePeer) (who text wire : Bytes)
      → Linked y a b
      → a.pending_dh_ratchet ≡ false
      → b.recv_ck ≡ a.send_ck
      → b.recv_nonce ≡ a.send_nonce
      → a.send_nonce < max_wire_nonce
      → (encrypt_chain x a who text).0 ≡ ok wire
      → ((decrypt x b wire).0 ≡ ok (who, text))
        × Linked y (encrypt_chain x a who text).1 (decrypt x b wire).1
  speak_settled a b who text wire l still chain count small e =
      let (sealed, after) = encrypt_chain-ok x laws a who text wire e in
      let received =
        decrypt-IsSealed x laws a b who text wire (Linked-IsInSync y a b l still chain count) small
          (seal_frame-IsSealed x _ _ who text wire sealed) in
      (
        ap (λ o. o.0) received,
        rw (received, after)
            (Linked-sent a b (ratchet_step x a.send_ck).0 (a.send_nonce + 1) l still),
      )

  -- The ratchet keys that both ends hold behind a turn.
  Linked-turned :
      (a b : SecurePeer) (pair : KeyPair)
      → Linked y a b
      → pair.public ≡ y.x25519_base pair.priv
      → Linked y (rotate x a pair) (dh_ratchet x b pair.public)
        × ((dh_ratchet x b pair.public).recv_ck ≡ (rotate x a pair).send_ck)
  unfolding rotate dh_ratchet
  Linked-turned a b pair l paired =
      let secret : x.x25519 pair.priv (or_nil a.remote_dh_public)
          ≡ x.x25519 b.dh_private pair.public =
        rw (l.remote_a, paired, l.paired_b) (suite.x25519_comm pair.priv b.dh_private) in
      let mats : x.hkdf (x.x25519 pair.priv (or_nil a.remote_dh_public)) a.root_key root_info 64
          ≡ x.hkdf (x.x25519 b.dh_private pair.public) b.root_key root_info 64 =
        rw (secret, l.root) in
      (
        record {
          root = ap (take 32) mats;
          mac = l.mac;
          remote_a = l.remote_a;
          remote_b = refl;
          paired_a = paired;
          paired_b = l.paired_b;
          none_a = l.none_a;
          none_b = l.none_b;
          forth = settled refl (sym (ap (drop 32) mats)) refl;
          back = turning refl;
        },
        sym (ap (drop 32) mats),
      )

  -- A frame under a key that the receiver does not know turns its ratchet first.
  decrypt_turned :
      (a b : SecurePeer) (mk who text wire : Bytes)
      → b.hmac_key ≡ a.hmac_key
      → b.skipped_messages ≡ []
      → a.send_nonce < max_wire_nonce
      → (known : Bytes) → b.remote_dh_public ≡ some known
      → a.dh_public ≢ known
      → IsSealed x a mk who text wire
      → decrypt x b wire ≡ decrypt x (dh_ratchet x b a.dh_public) wire
  unfolding sealed_message dh_ratchet
  decrypt_turned a b mk who text wire mac nothing small known remote new sealed =
      let b' = dh_ratchet x b a.dh_public in
      let m = record (sealed_message x a mk who text) {
        tag = x.hmac a.hmac_key sealed.canonical;
      } in
      decrypt-authentic x b wire m
        (authenticate-IsSealed x laws a b mk who text wire mac small sealed)
      ∙ open_message-new x b m known nothing remote new
      ∙ sym (open_message-old x b' m a.dh_public nothing refl refl)
      ∙ sym (
          decrypt-authentic x b' wire m
            (authenticate-IsSealed x laws a b' mk who text wire mac small sealed))

  encrypt-turning :
      (a : SecurePeer) (pair : KeyPair) (who text : Bytes)
      → a.pending_dh_ratchet ≡ true
      → encrypt x a pair who text ≡ encrypt_chain x (rotate x a pair) who text
  unfolding encrypt
  encrypt-turning a pair who text turns = rw turns refl

  speak_turning :
      (a b : SecurePeer) (pair : KeyPair) (who text wire : Bytes)
      → Linked y a b
      → pair.public ≡ y.x25519_base pair.priv
      → pair.public ≢ a.dh_public
      → (encrypt_chain x (rotate x a pair) who text).0 ≡ ok wire
      → ((decrypt x b wire).0 ≡ ok (who, text))
        × Linked y (encrypt_chain x (rotate x a pair) who text).1 (decrypt x b wire).1
  unfolding rotate dh_ratchet
  speak_turning a b pair who text wire l paired new e =
      let a' = rotate x a pair in
      let (l', chain) = Linked-turned a b pair l paired in
      let (sealed, after) = encrypt_chain-ok x laws a' who text wire e in
      let turned : decrypt x b wire ≡ decrypt x (dh_ratchet x b pair.public) wire =
        decrypt_turned (record a' { send_ck = (ratchet_step x a'.send_ck).0 }) b _ who text wire
          (sym l.mac) l.none_b (omega arith) a.dh_public l.remote_b new
          (seal_frame-IsSealed x _ _ who text wire sealed) in
      rw turned (
        speak_settled a' (dh_ratchet x b pair.public) who text wire l' refl chain refl (omega arith)
          e)

  -- A frame between linked ends is decrypted to its sender and text, and the ends are linked behind
  -- it.
  pub speak :
      (a b : SecurePeer) (pair : KeyPair) (who text wire : Bytes)
      → Follows a b
      → Linked y a b
      → pair.public ≡ y.x25519_base pair.priv
      → pair.public ≢ a.dh_public
      → a.send_nonce < max_wire_nonce
      → (encrypt x a pair who text).0 ≡ ok wire
      → ((decrypt x b wire).0 ≡ ok (who, text))
        × Linked y (encrypt x a pair who text).1 (decrypt x b wire).1
  speak a b pair who text wire (settled still chain count) l paired new small e =
      let shut = encrypt-settled x laws a pair who text still in
      rw shut (speak_settled a b who text wire l still chain count small (rw shut at e))
  speak a b pair who text wire (turning turns) l paired new small e =
      let shut = encrypt-turning a pair who text turns in
      rw shut (speak_turning a b pair who text wire l paired new (rw shut at e))
