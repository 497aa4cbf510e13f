-- ===== src/Crypto/Ratchet/Turns.antt =====
-- crypto/kex_hybrid.go and ratchet.go: two ends that take turns over a line that keeps the order.
use nex_talk.Base.{◌<◌, ◌≡◌, ◌≢◌, refl, ap, ◌∙◌, List, [], ◌∷◌, ◌++◌, append_assoc, Bytes, ok, map}
use nex_talk.External.{External, Laws}
use nex_talk.External.Suite.{Suite, SuiteLaws}
use nex_talk.Crypto.SecureMessage.{CryptoResult, max_wire_nonce}
use nex_talk.Crypto.Ratchet.{SecurePeer, KeyPair, encrypt, decrypt}
use nex_talk.Crypto.Ratchet.Conversation.{Linked, Linked-sym, speak}

-- A sender and its text.
abbrev pub Said : Type 0
Said = Bytes × Bytes

module _ (x : External) (y : Suite) where
  -- A conversation by turns. The speaker `a`, whose ID is `p`, writes frames to a queue, from which the
  -- listener `b` reads them in order, whenever it does; the turn changes when all are read. The lists
  -- are what is said from here on and what Decrypt returns from here on. Each frame is written with a
  -- key pair other than the writer's, and its counter is in the range of the wire.
  pub data Talks
      : Bytes
        → Bytes
        → SecurePeer
        → SecurePeer
        → List Bytes
        → List Said
        → List (CryptoResult Said)
        → Type 0 where
    silent : {p q : Bytes} {a b : SecurePeer} → Talks p q a b [] [] []
    over :
        {p q : Bytes} {a b : SecurePeer} {said : List Said} {heard : List (CryptoResult Said)}
        → Talks q p b a [] said heard
        → Talks p q a b [] said heard
    writes :
        {p q : Bytes} {a b : SecurePeer} {queue : List Bytes} {said : List Said}
        {heard : List (CryptoResult Said)} (pair : KeyPair) (text wire : Bytes)
        → pair.public ≡ y.x25519_base pair.priv
        → pair.public ≢ a.dh_public
        → a.send_nonce < max_wire_nonce
        → (encrypt x a pair p text).0 ≡ ok wire
        → Talks p q (encrypt x a pair p text).1 b (queue ++ wire ∷ []) said heard
        → Talks p q a b queue ((p, text) ∷ said) heard
    reads :
        {p q : Bytes} {a b : SecurePeer} {queue : List Bytes} {said : List Said}
        {heard : List (CryptoResult Said)} (wire : Bytes)
        → Talks p q a (decrypt x b wire).1 queue said heard
        → Talks p q a b (wire ∷ queue) said ((decrypt x b wire).0 ∷ heard)

module _ (x : External) where
  -- The queue is decrypted to the unread messages, and leaves the listener as the last session.
  data Delivers : SecurePeer → List Bytes → List Said → SecurePeer → Type 0 where
    none_left : {b : SecurePeer} → Delivers b [] [] b
    next :
        {b c : SecurePeer} {wire : Bytes} {m : Said} {queue : List Bytes} {unread : List Said}
        → (decrypt x b wire).0 ≡ ok m
        → Delivers (decrypt x b wire).1 queue unread c
        → Delivers b (wire ∷ queue) (m ∷ unread) c

  Delivers-snoc :
      {b c : SecurePeer} {queue : List Bytes} {unread : List Said} (wire : Bytes) (m : Said)
      → (decrypt x c wire).0 ≡ ok m
      → Delivers b queue unread c
      → Delivers b (queue ++ wire ∷ []) (unread ++ m ∷ []) (decrypt x c wire).1
  Delivers-snoc wire m e none_left = next e none_left
  Delivers-snoc wire m e (next f rest) = next f (Delivers-snoc wire m e rest)

module _ (x : External) (y : Suite) (laws : Laws x) (suite : SuiteLaws x y) where
  Talks-queued :
      {p q : Bytes} {a b c : SecurePeer} {queue : List Bytes} {unread said : List Said}
      {heard : List (CryptoResult Said)}
      → Delivers x b queue unread c
      → Linked y a c
      → Talks x y p q a b queue said heard
      → heard ≡ map ok (unread ++ said)
  Talks-queued none_left l silent = refl
  Talks-queued {a = a} {b = b} none_left l (over rest) =
      Talks-queued none_left (Linked-sym y a b l) rest
  Talks-queued {p = p} {a = a} {c = c} {unread = unread} d l
        (writes {said = said} pair text wire paired new small e rest) =
      let (read, l') = speak x y laws suite a c pair p text wire l.forth l paired new small e in
      Talks-queued (Delivers-snoc x wire (p, text) read d) l' rest
      ∙ ap (map ok) (append_assoc unread ((p, text) ∷ []) said)
  Talks-queued (next {m = m} e d) l (reads wire rest) =
      rw e (ap (λ hs. ok m ∷ hs) (Talks-queued d l rest))

  -- In a conversation by turns of linked ends, over a line that keeps the order and with any delay
  -- within a turn, each frame is decrypted to its sender and text, in order. Each frame comes with a
  -- key pair other than the writer's and a counter below 2^31, and a turn ends when its frames are read.
  pub Talks-heard :
      {p q : Bytes} {a b : SecurePeer} {said : List Said} {heard : List (CryptoResult Said)}
      → Linked y a b
      → Talks x y p q a b [] said heard
      → heard ≡ map ok said
  Talks-heard l talk = Talks-queued none_left l talk
