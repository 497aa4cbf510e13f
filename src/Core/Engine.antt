-- ===== src/Core/Engine.antt =====
-- core/engine.go: the three steps of the handshake. What a step draws is an argument, and what it
-- changes of a pending peer is returned.
pub mod Accept
pub mod Steps
pub mod Completion
use nex_talk.Base.{
  ℕ, ◌≡◌, Bool, true, false, not, ◌||◌, Option, none, some, List, [], ◌∷◌, arith, Bytes, beq,
  is_empty, ◌==◌, if◌then◌else◌, Result, ok, err, ◌>>=◌, ◌>>◌, require, or_fail,
}
use nex_talk.External.{External}
use nex_talk.External.Suite.{Suite}
use nex_talk.Crypto.Ratchet.{SecurePeer, KeyPair, or_nil}
use nex_talk.Crypto.Handshake.{
  Peer, PeerKeys, Shown, HandshakeError, derive_peer_id, shown, handshake,
}
use nex_talk.Core.Wire.{
  HandShakeOffer, HandShakeAnswer, LegacyJson, offer_fields, answer_fields, decode_offer,
  decode_answer,
}

-- The caller's own identity, as each step is given it.
pub record Identity : Type 0 where
  pub id : Bytes
  pub ed25519_private : Bytes
  pub ed25519_public : Bytes
  pub dilithium_private : Bytes
  pub dilithium_public : Bytes

-- What crypto/rand gives to one step: keys of X25519, keys of Kyber unless that fails, the offer's ID
-- and the coins of the encapsulation.
pub record Drawn : Type 0 where
  pub ephemeral : KeyPair
  pub ratchet : KeyPair
  pub kyber : Option KeyPair
  pub offer_id : Bytes
  pub coins : Bytes

pub data EngineError : Type 0 where
  keygen_failed bad_peer_id marshal_failed bad_offer missing_offer_id wrong_recipient : EngineError
  sender_spoofed offer_replayed encapsulate_failed bad_sender_id bad_answer : EngineError
  missing_ciphertext decapsulate_failed bad_client_id : EngineError
  handshake_failed : HandshakeError → EngineError

-- The peer that newPeer fills in.
unfoldable pub peer_of : Identity → Drawn → KeyPair → Peer
peer_of me d kyber = record {
  keys = record {
    expected_peer_hash = none;
    identity_private = me.ed25519_private;
    identity_public = me.ed25519_public;
    pqc_sign_private = me.dilithium_private;
    pqc_sign_public = me.dilithium_public;
    priv = d.ephemeral.priv;
    public = d.ephemeral.public;
    pqc_private_key = kyber.priv;
    pqc_public_key = kyber.public;
    file_key = [];
    am_initiator = false;
    seen_offers = [];
  };
  session = record {
    dh_private = d.ratchet.priv;
    dh_public = d.ratchet.public;
    remote_dh_public = none;
    root_key = [];
    send_ck = [];
    recv_ck = [];
    hmac_key = [];
    send_nonce = 0;
    recv_nonce = 0;
    skipped_messages = [];
    pending_dh_ratchet = false;
  };
}

-- newPeer with no expected hash, as both its callers call it.
unfoldable pub new_peer : Identity → Drawn → Option Peer
new_peer me d = elim d.kyber [ none ↦ none | some kyber ↦ some (peer_of me d kyber) ]

-- The keys of a map to true.
unfoldable pub contains : List Bytes → Bytes → Bool
contains [] k = false
contains (j ∷ js) k = let rest = contains js k in beq j k || rest

-- `existing.SeenOffers` of a session that may be absent.
unfoldable pub seen_offers_of : Option Peer → List Bytes
seen_offers_of none = []
seen_offers_of (some p) = p.keys.seen_offers

-- The offer is marked as seen, beside those of the session before.
unfoldable pub mark_seen : List Bytes → Bytes → Peer → Peer
mark_seen seen offer_key p = record p { keys = record p.keys { seen_offers = offer_key ∷ seen } }

unfoldable pub lift_handshake : Result HandshakeError (Unit {0}) × Peer → Result EngineError Peer
lift_handshake (ok u, p) = ok p
lift_handshake (err e, p) = err (handshake_failed e)

module _ (x : External) (y : Suite) where
  unfoldable pub offer_of : Identity → Peer → Bytes → Bytes → HandShakeOffer
  offer_of me p offer_id peer_id = record {
    sender_id = me.id;
    recipient_id = peer_id;
    offer_id = offer_id;
    shown = shown x y p offer_id peer_id;
  }

  -- CreateOffer
  unfoldable pub create_offer : Identity → Drawn → Bytes → Result EngineError (Peer × Bytes)
  create_offer me d peer_id = do
    p ← or_fail (new_peer me d) keygen_failed
    peer_bytes ← or_fail (x.base58_decode peer_id) bad_peer_id
    wire ← or_fail (x.encode_id (offer_fields (offer_of me p d.offer_id peer_bytes))) marshal_failed
    ok (p, wire)

  unfoldable pub answer_of : Identity → Peer → Bytes → Bytes → Bytes → HandShakeAnswer
  answer_of me p offer_id sender ciphertext = record {
    sender_id = me.id;
    recipient_id = or_nil (x.base58_decode me.id);
    offer_id = offer_id;
    shown = shown x y p offer_id sender;
    kyber_ciphertext = ciphertext;
  }

  -- The tests of AcceptOffer on an offer that was decoded; `seen` are the offers that the session with
  -- its sender has seen.
  unfoldable pub check_offer :
      Identity → List Bytes → HandShakeOffer → Result EngineError (Unit {0})
  check_offer me seen offer = do
    require (not (is_empty offer.offer_id)) missing_offer_id
    require (beq (y.base58_encode offer.recipient_id) me.id) wrong_recipient
    require (beq (derive_peer_id x y offer.shown.id_pub offer.shown.dilithium_pub) offer.sender_id)
        sender_spoofed
    require (not (contains seen (y.base58_encode offer.offer_id))) offer_replayed

  -- AcceptOffer behind those tests: the peer and the answer.
  unfoldable pub respond :
      Identity → List Bytes → Drawn → HandShakeOffer → Result EngineError (Peer × Bytes)
  unfolding lift_handshake
  respond me seen d offer = do
    p ← or_fail (new_peer me d) keygen_failed
    (ciphertext, secret) ← or_fail (y.encapsulate offer.shown.kyber_pub d.coins) encapsulate_failed
    q ← lift_handshake (
        handshake x y (mark_seen seen (y.base58_encode offer.offer_id) p) offer.shown secret
          offer.offer_id (or_nil (x.base58_decode me.id)))
    sender ← or_fail (x.base58_decode offer.sender_id) bad_sender_id
    wire ←
        or_fail (x.encode_id (answer_fields (answer_of me q offer.offer_id sender ciphertext)))
          marshal_failed
    ok (q, wire)

  -- AcceptOffer: the sender, the peer and the answer. The sessions are read, not changed.
  unfoldable pub accept_offer :
      LegacyJson
      → Identity
      → (Bytes → Option Peer)
      → Drawn
      → Bytes
      → Result EngineError (Bytes × Peer × Bytes)
  accept_offer legacy me sessions d offer_bytes = do
    offer ← or_fail (decode_offer x legacy offer_bytes) bad_offer
    check_offer me (seen_offers_of (sessions offer.sender_id)) offer
    (q, wire) ← respond me (seen_offers_of (sessions offer.sender_id)) d offer
    ok (offer.sender_id, q, wire)

  -- FinishHandshake up to Handshake: the Kyber secret and the caller's own ID in bytes.
  unfoldable pub check_answer : Bytes → Peer → HandShakeAnswer → Result EngineError (Bytes × Bytes)
  check_answer my_id pending answer = do
    require (not (is_empty answer.kyber_ciphertext)) missing_ciphertext
    require
        (beq (derive_peer_id x y answer.shown.id_pub answer.shown.dilithium_pub) answer.sender_id)
        sender_spoofed
    secret ←
        or_fail (y.decapsulate pending.keys.pqc_private_key answer.kyber_ciphertext)
          decapsulate_failed
    my_bytes ← or_fail (x.base58_decode my_id) bad_client_id
    ok (secret, my_bytes)

  unfoldable pub finished : Bytes → Result HandshakeError (Unit {0}) → Result EngineError Bytes
  finished sender (ok u) = ok sender
  finished sender (err e) = err (handshake_failed e)

  unfoldable pub finish_with : Bytes → Peer → HandShakeAnswer → Result EngineError Bytes × Peer
  unfolding finished
  finish_with my_id pending answer = elim (check_answer my_id pending answer) [
    | err e ↦ (err e, pending)
    | ok (secret, my_bytes) ↦
        let (result, p) = handshake x y pending answer.shown secret answer.offer_id my_bytes in
        (finished answer.sender_id result, p)
  ]

  -- FinishHandshake
  unfoldable pub finish_handshake :
      LegacyJson → Bytes → Peer → Bytes → Result EngineError Bytes × Peer
  finish_handshake legacy my_id pending answer_bytes = elim (decode_answer x legacy answer_bytes) [
    | none ↦ (err bad_answer, pending)
    | some answer ↦ finish_with my_id pending answer
  ]
