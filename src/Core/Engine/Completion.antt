-- ===== src/Core/Engine/Completion.antt =====
-- core/engine.go: the three steps between two clients.
use nex_talk.Base.{
  ◌≡◌, ◌≢◌, refl, sym, ap, ◌∙◌, subst, false, Option, some, List, Bytes, is_empty, ok,
}
use nex_talk.External.{External, Laws}
use nex_talk.External.Suite.{Suite, SuiteLaws}
use nex_talk.Crypto.Ratchet.{KeyPair, or_nil}
use nex_talk.Crypto.Ratchet.Conversation.{Linked}
use nex_talk.Crypto.Handshake.{
  Peer, shown, get_sign, get_dilithium_sign, build_sign_message, establish,
}
use nex_talk.Crypto.Handshake.Agreement.{IsFresh, establish-Linked, handshake-shown}
use nex_talk.Core.Wire.{LegacyJson, offer_fields, answer_fields}
use nex_talk.Core.Wire.RoundTrip.{decode_offer-encode, decode_answer-encode}
use nex_talk.Core.Engine.{
  Identity, Drawn, peer_of, new_peer, contains, seen_offers_of, mark_seen, offer_of, create_offer,
  answer_of, respond, accept_offer, finish_handshake,
}
use nex_talk.Core.Engine.Steps.{
  IsIdentity, IsDrawn, id_bytes, base58_decode-id, peer_of-IsFresh, mark_seen-IsFresh,
  create_offer-ok, check_offer-ok, respond_steps, finish_steps,
}

-- `a` offers and draws `d` and `kyber_a`; `b` accepts, draws `e` and `kyber_b`, and has seen the offers
-- `seen` in its session with `a`.
module _ (x : External) (y : Suite) (laws : Laws x) (suite : SuiteLaws x y) (a b : Identity)
    (d e : Drawn) (kyber_a kyber_b : KeyPair) (seen : List Bytes) (ciphertext secret : Bytes)
    (known_a : IsIdentity x y a) (known_b : IsIdentity x y b) (drawn_a : IsDrawn y d kyber_a)
    (drawn_b : IsDrawn y e kyber_b)
    (sealed : y.encapsulate kyber_a.public e.coins ≡ some (ciphertext, secret))
    (point : is_empty (x.x25519 e.ephemeral.priv d.ephemeral.public) ≡ false) where
  abbrev pub offerer : Peer
  offerer = peer_of a d kyber_a

  abbrev pub accepter : Peer
  accepter = mark_seen seen (y.base58_encode d.offer_id) (peer_of b e kyber_b)

  offerer-IsFresh : IsFresh y offerer
  offerer-IsFresh = peer_of-IsFresh x y laws suite a d kyber_a known_a drawn_a

  accepter-IsFresh : IsFresh y accepter
  accepter-IsFresh =
      mark_seen-IsFresh x y laws suite seen _ _
        (peer_of-IsFresh x y laws suite b e kyber_b known_b drawn_b)

  -- The two sessions behind the handshake.
  abbrev pub offered : Peer
  offered =
      establish x y offerer (shown x y accepter d.offer_id (id_bytes y a))
        (x.x25519 offerer.keys.priv accepter.keys.public) secret

  abbrev pub accepted : Peer
  accepted =
      establish x y accepter (shown x y offerer d.offer_id (id_bytes y b))
        (x.x25519 accepter.keys.priv offerer.keys.public) secret

  respond-ok :
      (wire : Bytes)
      → x.encode_id (answer_fields (answer_of x y b accepted d.offer_id (id_bytes y a) ciphertext))
        ≡ some wire
      → respond x y b seen e (offer_of x y a offerer d.offer_id (id_bytes y b))
        ≡ ok (accepted, wire)
  unfolding peer_of mark_seen new_peer offer_of shown
  respond-ok wire encoded =
      respond_steps x y laws suite b e seen _ (peer_of b e kyber_b) accepted ciphertext secret
        (id_bytes y a) (id_bytes y b) wire (rw drawn_b.drawn refl) sealed
        (ap or_nil (base58_decode-id x y laws suite b known_b))
        (handshake-shown x y suite accepter offerer secret d.offer_id (id_bytes y b)
          accepter-IsFresh offerer-IsFresh known_a.long point)
        (base58_decode-id x y laws suite a known_a) encoded

  -- AcceptOffer of what CreateOffer wrote.
  accept_offer-ok :
      (legacy : LegacyJson) (sessions : Bytes → Option Peer) (offer wire : Bytes)
      → x.encode_id (offer_fields (offer_of x y a offerer d.offer_id (id_bytes y b))) ≡ some offer
      → x.encode_id (answer_fields (answer_of x y b accepted d.offer_id (id_bytes y a) ciphertext))
        ≡ some wire
      → seen_offers_of (sessions a.id) ≡ seen
      → is_empty d.offer_id ≡ false
      → contains seen (y.base58_encode d.offer_id) ≡ false
      → accept_offer x y legacy b sessions e offer ≡ ok (a.id, accepted, wire)
  unfolding offer_of accept_offer establish
  accept_offer-ok legacy sessions offer wire written encoded before given new =
      let decoded =
        decode_offer-encode x y laws suite legacy (offer_of x y a offerer d.offer_id (id_bytes y b))
          offer written in
      let tested = check_offer-ok x y laws suite b a d kyber_a seen known_b known_a given new in
      rw (decoded, accept_offer, before, tested, respond-ok wire encoded) refl

  -- FinishHandshake on what AcceptOffer wrote.
  finish_handshake-ok :
      (legacy : LegacyJson) (wire : Bytes)
      → x.encode_id (answer_fields (answer_of x y b accepted d.offer_id (id_bytes y a) ciphertext))
        ≡ some wire
      → is_empty ciphertext ≡ false
      → finish_handshake x y legacy a.id offerer wire ≡ (ok b.id, offered)
  unfolding answer_of peer_of mark_seen establish shown get_sign get_dilithium_sign
      build_sign_message
  finish_handshake-ok legacy wire encoded given =
      let same : x.x25519 offerer.keys.priv accepter.keys.public
          ≡ x.x25519 accepter.keys.priv offerer.keys.public =
        rw (drawn_a.ephemeral, drawn_b.ephemeral)
          (suite.x25519_comm d.ephemeral.priv e.ephemeral.priv) in
      finish_steps x y laws suite legacy a.id (id_bytes y a) wire secret offerer offered
        (answer_of x y b accepted d.offer_id (id_bytes y a) ciphertext)
        (decode_answer-encode x y laws suite legacy _ wire encoded) given (sym known_b.named)
        (suite.decapsulate-encapsulate kyber_a.priv e.coins ciphertext secret
          (subst (λ k. y.encapsulate k e.coins ≡ some (ciphertext, secret)) drawn_a.paired sealed))
        (base58_decode-id x y laws suite a known_a)
        (handshake-shown x y suite offerer accepter secret d.offer_id (id_bytes y a) offerer-IsFresh
          accepter-IsFresh known_b.long (ap is_empty same ∙ point))

  -- The three steps between two clients with different keys come to an end: the offer that `a` makes
  -- for `b` is accepted, the answer is too, each step names the other end, and the two sessions are
  -- linked. The offer is new to `b`, both messages can be encoded, the encapsulation gives a
  -- ciphertext, and the ephemeral keys have a secret.
  pub finish_handshake-accept_offer :
      (legacy : LegacyJson) (sessions : Bytes → Option Peer) (offer wire : Bytes)
      → y.sha256 a.ed25519_public ≢ y.sha256 b.ed25519_public
      → x.encode_id (offer_fields (offer_of x y a offerer d.offer_id (id_bytes y b))) ≡ some offer
      → x.encode_id (answer_fields (answer_of x y b accepter d.offer_id (id_bytes y a) ciphertext))
        ≡ some wire
      → seen_offers_of (sessions a.id) ≡ seen
      → is_empty d.offer_id ≡ false
      → contains seen (y.base58_encode d.offer_id) ≡ false
      → is_empty ciphertext ≡ false
      → (p q : Peer) × (create_offer x y a d b.id ≡ ok (offerer, offer))
        × (accept_offer x y legacy b sessions e offer ≡ ok (a.id, q, wire))
        × (finish_handshake x y legacy a.id offerer wire ≡ (ok b.id, p))
        × Linked y p.session q.session
  unfolding answer_of peer_of mark_seen establish shown get_sign get_dilithium_sign
      build_sign_message
  finish_handshake-accept_offer legacy sessions offer wire differ written encoded before given new
        full =
      (
        offered,
        accepted,
        create_offer-ok x y laws suite a b d kyber_a offer known_b drawn_a written,
        accept_offer-ok legacy sessions offer wire written encoded before given new,
        finish_handshake-ok legacy wire encoded full,
        establish-Linked x y suite offerer accepter secret d.offer_id (id_bytes y a) d.offer_id
            (id_bytes y b) offerer-IsFresh accepter-IsFresh differ,
      )
