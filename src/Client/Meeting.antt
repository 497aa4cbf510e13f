-- ===== src/Client/Meeting.antt =====
-- client/client.go and core/engine.go: CreateOffer, AcceptOffer and FinishHandshake of two clients.
use nex_talk.Base.{◌≡◌, ◌≢◌, refl, false, some, Bytes, is_empty, ok}
use nex_talk.External.{External, Laws}
use nex_talk.External.Suite.{Suite, SuiteLaws}
use nex_talk.Crypto.Ratchet.{KeyPair}
use nex_talk.Crypto.Ratchet.Conversation.{Linked}
use nex_talk.Crypto.Handshake.{Peer, shown, get_sign, get_dilithium_sign, build_sign_message}
use nex_talk.Core.Wire.{
  LegacyJson, HandShakeAnswer, offer_fields, answer_fields, decode_answer, peek_answer_sender_id,
}
use nex_talk.Core.Wire.RoundTrip.{decode_answer-encode}
use nex_talk.Core.Engine.{Drawn, peer_of, offer_of, answer_of, mark_seen, contains, seen_offers_of}
use nex_talk.Core.Engine.Steps.{IsIdentity, IsDrawn, id_bytes}
use nex_talk.Core.Engine.Completion.{finish_handshake-accept_offer}
use nex_talk.Client.{Client, identity_of, session_of, create_offer, accept_offer, finish_handshake}
use nex_talk.Client.Handshakes.{create_offer-ok, accept_offer-ok, finish_handshake-ok}

peek-decoded :
    (x : External) (legacy : LegacyJson) (wire : Bytes) (answer : HandShakeAnswer)
    → decode_answer x legacy wire ≡ some answer
    → peek_answer_sender_id x legacy wire ≡ some answer.sender_id
unfolding peek_answer_sender_id
peek-decoded x legacy wire answer e = rw (peek_answer_sender_id, e) refl

-- Two clients with different keys meet: the offer that `a` makes for `b`, the answer that `b` gives to
-- it and the end of the handshake at `a` succeed, and then each holds under the other's ID a session
-- that is linked with the other's. Both IDs are those of the keys and `b`'s is not empty, the offer is
-- new to `b`, both messages can be encoded, the encapsulation gives a ciphertext, and the ephemeral
-- keys have a secret.
pub finish_handshake-Linked :
    (x : External) (y : Suite) (laws : Laws x) (suite : SuiteLaws x y) (legacy : LegacyJson)
    (a b : Client) (d e : Drawn) (kyber_a kyber_b : KeyPair) (ciphertext secret offer wire : Bytes)
    → IsIdentity x y (identity_of a)
    → IsIdentity x y (identity_of b)
    → IsDrawn y d kyber_a
    → IsDrawn y e kyber_b
    → y.sha256 a.identity_public ≢ y.sha256 b.identity_public
    → is_empty b.id ≡ false
    → is_empty d.offer_id ≡ false
    → contains (seen_offers_of (session_of b.sessions a.id)) (y.base58_encode d.offer_id) ≡ false
    → y.encapsulate kyber_a.public e.coins ≡ some (ciphertext, secret)
    → is_empty ciphertext ≡ false
    → is_empty (x.x25519 e.ephemeral.priv d.ephemeral.public) ≡ false
    → x.encode_id (
        offer_fields (
          offer_of x y
            (identity_of a)
            (peer_of (identity_of a) d kyber_a)
            d.offer_id
            (id_bytes y (identity_of b))))
      ≡ some offer
    → x.encode_id (
        answer_fields (
          answer_of x y
            (identity_of b)
            (peer_of (identity_of b) e kyber_b)
            d.offer_id
            (id_bytes y (identity_of a))
            ciphertext))
      ≡ some wire
    → (p q : Peer) × ((create_offer x y legacy a d b.id).0 ≡ ok offer)
      × ((accept_offer x y legacy b e offer).0 ≡ ok wire)
      × ((finish_handshake x y legacy (create_offer x y legacy a d b.id).1 wire).0 ≡ ok b.id)
      × (session_of
            (finish_handshake x y legacy (create_offer x y legacy a d b.id).1 wire).1.sessions
            b.id
          ≡ some p)
      × (session_of (accept_offer x y legacy b e offer).1.sessions a.id ≡ some q)
      × Linked y p.session q.session
unfolding identity_of answer_of mark_seen peer_of shown get_sign get_dilithium_sign
    build_sign_message
finish_handshake-Linked x y laws suite legacy a b d e kyber_a kyber_b ciphertext secret offer wire
      known_a known_b drawn_a drawn_b differ named given new sealed full point written encoded =
    let seen = seen_offers_of (session_of b.sessions a.id) in
    let (p, q, made, taken, done, linked) =
      finish_handshake-accept_offer x y laws suite (identity_of a) (identity_of b) d e kyber_a
        kyber_b seen ciphertext secret known_a known_b drawn_a drawn_b sealed point legacy
        (session_of b.sessions) offer wire differ written encoded refl given new full in
    let (sent, own, found, filed) = create_offer-ok x y legacy a d b.id offer _ made named in
    let (answered, held_b) = accept_offer-ok x y legacy b e offer a.id wire q taken in
    let peeked =
      peek-decoded x legacy wire _ (decode_answer-encode x y laws suite legacy _ wire encoded) in
    let (finished, held_a) =
      finish_handshake-ok x y legacy (create_offer x y legacy a d b.id).1 a.sessions.next wire b.id
        b.id p peeked found (rw (own, filed) done) in
    (p, q, sent, answered, finished, held_a, held_b, linked)
