-- ===== src/Examples/Meeting.antt =====
-- A run of the handshake of two clients.
use nex_talk.Base.{
  ℕ, ◌≡◌, ◌≢◌, ◌+◌, refl, true, false, Option, none, some, List, [], ◌∷◌, ◌++◌, arith, Bytes, codes,
  is_empty, ok, err,
}
use mathlib.Core.List.Memᴰ
use nex_talk.Crypto.Ratchet.{KeyPair, or_nil}
use nex_talk.Crypto.Ratchet.Conversation.{Linked}
use nex_talk.Crypto.Handshake.{Peer, Shown, PeerKeys, derive_peer_id}
use nex_talk.Core.Wire.{LegacyJson, HandShakeOffer, offer_fields, answer_fields, decode_offer}
use nex_talk.Core.Engine.{
  Identity, Drawn, EngineError, offer_replayed, peer_of, offer_of, answer_of, contains,
  seen_offers_of, mark_seen,
}
use nex_talk.Core.Engine
use nex_talk.Core.Engine.Steps.{IsIdentity, IsDrawn, id_bytes}
use nex_talk.Core.Engine.Accept.{IsAuthentic, accept_offer-IsAuthentic, accept_offer_once}
use nex_talk.Core.Engine.Completion.{finish_handshake-accept_offer}
use nex_talk.Client.{Client, identity_of, session_of, create_offer, accept_offer, finish_handshake}
use nex_talk.Client.Meeting.{finish_handshake-Linked}
use nex_talk.Examples.Toy.{toy, toy_suite, toy-Laws, toy-SuiteLaws, zeros}
use nex_talk.Examples.Session.{no_keys, alice}

-- No message of an older build is read.
abbrev no_json : LegacyJson
no_json = record { read_offer = λ b. none; read_answer = λ b. none }

new_client : Bytes → Client
unfolding zeros
new_client key = record {
  id = 200 ∷ key ++ zeros 32;
  identity_private = key;
  identity_public = key;
  dilithium_private = 3 ∷ [];
  dilithium_public = 3 ∷ [];
  sessions = record { table = []; peers = λ a. alice; keys = λ a. no_keys; next = 0 };
  saved = none;
  ephemeral = false;
  writable = true;
}

ann : Client
unfolding new_client zeros
ann = new_client (zeros 32)

ben : Client
unfolding new_client zeros
ben = new_client (1 ∷ zeros 31)

abbrev drawn_pair : ℕ → KeyPair
drawn_pair n = record { priv = n ∷ []; public = n ∷ [] }

abbrev draws : ℕ → Drawn
draws n = record {
  ephemeral = drawn_pair n;
  ratchet = drawn_pair (n + 1);
  kyber = some (drawn_pair (n + 2));
  offer_id = 9 ∷ [];
  coins = [];
}

draws-IsDrawn : (n : ℕ) → IsDrawn toy_suite (draws n) (drawn_pair (n + 2))
unfolding toy_suite
draws-IsDrawn n = record { drawn = refl; paired = refl; ephemeral = refl; ratchet = refl }

ann-IsIdentity : IsIdentity toy toy_suite (identity_of ann)
unfolding ann new_client zeros identity_of toy_suite derive_peer_id
ann-IsIdentity = record { named = refl; ed25519 = refl; dilithium = refl; long = refl }

ben-IsIdentity : IsIdentity toy toy_suite (identity_of ben)
unfolding ben new_client zeros identity_of toy_suite derive_peer_id
ben-IsIdentity = record { named = refl; ed25519 = refl; dilithium = refl; long = refl }

abbrev sent_offer : HandShakeOffer
sent_offer =
    offer_of toy toy_suite (identity_of ann) (peer_of (identity_of ann) (draws 10) (drawn_pair 12))
      (9 ∷ []) (id_bytes toy_suite (identity_of ben))

offer_wire : Bytes
offer_wire = or_nil (toy.encode_id (offer_fields sent_offer))

offer_written : toy.encode_id (offer_fields sent_offer) ≡ some offer_wire
unfolding offer_wire toy
offer_written = refl

answer_wire : Bytes
answer_wire = or_nil (
    toy.encode_id (
      answer_fields (
        answer_of toy toy_suite (identity_of ben)
          (peer_of (identity_of ben) (draws 20) (drawn_pair 22)) (9 ∷ [])
          (id_bytes toy_suite (identity_of ann)) (5 ∷ []))))

answer_written :
    toy.encode_id (
      answer_fields (
        answer_of toy toy_suite
          (identity_of ben)
          (peer_of (identity_of ben) (draws 20) (drawn_pair 22))
          (9 ∷ [])
          (id_bytes toy_suite (identity_of ann))
          (5 ∷ [])))
    ≡ some answer_wire
unfolding answer_wire toy
answer_written = refl

keys_differ : toy_suite.sha256 ann.identity_public ≢ toy_suite.sha256 ben.identity_public
unfolding toy_suite ann ben new_client zeros
keys_differ e = cc

offer_new :
    contains (seen_offers_of (session_of ben.sessions ann.id)) (toy_suite.base58_encode (9 ∷ []))
    ≡ false
unfolding ben ann new_client session_of seen_offers_of contains nex_talk.Base.lookup
offer_new = refl

ben_named : is_empty ben.id ≡ false
unfolding ben new_client
ben_named = refl

sealed : toy_suite.encapsulate (12 ∷ []) [] ≡ some (5 ∷ [], 6 ∷ [])
unfolding toy_suite
sealed = refl

point : is_empty (toy.x25519 (20 ∷ []) (10 ∷ [])) ≡ false
unfolding toy zeros
point = refl

finish_handshake-Linked_example :
    (p q : Peer) × ((create_offer toy toy_suite no_json ann (draws 10) ben.id).0 ≡ ok offer_wire)
    × ((accept_offer toy toy_suite no_json ben (draws 20) offer_wire).0 ≡ ok answer_wire)
    × ((finish_handshake toy toy_suite no_json
          (create_offer toy toy_suite no_json ann (draws 10) ben.id).1
          answer_wire).0
        ≡ ok ben.id)
    × (session_of
          (finish_handshake toy toy_suite no_json
            (create_offer toy toy_suite no_json ann (draws 10) ben.id).1
            answer_wire).1.sessions
          ben.id
        ≡ some p)
    × (session_of (accept_offer toy toy_suite no_json ben (draws 20) offer_wire).1.sessions ann.id
        ≡ some q)
    × Linked toy_suite p.session q.session
finish_handshake-Linked_example =
    finish_handshake-Linked toy toy_suite toy-Laws toy-SuiteLaws no_json ann ben (draws 10)
      (draws 20) (drawn_pair 12) (drawn_pair 22) (5 ∷ []) (6 ∷ []) offer_wire answer_wire
      ann-IsIdentity ben-IsIdentity (draws-IsDrawn 10) (draws-IsDrawn 20) keys_differ ben_named refl
      offer_new sealed refl point offer_written answer_written

-- The peer that the engine returns for that offer.
met :
    (q : Peer) × (Engine.accept_offer toy toy_suite no_json
        (identity_of ben)
        (session_of ben.sessions)
        (draws 20)
        offer_wire
      ≡ ok ((identity_of ann).id, q, answer_wire))
unfolding identity_of ann ben mark_seen peer_of answer_of nex_talk.Crypto.Handshake.shown
    nex_talk.Crypto.Handshake.get_sign nex_talk.Crypto.Handshake.get_dilithium_sign
    nex_talk.Crypto.Handshake.build_sign_message
met =
    let (p, q, made, taken, done, linked) =
      finish_handshake-accept_offer toy toy_suite toy-Laws toy-SuiteLaws (identity_of ann)
        (identity_of ben) (draws 10) (draws 20) (drawn_pair 12) (drawn_pair 22)
        (seen_offers_of (session_of ben.sessions ann.id)) (5 ∷ []) (6 ∷ []) ann-IsIdentity
        ben-IsIdentity (draws-IsDrawn 10) (draws-IsDrawn 20) sealed point no_json
        (session_of ben.sessions) offer_wire answer_wire keys_differ offer_written answer_written
        refl refl offer_new refl in
    (q, taken)

accept_offer-IsAuthentic_example :
    (offer : HandShakeOffer) × (decode_offer toy no_json offer_wire ≡ some offer)
    × IsAuthentic toy toy_suite (identity_of ben) (identity_of ann).id offer
    × (met.0.keys.seen_offers
        ≡ toy_suite.base58_encode offer.offer_id
          ∷ seen_offers_of (session_of ben.sessions (identity_of ann).id))
accept_offer-IsAuthentic_example =
    accept_offer-IsAuthentic toy toy_suite no_json (identity_of ben) (session_of ben.sessions)
      (draws 20) offer_wire (identity_of ann).id answer_wire met.0 met.1

-- That peer behind a later offer, of the ID "9".
remet : Peer
unfolding mark_seen
remet = mark_seen met.0.keys.seen_offers (codes "9") met.0

accept_offer_once_example :
    Engine.accept_offer toy toy_suite no_json
      (identity_of ben)
      (λ name. some remet)
      (draws 30)
      offer_wire
    ≡ err offer_replayed
unfolding seen_offers_of remet mark_seen
accept_offer_once_example =
    accept_offer_once toy toy_suite no_json (identity_of ben) (session_of ben.sessions)
      (λ name. some remet) (draws 20) (draws 30) offer_wire (identity_of ann).id answer_wire met.0
      met.1 (λ k m. Memᴰ.tail m)
