-- ===== src/Core/Engine/Steps.antt =====
-- core/engine.go: each step of the handshake, on what an honest end gives it.
use nex_talk.Base.{
  ◌≡◌, refl, sym, ap, ◌∙◌, true, false, some, List, ◌++◌, Bytes, beq, beq_refl, is_empty, length,
  ok,
}
use nex_talk.External.{External, Laws}
use nex_talk.External.Suite.{Suite, SuiteLaws}
use nex_talk.Crypto.Ratchet.{KeyPair, or_nil}
use nex_talk.Crypto.Handshake.{Peer, derive_peer_id, shown, handshake}
use nex_talk.Crypto.Handshake.Agreement.{IsFresh}
use nex_talk.Core.Wire.{
  HandShakeOffer, HandShakeAnswer, LegacyJson, offer_fields, answer_fields, decode_answer,
}
use nex_talk.Core.Engine.{
  Identity, Drawn, peer_of, new_peer, contains, mark_seen, offer_of, create_offer, answer_of,
  check_offer, respond, check_answer, finished, finish_with, finish_handshake,
}

-- An identity whose ID is that of its keys.
pub record IsIdentity (x : External) (y : Suite) (me : Identity) : Type 0 where
  pub named : me.id ≡ derive_peer_id x y me.ed25519_public me.dilithium_public
  pub ed25519 : me.ed25519_public ≡ y.ed25519_public me.ed25519_private
  pub dilithium : me.dilithium_public ≡ y.dilithium_public me.dilithium_private
  pub long : length me.ed25519_public ≡ 32

-- Key pairs that belong together.
pub record IsDrawn (y : Suite) (d : Drawn) (kyber : KeyPair) : Type 0 where
  pub drawn : d.kyber ≡ some kyber
  pub paired : kyber.public ≡ y.kyber_public kyber.priv
  pub ephemeral : d.ephemeral.public ≡ y.x25519_base d.ephemeral.priv
  pub ratchet : d.ratchet.public ≡ y.x25519_base d.ratchet.priv

-- What an ID is the text of.
unfoldable pub id_bytes : Suite → Identity → Bytes
id_bytes y me = me.ed25519_public ++ y.sha3_256 me.dilithium_public

module _ (x : External) (y : Suite) (laws : Laws x) (suite : SuiteLaws x y) where
  pub id_text : (me : Identity) → IsIdentity x y me → me.id ≡ y.base58_encode (id_bytes y me)
  unfolding derive_peer_id id_bytes
  id_text me h = h.named

  pub base58_decode-id :
      (me : Identity) → IsIdentity x y me → x.base58_decode me.id ≡ some (id_bytes y me)
  base58_decode-id me h =
      ap x.base58_decode (id_text me h) ∙ suite.base58_decode-encode (id_bytes y me)

  pub peer_of-IsFresh :
      (me : Identity) (d : Drawn) (kyber : KeyPair)
      → IsIdentity x y me
      → IsDrawn y d kyber
      → IsFresh y (peer_of me d kyber)
  unfolding peer_of
  peer_of-IsFresh me d kyber h k = record {
    ephemeral = k.ephemeral;
    ratchet = k.ratchet;
    kyber = k.paired;
    identity = h.ed25519;
    dilithium = h.dilithium;
    unpinned = refl;
    calm = refl;
    nothing = refl;
  }

  pub mark_seen-IsFresh :
      (seen : List Bytes) (key : Bytes) (p : Peer) → IsFresh y p → IsFresh y (mark_seen seen key p)
  unfolding mark_seen
  mark_seen-IsFresh seen key p f = record {
    ephemeral = f.ephemeral;
    ratchet = f.ratchet;
    kyber = f.kyber;
    identity = f.identity;
    dilithium = f.dilithium;
    unpinned = f.unpinned;
    calm = f.calm;
    nothing = f.nothing;
  }

  pub create_offer-ok :
      (me them : Identity) (d : Drawn) (kyber : KeyPair) (wire : Bytes)
      → IsIdentity x y them
      → IsDrawn y d kyber
      → x.encode_id
          (offer_fields (offer_of x y me (peer_of me d kyber) d.offer_id (id_bytes y them)))
        ≡ some wire
      → create_offer x y me d them.id ≡ ok (peer_of me d kyber, wire)
  unfolding create_offer new_peer offer_fields peer_of
  create_offer-ok me them d kyber wire h k e = rw (k.drawn, base58_decode-id them h, e) refl

  pub check_offer-ok :
      (me them : Identity) (d : Drawn) (kyber : KeyPair) (seen : List Bytes)
      → IsIdentity x y me
      → IsIdentity x y them
      → is_empty d.offer_id ≡ false
      → contains seen (y.base58_encode d.offer_id) ≡ false
      → check_offer x y me seen
          (offer_of x y them (peer_of them d kyber) d.offer_id (id_bytes y me))
        ≡ ok tt
  unfolding check_offer offer_of peer_of shown
  check_offer-ok me them d kyber seen h k given new =
      rw (given, sym (id_text me h), sym k.named, beq_refl me.id, beq_refl them.id, new) refl

  pub respond_steps :
      (me : Identity) (d : Drawn) (seen : List Bytes) (offer : HandShakeOffer) (p q : Peer)
      (ciphertext secret sender mine wire : Bytes)
      → new_peer me d ≡ some p
      → y.encapsulate offer.shown.kyber_pub d.coins ≡ some (ciphertext, secret)
      → or_nil (x.base58_decode me.id) ≡ mine
      → handshake x y
          (mark_seen seen (y.base58_encode offer.offer_id) p)
          offer.shown
          secret
          offer.offer_id
          mine
        ≡ (ok tt, q)
      → x.base58_decode offer.sender_id ≡ some sender
      → x.encode_id (answer_fields (answer_of x y me q offer.offer_id sender ciphertext))
        ≡ some wire
      → respond x y me seen d offer ≡ ok (q, wire)
  unfolding respond
  respond_steps me d seen offer p q ciphertext secret sender mine wire fresh sealed own done decoded
        encoded =
      rw (fresh, respond, sealed, own, done, decoded, encoded) refl

  pub finish_steps :
      (legacy : LegacyJson) (my_id mine wire secret : Bytes) (pending p : Peer)
      (answer : HandShakeAnswer)
      → decode_answer x legacy wire ≡ some answer
      → is_empty answer.kyber_ciphertext ≡ false
      → derive_peer_id x y answer.shown.id_pub answer.shown.dilithium_pub ≡ answer.sender_id
      → y.decapsulate pending.keys.pqc_private_key answer.kyber_ciphertext ≡ some secret
      → x.base58_decode my_id ≡ some mine
      → handshake x y pending answer.shown secret answer.offer_id mine ≡ (ok tt, p)
      → finish_handshake x y legacy my_id pending wire ≡ (ok answer.sender_id, p)
  unfolding finish_handshake finish_with check_answer finished
  finish_steps legacy my_id mine wire secret pending p answer read given named opened own done =
      let bound : beq (derive_peer_id x y answer.shown.id_pub answer.shown.dilithium_pub)
            answer.sender_id
          ≡ true =
        rw named (beq_refl answer.sender_id) in
      let checked : check_answer x y my_id pending answer ≡ ok (secret, mine) =
        rw (check_answer, given, bound, opened, own) refl in
      rw (finish_handshake, read, finish_with, checked, done) refl
