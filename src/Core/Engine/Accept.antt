-- ===== src/Core/Engine/Accept.antt =====
-- core/engine.go: what stands behind an offer that AcceptOffer takes, and the same offer again.
use nex_talk.Base.{
  ◌≡◌, refl, sym, ap, subst, ◌∙◌, true, false, Option, some, List, [], ◌∷◌, inl, inr, arith, Bytes,
  beq, beq_refl, beq_iff, is_empty, ok, err, Result, Result-cases, Option-cases,
}
use mathlib.Core.List.{Memᴰ}
use nex_talk.External.{External}
use nex_talk.External.Suite.{Suite}
use nex_talk.Crypto.Ratchet.{or_nil}
use nex_talk.Crypto.Handshake.{
  Peer, Shown, HandshakeError, derive_peer_id, sign_message, check_handshake, establish, handshake,
}
use nex_talk.Core.Wire.{HandShakeOffer, LegacyJson, decode_offer}
use nex_talk.Core.Engine.{
  Identity, Drawn, offer_replayed, contains, seen_offers_of, mark_seen, new_peer, check_offer,
  respond, accept_offer, lift_handshake,
}

contains-Memᴰ : (k : Bytes) (seen : List Bytes) → Memᴰ k seen → contains seen k ≡ true
unfolding contains
contains-Memᴰ k [] m = elim m [ ]
contains-Memᴰ k (j ∷ js) (Memᴰ.head e) = rw (sym e) (ground (arith, beq_refl k))
contains-Memᴰ k (j ∷ js) (Memᴰ.tail m) = ground (arith, contains-Memᴰ k js m)

module _ (x : External) (y : Suite) where
  -- An offer that its sender signed for `me`.
  pub record IsAuthentic (me : Identity) (who : Bytes) (offer : HandShakeOffer) : Type 0 where
    pub named : who ≡ derive_peer_id x y offer.shown.id_pub offer.shown.dilithium_pub
    pub intended : y.base58_encode offer.recipient_id ≡ me.id
    pub signed :
        x.ed25519_verify offer.shown.id_pub
          (sign_message
            (or_nil (x.base58_decode me.id))
            offer.shown.ephemeral
            offer.shown.dh_pub
            offer.shown.kyber_pub
            offer.shown.dilithium_pub
            offer.offer_id)
          offer.shown.sign
        ≡ true
    pub dilithium_signed :
        y.dilithium_verify offer.shown.dilithium_pub
          (sign_message
            (or_nil (x.base58_decode me.id))
            offer.shown.ephemeral
            offer.shown.dh_pub
            offer.shown.kyber_pub
            offer.shown.dilithium_pub
            offer.offer_id)
          offer.shown.dilithium_sign
        ≡ true

  handshake-ok :
      (p q : Peer) (them : Shown) (secret offer_id me : Bytes)
      → handshake x y p them secret offer_id me ≡ (ok tt, q)
      → (ecc : Bytes) × (check_handshake x y p them offer_id me ≡ ok ecc)
        × (q ≡ establish x y p them ecc secret)
  unfolding handshake
  handshake-ok p q them secret offer_id me e =
      elim (Result-cases (check_handshake x y p them offer_id me)) [
        | inl (ecc, passed) ↦ (ecc, passed, ground arith)
        | inr (bad, failed) ↦ absurd (ground arith)
      ]

  check_handshake-ok :
      (p : Peer) (them : Shown) (offer_id me ecc : Bytes)
      → check_handshake x y p them offer_id me ≡ ok ecc
      → (x.ed25519_verify them.id_pub
            (sign_message me them.ephemeral them.dh_pub them.kyber_pub them.dilithium_pub offer_id)
            them.sign
          ≡ true)
        × (y.dilithium_verify them.dilithium_pub
              (sign_message me them.ephemeral them.dh_pub them.kyber_pub them.dilithium_pub
                offer_id)
              them.dilithium_sign
            ≡ true)
  unfolding check_handshake
  check_handshake-ok p them offer_id me ecc e = (ground arith, ground arith)

  check_offer-passed :
      (me : Identity) (seen : List Bytes) (offer : HandShakeOffer)
      → check_offer x y me seen offer ≡ ok tt
      → (is_empty offer.offer_id ≡ false)
        × (y.base58_encode offer.recipient_id ≡ me.id)
        × (derive_peer_id x y offer.shown.id_pub offer.shown.dilithium_pub ≡ offer.sender_id)
        × (contains seen (y.base58_encode offer.offer_id) ≡ false)
  unfolding check_offer
  check_offer-passed me seen offer e =
      let own : beq (y.base58_encode offer.recipient_id) me.id ≡ true = ground arith in
      let bound : beq (derive_peer_id x y offer.shown.id_pub offer.shown.dilithium_pub)
            offer.sender_id
          ≡ true =
        ground arith in
      (ground arith, (beq_iff _ _).0 own, (beq_iff _ _).0 bound, ground arith)

  lift_handshake-ok :
      (o : Result HandshakeError (Unit {0}) × Peer) (q : Peer)
      → lift_handshake o ≡ ok q
      → o ≡ (ok tt, q)
  unfolding lift_handshake
  lift_handshake-ok (ok tt, p) q e = ground arith
  lift_handshake-ok (err bad, p) q e = absurd (ground arith)

  respond-ok :
      (me : Identity) (seen : List Bytes) (d : Drawn) (offer : HandShakeOffer) (q : Peer)
      (wire : Bytes)
      → respond x y me seen d offer ≡ ok (q, wire)
      → (p : Peer) × (secret : Bytes) × (handshake x y
            (mark_seen seen (y.base58_encode offer.offer_id) p)
            offer.shown
            secret
            offer.offer_id
            (or_nil (x.base58_decode me.id))
          ≡ (ok tt, q))
  unfolding respond
  respond-ok me seen d offer q wire e = elim (Option-cases (new_peer me d)) [
    | inl none_drawn ↦ absurd (ground arith)
    | inr (p, drawn) ↦ elim (Option-cases (y.encapsulate offer.shown.kyber_pub d.coins)) [
      | inl failed ↦ absurd (ground arith)
      | inr ((ciphertext, secret), sealed) ↦
          let met =
            handshake x y (mark_seen seen (y.base58_encode offer.offer_id) p) offer.shown secret
              offer.offer_id (or_nil (x.base58_decode me.id)) in
          elim (Result-cases (lift_handshake met)) [
            | inr (bad, failed) ↦ absurd (ground arith)
            | inl (q', done) ↦
                let same : q' ≡ q = ground arith in
                (p, secret, lift_handshake-ok met q (done ∙ ap ok same))
          ]
    ]
  ]

  respond-IsAuthentic :
      (me : Identity) (seen : List Bytes) (d : Drawn) (offer : HandShakeOffer) (q : Peer)
      (wire : Bytes)
      → check_offer x y me seen offer ≡ ok tt
      → respond x y me seen d offer ≡ ok (q, wire)
      → IsAuthentic me offer.sender_id offer
        × (q.keys.seen_offers ≡ y.base58_encode offer.offer_id ∷ seen)
  unfolding mark_seen establish
  respond-IsAuthentic me seen d offer q wire tested e =
      let (given, intended, bound, new) = check_offer-passed me seen offer tested in
      let (p, secret, met) = respond-ok me seen d offer q wire e in
      let (ecc, passed, same) = handshake-ok _ q offer.shown secret offer.offer_id _ met in
      let (signed, dilithium_signed) =
        check_handshake-ok _ offer.shown offer.offer_id _ ecc passed in
      (
        record {
          named = sym bound;
          intended = intended;
          signed = signed;
          dilithium_signed = dilithium_signed;
        },
        ap (λ (r : Peer). r.keys.seen_offers) same,
      )

  accept_offer-steps :
      (legacy : LegacyJson) (me : Identity) (sessions : Bytes → Option Peer) (d : Drawn)
      (offer_bytes who wire : Bytes) (q : Peer)
      → accept_offer x y legacy me sessions d offer_bytes ≡ ok (who, q, wire)
      → (offer : HandShakeOffer) × (decode_offer x legacy offer_bytes ≡ some offer)
        × (check_offer x y me (seen_offers_of (sessions who)) offer ≡ ok tt)
        × (respond x y me (seen_offers_of (sessions who)) d offer ≡ ok (q, wire))
        × (offer.sender_id ≡ who)
  unfolding accept_offer
  accept_offer-steps legacy me sessions d offer_bytes who wire q e =
      elim (Option-cases (decode_offer x legacy offer_bytes)) [
        | inl bad ↦ absurd (ground arith)
        | inr (offer, read) ↦
            let seen = seen_offers_of (sessions offer.sender_id) in
            elim (Result-cases (check_offer x y me seen offer)) [
              | inr (bad, failed) ↦ absurd (ground arith)
              | inl (u, tested) ↦ elim (Result-cases (respond x y me seen d offer)) [
                | inr (bad, failed) ↦ absurd (ground arith)
                | inl ((q', w), made) ↦
                    let named : offer.sender_id ≡ who = ground arith in
                    (offer, read, rw⁻¹ named tested, rw⁻¹ named (made ∙ ground arith), named)
              ]
            ]
      ]

  -- An offer that AcceptOffer takes decodes to one whose sender's ID is that of its keys, that names
  -- the caller as its recipient, and whose two signatures verify over that recipient and its keys. The
  -- session that is returned has seen it, and all that the session before had seen.
  pub accept_offer-IsAuthentic :
      (legacy : LegacyJson) (me : Identity) (sessions : Bytes → Option Peer) (d : Drawn)
      (offer_bytes who wire : Bytes) (q : Peer)
      → accept_offer x y legacy me sessions d offer_bytes ≡ ok (who, q, wire)
      → (offer : HandShakeOffer) × (decode_offer x legacy offer_bytes ≡ some offer)
        × IsAuthentic me who offer
        × (q.keys.seen_offers ≡ y.base58_encode offer.offer_id ∷ seen_offers_of (sessions who))
  accept_offer-IsAuthentic legacy me sessions d offer_bytes who wire q e =
      let (offer, read, tested, made, named) =
        accept_offer-steps legacy me sessions d offer_bytes who wire q e in
      let (real, seen) = respond-IsAuthentic me _ d offer q wire tested made in
      (offer, read, subst (λ w. IsAuthentic me w offer) named real, seen)

  -- An offer that was taken is refused as a replay as long as the session with its sender has seen
  -- every offer that the session that AcceptOffer returned has seen, whatever it has seen since and
  -- whatever is drawn.
  pub accept_offer_once :
      (legacy : LegacyJson) (me : Identity) (sessions later : Bytes → Option Peer) (d d' : Drawn)
      (offer_bytes who wire : Bytes) (q : Peer)
      → accept_offer x y legacy me sessions d offer_bytes ≡ ok (who, q, wire)
      → ((k : Bytes) → Memᴰ k q.keys.seen_offers → Memᴰ k (seen_offers_of (later who)))
      → accept_offer x y legacy me later d' offer_bytes ≡ err offer_replayed
  unfolding accept_offer check_offer
  accept_offer_once legacy me sessions later d d' offer_bytes who wire q e kept =
      let (offer, read, tested, made, named) =
        accept_offer-steps legacy me sessions d offer_bytes who wire q e in
      let (real, seen) = respond-IsAuthentic me _ d offer q wire tested made in
      let (given, intended, bound, new) = check_offer-passed me _ offer tested in
      let marked : contains (seen_offers_of (later offer.sender_id))
            (y.base58_encode offer.offer_id)
          ≡ true =
        rw named (
          contains-Memᴰ _ _ (
            kept _ (
              subst (λ js. Memᴰ (y.base58_encode offer.offer_id) js) (sym seen)
                (Memᴰ.head refl)))) in
      ground (arith, beq_refl me.id, beq_refl offer.sender_id)
