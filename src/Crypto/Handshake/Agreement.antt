-- ===== src/Crypto/Handshake/Agreement.antt =====
-- crypto/kex_hybrid.go: Handshake at both ends of a session.
use nex_talk.Base.{
  ◌≡◌, ◌≢◌, refl, sym, ap, subst, Bool, true, false, [], inl, inr, arith, length, is_empty, ok,
  Bytes, beq, beq_iff, beq_refl, none, ◌⊎◌,
}
use nex_talk.External.{External}
use nex_talk.External.Suite.{Suite, SuiteLaws}
use nex_talk.Crypto.Ratchet.Conversation.{Linked, Follows, settled, turning}
use nex_talk.Crypto.Handshake.{
  Peer, shown, sorted_by_hash, key_material, check_handshake, get_sign, get_dilithium_sign,
  build_sign_message, is_pinned_to, handshake, establish, slice,
}
use nex_talk.Crypto.Handshake.Transcript.{bytes_lt_asym, bytes_lt_total, get_transcript_comm}

-- A peer as newPeer leaves it: its public keys are those of its private ones.
pub record IsFresh (y : Suite) (p : Peer) : Type 0 where
  pub ephemeral : p.keys.public ≡ y.x25519_base p.keys.priv
  pub ratchet : p.session.dh_public ≡ y.x25519_base p.session.dh_private
  pub kyber : p.keys.pqc_public_key ≡ y.kyber_public p.keys.pqc_private_key
  pub identity : p.keys.identity_public ≡ y.ed25519_public p.keys.identity_private
  pub dilithium : p.keys.pqc_sign_public ≡ y.dilithium_public p.keys.pqc_sign_private
  pub unpinned : p.keys.expected_peer_hash ≡ none
  pub calm : p.session.pending_dh_ratchet ≡ false
  pub nothing : p.session.skipped_messages ≡ []

module _ (x : External) (y : Suite) where
  -- `amInitiator`
  abbrev is_initiator : Bytes → Bytes → Bool
  is_initiator them me = beq (sorted_by_hash x y them me).0 me

  -- The two ends agree on who initiates.
  is_initiator_one :
      (a b : Bytes)
      → y.sha256 a ≢ y.sha256 b
      → ((is_initiator a b ≡ true) × (is_initiator b a ≡ false))
        ⊎ ((is_initiator a b ≡ false) × (is_initiator b a ≡ true))
  unfolding sorted_by_hash
  is_initiator_one a b differ = ground (
    arith,
    beq_iff a b,
    beq_iff b a,
    beq_refl a,
    beq_refl b,
    bytes_lt_asym (y.sha256 a) (y.sha256 b),
    bytes_lt_total (y.sha256 a) (y.sha256 b),
  )

module _ (x : External) (y : Suite) (suite : SuiteLaws x y) where
  key_material_comm :
      (p q : Peer) (shared offer rec offer' rec' : Bytes)
      → IsFresh y p
      → IsFresh y q
      → key_material x y p (shown x y q offer rec) (x.x25519 p.keys.priv q.keys.public) shared
        ≡ key_material x y q (shown x y p offer' rec') (x.x25519 q.keys.priv p.keys.public) shared
  unfolding key_material shown
  key_material_comm p q shared offer rec offer' rec' fp fq =
      let ecc : x.x25519 p.keys.priv q.keys.public ≡ x.x25519 q.keys.priv p.keys.public =
        rw (fp.ephemeral, fq.ephemeral) (suite.x25519_comm p.keys.priv q.keys.priv) in
      let dh : x.x25519 p.session.dh_private q.session.dh_public
          ≡ x.x25519 q.session.dh_private p.session.dh_public =
        rw (fp.ratchet, fq.ratchet) (suite.x25519_comm p.session.dh_private q.session.dh_private) in
      rw (key_material, ecc, dh, get_transcript_comm x y p q) refl

  establish-Follows :
      (p q : Peer) (shared offer rec offer' rec' : Bytes)
      → IsFresh y p
      → IsFresh y q
      → y.sha256 p.keys.identity_public ≢ y.sha256 q.keys.identity_public
      → Follows
          (establish x y p
            (shown x y q offer rec)
            (x.x25519 p.keys.priv q.keys.public)
            shared).session
          (establish x y q
            (shown x y p offer' rec')
            (x.x25519 q.keys.priv p.keys.public)
            shared).session
  unfolding establish shown
  establish-Follows p q shared offer rec offer' rec' fp fq differ =
      let mats = key_material_comm p q shared offer rec offer' rec' fp fq in
      elim (is_initiator_one x y q.keys.identity_public p.keys.identity_public
        (λ e. differ (sym e))) [
          | inl (mine, theirs) ↦
              settled (rw mine fp.calm) (rw (mine, theirs) (sym (ap (slice 0 32) mats))) refl
          | inr (mine, theirs) ↦ turning (rw mine refl)
        ]

  -- Both ends of a handshake with one shared secret.
  pub establish-Linked :
      (p q : Peer) (shared offer rec offer' rec' : Bytes)
      → IsFresh y p
      → IsFresh y q
      → y.sha256 p.keys.identity_public ≢ y.sha256 q.keys.identity_public
      → Linked y
          (establish x y p
            (shown x y q offer rec)
            (x.x25519 p.keys.priv q.keys.public)
            shared).session
          (establish x y q
            (shown x y p offer' rec')
            (x.x25519 q.keys.priv p.keys.public)
            shared).session
  unfolding establish shown
  establish-Linked p q shared offer rec offer' rec' fp fq differ =
      let mats = key_material_comm p q shared offer rec offer' rec' fp fq in
      record {
        root = ap (slice 64 32) mats;
        mac = ap (slice 96 32) mats;
        remote_a = refl;
        remote_b = refl;
        paired_a = fp.ratchet;
        paired_b = fq.ratchet;
        none_a = fp.nothing;
        none_b = fq.nothing;
        forth = establish-Follows p q shared offer rec offer' rec' fp fq differ;
        back = establish-Follows q p shared offer' rec' offer rec fq fp (λ e. differ (sym e));
      }

module _ (x : External) (y : Suite) (suite : SuiteLaws x y) where
  check_handshake-shown :
      (p q : Peer) (offer_id recipient : Bytes)
      → IsFresh y p
      → IsFresh y q
      → length q.keys.identity_public ≡ 32
      → is_empty (x.x25519 p.keys.priv q.keys.public) ≡ false
      → check_handshake x y p (shown x y q offer_id recipient) offer_id recipient
        ≡ ok (x.x25519 p.keys.priv q.keys.public)
  unfolding check_handshake shown get_sign get_dilithium_sign build_sign_message is_pinned_to
  check_handshake-shown p q offer_id recipient fp fq long point =
      let msg = build_sign_message q offer_id recipient in
      let signed : x.ed25519_verify q.keys.identity_public msg
            (x.ed25519_sign q.keys.identity_private msg)
          ≡ true =
        subst (λ k. x.ed25519_verify k msg (x.ed25519_sign q.keys.identity_private msg) ≡ true)
          (sym fq.identity) (suite.ed25519_verify-sign q.keys.identity_private msg) in
      let dilithium_signed : y.dilithium_verify q.keys.pqc_sign_public msg
            (y.dilithium_sign q.keys.pqc_sign_private msg)
          ≡ true =
        subst (λ k. y.dilithium_verify k msg (y.dilithium_sign q.keys.pqc_sign_private msg) ≡ true)
          (sym fq.dilithium) (suite.dilithium_verify-sign q.keys.pqc_sign_private msg) in
      ground arith

  -- What a fresh peer shows is accepted.
  pub handshake-shown :
      (p q : Peer) (shared offer_id recipient : Bytes)
      → IsFresh y p
      → IsFresh y q
      → length q.keys.identity_public ≡ 32
      → is_empty (x.x25519 p.keys.priv q.keys.public) ≡ false
      → handshake x y p (shown x y q offer_id recipient) shared offer_id recipient ≡ (
        ok tt,
        establish x y p
            (shown x y q offer_id recipient)
            (x.x25519 p.keys.priv q.keys.public)
            shared,
      )
  unfolding handshake
  handshake-shown p q shared offer_id recipient fp fq long point =
      rw (check_handshake-shown p q offer_id recipient fp fq long point, handshake) refl
