-- ===== src/Crypto/Handshake.antt =====
-- crypto/kex_hybrid.go: the handshake of a SecurePeer, which derives the first keys of a session from
-- both ends' ephemeral keys. The long-term and ephemeral keys of a peer stand beside its session.
pub mod Transcript
pub mod Agreement
use nex_talk.Base.{
  ℕ, ◌≡◌, Bool, true, false, not, Option, none, some, List, [], ◌∷◌, ◌++◌, arith, Bytes, codes, beq,
  bytes_lt, is_empty, ◌==◌, if◌then◌else◌, length, take, drop, Result, ok, err, ◌>>=◌, ◌>>◌,
  require,
}
use nex_talk.External.{External}
use nex_talk.External.Suite.{Suite}
use nex_talk.Crypto.Ratchet.{SecurePeer, KeyPair, or_nil, root_info}

-- The fields of SecurePeer that the handshake reads or writes and the ratchet does not. `seen_offers`
-- is the set of keys of the map.
pub record PeerKeys : Type 0 where
  pub expected_peer_hash : Option Bytes
  pub identity_private : Bytes
  pub identity_public : Bytes
  pub pqc_sign_private : Bytes
  pub pqc_sign_public : Bytes
  pub priv : Bytes
  pub public : Bytes
  pub pqc_private_key : Bytes
  pub pqc_public_key : Bytes
  pub file_key : Bytes
  pub am_initiator : Bool
  pub seen_offers : List Bytes

pub record Peer : Type 0 where
  pub keys : PeerKeys
  pub session : SecurePeer

-- What a peer shows of itself, in an offer or in an answer.
pub record Shown : Type 0 where
  pub id_pub : Bytes
  pub ephemeral : Bytes
  pub dh_pub : Bytes
  pub kyber_pub : Bytes
  pub dilithium_pub : Bytes
  pub sign : Bytes
  pub dilithium_sign : Bytes

pub data HandshakeError : Type 0 where
  bad_identity_length bad_ed25519_signature bad_dilithium_signature : HandshakeError
  peer_id_mismatch bad_point : HandshakeError

-- What is signed: the message of buildSignMessage, and of Handshake.
unfoldable pub sign_message : Bytes → Bytes → Bytes → Bytes → Bytes → Bytes → Bytes
sign_message recipient_id public dh kyber dilithium offer_id =
    recipient_id ++ (public ++ (dh ++ (kyber ++ (dilithium ++ offer_id))))

-- buildSignMessage
unfoldable pub build_sign_message : Peer → Bytes → Bytes → Bytes
build_sign_message p offer_id recipient_id =
    sign_message recipient_id p.keys.public p.session.dh_public p.keys.pqc_public_key
      p.keys.pqc_sign_public offer_id

-- `sort.Slice` of hashes by `bytes.Compare`.
unfoldable pub insert_hash : Bytes → List Bytes → List Bytes
insert_hash h [] = h ∷ []
insert_hash h (k ∷ ks) =
    let rest = insert_hash h ks in if bytes_lt h k then h ∷ k ∷ ks else k ∷ rest

unfoldable pub sort_hashes : List Bytes → List Bytes
sort_hashes [] = []
sort_hashes (h ∷ hs) = insert_hash h (sort_hashes hs)

unfoldable pub join : List Bytes → Bytes
join [] = []
join (b ∷ bs) = b ++ join bs

abbrev pub transcript_label : Bytes
transcript_label = codes "ML-KEM-ECC-Hybrid-Transcript-v1"

-- The first key, and the five that are cut from the second.
abbrev pub initial_info : Bytes
initial_info = codes "initial-root"

abbrev pub slice : ℕ → ℕ → Bytes → Bytes
slice at len b = take len (drop at b)

module _ (x : External) (y : Suite) where
  -- DerivePeerID
  unfoldable pub derive_peer_id : Bytes → Bytes → Bytes
  derive_peer_id identity_public dilithium_public =
      y.base58_encode (identity_public ++ y.sha3_256 dilithium_public)

  -- GetSign
  unfoldable pub get_sign : Peer → Bytes → Bytes → Bytes
  get_sign p offer_id recipient_id =
      x.ed25519_sign p.keys.identity_private (build_sign_message p offer_id recipient_id)

  -- GetDilithiumSign
  unfoldable pub get_dilithium_sign : Peer → Bytes → Bytes → Bytes
  get_dilithium_sign p offer_id recipient_id =
      y.dilithium_sign p.keys.pqc_sign_private (build_sign_message p offer_id recipient_id)

  -- What an offer and an answer carry of a peer, signed for their recipient.
  unfoldable pub shown : Peer → Bytes → Bytes → Shown
  shown p offer_id recipient_id = record {
    id_pub = p.keys.identity_public;
    ephemeral = p.keys.public;
    dh_pub = p.session.dh_public;
    kyber_pub = p.keys.pqc_public_key;
    dilithium_pub = p.keys.pqc_sign_public;
    sign = get_sign p offer_id recipient_id;
    dilithium_sign = get_dilithium_sign p offer_id recipient_id;
  }

  -- sortedByHash
  unfoldable pub sorted_by_hash : Bytes → Bytes → Bytes × Bytes
  sorted_by_hash a b = if bytes_lt (y.sha256 a) (y.sha256 b) then (a, b) else (b, a)

  unfoldable pub hash_all : List Bytes → List Bytes
  hash_all [] = []
  hash_all (i ∷ is) = y.sha3_256 i ∷ hash_all is

  -- The items of one end, in the order of GetTranscript.
  unfoldable pub transcript_items : Bytes → Bytes → Bytes → Bytes → List Bytes
  transcript_items identity public dh pqc = identity ∷ public ∷ dh ∷ pqc ∷ []

  -- GetTranscript
  unfoldable pub get_transcript : Peer → Bytes → Bytes → Bytes → Bytes → Bytes
  get_transcript p identity public dh pqc = y.sha3_512 (
      transcript_label
      ++ join (
          sort_hashes (
            hash_all (
              transcript_items p.keys.identity_public p.keys.public p.session.dh_public
                p.keys.pqc_public_key
              ++ transcript_items identity public dh pqc))))

  -- The bytes that the keys of the session are cut from.
  unfoldable pub key_material : Peer → Shown → Bytes → Bytes → Bytes
  key_material p them ecc shared =
      let transcript = get_transcript p them.id_pub them.ephemeral them.dh_pub them.kyber_pub in
      let root = x.hkdf (ecc ++ shared) transcript initial_info 32 in
      x.hkdf (x.x25519 p.session.dh_private them.dh_pub) root root_info 160

  -- The writes of Handshake behind its tests; `ecc` is the X25519 secret of the ephemeral keys.
  unfoldable pub establish : Peer → Shown → Bytes → Bytes → Peer
  establish p them ecc shared =
      let first = (sorted_by_hash them.id_pub p.keys.identity_public).0 in
      let initiator = beq first p.keys.identity_public in
      let mat = key_material p them ecc shared in
      record {
        keys = record p.keys { am_initiator = initiator; file_key = slice 128 32 mat };
        session = record p.session {
          remote_dh_public = some them.dh_pub;
          root_key = slice 64 32 mat;
          send_ck = if initiator then slice 0 32 mat else slice 32 32 mat;
          recv_ck = if initiator then slice 32 32 mat else slice 0 32 mat;
          hmac_key = slice 96 32 mat;
          send_nonce = 0;
          recv_nonce = 0;
          pending_dh_ratchet = if initiator then p.session.pending_dh_ratchet else true;
        };
      }

  -- `sp.ExpectedPeerHash != nil && !bytes.Equal(…)`
  unfoldable pub is_pinned_to : PeerKeys → Bytes → Bool
  is_pinned_to keys id = elim keys.expected_peer_hash [ none ↦ true | some hash ↦ beq id hash ]

  -- The tests of Handshake, and the X25519 secret.
  unfoldable pub check_handshake : Peer → Shown → Bytes → Bytes → Result HandshakeError Bytes
  check_handshake p them offer_id recipient_id = do
    require (length them.id_pub == 32) bad_identity_length
    let msg =
        sign_message recipient_id them.ephemeral them.dh_pub them.kyber_pub them.dilithium_pub
          offer_id
    require (x.ed25519_verify them.id_pub msg them.sign) bad_ed25519_signature
    require (y.dilithium_verify them.dilithium_pub msg them.dilithium_sign) bad_dilithium_signature
    require (is_pinned_to p.keys (derive_peer_id them.id_pub them.dilithium_pub)) peer_id_mismatch
    let ecc = x.x25519 p.keys.priv them.ephemeral
    require (not (is_empty ecc)) bad_point
    ok ecc

  -- Handshake
  unfoldable pub handshake :
      Peer → Shown → Bytes → Bytes → Bytes → Result HandshakeError (Unit {0}) × Peer
  handshake p them shared offer_id recipient_id =
      elim (check_handshake p them offer_id recipient_id) [
        | err e ↦ (err e, p)
        | ok ecc ↦ (ok tt, establish p them ecc shared)
      ]
