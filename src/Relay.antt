-- ===== src/Relay.antt =====
-- internal/relay/relay.go: the frame type byte, and the key inside a peer ID.
use nex_talk.Base.{ℕ, ◌∷◌, Bytes, length, take, ◌==◌, Result, ok, ◌>>=◌, ◌>>◌, require, or_fail}
use nex_talk.External.{External}

-- The registered types.
pub data EnvelopeType : Type 0 where
  offer answer message multi_msg : EnvelopeType

unfoldable pub type_byte : EnvelopeType → ℕ
type_byte offer = 1
type_byte answer = 2
type_byte message = 3
type_byte multi_msg = 4

-- WrapEnvelope
unfoldable pub wrap_envelope : EnvelopeType → Bytes → Bytes
unfolding type_byte
wrap_envelope t payload = type_byte t ∷ payload

-- PeerIDByteLen
abbrev pub peer_id_byte_len : ℕ
peer_id_byte_len = 64

pub data PeerIdError : Type 0 where
  bad_base58 bad_length : PeerIdError

-- PeerIDToEd25519Pub
unfoldable pub peer_id_to_ed25519_pub : External → Bytes → Result PeerIdError Bytes
peer_id_to_ed25519_pub x peer_id = do
  raw ← or_fail (x.base58_decode peer_id) bad_base58
  require (length raw == peer_id_byte_len) bad_length
  ok (take 32 raw)
