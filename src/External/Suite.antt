-- ===== src/External/Suite.antt =====
-- The packages that only the handshake and fresh ratchet keys use: hashes, key pairs, signatures after
-- quantum computers, and the key encapsulation. `SuiteLaws` is what the code relies on.
use nex_talk.Base.{◌≡◌, Bool, true, Option, some, List, ◌∷◌, Bytes, length}
use nex_talk.External.{External, Field}

pub record Suite : Type 0 where
  -- curve25519.ScalarBaseMult, and the public halves of ed25519, Dilithium and Kyber keys.
  pub x25519_base : Bytes → Bytes
  pub ed25519_public : Bytes → Bytes
  pub dilithium_public : Bytes → Bytes
  pub kyber_public : Bytes → Bytes
  pub sha256 : Bytes → Bytes
  pub sha3_256 : Bytes → Bytes
  pub sha3_512 : Bytes → Bytes
  -- DilithiumSign and DilithiumVerify of keys in bytes: `verify pub msg sig`, `sign priv msg`.
  pub dilithium_verify : Bytes → Bytes → Bytes → Bool
  pub dilithium_sign : Bytes → Bytes → Bytes
  -- kyber768: the ciphertext and secret for a key in bytes and the coins that are drawn, and the
  -- secret for a private key and a ciphertext.
  pub encapsulate : Bytes → Bytes → Option (Bytes × Bytes)
  pub decapsulate : Bytes → Bytes → Option Bytes
  pub base58_encode : Bytes → Bytes

-- Shared secrets agree, what is signed verifies, base58 text is read back, and an encoded body begins
-- with its field count.
pub record SuiteLaws (x : External) (y : Suite) : Type 0 where
  pub x25519_comm : (p q : Bytes) → x.x25519 p (y.x25519_base q) ≡ x.x25519 q (y.x25519_base p)
  pub ed25519_verify-sign :
      (priv msg : Bytes)
      → x.ed25519_verify (y.ed25519_public priv) msg (x.ed25519_sign priv msg) ≡ true
  pub dilithium_verify-sign :
      (priv msg : Bytes)
      → y.dilithium_verify (y.dilithium_public priv) msg (y.dilithium_sign priv msg) ≡ true
  pub decapsulate-encapsulate :
      (priv coins ct secret : Bytes)
      → y.encapsulate (y.kyber_public priv) coins ≡ some (ct, secret)
      → y.decapsulate priv ct ≡ some secret
  pub base58_decode-encode : (b : Bytes) → x.base58_decode (y.base58_encode b) ≡ some b
  pub encode-count :
      (fs : List Field) (b : Bytes)
      → x.encode_id fs ≡ some b
      → (rest : Bytes) × (b ≡ length fs ∷ rest)
