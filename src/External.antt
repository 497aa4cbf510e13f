-- ===== src/External.antt =====
-- The packages outside the repository, as one record of functions: nanopack, ed25519, x25519, HKDF,
-- HMAC, the ChaCha20-Poly1305 AEAD and base58. `Laws` is what the code relies on.
pub mod Suite
use nex_talk.Base.{ℕ, ◌≡◌, ◌≢◌, Bool, true, Option, some, List, [], Bytes}
use nex_talk.Std.Words.{put_uint64}

-- nanopack.FieldID
pub record Field : Type 0 where
  pub id : ℕ
  pub bytes : Bytes

pub record External : Type 0 where
  -- nanopack: `Encoder.Bytes` after a row of `AddID`, `DecodeID`, the bytes that `AddUint64ID` adds,
  -- and the envelope of a record file.
  pub encode_id : List Field → Option Bytes
  pub decode_id : Bytes → Option (List Field)
  pub uint64_data : ℕ → Option Bytes
  -- ed25519: `verify pub msg sig`, `sign priv msg`.
  pub ed25519_verify : Bytes → Bytes → Bytes → Bool
  pub ed25519_sign : Bytes → Bytes → Bytes
  -- curve25519.X25519; the value read when the error is dropped is [].
  pub x25519 : Bytes → Bytes → Bytes
  -- The first n bytes of `hkdf.New(sha256.New, secret, salt, info)`.
  pub hkdf : Bytes → Bytes → Bytes → ℕ → Bytes
  -- HMAC-SHA3-256 of a message under a key.
  pub hmac : Bytes → Bytes → Bytes
  -- chacha20poly1305.NewX on a key, `Seal` and `Open` of key, nonce, text and associated data.
  pub new_x : Bytes → Bool
  pub seal : Bytes → Bytes → Bytes → Bytes → Bytes
  pub open_sealed : Bytes → Bytes → Bytes → Bytes → Option Bytes
  pub base58_decode : Bytes → Option Bytes

-- What is encoded is decoded, and is never empty (a body begins with its field count); a uint64 is added as its eight big-endian bytes; a sealed text is
-- opened under the same key, nonce and associated data.
pub record Laws (x : External) : Type 0 where
  pub decode-encode :
      (fs : List Field) (b : Bytes) → x.encode_id fs ≡ some b → x.decode_id b ≡ some fs
  pub encode-ne-nil : (fs : List Field) → x.encode_id fs ≢ some []
  pub uint64_is : (n : ℕ) (b : Bytes) → x.uint64_data n ≡ some b → b ≡ put_uint64 n
  pub open-seal :
      (k n p a : Bytes) → x.new_x k ≡ true → x.open_sealed k n (x.seal k n p a) a ≡ some p
