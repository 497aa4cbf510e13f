-- ===== src/Filetransfer.antt =====
-- internal/filetransfer/filetransfer.go: the encryption of a file and its chunks. An int that is read
-- from a manifest is the 64-bit pattern that it was written as.
pub mod Manifests
pub mod Ticket
pub mod Chunks
pub mod EndToEnd
use nex_talk.Base.{
  ℕ, zero, suc, ◌*◌, ◌^◌, ◌≡◌, Bool, true, false, not, ◌||◌, Option, none, some, List, [], ◌∷◌,
  ◌++◌, arith, Bytes, beq, is_empty, ltb, leb, ◌==◌, if◌then◌else◌, length, take, drop, Result, ok,
  err, ◌>>=◌, ◌>>◌, require, or_fail,
}
use nex_talk.External.{External}
use nex_talk.External.Suite.{Suite}
use nex_talk.Crypto.Ratchet.{KeyPair}
use nex_talk.Client.{Client, ClientError}
use nex_talk.Client
use nex_talk.Filetransfer.Manifests.{Manifest}

-- MaxFilePlaintext, DefaultChunkSize, and the largest size of a chunk.
abbrev pub max_file_plaintext : ℕ
max_file_plaintext = 8 * 2 ^ 20

abbrev pub default_chunk_size : ℕ
default_chunk_size = 32 * 1024

abbrev pub max_chunk_size : ℕ
max_chunk_size = 64 * 1024

pub data TransferError : Type 0 where
  file_size_out_of_bounds chunk_size_out_of_bounds chunk_count_mismatch chunk_empty : TransferError
  cipher_size_mismatch cipher_hash_mismatch sender_mismatch : TransferError
  plain_size_mismatch file_hash_mismatch : TransferError
  encrypt_failed : ClientError → TransferError
  decrypt_failed : ClientError → TransferError

-- The loop `for off := 0; off < len(cipher); off += chunkSize` on what is left of the cipher.
unfoldable pub split_chunks : ℕ → ℕ → Bytes → List Bytes
split_chunks zero size cipher = []
split_chunks (suc rounds) size cipher =
    let rest = split_chunks rounds size (drop size cipher) in
    if is_empty cipher then [] else take size cipher ∷ rest

-- A round takes at least a byte.
unfoldable pub chunks_of : ℕ → Bytes → List Bytes
chunks_of size cipher = split_chunks (length cipher) size cipher

-- The loop of ReassembleAndDecrypt: no chunk is empty.
unfoldable pub join_chunks : List Bytes → Option Bytes
join_chunks [] = some []
join_chunks (c ∷ cs) = elim (join_chunks cs) [
  | none ↦ none
  | some rest ↦ if is_empty c then none else some (c ++ rest)
]

-- A size that is not positive is the default one.
unfoldable pub effective_size : ℕ → ℕ
effective_size size = if size == 0 then default_chunk_size else size

module _ (x : External) (y : Suite) where
  -- The result of EncryptFile: the cipher, its chunks and the manifest.
  unfoldable pub describe_file : Bytes → Bytes → ℕ → Bytes → Bytes × List Bytes × Manifest
  describe_file file_name plaintext size cipher =
      let chunks = chunks_of size cipher in
      (
        cipher,
        chunks,
        record {
          file_name = file_name;
          plain_size = length plaintext;
          cipher_size = length cipher;
          chunk_size = size;
          chunk_count = length chunks;
          file_hash = y.sha256 plaintext;
          cipher_hash = y.sha256 cipher;
        },
      )

  -- The result behind Client.Encrypt.
  unfoldable pub after_encrypt :
      Bytes
      → Bytes
      → ℕ
      → Result ClientError Bytes × Client
      → Result TransferError (Bytes × List Bytes × Manifest) × Client
  after_encrypt file_name plaintext size (err e, c) = (err (encrypt_failed e), c)
  after_encrypt file_name plaintext size (ok cipher, c) =
      (ok (describe_file file_name plaintext size cipher), c)

  -- The bounds of EncryptFile.
  unfoldable pub check_file : Bytes → ℕ → Result TransferError (Unit {0})
  check_file plaintext chunk_size = do
    require (not (is_empty plaintext || ltb max_file_plaintext (length plaintext)))
        file_size_out_of_bounds
    require (leb (effective_size chunk_size) max_chunk_size) chunk_size_out_of_bounds

  -- EncryptFile
  unfoldable pub encrypt_file :
      Client
      → KeyPair
      → Bytes
      → Bytes
      → Bytes
      → ℕ
      → Result TransferError (Bytes × List Bytes × Manifest) × Client
  encrypt_file c pair peer_id file_name plaintext chunk_size =
      elim (check_file plaintext chunk_size) [
        | err e ↦ (err e, c)
        | ok u ↦
            after_encrypt file_name plaintext (effective_size chunk_size)
              (Client.encrypt x c pair peer_id plaintext)
      ]

  -- ReassembleAndDecrypt up to Decrypt: the cipher.
  unfoldable pub reassemble : List Bytes → Manifest → Result TransferError Bytes
  reassemble chunks mf = do
    require (length chunks == mf.chunk_count) chunk_count_mismatch
    cipher ← or_fail (join_chunks chunks) chunk_empty
    require (length cipher == mf.cipher_size) cipher_size_mismatch
    require (beq (y.sha256 cipher) mf.cipher_hash) cipher_hash_mismatch
    ok cipher

  -- Its tests of what was decrypted.
  unfoldable pub check_plaintext : Bytes → Manifest → Bytes × Bytes → Result TransferError Bytes
  check_plaintext peer_id mf (sender, plaintext) = do
    require (is_empty peer_id || beq sender peer_id) sender_mismatch
    require (length plaintext == mf.plain_size) plain_size_mismatch
    require (beq (y.sha256 plaintext) mf.file_hash) file_hash_mismatch
    ok plaintext

  unfoldable pub after_decrypt :
      Bytes
      → Manifest
      → Result ClientError (Bytes × Bytes) × Client
      → Result TransferError Bytes × Client
  after_decrypt peer_id mf (err e, c) = (err (decrypt_failed e), c)
  after_decrypt peer_id mf (ok read, c) = (check_plaintext peer_id mf read, c)

  -- ReassembleAndDecrypt
  unfoldable pub reassemble_and_decrypt :
      Client → Bytes → List Bytes → Manifest → Result TransferError Bytes × Client
  reassemble_and_decrypt c peer_id chunks mf = elim (reassemble chunks mf) [
    | err e ↦ (err e, c)
    | ok cipher ↦ after_decrypt peer_id mf (Client.decrypt x c cipher)
  ]
