-- ===== src/Filetransfer/EndToEnd.antt =====
-- internal/filetransfer/filetransfer.go: EncryptFile at one client and ReassembleAndDecrypt at another.
use nex_talk.Base.{
  ℕ, ◌<◌, ◌≤◌, ◌≡◌, refl, subst, ◌∙◌, true, some, List, [], ◌∷◌, arith, Bytes, beq_refl, ◌==◌,
  length, lookup, Result, ok, err,
}
use nex_talk.External.{External, Laws}
use nex_talk.External.Suite.{Suite}
use nex_talk.Crypto.SecureMessage.{max_wire_nonce}
use nex_talk.Crypto.Ratchet.{KeyPair}
use nex_talk.Crypto.Ratchet
use nex_talk.Crypto.Ratchet.Sync.{IsInSync, decrypt-encrypt}
use nex_talk.Client.{Client, ClientError, find_session}
use nex_talk.Client
use nex_talk.Client.Messages.{client_encrypt-ok, client_decrypt-ok}
use nex_talk.Filetransfer.Manifests.{Manifest}
use nex_talk.Filetransfer.{
  max_file_plaintext, max_chunk_size, chunks_of, effective_size, describe_file, after_encrypt,
  check_file, encrypt_file, reassemble, check_plaintext, after_decrypt, reassemble_and_decrypt,
}
use nex_talk.Filetransfer.Chunks.{chunks_of_complete}

eq_refl : (n : ℕ) → (n == n) ≡ true
eq_refl n = ground arith

effective_size-bounds :
    (size : ℕ)
    → size ≤ max_chunk_size
    → (0 < effective_size size) × (effective_size size ≤ max_chunk_size)
unfolding effective_size
effective_size-bounds size h = (ground arith, ground arith)

module _ (x : External) (y : Suite) where
  abbrev pub manifest_of : Bytes → Bytes → ℕ → Bytes → Manifest
  manifest_of file_name text size cipher = (describe_file x y file_name text size cipher).2

  check_file-ok :
      (text : Bytes) (size : ℕ)
      → 0 < length text
      → length text ≤ max_file_plaintext
      → size ≤ max_chunk_size
      → check_file x y text size ≡ ok tt
  unfolding check_file
  check_file-ok [] size some_text short small = absurd (omega arith)
  check_file-ok (t ∷ text) size some_text short small =
      ground (arith, (effective_size-bounds size small).1)

  reassemble-describe_file :
      (file_name text cipher : Bytes) (size : ℕ)
      → 0 < size
      → reassemble x y (chunks_of size cipher) (manifest_of file_name text size cipher) ≡ ok cipher
  unfolding reassemble describe_file
  reassemble-describe_file file_name text cipher size h =
      let (steady, joined, bounds) =
        chunks_of_complete (length cipher) size cipher h (omega arith) in
      rw
        (
          eq_refl (length (chunks_of size cipher)),
          joined,
          eq_refl (length cipher),
          beq_refl (y.sha256 cipher),
        )
        refl

  check_plaintext-describe_file :
      (file_name text cipher who : Bytes) (size : ℕ)
      → check_plaintext x y who (manifest_of file_name text size cipher) (who, text) ≡ ok text
  unfolding check_plaintext describe_file
  check_plaintext-describe_file file_name text cipher who size =
      ground (arith, beq_refl who, beq_refl (y.sha256 text))

  after_encrypt-ok :
      (file_name text cipher : Bytes) (size : ℕ) (o : Result ClientError Bytes × Client)
      → o.0 ≡ ok cipher
      → (after_encrypt x y file_name text size o).0
        ≡ ok (describe_file x y file_name text size cipher)
  unfolding after_encrypt
  after_encrypt-ok file_name text cipher size (err e, c) h = absurd (ground arith)
  after_encrypt-ok file_name text cipher size (ok w, c) h = ground arith

  after_decrypt-ok :
      (peer_id : Bytes) (mf : Manifest) (read : Bytes × Bytes)
      (o : Result ClientError (Bytes × Bytes) × Client)
      → o.0 ≡ ok read
      → (after_decrypt x y peer_id mf o).0 ≡ check_plaintext x y peer_id mf read
  unfolding after_decrypt
  after_decrypt-ok peer_id mf read (err e, c) h = absurd (ground arith)
  after_decrypt-ok peer_id mf read (ok r, c) h = ground arith

  encrypt_file-ok :
      (c : Client) (pair : KeyPair) (peer_id file_name text cipher : Bytes) (size : ℕ)
      → 0 < length text
      → length text ≤ max_file_plaintext
      → size ≤ max_chunk_size
      → (Client.encrypt x c pair peer_id text).0 ≡ ok cipher
      → (encrypt_file x y c pair peer_id file_name text size).0
        ≡ ok (describe_file x y file_name text (effective_size size) cipher)
  unfolding encrypt_file
  encrypt_file-ok c pair peer_id file_name text cipher size some_text short small sealed =
      rw (encrypt_file, check_file-ok text size some_text short small)
        (after_encrypt-ok file_name text cipher (effective_size size)
          (Client.encrypt x c pair peer_id text) sealed)

  decrypt_file-ok :
      (d : Client) (who file_name text cipher : Bytes) (size : ℕ)
      → 0 < size
      → (Client.decrypt x d cipher).0 ≡ ok (who, text)
      → (reassemble_and_decrypt x y d who
          (chunks_of size cipher)
          (manifest_of file_name text size cipher)).0
        ≡ ok text
  unfolding reassemble_and_decrypt
  decrypt_file-ok d who file_name text cipher size h read =
      rw (reassemble_and_decrypt, reassemble-describe_file file_name text cipher size h)
        (after_decrypt-ok who (manifest_of file_name text size cipher) (who, text)
            (Client.decrypt x d cipher) read
          ∙ check_plaintext-describe_file file_name text cipher who size)

module _ (x : External) (y : Suite) (laws : Laws x) where
  -- A file within the bounds, sealed by a client in a session that is in step with the one that the
  -- recipient finds for it, is encrypted to chunks and a manifest from which the recipient reassembles
  -- and decrypts the file. The counter is below 2^31.
  pub reassemble_and_decrypt-encrypt_file :
      (c d : Client) (pair : KeyPair) (a b : ℕ) (peer_id file_name text cipher : Bytes) (size : ℕ)
      → lookup peer_id c.sessions.table ≡ some a
      → find_session d.sessions c.id ≡ some b
      → IsInSync (c.sessions.peers a) (d.sessions.peers b)
      → (c.sessions.peers a).send_nonce < max_wire_nonce
      → 0 < length text
      → length text ≤ max_file_plaintext
      → size ≤ max_chunk_size
      → (Client.encrypt x c pair peer_id text).0 ≡ ok cipher
      → (chunks : List Bytes) × (mf : Manifest) × ((encrypt_file x y c pair peer_id file_name text
            size).0
          ≡ ok (cipher, chunks, mf))
        × ((reassemble_and_decrypt x y d c.id chunks mf).0 ≡ ok text)
  unfolding describe_file
  reassemble_and_decrypt-encrypt_file c d pair a b peer_id file_name text cipher size held found
        sync small some_text short fits sealed =
      let (a', held', sent) = client_encrypt-ok x c pair peer_id text cipher sealed in
      let same : a' ≡ a = ground (arith, held, held') in
      let sent_here =
        subst (λ n. (Ratchet.encrypt x (c.sessions.peers n) pair c.id text).0 ≡ ok cipher) same
          sent in
      let (read, later) =
        decrypt-encrypt x laws (c.sessions.peers a) (d.sessions.peers b) pair c.id text cipher sync
          small sent_here in
      let opened = client_decrypt-ok x d cipher c.id text b found read in
      (
        chunks_of (effective_size size) cipher,
        manifest_of x y file_name text (effective_size size) cipher,
        encrypt_file-ok x y c pair peer_id file_name text cipher size some_text short fits sealed,
        decrypt_file-ok x y d c.id file_name text cipher (effective_size size)
            (effective_size-bounds size fits).0 opened,
      )
