-- ===== src/Client/Messages.antt =====
-- client/client.go: Encrypt and Decrypt of a client, and those of its sessions.
use nex_talk.Base.{ℕ, ◌≡◌, refl, some, arith, Bytes, lookup, ok, err, Option-cases, inl, inr}
use nex_talk.External.{External}
use nex_talk.Crypto.SecureMessage.{CryptoResult, sender_id_from_frame}
use nex_talk.Crypto.Ratchet.{SecurePeer, KeyPair}
use nex_talk.Crypto.Ratchet
use nex_talk.Crypto.Ratchet.Genuine.{IsGenuine, decrypt-IsGenuine}
use nex_talk.Client.{Client, find_session, decrypt_in, after_crypto}
use nex_talk.Client

module _ (x : External) where
  sender_id-IsGenuine :
      (r : SecurePeer) (wire who text : Bytes)
      → IsGenuine x r wire who text
      → sender_id_from_frame x wire ≡ ok who
  unfolding sender_id_from_frame
  sender_id-IsGenuine r wire who text g = rw (g.parsed, g.named) refl

  -- The result of Client.Decrypt where the session decrypts.
  pub client_decrypt-ok :
      (c : Client) (wire who text : Bytes) (a : ℕ)
      → find_session c.sessions who ≡ some a
      → (Ratchet.decrypt x (c.sessions.peers a) wire).0 ≡ ok (who, text)
      → (Client.decrypt x c wire).0 ≡ ok (who, text)
  unfolding Client.decrypt decrypt_in
  client_decrypt-ok c wire who text a found read =
      let named =
        sender_id-IsGenuine (c.sessions.peers a) wire who text
          (decrypt-IsGenuine x (c.sessions.peers a) wire who text read) in
      ground (arith, named, found, read)

  after_crypto-ok :
      {A : Type 0} (c : Client) (r : CryptoResult A) (v : A)
      → (after_crypto x c r).0 ≡ ok v
      → r ≡ ok v
  unfolding after_crypto
  after_crypto-ok c (err e) v h = absurd (ground (arith, h))
  after_crypto-ok c (ok a) v h = ground (arith, h)

  -- The session behind a text that Client.Encrypt has sealed.
  pub client_encrypt-ok :
      (c : Client) (pair : KeyPair) (peer_id text wire : Bytes)
      → (Client.encrypt x c pair peer_id text).0 ≡ ok wire
      → (a : ℕ) × (lookup peer_id c.sessions.table ≡ some a)
        × ((Ratchet.encrypt x (c.sessions.peers a) pair c.id text).0 ≡ ok wire)
  unfolding Client.encrypt after_crypto
  client_encrypt-ok c pair peer_id text wire e =
      elim (Option-cases (lookup peer_id c.sessions.table)) [
        | inl unknown ↦ absurd (ground arith)
        | inr (a, known) ↦ (a, known, after_crypto-ok _ _ wire (rw (known, Client.encrypt) at e))
      ]
