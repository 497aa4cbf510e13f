-- ===== src/Crypto/Ratchet.antt =====
-- crypto/kex_hybrid.go and ratchet.go: the double ratchet of a session. A method returns its result
-- and the session as it leaves it, on an error too. `lowSecurity` is false throughout the program,
-- and its branches are left out. A counter is an int that does not reach 2^63.
pub mod Sync
pub mod Rejects
pub mod Replay
pub mod Genuine
pub mod Gap
pub mod Conversation
pub mod Turns
use nex_talk.Base.{
  ℕ, zero, suc, ◌+◌, ◌-◌, ◌*◌, ◌/◌, ◌%◌, ◌^◌, ◌<◌, ◌≡◌, refl, Bool, true, false, not, ◌&&◌, ◌||◌,
  Option, none, some, List, [], ◌∷◌, ◌++◌, arith, Bytes, codes, beq, ltb, leb, ◌==◌, if◌then◌else◌,
  length, take, drop, Map, lookup, insert, delete, Result, ok, err, ◌>>=◌, ◌>>◌, require, or_fail,
}
use nex_talk.Std.Base64.{base64}
use nex_talk.Std.Decimal.{decimal}
use nex_talk.External.{External}
use nex_talk.Crypto.SecureMessage.{
  SecureMessage, CryptoError, CryptoResult, encoding_payload, encoding_frame, invalid_tag, bad_key,
  tampered, replay, too_many_skipped, hmac_payload, parse_secure_message, wire_frame,
}

-- IntToBytes of a number that is not negative: `length` bytes, big-endian.
unfoldable pub int_to_bytes : ℕ → ℕ → Bytes
int_to_bytes n zero = []
int_to_bytes n (suc l) = int_to_bytes (n / 256) l ++ (n % 256) ∷ []

-- The fields of SecurePeer that a session changes or reads after its handshake.
pub record SecurePeer : Type 0 where
  pub dh_private : Bytes
  pub dh_public : Bytes
  pub remote_dh_public : Option Bytes
  pub root_key : Bytes
  pub send_ck : Bytes
  pub recv_ck : Bytes
  pub hmac_key : Bytes
  pub send_nonce : ℕ
  pub recv_nonce : ℕ
  pub skipped_messages : Map Bytes
  pub pending_dh_ratchet : Bool

-- What GenerateX25519KeyPair draws.
pub record KeyPair : Type 0 where
  pub priv : Bytes
  pub public : Bytes

abbrev pub Outcome : Type 0 → Type 0
Outcome A = CryptoResult A × SecurePeer

-- maxSkip
abbrev pub max_skip : ℕ
max_skip = 1000

-- A nil slice reads as the empty one.
abbrev pub or_nil : Option Bytes → Bytes
or_nil none = []
or_nil (some b) = b

-- getSkipKeyStr over the base64 text of a key
unfoldable pub skip_key : Bytes → ℕ → Bytes
skip_key dh n = base64 dh ++ b':' ∷ decimal n

abbrev pub root_info : Bytes
root_info = codes "ratchet-root"

abbrev pub step_info : Bytes
step_info = codes "ratchet-step"

module _ (x : External) where
  -- The next chain key and the message key.
  unfoldable pub ratchet_step : Bytes → Bytes × Bytes
  ratchet_step ck = let material = x.hkdf ck [] step_info 64 in (take 32 material, drop 32 material)

  -- Associated data: the ratchet key and the counter.
  unfoldable pub associated : Bytes → ℕ → Bytes
  associated dh n = dh ++ int_to_bytes n 8

  -- Encrypt under `pendingDhRatchet`: new keys and a new sending chain.
  unfoldable pub rotate : SecurePeer → KeyPair → SecurePeer
  rotate sp pair =
      let material =
        x.hkdf (x.x25519 pair.priv (or_nil sp.remote_dh_public)) sp.root_key root_info 64 in
      record sp {
        dh_private = pair.priv;
        dh_public = pair.public;
        root_key = take 32 material;
        send_ck = drop 32 material;
        send_nonce = 0;
        pending_dh_ratchet = false;
      }

  unfoldable pub sealed_message : SecurePeer → Bytes → Bytes → Bytes → SecureMessage
  sealed_message sp mk sender plaintext = record {
    sender_id = sender;
    ratchet_key = sp.dh_public;
    nonce = sp.send_nonce;
    ciphertext =
        x.seal mk (int_to_bytes sp.send_nonce 24) plaintext (associated sp.dh_public sp.send_nonce);
    tag = [];
  }

  -- Encrypt from the cipher to the wire frame.
  unfoldable pub seal_frame : SecurePeer → Bytes → Bytes → Bytes → CryptoResult Bytes
  seal_frame sp mk sender plaintext = do
    require (x.new_x mk) bad_key
    let msg = sealed_message sp mk sender plaintext
    canonical ← or_fail (hmac_payload x msg) encoding_payload
    or_fail (wire_frame x (record msg { tag = x.hmac sp.hmac_key canonical })) encoding_frame

  -- `sp.SendNonce++` behind a frame that was written.
  unfoldable pub count_sent : SecurePeer → CryptoResult Bytes → Outcome Bytes
  count_sent sp (ok wire) = (ok wire, record sp { send_nonce = sp.send_nonce + 1 })
  count_sent sp (err e) = (err e, sp)

  unfoldable pub encrypt_chain : SecurePeer → Bytes → Bytes → Outcome Bytes
  encrypt_chain sp sender plaintext =
      let (next, mk) = ratchet_step sp.send_ck in
      count_sent (record sp { send_ck = next })
        (seal_frame (record sp { send_ck = next }) mk sender plaintext)

  -- Encrypt; `pair` is what it draws if it rotates.
  unfoldable pub encrypt : SecurePeer → KeyPair → Bytes → Bytes → Outcome Bytes
  encrypt sp pair sender plaintext =
      encrypt_chain (if sp.pending_dh_ratchet then rotate sp pair else sp) sender plaintext

  -- DhRatchet
  unfoldable pub dh_ratchet : SecurePeer → Bytes → SecurePeer
  dh_ratchet sp remote =
      let material = x.hkdf (x.x25519 sp.dh_private remote) sp.root_key root_info 64 in
      record sp {
        remote_dh_public = some remote;
        root_key = take 32 material;
        recv_ck = drop 32 material;
        recv_nonce = 0;
        pending_dh_ratchet = true;
      }

  -- One round of the loops that store the key of a message that has not come.
  unfoldable pub stash : SecurePeer → SecurePeer
  stash sp =
      let (next, mk) = ratchet_step sp.recv_ck in
      record sp {
        recv_ck = next;
        recv_nonce = sp.recv_nonce + 1;
        skipped_messages =
            insert (skip_key (or_nil sp.remote_dh_public) sp.recv_nonce) mk sp.skipped_messages;
      }

  -- `for sp.RecvNonce < n`, by the number of rounds.
  unfoldable pub advance : ℕ → SecurePeer → SecurePeer
  advance zero sp = sp
  advance (suc rounds) sp = advance rounds (stash sp)

  -- SkipMessageKeys
  unfoldable pub skip_message_keys : SecurePeer → ℕ → Outcome (Unit {0})
  skip_message_keys sp until =
      if ltb (sp.recv_nonce + max_skip) until
      then (err too_many_skipped, sp)
      else (ok tt, advance (until - sp.recv_nonce) sp)

  unfoldable pub decrypt_with_key : Bytes → SecureMessage → CryptoResult (Bytes × Bytes)
  decrypt_with_key mk msg = do
    require (x.new_x mk) bad_key
    plaintext ←
        or_fail
          (x.open_sealed mk (int_to_bytes msg.nonce 24) msg.ciphertext
            (associated msg.ratchet_key msg.nonce))
          tampered
    ok (msg.sender_id, plaintext)

  -- Decrypt up to the test of the tag.
  unfoldable pub authenticate : SecurePeer → Bytes → CryptoResult SecureMessage
  authenticate sp payload = do
    msg ← parse_secure_message x payload
    canonical ← or_fail (hmac_payload x msg) encoding_payload
    require (beq msg.tag (x.hmac sp.hmac_key canonical)) invalid_tag
    ok msg

  unfoldable pub open_chain : SecurePeer → SecureMessage → Outcome (Bytes × Bytes)
  open_chain sp msg =
      let (next, mk) = ratchet_step sp.recv_ck in
      (decrypt_with_key mk msg, record sp { recv_ck = next; recv_nonce = sp.recv_nonce + 1 })

  -- The replay test, the keys of a gap, and the message's own key.
  unfoldable pub open_next : SecurePeer → SecureMessage → Outcome (Bytes × Bytes)
  open_next sp msg =
      if ltb msg.nonce sp.recv_nonce
      then (err replay, sp)
      else open_chain (advance (msg.nonce - sp.recv_nonce) sp) msg

  -- `sp.RemoteDhPublic == nil || !bytes.Equal(…)`
  unfoldable pub is_new_epoch : SecurePeer → SecureMessage → Bool
  is_new_epoch sp msg = elim sp.remote_dh_public [
    | none ↦ true
    | some dh ↦ not (beq msg.ratchet_key dh)
  ]

  -- Decrypt behind the test of the tag.
  unfoldable pub open_message : SecurePeer → SecureMessage → Outcome (Bytes × Bytes)
  open_message sp msg =
      let key = skip_key msg.ratchet_key msg.nonce in
      elim (lookup key sp.skipped_messages) [
        | some mk ↦ (
          decrypt_with_key mk msg,
          record sp { skipped_messages = delete key sp.skipped_messages },
        )
        | none ↦ open_next (if is_new_epoch sp msg then dh_ratchet sp msg.ratchet_key else sp) msg
      ]

  -- Decrypt: the sender and the plaintext.
  unfoldable pub decrypt : SecurePeer → Bytes → Outcome (Bytes × Bytes)
  decrypt sp payload = elim (authenticate sp payload) [
    | err e ↦ (err e, sp)
    | ok msg ↦ open_message sp msg
  ]
