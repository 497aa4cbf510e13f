-- ===== src/Client.antt =====
-- client/client.go: the sessions of an identity. `CreateOffer` puts one session object under two
-- keys, so a table of addresses stands before the objects: `peers` and `keys` are the fields of the
-- object at an address, and `next` is the first address that is free. `saved` is what `<id>.json`
-- holds of them, as LoadClient reads it: a peer for each name.
pub mod Messages
pub mod Handshakes
pub mod Meeting
use nex_talk.Base.{
  ℕ, Bool, true, false, not, ◌||◌, Option, none, some, List, [], ◌∷◌, ◌++◌, Bytes, codes, ◌==◌,
  if◌then◌else◌, Map, lookup, insert, delete, ◌+◌, is_empty, Result, ok, err,
}
use nex_talk.External.{External}
use nex_talk.Crypto.SecureMessage.{CryptoError, CryptoResult, sender_id_from_frame}
use nex_talk.Crypto.Ratchet.{SecurePeer, KeyPair}
use nex_talk.Crypto.Ratchet
use nex_talk.Crypto.Handshake.{Peer, PeerKeys}
use nex_talk.External.Suite.{Suite}
use nex_talk.Core.Wire.{LegacyJson, peek_answer_sender_id}
use nex_talk.Core.Engine.{Identity, Drawn, EngineError}
use nex_talk.Core.Engine

pub record Sessions : Type 0 where
  pub table : Map ℕ
  pub peers : ℕ → SecurePeer
  pub keys : ℕ → PeerKeys
  pub next : ℕ

pub record Client : Type 0 where
  pub id : Bytes
  pub identity_private : Bytes
  pub identity_public : Bytes
  pub dilithium_private : Bytes
  pub dilithium_public : Bytes
  pub sessions : Sessions
  pub saved : Option (Map Peer)
  pub ephemeral : Bool
  pub writable : Bool

pub data ClientError : Type 0 where
  no_session no_pending_session bad_answer_header : ClientError
  engine : EngineError → ClientError
  crypto : CryptoError → ClientError

-- A write through a session pointer.
unfoldable pub set_peer : Sessions → ℕ → SecurePeer → Sessions
set_peer s a sp = record s { peers = λ b. if a == b then sp else s.peers b }

unfoldable pub update_peer : Client → ℕ → SecurePeer → Client
unfolding set_peer
update_peer c a sp = record c { sessions = set_peer c.sessions a sp }

unfoldable pub peer_at : Sessions → ℕ → Peer
peer_at s a = record { keys = s.keys a; session = s.peers a }

-- A peer in the JSON of a client. `pendingDhRatchet` is not exported, so it is left out, and a peer
-- that is read has its zero value.
unfoldable pub exported : Peer → Peer
exported p = record p { session = record p.session { pending_dh_ratchet = false } }

-- The sessions in that JSON; a peer with two names stands there twice.
unfoldable pub exported_sessions : Sessions → Map ℕ → Map Peer
exported_sessions s [] = []
exported_sessions s ((name, a) ∷ table) = (name, exported (peer_at s a)) ∷ exported_sessions s table

-- SaveClient
unfoldable pub save_client : Client → Client
save_client c =
    if c.ephemeral || not c.writable
    then c
    else record c { saved = some (exported_sessions c.sessions c.sessions.table) }

abbrev pub pending_prefix : Bytes
pending_prefix = codes "pending_"

abbrev pub pending_key : Bytes
pending_key = codes "pending"

-- The session that Decrypt tries: the sender's, the one pending with the sender, or the pending one.
unfoldable pub find_session : Sessions → Bytes → Option ℕ
find_session s sender = elim (lookup sender s.table) [
  | some a ↦ some a
  | none ↦ elim (lookup (pending_prefix ++ sender) s.table) [
    | some a ↦ some a
    | none ↦ lookup pending_key s.table
  ]
]

-- What the client gives to the engine.
unfoldable pub identity_of : Client → Identity
identity_of c = record {
  id = c.id;
  ed25519_private = c.identity_private;
  ed25519_public = c.identity_public;
  dilithium_private = c.dilithium_private;
  dilithium_public = c.dilithium_public;
}

-- A write of a whole object, and a new one.
unfoldable pub put_peer : Sessions → ℕ → Peer → Sessions
put_peer s a p = record s {
  peers = λ b. if a == b then p.session else s.peers b;
  keys = λ b. if a == b then p.keys else s.keys b;
}

unfoldable pub new_session : Sessions → Peer → Sessions
unfolding put_peer
new_session s p = record (put_peer s s.next p) { next = s.next + 1 }

-- `sessions[name]`
unfoldable pub session_of : Sessions → Bytes → Option Peer
session_of s name = elim (lookup name s.table) [ none ↦ none | some a ↦ some (peer_at s a) ]

-- The names that CreateOffer files a pending peer under.
unfoldable pub file_pending : Map ℕ → Bytes → ℕ → Map ℕ
file_pending table peer_id a =
    insert pending_key a
      (if is_empty peer_id then table else insert (pending_prefix ++ peer_id) a table)

-- The pending peer for an answer's sender.
unfoldable pub find_pending : Sessions → Bytes → Option ℕ
find_pending s sender = elim (lookup (pending_prefix ++ sender) s.table) [
  | some a ↦ some a
  | none ↦ lookup pending_key s.table
]

-- The peer is filed under its ID and no longer as pending.
unfoldable pub promote : Map ℕ → Bytes → ℕ → Map ℕ
promote table peer_id a =
    insert peer_id a (delete (pending_prefix ++ peer_id) (delete pending_key table))

-- FinishHandshake behind the engine's, which has changed the peer.
finish_at : Client → ℕ → Result EngineError Bytes × Peer → Result ClientError Bytes × Client
finish_at c a (err e, p) = (err (engine e), record c { sessions = put_peer c.sessions a p })
finish_at c a (ok peer_id, p) =
    let s = put_peer c.sessions a p in
    (
      ok peer_id,
      save_client (record c { sessions = record s { table = promote s.table peer_id a } }),
    )

module _ (x : External) (y : Suite) (legacy : LegacyJson) where
  -- CreateOffer
  unfoldable pub create_offer : Client → Drawn → Bytes → Result ClientError Bytes × Client
  create_offer c d peer_id = elim (Engine.create_offer x y (identity_of c) d peer_id) [
    | err e ↦ (err (engine e), c)
    | ok (p, wire) ↦
        let s = new_session c.sessions p in
        (
          ok wire,
          save_client (record c {
            sessions = record s { table = file_pending s.table peer_id c.sessions.next };
          }),
        )
  ]

  -- AcceptOffer
  unfoldable pub accept_offer : Client → Drawn → Bytes → Result ClientError Bytes × Client
  accept_offer c d offer_bytes =
      elim (Engine.accept_offer x y legacy (identity_of c) (session_of c.sessions) d offer_bytes) [
        | err e ↦ (err (engine e), c)
        | ok (sender, p, wire) ↦
            let s = new_session c.sessions p in
            (
              ok wire,
              save_client (record c {
                sessions = record s { table = insert sender c.sessions.next s.table };
              }),
            )
      ]

  -- FinishHandshake
  unfoldable pub finish_handshake : Client → Bytes → Result ClientError Bytes × Client
  unfolding finish_at
  finish_handshake c answer_bytes = elim (peek_answer_sender_id x legacy answer_bytes) [
    | none ↦ (err bad_answer_header, c)
    | some sender ↦ elim (find_pending c.sessions sender) [
      | none ↦ (err no_pending_session, c)
      | some a ↦
          finish_at c a
            (Engine.finish_handshake x y legacy c.id (peer_at c.sessions a) answer_bytes)
    ]
  ]

module _ (x : External) where
  -- `SaveClient` behind a success.
  after_crypto : {A : Type 0} → Client → CryptoResult A → Result ClientError A × Client
  after_crypto c (err e) = (err (crypto e), c)
  after_crypto c (ok a) = (ok a, save_client c)

  -- Encrypt
  unfoldable pub encrypt : Client → KeyPair → Bytes → Bytes → Result ClientError Bytes × Client
  unfolding after_crypto
  encrypt c pair peer_id message = elim (lookup peer_id c.sessions.table) [
    | none ↦ (err no_session, c)
    | some a ↦
        let (result, sp) = Ratchet.encrypt x (c.sessions.peers a) pair c.id message in
        after_crypto (update_peer c a sp) result
  ]

  -- Decrypt in the session that was chosen.
  unfoldable pub decrypt_in : Client → Bytes → ℕ → Result ClientError (Bytes × Bytes) × Client
  unfolding after_crypto
  decrypt_in c payload a =
      let (result, sp) = Ratchet.decrypt x (c.sessions.peers a) payload in
      after_crypto (update_peer c a sp) result

  -- Decrypt: the sender and the plaintext.
  unfoldable pub decrypt : Client → Bytes → Result ClientError (Bytes × Bytes) × Client
  decrypt c payload = elim (sender_id_from_frame x payload) [
    | err e ↦ (err (crypto e), c)
    | ok claimed ↦ elim (find_session c.sessions claimed) [
      | none ↦ (err no_session, c)
      | some a ↦ decrypt_in c payload a
    ]
  ]
