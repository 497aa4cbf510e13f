-- ===== src/Client/Handshakes.antt =====
-- client/client.go: the handshake of two clients, in the tables of both.
use nex_talk.Base.{
  ℕ, ◌≡◌, refl, ap, ◌∙◌, false, some, ◌++◌, arith, Bytes, is_empty, beq_refl, lookup, insert,
  delete, lookup-insert, Map, ok,
}
use nex_talk.External.{External}
use nex_talk.External.Suite.{Suite}
use nex_talk.Crypto.Handshake.{Peer}
use nex_talk.Core.Wire.{LegacyJson, peek_answer_sender_id}
use nex_talk.Core.Engine.{Identity, Drawn}
use nex_talk.Core.Engine
use nex_talk.Client.{
  Client, Sessions, save_client, identity_of, peer_at, put_peer, new_session, session_of,
  file_pending, find_pending, promote, pending_prefix, pending_key, create_offer, accept_offer,
  finish_at, finish_handshake,
}

save_client-sessions : (c : Client) → (save_client c).sessions ≡ c.sessions
unfolding save_client
save_client-sessions c = ground arith

save_client-id : (c : Client) → (save_client c).id ≡ c.id
unfolding save_client
save_client-id c = ground arith

peer_at-put_peer : (s : Sessions) (a : ℕ) (p : Peer) → peer_at (put_peer s a p) a ≡ p
unfolding peer_at put_peer
peer_at-put_peer s a p = ground arith

lookup_filed :
    (table : Map ℕ) (peer_id : Bytes) (a : ℕ)
    → is_empty peer_id ≡ false
    → lookup (pending_prefix ++ peer_id) (file_pending table peer_id a) ≡ some a
unfolding file_pending
lookup_filed table peer_id a named = ground (
  arith,
  lookup-insert pending_key (pending_prefix ++ peer_id) a
      (insert (pending_prefix ++ peer_id) a table),
  lookup-insert (pending_prefix ++ peer_id) (pending_prefix ++ peer_id) a table,
  beq_refl (pending_prefix ++ peer_id),
)

lookup_promoted :
    (table : Map ℕ) (peer_id : Bytes) (a : ℕ) → lookup peer_id (promote table peer_id a) ≡ some a
unfolding promote
lookup_promoted table peer_id a =
    lookup-insert peer_id peer_id a (delete (pending_prefix ++ peer_id) (delete pending_key table))
    ∙ ground (arith, beq_refl peer_id)

find_pending-some :
    (s : Sessions) (sender : Bytes) (a : ℕ)
    → lookup (pending_prefix ++ sender) s.table ≡ some a
    → find_pending s sender ≡ some a
unfolding find_pending
find_pending-some s sender a e = ground arith

session_of-some :
    (s : Sessions) (name : Bytes) (a : ℕ) (p : Peer)
    → lookup name s.table ≡ some a
    → peer_at s a ≡ p
    → session_of s name ≡ some p
unfolding session_of
session_of-some s name a p found at_a = rw (session_of, found) (ap some at_a)

module _ (x : External) (y : Suite) (legacy : LegacyJson) where
  pub create_offer-ok :
      (c : Client) (d : Drawn) (peer_id wire : Bytes) (p : Peer)
      → Engine.create_offer x y (identity_of c) d peer_id ≡ ok (p, wire)
      → is_empty peer_id ≡ false
      → ((create_offer x y legacy c d peer_id).0 ≡ ok wire)
        × ((create_offer x y legacy c d peer_id).1.id ≡ c.id)
        × (find_pending (create_offer x y legacy c d peer_id).1.sessions peer_id
            ≡ some c.sessions.next)
        × (peer_at (create_offer x y legacy c d peer_id).1.sessions c.sessions.next ≡ p)
  unfolding create_offer new_session peer_at put_peer
  create_offer-ok c d peer_id wire p e named =
      let filed = lookup_filed c.sessions.table peer_id c.sessions.next named in
      rw (create_offer, e)
        (
          refl,
          save_client-id _,
          rw save_client-sessions (find_pending-some _ peer_id c.sessions.next filed),
          rw save_client-sessions (peer_at-put_peer c.sessions c.sessions.next p),
        )

  pub accept_offer-ok :
      (c : Client) (d : Drawn) (offer sender wire : Bytes) (p : Peer)
      → Engine.accept_offer x y legacy (identity_of c) (session_of c.sessions) d offer
        ≡ ok (sender, p, wire)
      → ((accept_offer x y legacy c d offer).0 ≡ ok wire)
        × (session_of (accept_offer x y legacy c d offer).1.sessions sender ≡ some p)
  unfolding accept_offer new_session peer_at put_peer
  accept_offer-ok c d offer sender wire p e =
      let filed : lookup sender (insert sender c.sessions.next c.sessions.table)
          ≡ some c.sessions.next =
        lookup-insert sender sender c.sessions.next c.sessions.table
        ∙ ground (arith, beq_refl sender) in
      rw (accept_offer, e)
        (
          refl,
          rw save_client-sessions (
              session_of-some _ sender c.sessions.next p filed
                (peer_at-put_peer c.sessions c.sessions.next p)),
        )

  pub finish_handshake-ok :
      (c : Client) (a : ℕ) (answer sender peer_id : Bytes) (p : Peer)
      → peek_answer_sender_id x legacy answer ≡ some sender
      → find_pending c.sessions sender ≡ some a
      → Engine.finish_handshake x y legacy c.id (peer_at c.sessions a) answer ≡ (ok peer_id, p)
      → ((finish_handshake x y legacy c answer).0 ≡ ok peer_id)
        × (session_of (finish_handshake x y legacy c answer).1.sessions peer_id ≡ some p)
  unfolding finish_handshake finish_at put_peer peer_at
  finish_handshake-ok c a answer sender peer_id p peeked found e =
      rw (finish_handshake, peeked, found, e)
        (
          refl,
          rw save_client-sessions (
              session_of-some _ peer_id a p (lookup_promoted c.sessions.table peer_id a)
                (peer_at-put_peer c.sessions a p)),
        )
