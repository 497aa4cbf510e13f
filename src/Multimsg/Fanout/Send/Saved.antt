-- ===== src/Multimsg/Fanout/Send/Saved.antt =====
-- internal/multimsg/fanout.go: the save of the client in SendMultiMessage.
use nex_talk.Base.{
  ℕ, ◌+◌, ◌≡◌, refl, sym, subst, Map, lookup, Option, none, Bool, true, false, some, List, [], ◌∷◌,
  arith, Bytes, ok, err,
}
use nex_talk.External.{External}
use nex_talk.Crypto.Handshake.{Peer}
use nex_talk.Client.{
  Client, Sessions, save_client, update_peer, exported, exported_sessions, peer_at, session_of,
}
use nex_talk.Multimsg.Types.{MessageContext, FanoutResult, MultiResult}
use nex_talk.Multimsg.Fanout.{Fanout}
use nex_talk.Multimsg.Fanout.Send.{
  Draws, Progress, deliver_offline, deliver_encrypted, deliver_online, deliver, deliver_all,
  any_sent, finish_send, prepare_send, send_prepared, send_multi_message,
}
use nex_talk.Multimsg.Fanout.Send.Results.{send_deliveries-client}

-- A client that SaveClient can save.
pub record IsLasting (c : Client) : Type 0 where
  pub lasting : c.ephemeral ≡ false
  pub writes : c.writable ≡ true

-- A session with no ratchet step due.
settled_peer : Option Peer → Option Peer
settled_peer none = none
settled_peer (some p) =
    some (record p { session = record p.session { pending_dh_ratchet = false } })

-- The file has each session of the memory under its name, but for a ratchet step that is due, and no
-- other.
pub IsSaved : Client → Type 0
unfolding settled_peer
IsSaved c =
    (file : Map Peer) × (c.saved ≡ some file)
    × ((name : Bytes) → lookup name file ≡ settled_peer (session_of c.sessions name))

lookup-exported_sessions :
    (s : Sessions) (table : Map ℕ) (name : Bytes)
    → lookup name (exported_sessions s table)
      ≡ settled_peer (elim (lookup name table) [ none ↦ none | some a ↦ some (peer_at s a) ])
unfolding exported_sessions exported settled_peer lookup
lookup-exported_sessions s [] name = refl
lookup-exported_sessions s ((k, a) ∷ table) name =
    ground (arith, lookup-exported_sessions s table name)

save_client-IsSaved : (c : Client) → IsLasting c → IsSaved (save_client c)
unfolding save_client IsSaved session_of
save_client-IsSaved c v =
    rw (v.lasting, v.writes, save_client)
      (
        exported_sessions c.sessions c.sessions.table,
        refl,
        λ name. lookup-exported_sessions c.sessions c.sessions.table name,
      )

module _ (x : External) where
  deliver-IsLasting :
      (p : Progress) (draws : Draws) (i : ℕ) (c : MessageContext) (id text r : Bytes)
      → IsLasting p.fanout.client
      → IsLasting (deliver x p draws i c id text r).fanout.client
  unfolding deliver deliver_offline deliver_online deliver_encrypted update_peer
  deliver-IsLasting p draws i c id text r v = ground arith

  deliver_all-IsLasting :
      (p : Progress) (draws : Draws) (i : ℕ) (c : MessageContext) (id text : Bytes)
      (rs : List Bytes)
      → IsLasting p.fanout.client
      → IsLasting (deliver_all x p draws i c id text rs).fanout.client
  unfolding deliver_all
  deliver_all-IsLasting p draws i c id text [] v = v
  deliver_all-IsLasting p draws i c id text (r ∷ rs) v =
      deliver_all-IsLasting (deliver x p draws i c id text r) draws (i + 1) c id text rs
        (deliver-IsLasting p draws i c id text r v)

module _ (x : External) (accepts : Bytes → Bytes → Bool) where
  finish_send-client :
      (draws : Draws) (c : MessageContext) (p : Progress) (r : FanoutResult)
      → (finish_send x accepts draws c p).0 ≡ ok r
      → any_sent r.deliveries ≡ true
      → (finish_send x accepts draws c p).1.client ≡ save_client p.fanout.client
  unfolding finish_send
  finish_send-client draws c p r h any =
      let f = record p.fanout { client = save_client p.fanout.client } in
      ground (arith, send_deliveries-client x accepts f p.deliveries)

  send_prepared-IsSaved :
      (f : Fanout) (draws : Draws) (id text : Bytes)
      (prepared : MultiResult (MessageContext × List Bytes)) (r : FanoutResult)
      → IsLasting f.client
      → (send_prepared x accepts f draws id text prepared).0 ≡ ok r
      → any_sent r.deliveries ≡ true
      → IsSaved (send_prepared x accepts f draws id text prepared).1.client
  unfolding send_prepared
  send_prepared-IsSaved f draws id text (err e) r v h any = absurd (ground arith)
  send_prepared-IsSaved f draws id text (ok (c, rs)) r v h any =
      subst IsSaved (sym (finish_send-client draws c _ r h any))
        (save_client-IsSaved _ (deliver_all-IsLasting x _ draws 0 c id text rs v))

  -- When a send with a delivery that was sent returns, and the client is one that is saved and can
  -- be written, the file holds each session as it is in memory, all but its mark of a ratchet step
  -- that is due, and no other session.
  pub send_multi_message-IsSaved :
      (f : Fanout) (draws : Draws) (id text : Bytes) (all : List Bytes) (r : FanoutResult)
      → IsLasting f.client
      → (send_multi_message x accepts f draws id text all).0 ≡ ok r
      → any_sent r.deliveries ≡ true
      → IsSaved (send_multi_message x accepts f draws id text all).1.client
  unfolding send_multi_message
  send_multi_message-IsSaved f draws id text all r v h any =
      send_prepared-IsSaved f draws id text (prepare_send x accepts f id all) r v h any
