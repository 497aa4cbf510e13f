-- ===== src/Multimsg/Fanout/Send/Oversize.antt =====
-- internal/multimsg/fanout.go: SendMultiMessage with a large context.
use nex_talk.Base.{
  ℕ, ◌+◌, ◌<◌, ◌≡◌, inl, inr, refl, ◌∙◌, Bool, false, ◌||◌, some, List, [], ◌∷◌, ◌++◌, arith, Bytes,
  length, lookup, ok, err, Bool-cases, Option-cases,
}
use nex_talk.External.{External}
use nex_talk.Crypto.Ratchet.{KeyPair, SecurePeer}
use nex_talk.Multimsg.Types.{
  MessageContext, DeliveryResult, sent, is_status, FanoutResult, descriptor_too_large,
  marshal_context,
}
use nex_talk.Multimsg.Wire.RoundTrip.{wrap_payload_v2_too_large}
use nex_talk.Multimsg.Contexts.{load_context}
use nex_talk.Multimsg.Fanout.{Fanout}
use nex_talk.Multimsg.Fanout.Send.{
  Draws, Progress, encrypt_with_aad, deliver_offline, deliver_encrypted, deliver_online, deliver,
  deliver_all, any_sent, send_multi_message,
}
use nex_talk.Multimsg.Fanout.Send.Results.{send_prepared-ok, prepare_send-ok}

any_sent-snoc :
    (rs : List DeliveryResult) (d : DeliveryResult)
    → any_sent (rs ++ d ∷ []) ≡ (any_sent rs || is_status d.status sent)
unfolding any_sent
any_sent-snoc [] d = ground arith
any_sent-snoc (r ∷ rs) d = ground (arith, any_sent-snoc rs d)

any_sent-snoc_other :
    (rs : List DeliveryResult) (d : DeliveryResult)
    → is_status d.status sent ≡ false
    → any_sent (rs ++ d ∷ []) ≡ any_sent rs
any_sent-snoc_other rs d other = ground (arith, any_sent-snoc rs d)

module _ (x : External) (c : MessageContext) (b : Bytes) (encoded : marshal_context x c ≡ some b)
    (large : 255 < length b) where
  any_sent-offline :
      (p : Progress) (draws : Draws) (id context_id r : Bytes)
      → any_sent (deliver_offline x p draws id context_id r).results ≡ any_sent p.results
  unfolding deliver_offline is_status
  any_sent-offline p draws id context_id r = elim (Bool-cases p.fanout.config.skip_offline) [
    | inl on ↦ rw on (any_sent-snoc_other p.results _ refl)
    | inr off ↦ rw off (any_sent-snoc_other p.results _ refl)
  ]

  encrypt_with_aad-large :
      (session : SecurePeer) (pair : KeyPair) (who text aad : Bytes)
      → (encrypt_with_aad x session pair who text aad c).0 ≡ err descriptor_too_large
  unfolding encrypt_with_aad
  encrypt_with_aad-large session pair who text aad =
      rw (wrap_payload_v2_too_large x aad text b c encoded large, encrypt_with_aad)

  any_sent-online :
      (p : Progress) (draws : Draws) (id : Bytes) (pair : KeyPair) (context_id text r : Bytes)
      (a : ℕ)
      → any_sent (deliver_online x p draws id pair c context_id text r a).results
        ≡ any_sent p.results
  unfolding deliver_online deliver_encrypted is_status
  any_sent-online p draws id pair context_id text r a =
      rw (encrypt_with_aad-large, deliver_encrypted) (any_sent-snoc_other p.results _ refl)

  any_sent-deliver_all :
      (p : Progress) (draws : Draws) (i : ℕ) (id text : Bytes) (rs : List Bytes)
      → any_sent (deliver_all x p draws i c id text rs).results ≡ any_sent p.results
  unfolding deliver_all deliver
  any_sent-deliver_all p draws i id text [] = refl
  any_sent-deliver_all p draws i id text (r ∷ rs) =
      any_sent-deliver_all (deliver x p draws i c id text r) draws (i + 1) id text rs
      ∙ elim (Option-cases (lookup r p.fanout.client.sessions.table)) [
        | inl absent ↦ rw (absent, deliver) (any_sent-offline p draws _ id r)
        | inr (a, found) ↦ rw (found, deliver) (any_sent-online p draws _ _ id text r a)
      ]

-- With a context whose record is longer than 255 bytes no send reports a delivery as sent, whatever
-- the text, the recipients and their sessions.
pub send_multi_message_too_large :
    (x : External) (accepts : Bytes → Bytes → Bool) (f : Fanout) (draws : Draws) (id text b : Bytes)
    (all : List Bytes) (c : MessageContext) (r : FanoutResult)
    → load_context f.ctx_store id ≡ ok c
    → marshal_context x c ≡ some b
    → 255 < length b
    → (send_multi_message x accepts f draws id text all).0 ≡ ok r
    → any_sent r.deliveries ≡ false
unfolding send_multi_message
send_multi_message_too_large x accepts f draws id text b all c r stored encoded large h =
    let (c', rs, prepared, made) = send_prepared-ok x accepts f draws id text _ r h in
    let loaded = (prepare_send-ok x accepts f id all rs c' prepared).1 in
    let same : c' ≡ c = ground arith in
    rw made
      (unfold any_sent in any_sent-deliver_all x c' b (rw same encoded) large _ draws 0 id text rs)
