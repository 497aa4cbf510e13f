-- ===== src/Multimsg/Fanout/Receive.antt =====
-- internal/multimsg/fanout.go: the receiving half.
pub mod Dedup
use nex_talk.Base.{
  ℕ, zero, suc, ◌+◌, ◌≡◌, refl, Bool, true, false, not, ◌&&◌, ◌||◌, Option, none, some, List, [],
  ◌∷◌, ◌++◌, arith, Bytes, codes, beq, is_empty, ◌==◌, ltb, take, length, if◌then◌else◌, Result, ok,
  err, ◌>>=◌, ◌>>◌, require, or_fail,
}
use nex_talk.External.{External}
use nex_talk.Relay.{type_byte, multi_msg}
use nex_talk.Crypto.SecureMessage.{replay}
use nex_talk.Client.{Client, ClientError, crypto}
use nex_talk.Client
use nex_talk.Multimsg.Types.{
  MessageContext, MultiError, MultiResult, duplicate_delivery, not_multi_msg, session_rolled_back,
  decrypt_failed, sender_mismatch, transplanted,
}
use nex_talk.Multimsg.Wire.{DeliveryMeta, Parsed, parse_wrapped}
use nex_talk.Multimsg.Contexts.{load_context}
use nex_talk.Multimsg.Fanout.{Fanout, FanoutOutcome, MessageKey, apply_remote_context}

pub record InboundMessage : Type 0 where
  pub sender : Bytes
  pub meta : DeliveryMeta
  pub context : Option MessageContext
  pub plaintext : Bytes

-- (*InboundMessage).ContextID
unfoldable pub context_id_of : InboundMessage → Bytes
context_id_of m = elim m.context [
  | none ↦ m.meta.context_id
  | some c ↦ if is_empty c.context_id then m.meta.context_id else c.context_id
]

-- The name of an unknown group.
unfoldable pub fallback_name : Bytes → Bytes
fallback_name id = codes "group:" ++ (if ltb 8 (length id) then take 8 id else id)

-- (*InboundMessage).DisplayName
unfoldable pub display_name_of : InboundMessage → Bytes
unfolding fallback_name
display_name_of m = elim m.context [
  | none ↦ fallback_name m.meta.context_id
  | some c ↦ if is_empty c.display_name then fallback_name m.meta.context_id else c.display_name
]

unfoldable pub has_key : List MessageKey → Bytes → Bytes → Bool
has_key [] sender id = false
has_key (k ∷ ks) sender id = beq k.sender sender && beq k.message_id id || has_key ks sender id

-- The binding checks of ProcessDelivery, and the sender that an empty claim stands for.
unfoldable pub check_binding : Bytes → Bytes → DeliveryMeta → MultiResult DeliveryMeta
check_binding self frame_sender meta = do
  require (is_empty meta.sender || beq meta.sender frame_sender) sender_mismatch
  require (is_empty meta.recipient || beq meta.recipient self) transplanted
  ok (if is_empty meta.sender then record meta { sender = frame_sender } else meta)

unfoldable pub decrypt_error : ClientError → MultiError
decrypt_error (crypto replay) = session_rolled_back
decrypt_error _ = decrypt_failed

-- The stored copy of a context, where the message brings none.
unfoldable pub stored_context : Fanout → Bytes → Option MessageContext
stored_context f id = elim (load_context f.ctx_store id) [ err e ↦ none | ok c ↦ some c ]

keep_ok : MultiResult InboundMessage → List InboundMessage → List InboundMessage
keep_ok (err e) rest = rest
keep_ok (ok m) rest = m ∷ rest

module _ (x : External) where
  -- The context of the message, and the store once its descriptor was applied.
  unfoldable pub learn_context :
      Fanout → Option MessageContext → Bytes → Option MessageContext × Fanout
  learn_context f none id = (stored_context f id, f)
  learn_context f (some c) id =
      let (applied, f') = apply_remote_context x f c in
      elim applied [ ok u ↦ (some c, f') | err e ↦ (stored_context f' id, f') ]

  -- ProcessDelivery behind the dedup test.
  unfoldable pub accept : Fanout → Bytes → DeliveryMeta → Parsed → FanoutOutcome InboundMessage
  accept f sender meta parsed =
      let (context, f') = learn_context f parsed.context meta.context_id in
      (
        ok (record {
          sender = sender;
          meta = meta;
          context = context;
          plaintext = parsed.plaintext;
        }),
        f',
      )

  -- The dedup test: one message by sender and message ID.
  unfoldable pub dedup : Fanout → Bytes → DeliveryMeta → Parsed → FanoutOutcome InboundMessage
  dedup f sender meta parsed =
      if has_key f.seen_messages sender meta.message_id
      then (err duplicate_delivery, f)
      else accept
          (record f {
            seen_messages =
                record { sender = sender; message_id = meta.message_id } ∷ f.seen_messages;
          })
          sender meta parsed

  unfoldable pub process_checked :
      Fanout → Bytes → MultiResult (DeliveryMeta × Parsed) → FanoutOutcome InboundMessage
  process_checked f sender (err e) = (err e, f)
  process_checked f sender (ok (meta, parsed)) = dedup f sender meta parsed

  -- ProcessDelivery behind the decryption.
  unfoldable pub process_plain :
      Fanout → Bytes → Result ClientError (Bytes × Bytes) → FanoutOutcome InboundMessage
  process_plain f self (err e) = (err (decrypt_error e), f)
  process_plain f self (ok (sender, wrapped)) =
      let checked : MultiResult (DeliveryMeta × Parsed) = (do
        parsed ← parse_wrapped x wrapped
        meta ← check_binding self sender parsed.meta
        ok (meta, parsed)) in
      process_checked f sender checked

  -- ProcessDelivery
  unfoldable pub process_delivery : Fanout → Bytes → Bytes → FanoutOutcome InboundMessage
  process_delivery f self ciphertext =
      let (result, client) = Client.decrypt x f.client ciphertext in
      process_plain (record f { client = client }) self result

  -- One body of ReceiveMultiMessage.
  unfoldable pub receive_one : Fanout → Bytes → FanoutOutcome InboundMessage
  receive_one f [] = (err not_multi_msg, f)
  receive_one f (t ∷ body) =
      if t == type_byte multi_msg
      then process_delivery f f.client.id body
      else (err not_multi_msg, f)

  -- The bodies of ReceiveMultiMessage: what is no group delivery or fails is passed over.
  unfoldable pub receive_all : Fanout → List Bytes → List InboundMessage × Fanout
  unfolding keep_ok
  receive_all f [] = ([], f)
  receive_all f (body ∷ bodies) =
      let (result, f') = receive_one f body in
      let (rest, f'') = receive_all f' bodies in (keep_ok result rest, f'')
