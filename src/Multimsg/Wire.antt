-- ===== src/Multimsg/Wire.antt =====
-- internal/multimsg/wire.go, and the framing functions of fanout.go: the payload inside a delivery.
pub mod Binding
pub mod RoundTrip
use nex_talk.Base.{
  ℕ, zero, suc, ◌+◌, ◌%◌, ◌<◌, ◌^◌, ◌≡◌, ◌≢◌, refl, Bool, true, false, Option, none, some, List, [],
  ◌∷◌, ◌++◌, arith, Bytes, length, take, drop, ltb, leb, ◌==◌, beq, if◌then◌else◌, Result, ok, err,
  ◌>>=◌, ◌>>◌, require, or_fail,
}
use nex_talk.Std.Words.{put_uint64, be_fold}
use nex_talk.External.{External}
use nex_talk.Relay.{peer_id_to_ed25519_pub}
use nex_talk.Multimsg.Types.{
  MessageContext, MultiError, MultiResult, empty_payload, truncated_msg_id, truncated_context_id,
  truncated_sender, truncated_recipient, truncated_version, truncated_descriptor, bad_descriptor,
  nil_context, bad_signature_length, bad_creator, marshal_failed, signature_mismatch,
  descriptor_too_large, transplanted, signature_size, sign_context_payload, marshal_context,
  unmarshal_context,
}

-- wireVersionV2
abbrev pub wire_version_v2 : ℕ
wire_version_v2 = 2

pub record DeliveryMeta : Type 0 where
  pub message_id : Bytes
  pub context_id : Bytes
  pub sender : Bytes
  pub recipient : Bytes
  pub version : ℕ

pub record Parsed : Type 0 where
  pub meta : DeliveryMeta
  pub context : Option MessageContext
  pub plaintext : Bytes

-- readLengthPrefixed: the field and the rest.
unfoldable pub read_length_prefixed : Bytes → Option (Bytes × Bytes)
read_length_prefixed [] = none
read_length_prefixed (n ∷ buf) =
    if ltb (length (n ∷ buf)) (1 + n) then none else some (take n buf, drop n buf)

-- parseAAD: the binding and the rest.
unfoldable pub parse_aad : Bytes → MultiResult (DeliveryMeta × Bytes)
parse_aad buf0 = do
  (msg_id, buf1) ← or_fail (read_length_prefixed buf0) truncated_msg_id
  (ctx_id, buf2) ← or_fail (read_length_prefixed buf1) truncated_context_id
  (sender, buf3) ← or_fail (read_length_prefixed buf2) truncated_sender
  (recipient, buf4) ← or_fail (read_length_prefixed buf3) truncated_recipient
  require (leb 8 (length buf4)) truncated_version
  ok (
    record {
      message_id = msg_id;
      context_id = ctx_id;
      sender = sender;
      recipient = recipient;
      version = be_fold 0 (take 8 buf4);
    },
    drop 8 buf4,
  )

module _ (x : External) where
  -- VerifyContextSignature of a context that is not nil
  unfoldable pub verify_context_signature : MessageContext → MultiResult (Unit {0})
  verify_context_signature c = do
    require (length c.signature == signature_size) bad_signature_length
    pub_key ← (elim (peer_id_to_ed25519_pub x c.creator_id) [
      | ok k ↦ ok k
      | err e ↦ err bad_creator
    ])
    payload ← or_fail (sign_context_payload x c) marshal_failed
    require (x.ed25519_verify pub_key payload c.signature) signature_mismatch

  -- The descriptor of ParseWrapped: absent if its bytes are none.
  unfoldable pub read_descriptor : Bytes → MultiResult (Option MessageContext)
  read_descriptor [] = ok none
  read_descriptor (b ∷ bs) = do
    c ← or_fail (unmarshal_context x (b ∷ bs)) bad_descriptor
    verify_context_signature c
    ok (some c)

  unfoldable pub parse_v2 : Bytes → MultiResult Parsed
  parse_v2 body = do
    (meta, rest) ← parse_aad body
    (descriptor, plaintext) ← or_fail (read_length_prefixed rest) truncated_descriptor
    context ← read_descriptor descriptor
    ok (record { meta = meta; context = context; plaintext = plaintext })

  unfoldable pub parse_v1 : Bytes → MultiResult Parsed
  parse_v1 wrapped = do
    (meta, rest) ← parse_aad wrapped
    ok (record { meta = meta; context = none; plaintext = rest })

  -- ParseWrapped
  unfoldable pub parse_wrapped : Bytes → MultiResult Parsed
  parse_wrapped [] = err empty_payload
  parse_wrapped (v ∷ body) = if v == wire_version_v2 then parse_v2 body else parse_v1 (v ∷ body)

  -- wrapPayloadV2
  unfoldable pub wrap_payload_v2 : Bytes → Option MessageContext → Bytes → MultiResult Bytes
  wrap_payload_v2 aad none plaintext = ok (wire_version_v2 ∷ aad ++ 0 ∷ plaintext)
  wrap_payload_v2 aad (some c) plaintext = do
    ctx_bin ← or_fail (marshal_context x c) marshal_failed
    require (leb (length ctx_bin) 255) descriptor_too_large
    ok (wire_version_v2 ∷ aad ++ length ctx_bin ∷ (ctx_bin ++ plaintext))

-- appendLengthPrefixed: the length is kept modulo 256.
unfoldable pub append_length_prefixed : Bytes → Bytes → Bytes
append_length_prefixed buf d = buf ++ (length d % 256) ∷ d

-- buildDeliveryAAD
unfoldable pub build_delivery_aad : Bytes → Bytes → Bytes → Bytes → ℕ → Bytes
unfolding append_length_prefixed
build_delivery_aad msg_id ctx_id sender recipient version =
    let buf = append_length_prefixed (append_length_prefixed [] msg_id) ctx_id in
    append_length_prefixed (append_length_prefixed buf sender) recipient ++ put_uint64 version

-- wrapPlaintext and unwrapPlaintext, the older form
unfoldable pub wrap_plaintext : Bytes → Bytes → Bytes
wrap_plaintext plaintext aad = aad ++ plaintext

unfoldable pub unwrap_plaintext : Bytes → Bytes → MultiResult Bytes
unwrap_plaintext wrapped expected = do
  require (leb (length expected) (length wrapped)) truncated_version
  require (beq (take (length expected) wrapped) expected) transplanted
  ok (drop (length expected) wrapped)
