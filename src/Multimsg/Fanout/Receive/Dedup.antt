-- ===== src/Multimsg/Fanout/Receive/Dedup.antt =====
-- internal/multimsg/fanout.go: the dedup test and the binding checks of ProcessDelivery.
use nex_talk.Base.{
  ◌≡◌, ◌⊎◌, inl, inr, refl, true, false, Option, none, some, List, [], ◌∷◌, arith, Bytes, beq_iff,
  is_empty, ◌==◌, Result, ok, err, Bool-cases, Result-cases,
}
use nex_talk.External.{External}
use nex_talk.Relay.{type_byte, multi_msg}
use nex_talk.Client.{ClientError}
use nex_talk.Multimsg.Types.{MessageContext, MultiError, MultiResult, duplicate_delivery}
use nex_talk.Multimsg.Wire.{DeliveryMeta, Parsed, parse_wrapped}
use nex_talk.Multimsg.Fanout.{Fanout, FanoutOutcome, MessageKey, apply_remote_context, keep_store}
use nex_talk.Multimsg.Fanout.Receive.{
  InboundMessage, has_key, check_binding, learn_context, accept, dedup, process_checked,
  process_plain, process_delivery, receive_one, keep_ok, receive_all,
}

abbrev pub key_of : InboundMessage → MessageKey
key_of m = record { sender = m.sender; message_id = m.meta.message_id }

-- The two outcomes of a delivery for the memory of seen messages.
abbrev pub Remembers : Fanout → FanoutOutcome InboundMessage → Type 0
Remembers f (result, f') =
    ((m : InboundMessage) × (result ≡ ok m)
      × (has_key f.seen_messages m.sender m.meta.message_id ≡ false)
      × (f'.seen_messages ≡ key_of m ∷ f.seen_messages))
    ⊎ ((e : MultiError) × (result ≡ err e) × (f'.seen_messages ≡ f.seen_messages))

is_empty_iff : (b : Bytes) → is_empty b ≡ true → b ≡ []
is_empty_iff [] h = refl
is_empty_iff (c ∷ b) h = ground arith

check_binding-ok :
    (self sender : Bytes) (meta checked : DeliveryMeta)
    → check_binding self sender meta ≡ ok checked
    → (checked.sender ≡ sender)
      × ((checked.recipient ≡ []) ⊎ (checked.recipient ≡ self))
      × (checked.message_id ≡ meta.message_id)
unfolding check_binding
check_binding-ok self sender meta checked e =
    ground
      (arith, is_empty_iff meta.recipient, beq_iff meta.sender sender, beq_iff meta.recipient self)

module _ (x : External) where
  apply_remote_context-keeps :
      (f : Fanout) (c : MessageContext)
      → (apply_remote_context x f c).1.seen_messages ≡ f.seen_messages
  unfolding apply_remote_context keep_store
  apply_remote_context-keeps f c = ground arith

  learn_context-keeps :
      (f : Fanout) (c : Option MessageContext) (id : Bytes)
      → (learn_context x f c id).1.seen_messages ≡ f.seen_messages
  unfolding learn_context
  learn_context-keeps f none id = refl
  learn_context-keeps f (some c) id = ground (arith, apply_remote_context-keeps f c)

  dedup-Remembers :
      (f : Fanout) (sender : Bytes) (meta : DeliveryMeta) (parsed : Parsed)
      → Remembers f (dedup x f sender meta parsed)
  unfolding dedup accept
  dedup-Remembers f sender meta parsed =
      elim (Bool-cases (has_key f.seen_messages sender meta.message_id)) [
        | inl seen ↦ rw seen (inr (duplicate_delivery, refl, refl))
        | inr new ↦
            rw new (inl (_, refl, new, learn_context-keeps _ parsed.context meta.context_id))
      ]

  process_checked-Remembers :
      (f : Fanout) (sender : Bytes) (checked : MultiResult (DeliveryMeta × Parsed))
      → Remembers f (process_checked x f sender checked)
  unfolding process_checked
  process_checked-Remembers f sender (err e) = inr (e, refl, refl)
  process_checked-Remembers f sender (ok (meta, parsed)) = dedup-Remembers f sender meta parsed

  process_plain-Remembers :
      (f : Fanout) (self : Bytes) (result : Result ClientError (Bytes × Bytes))
      → Remembers f (process_plain x f self result)
  unfolding process_plain
  process_plain-Remembers f self (err e) = inr (_, refl, refl)
  process_plain-Remembers f self (ok (sender, wrapped)) = process_checked-Remembers f sender _

  -- A delivery is either let through, and then no message of its sender and message ID was before,
  -- and it is remembered; or refused, and then the memory of seen messages is as it was.
  pub process_delivery-Remembers :
      (f : Fanout) (self ciphertext : Bytes) → Remembers f (process_delivery x f self ciphertext)
  unfolding process_delivery
  process_delivery-Remembers f self ciphertext = process_plain-Remembers _ self _

  receive_one-Remembers : (f : Fanout) (body : Bytes) → Remembers f (receive_one x f body)
  unfolding receive_one
  receive_one-Remembers f [] = inr (_, refl, refl)
  receive_one-Remembers f (t ∷ body) = elim (Bool-cases (t == type_byte multi_msg)) [
    | inl group ↦ rw group (process_delivery-Remembers f f.client.id body)
    | inr other ↦ rw other (inr (_, refl, refl))
  ]

  -- The messages of a batch, each new to what was seen before it.
  abbrev pub IsFresh : List MessageKey → List InboundMessage → Type 0
  IsFresh seen [] = Unit
  IsFresh seen (m ∷ ms) =
      (has_key seen m.sender m.meta.message_id ≡ false) × IsFresh (key_of m ∷ seen) ms

  IsFresh-keep_ok :
      (f : Fanout) (o : FanoutOutcome InboundMessage) (rest : List InboundMessage)
      → Remembers f o
      → IsFresh o.1.seen_messages rest
      → IsFresh f.seen_messages (keep_ok o.0 rest)
  unfolding keep_ok
  IsFresh-keep_ok f (result, f') rest (inl (m, is_ok, new, seen)) fresh =
      rw (is_ok, keep_ok) (new, rw seen at fresh)
  IsFresh-keep_ok f (result, f') rest (inr (e, is_err, seen)) fresh =
      rw (is_err, keep_ok) (rw seen at fresh)

  -- Whatever bodies a relay hands over, repeated ones included, the messages that come out are
  -- pairwise different in sender or message ID, and differ so from all that were seen before.
  pub receive_all-IsFresh :
      (f : Fanout) (bodies : List Bytes) → IsFresh f.seen_messages (receive_all x f bodies).0
  unfolding receive_all
  receive_all-IsFresh f [] = tt
  receive_all-IsFresh f (body ∷ bodies) =
      IsFresh-keep_ok f (receive_one x f body) _ (receive_one-Remembers f body)
        (receive_all-IsFresh (receive_one x f body).1 bodies)

  dedup-ok :
      (f : Fanout) (sender : Bytes) (meta : DeliveryMeta) (parsed : Parsed) (m : InboundMessage)
      → (dedup x f sender meta parsed).0 ≡ ok m
      → (m.sender ≡ sender) × (m.meta ≡ meta) × (m.plaintext ≡ parsed.plaintext)
  unfolding dedup accept
  dedup-ok f sender meta parsed m e = ground arith

  process_plain-ok :
      (f : Fanout) (self sender wrapped : Bytes) (m : InboundMessage)
      → (process_plain x f self (ok (sender, wrapped))).0 ≡ ok m
      → (parsed : Parsed) × (meta : DeliveryMeta) × (parse_wrapped x wrapped ≡ ok parsed)
        × (check_binding self sender parsed.meta ≡ ok meta)
        × ((dedup x f sender meta parsed).0 ≡ ok m)
  unfolding process_plain process_checked
  process_plain-ok f self sender wrapped m e = elim (Result-cases (parse_wrapped x wrapped)) [
    | inr (bad, failed) ↦ absurd (ground arith)
    | inl (parsed, found) ↦ elim (Result-cases (check_binding self sender parsed.meta)) [
      | inr (bad, failed) ↦ absurd (ground arith)
      | inl (meta, checked) ↦ (parsed, meta, found, checked, ground arith)
    ]
  ]

  -- A message that is let through names the sender that the session authenticated, was written for
  -- this recipient or for no one, and carries the text that was decrypted.
  pub process_plain_bound :
      (f : Fanout) (self sender wrapped : Bytes) (m : InboundMessage)
      → (process_plain x f self (ok (sender, wrapped))).0 ≡ ok m
      → (m.sender ≡ sender)
        × (m.meta.sender ≡ sender)
        × ((m.meta.recipient ≡ []) ⊎ (m.meta.recipient ≡ self))
        × ((parsed : Parsed) × (parse_wrapped x wrapped ≡ ok parsed)
            × (m.plaintext ≡ parsed.plaintext)
            × (m.meta.message_id ≡ parsed.meta.message_id))
  process_plain_bound f self sender wrapped m e =
      let (parsed, meta, found, checked, text) = process_plain-ok f self sender wrapped m e in
      let (who, me, id) = check_binding-ok self sender parsed.meta meta checked in
      let (from, same, said) = dedup-ok f sender meta parsed m text in
      (from, rw same who, rw same me, (parsed, found, said, rw same id))
