-- ===== src/Examples/Inbox.antt =====
-- Runs of the delivery store and of the receiving half of group messaging.
use nex_talk.Base.{
  if◌then◌else◌, ℕ, ◌+◌, ◌≡◌, ◌⊎◌, refl, true, false, Option, none, some, [], ◌∷◌, ◌++◌, arith,
  Bytes, codes, ok, lookup, beq,
}
use nex_talk.Crypto.SecureMessage.{wire_frame}
use nex_talk.Crypto.Ratchet.{or_nil}
use nex_talk.Client.{Client}
use nex_talk.Multimsg.Types.{
  MessageContext, MessageDelivery, default_fanout_config, marshal_context,
}
use nex_talk.Multimsg.Wire.{
  Parsed, parse_wrapped, wrap_payload_v2, wrap_plaintext, verify_context_signature,
}
use nex_talk.Multimsg.Wire.Binding.{aad_of}
use nex_talk.Multimsg.Contexts.{load_context, save_context}
use nex_talk.Multimsg.Deliveries.{DeliveryStore, save_delivery, list_by_message, list_by_recipient}
use nex_talk.Multimsg.Deliveries.Index.{IsIndexed, list-save_delivery, save_delivery-IsIndexed}
use nex_talk.Multimsg.Fanout.{Fanout}
use nex_talk.Multimsg.Fanout.Receive.{InboundMessage, process_plain, receive_all}
use nex_talk.Multimsg.Fanout.Receive.Dedup.{IsFresh, receive_all-IsFresh, process_plain_bound}
use nex_talk.Multimsg.Fanout.EndToEnd.{process_delivery-encrypt_with_aad}
use nex_talk.Multimsg.Fanout.Send.{encrypt_with_aad}
use nex_talk.Multimsg.Fanout.Receive.{has_key, process_delivery}
use nex_talk.Client.{find_session}
use nex_talk.Crypto.Ratchet.Sync.{IsInSync}
use nex_talk.Examples.Session.{no_keys, alice, fresh_pair, in_sync}
use nex_talk.Examples.Groups.{note_fits, context_fits, context_signed, some_bytes}
use nex_talk.Examples.Toy.{toy, toy-Laws}
use nex_talk.Examples.Session.{bob}
use nex_talk.Examples.Groups.{note, group_context, group_store, b_muted, c_blocked}

first_delivery : MessageDelivery
first_delivery = record {
  delivery_id = codes "d1";
  message_id = codes "m";
  recipient = codes "B";
  channel_id = codes "B";
  ciphertext = some (codes "c");
  context_id = codes "G";
  timestamp = 5;
}

next_delivery : MessageDelivery
unfolding first_delivery
next_delivery = record first_delivery { delivery_id = codes "d2" }

delivery_store : DeliveryStore
delivery_store = record {
  records = none;
  writable = true;
  deliveries = (codes "d1", first_delivery) ∷ [];
  by_message = (codes "m", codes "d1" ∷ []) ∷ [];
  by_recipient = (codes "B", codes "d1" ∷ []) ∷ [];
}

unfoldable pub empty_deliveries : DeliveryStore
empty_deliveries = record {
  records = none;
  writable = true;
  deliveries = [];
  by_message = [];
  by_recipient = [];
}

empty-IsIndexed : IsIndexed empty_deliveries
unfolding empty_deliveries nex_talk.Multimsg.Deliveries.ids_of lookup
empty-IsIndexed = record { messages = λ m. tt; recipients = λ p. tt }

save_delivery-IsIndexed_example : IsIndexed (save_delivery toy empty_deliveries first_delivery).1
save_delivery-IsIndexed_example =
    save_delivery-IsIndexed toy empty_deliveries first_delivery empty-IsIndexed

next_is_new :
    lookup next_delivery.delivery_id
      (save_delivery toy empty_deliveries first_delivery).1.deliveries
    ≡ none
unfolding next_delivery empty_deliveries first_delivery lookup save_delivery
    nex_talk.Multimsg.Deliveries.has_delivery nex_talk.Multimsg.Deliveries.save_locked
    nex_talk.Multimsg.Deliveries.marshal_deliveries nex_talk.Multimsg.Deliveries.add_delivery
    nex_talk.Base.insert nex_talk.Multimsg.Deliveries.marshal_delivery toy beq
next_is_new = refl

list-save_delivery_example :
    let s = (save_delivery toy empty_deliveries first_delivery).1 in
    (list_by_message (save_delivery toy s next_delivery).1 (codes "m") ≡ (
      if beq next_delivery.message_id (codes "m")
      then list_by_message s next_delivery.message_id ++ next_delivery ∷ []
      else list_by_message s (codes "m")))
    × (list_by_recipient (save_delivery toy s next_delivery).1 (codes "B") ≡ (
        if beq next_delivery.recipient (codes "B")
        then list_by_recipient s next_delivery.recipient ++ next_delivery ∷ []
        else list_by_recipient s (codes "B")))
list-save_delivery_example =
    list-save_delivery toy (save_delivery toy empty_deliveries first_delivery).1 next_delivery
      (codes "m") (codes "B") save_delivery-IsIndexed_example next_is_new

-- The identity B, in session with A.
bob_client : Client
bob_client = record {
  id = codes "B";
  identity_private = [];
  identity_public = [];
  dilithium_private = [];
  dilithium_public = [];
  sessions = record {
    table = (codes "A", 0) ∷ [];
    peers = λ a. bob;
    keys = λ a. no_keys;
    next = 1;
  };
  saved = none;
  ephemeral = false;
  writable = true;
}

unfoldable pub fanout_of : Client → MessageContext → Fanout
unfolding group_store empty_deliveries
fanout_of c context = record {
  client = c;
  relay_bound = true;
  ctx_store = record group_store { contexts = (codes "G", context) ∷ [] };
  delivery_store = empty_deliveries;
  config = default_fanout_config;
  seen_deliveries = [];
  seen_messages = [];
  outbox = [];
}

-- The same group message in two frames, behind the type byte.
body_at : ℕ → Bytes
body_at n =
    4
    ∷ or_nil (
        wire_frame toy (record {
          sender_id = codes "A";
          ratchet_key = 2 ∷ [];
          nonce = n;
          ciphertext = 9 ∷ wrap_plaintext (codes "hi") (aad_of note);
          tag = 7 ∷ [];
        }))

receive_all-IsFresh_example :
    IsFresh toy
      (fanout_of bob_client (group_context 3)).seen_messages
      (receive_all toy (fanout_of bob_client (group_context 3)) (body_at 0 ∷ body_at 1 ∷ [])).0
receive_all-IsFresh_example =
    receive_all-IsFresh toy (fanout_of bob_client (group_context 3)) (body_at 0 ∷ body_at 1 ∷ [])

received_note : InboundMessage
received_note = record {
  sender = codes "A";
  meta = note;
  context = some (group_context 3);
  plaintext = codes "hi";
}

note_received :
    (process_plain toy
      (fanout_of bob_client (group_context 3))
      (codes "B")
      (ok (codes "A", wrap_plaintext (codes "hi") (aad_of note)))).0
    ≡ ok received_note
unfolding received_note fanout_of bob_client toy group_context process_plain
    nex_talk.Multimsg.Fanout.Receive.process_checked parse_wrapped wrap_plaintext
    nex_talk.Multimsg.Wire.build_delivery_aad nex_talk.Multimsg.Wire.parse_v1
    nex_talk.Multimsg.Wire.parse_aad nex_talk.Multimsg.Wire.read_length_prefixed
    nex_talk.Std.Words.put_uint64 nex_talk.Multimsg.Fanout.Receive.check_binding beq
    nex_talk.Multimsg.Fanout.Receive.dedup nex_talk.Multimsg.Fanout.Receive.has_key
    nex_talk.Multimsg.Fanout.Receive.accept nex_talk.Std.Words.be_fold
    nex_talk.Multimsg.Fanout.Receive.learn_context nex_talk.Multimsg.Fanout.Receive.stored_context
    load_context nex_talk.Base.insert lookup b_muted c_blocked empty_deliveries group_store
    nex_talk.Multimsg.Contexts.is_stale nex_talk.Multimsg.Contexts.marshal_all
    nex_talk.Multimsg.Contexts.marshal_policies nex_talk.Multimsg.Contexts.policy_to_record
    save_context nex_talk.Multimsg.Contexts.save_locked nex_talk.Multimsg.Contexts.save_policies
    nex_talk.Multimsg.Fanout.Receive.decrypt_error nex_talk.Multimsg.Fanout.apply_remote_context
    nex_talk.Multimsg.Fanout.check_remote nex_talk.Multimsg.Fanout.keep_store
    nex_talk.Multimsg.Types.byte_of_policy nex_talk.Multimsg.Types.context_marshal_bin_id
    nex_talk.Multimsg.Types.context_unmarshal_bin_id default_fanout_config marshal_context
    nex_talk.Multimsg.Types.sign_context_payload nex_talk.Multimsg.Types.unmarshal_context
    nex_talk.Multimsg.Wire.append_length_prefixed nex_talk.Multimsg.Wire.parse_v2
    nex_talk.Multimsg.Wire.read_descriptor verify_context_signature
    nex_talk.Relay.peer_id_to_ed25519_pub
note_received = refl

process_plain_bound_example :
    (received_note.sender ≡ codes "A")
    × (received_note.meta.sender ≡ codes "A")
    × ((received_note.meta.recipient ≡ []) ⊎ (received_note.meta.recipient ≡ codes "B"))
    × ((parsed : Parsed) × (parse_wrapped toy (wrap_plaintext (codes "hi") (aad_of note))
          ≡ ok parsed)
        × (received_note.plaintext ≡ parsed.plaintext)
        × (received_note.meta.message_id ≡ parsed.meta.message_id))
process_plain_bound_example =
    process_plain_bound toy (fanout_of bob_client (group_context 3)) (codes "B") (codes "A")
      (wrap_plaintext (codes "hi") (aad_of note)) received_note note_received

-- The frame of "hi" from A to B.
sealed_note : Bytes
sealed_note =
    some_bytes
      (encrypt_with_aad toy alice fresh_pair (codes "A") (codes "hi") (aad_of note)
        (group_context 300)).0

note_sealed :
    (encrypt_with_aad toy alice fresh_pair
      (codes "A")
      (codes "hi")
      (aad_of note)
      (group_context 300)).0
    ≡ ok sealed_note
unfolding sealed_note toy group_context some_bytes encrypt_with_aad wrap_payload_v2 marshal_context
    nex_talk.Multimsg.Types.context_marshal_bin_id nex_talk.Std.Words.put_uint64
    nex_talk.Crypto.Ratchet.encrypt nex_talk.Crypto.Ratchet.encrypt_chain
    nex_talk.Crypto.Ratchet.count_sent nex_talk.Crypto.Ratchet.seal_frame
    nex_talk.Crypto.SecureMessage.hmac_payload nex_talk.Crypto.SecureMessage.marshal_bin_id
    wire_frame
note_sealed = refl

bob_finds_a :
    find_session (fanout_of bob_client (group_context 3)).client.sessions (codes "A") ≡ some 0
unfolding fanout_of bob_client find_session lookup beq
bob_finds_a = refl

bob-IsInSync : IsInSync alice ((fanout_of bob_client (group_context 3)).client.sessions.peers 0)
unfolding fanout_of bob_client
bob-IsInSync = in_sync

note_is_new :
    has_key (fanout_of bob_client (group_context 3)).seen_messages (codes "A") (codes "m") ≡ false
unfolding fanout_of has_key
note_is_new = refl

process_delivery-encrypt_with_aad_example :
    (context : Option MessageContext) × ((process_delivery toy
        (fanout_of bob_client (group_context 3))
        (codes "B")
        sealed_note).0
      ≡ ok (record { sender = codes "A"; meta = note; context = context; plaintext = codes "hi" }))
process_delivery-encrypt_with_aad_example =
    process_delivery-encrypt_with_aad toy toy-Laws alice fresh_pair
      (fanout_of bob_client (group_context 3)) 0 note (group_context 300) (codes "hi") sealed_note
      note_fits context_fits context_signed bob-IsInSync (omega arith) bob_finds_a note_is_new
      note_sealed
