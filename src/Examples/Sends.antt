-- ===== src/Examples/Sends.antt =====
-- Runs of the sending half of group messaging: A sends to B, C and D.
use nex_talk.Base.{
  ◌≡◌, refl, Bool, true, false, none, some, List, [], ◌∷◌, Bytes, codes, ok, err, lookup, length,
  ltb, ltb→lt, beq,
}
use nex_talk.Crypto.SecureMessage.{wire_frame}
use nex_talk.Crypto.Ratchet.{or_nil}
use nex_talk.Client.{Client}
use nex_talk.Multimsg.Types.{
  MessageContext, blocked, FanoutResult, default_fanout_config, MultiResult, marshal_context,
}
use nex_talk.Multimsg.Wire.{wrap_payload_v2, verify_context_signature}
use nex_talk.Multimsg.Contexts.{policies_of, load_context}
use nex_talk.Multimsg.Deliveries.{save_delivery, list_undelivered}
use nex_talk.Multimsg.Fanout.{Fanout, get_effective_recipients}
use nex_talk.Multimsg.Fanout.Recipients.{
  IsKeyed, LeavesOut, get_effective_recipients-LeavesOut, save_policy-IsKeyed,
}
use nex_talk.Multimsg.Contexts.{ContextStore, policies_of, save_policy}
use nex_talk.Multimsg.Fanout.Send.{Draws, any_sent, send_multi_message, retry_undelivered}
use nex_talk.Multimsg.Fanout.Send.Results.{names, send_multi_message_recipients}
use nex_talk.Multimsg.Fanout.Send.Undelivered.{
  retry_undelivered_idle, send_multi_message_keeps_undelivered,
}
use nex_talk.Multimsg.Fanout.Send.Oversize.{send_multi_message_too_large}
use nex_talk.Multimsg.Fanout.Send.Saved.{IsLasting, IsSaved, send_multi_message-IsSaved}
use nex_talk.Examples.Toy.{toy, zeros}
use nex_talk.Examples.Session.{no_keys, alice, fresh_pair}
use nex_talk.Examples.Groups.{group_context, group_store, b_muted, c_blocked}
use nex_talk.Examples.Inbox.{fanout_of, empty_deliveries}

-- The identity A, in session with B, and no session with D.
alice_client : Client
alice_client = record {
  id = codes "A";
  identity_private = [];
  identity_public = [];
  dilithium_private = [];
  dilithium_public = [];
  sessions = record {
    table = (codes "B", 0) ∷ [];
    peers = λ a. alice;
    keys = λ a. no_keys;
    next = 1;
  };
  saved = none;
  ephemeral = false;
  writable = true;
}

few_draws : Draws
few_draws = record {
  message_id = codes "m";
  timestamp = 5;
  delivery_id = λ i. i ∷ [];
  pair = λ i. fresh_pair;
}

accept_all : Bytes → Bytes → Bool
accept_all key frame = true

abbrev three : List Bytes
three = codes "B" ∷ codes "C" ∷ codes "D" ∷ []

group_sender : Fanout
group_sender = fanout_of alice_client (group_context 3)

abbrev no_result : FanoutResult
no_result = record {
  message_id = [];
  sender = [];
  context = group_context 0;
  deliveries = [];
  timestamp = 0;
}

abbrev result_of : MultiResult FanoutResult → FanoutResult
result_of (ok r) = r
result_of (err e) = no_result

-- What a send of "hi" to three recipients, one of them blocked, gives.
sent_result : FanoutResult
sent_result =
    result_of
      (send_multi_message toy accept_all group_sender few_draws (codes "G") (codes "hi") three).0

sent_ok :
    (send_multi_message toy accept_all group_sender few_draws (codes "G") (codes "hi") three).0
    ≡ ok sent_result
unfolding sent_result group_sender fanout_of alice_client toy group_context send_multi_message
    nex_talk.Multimsg.Fanout.Send.send_prepared nex_talk.Multimsg.Fanout.Send.prepare_send
    load_context lookup beq verify_context_signature nex_talk.Relay.peer_id_to_ed25519_pub
    nex_talk.Multimsg.Types.sign_context_payload marshal_context
    nex_talk.Multimsg.Types.context_marshal_bin_id get_effective_recipients
    nex_talk.Multimsg.Fanout.keep_allowed nex_talk.Multimsg.Fanout.allows
    nex_talk.Multimsg.Fanout.policy_in nex_talk.Multimsg.Fanout.policy_map
    nex_talk.Multimsg.Fanout.sorted_policies nex_talk.Base.insert nex_talk.Base.bytes_lt
    nex_talk.Client.save_client nex_talk.Client.set_peer nex_talk.Client.update_peer
    nex_talk.Crypto.Ratchet.associated nex_talk.Crypto.Ratchet.count_sent
    nex_talk.Crypto.Ratchet.encrypt nex_talk.Crypto.Ratchet.encrypt_chain
    nex_talk.Crypto.Ratchet.int_to_bytes nex_talk.Crypto.Ratchet.ratchet_step
    nex_talk.Crypto.Ratchet.rotate nex_talk.Crypto.Ratchet.seal_frame
    nex_talk.Crypto.Ratchet.sealed_message nex_talk.Crypto.SecureMessage.hmac_payload
    nex_talk.Crypto.SecureMessage.marshal_bin_id wire_frame accept_all b_muted c_blocked
    empty_deliveries few_draws group_store policies_of nex_talk.Multimsg.Deliveries.add_delivery
    nex_talk.Multimsg.Deliveries.append_id nex_talk.Multimsg.Deliveries.has_delivery
    nex_talk.Multimsg.Deliveries.ids_of nex_talk.Multimsg.Deliveries.mark_delivered
    nex_talk.Multimsg.Deliveries.marshal_deliveries nex_talk.Multimsg.Deliveries.marshal_delivery
    save_delivery nex_talk.Multimsg.Deliveries.save_locked any_sent
    nex_talk.Multimsg.Fanout.Send.deliver nex_talk.Multimsg.Fanout.Send.deliver_all
    nex_talk.Multimsg.Fanout.Send.deliver_encrypted nex_talk.Multimsg.Fanout.Send.deliver_offline
    nex_talk.Multimsg.Fanout.Send.deliver_online nex_talk.Multimsg.Fanout.Send.deliver_sealed
    nex_talk.Multimsg.Fanout.Send.encrypt_with_aad nex_talk.Multimsg.Fanout.Send.fail_result
    nex_talk.Multimsg.Fanout.Send.finish_send nex_talk.Multimsg.Fanout.Send.send_deliveries
    nex_talk.Multimsg.Fanout.Send.send_delivery nex_talk.Multimsg.Fanout.insert_sorted
    default_fanout_config nex_talk.Multimsg.Types.is_status
    nex_talk.Multimsg.Wire.append_length_prefixed nex_talk.Multimsg.Wire.build_delivery_aad
    wrap_payload_v2 nex_talk.Relay.type_byte nex_talk.Relay.wrap_envelope
    nex_talk.Std.Words.put_uint64
sent_ok = refl

send_multi_message_recipients_example :
    names sent_result.deliveries ≡ get_effective_recipients group_sender (codes "G") three
send_multi_message_recipients_example =
    send_multi_message_recipients toy accept_all group_sender few_draws (codes "G") (codes "hi")
      three sent_result sent_ok

send_multi_message_keeps_undelivered_example :
    list_undelivered
      (send_multi_message toy accept_all group_sender few_draws
        (codes "G")
        (codes "hi")
        three).1.delivery_store
    ≡ list_undelivered group_sender.delivery_store
send_multi_message_keeps_undelivered_example =
    send_multi_message_keeps_undelivered toy accept_all group_sender few_draws (codes "G")
      (codes "hi") three

retry_undelivered_idle_example : retry_undelivered toy accept_all group_sender ≡ group_sender
retry_undelivered_idle_example = retry_undelivered_idle toy accept_all group_sender

sender_lasts : IsLasting group_sender.client
unfolding group_sender fanout_of alice_client
sender_lasts = record { lasting = refl; writes = refl }

some_sent : any_sent sent_result.deliveries ≡ true
unfolding sent_result group_sender fanout_of alice_client toy group_context any_sent
    send_multi_message nex_talk.Multimsg.Fanout.Send.send_prepared
    nex_talk.Multimsg.Fanout.Send.prepare_send load_context lookup beq verify_context_signature
    nex_talk.Relay.peer_id_to_ed25519_pub nex_talk.Multimsg.Types.sign_context_payload
    marshal_context nex_talk.Multimsg.Types.context_marshal_bin_id get_effective_recipients
    nex_talk.Multimsg.Fanout.keep_allowed nex_talk.Multimsg.Fanout.allows
    nex_talk.Multimsg.Fanout.policy_in nex_talk.Multimsg.Fanout.policy_map nex_talk.Base.insert
    nex_talk.Base.bytes_lt nex_talk.Client.save_client nex_talk.Client.set_peer
    nex_talk.Client.update_peer nex_talk.Crypto.Ratchet.associated
    nex_talk.Crypto.Ratchet.count_sent nex_talk.Crypto.Ratchet.encrypt
    nex_talk.Crypto.Ratchet.encrypt_chain nex_talk.Crypto.Ratchet.int_to_bytes
    nex_talk.Crypto.Ratchet.ratchet_step nex_talk.Crypto.Ratchet.rotate
    nex_talk.Crypto.Ratchet.seal_frame nex_talk.Crypto.Ratchet.sealed_message
    nex_talk.Crypto.SecureMessage.hmac_payload nex_talk.Crypto.SecureMessage.marshal_bin_id
    wire_frame accept_all b_muted c_blocked empty_deliveries few_draws group_store policies_of
    nex_talk.Multimsg.Deliveries.add_delivery nex_talk.Multimsg.Deliveries.append_id
    nex_talk.Multimsg.Deliveries.has_delivery nex_talk.Multimsg.Deliveries.ids_of
    nex_talk.Multimsg.Deliveries.mark_delivered nex_talk.Multimsg.Deliveries.marshal_deliveries
    nex_talk.Multimsg.Deliveries.marshal_delivery save_delivery
    nex_talk.Multimsg.Deliveries.save_locked nex_talk.Multimsg.Fanout.Send.deliver
    nex_talk.Multimsg.Fanout.Send.deliver_all nex_talk.Multimsg.Fanout.Send.deliver_encrypted
    nex_talk.Multimsg.Fanout.Send.deliver_offline nex_talk.Multimsg.Fanout.Send.deliver_online
    nex_talk.Multimsg.Fanout.Send.deliver_sealed nex_talk.Multimsg.Fanout.Send.encrypt_with_aad
    nex_talk.Multimsg.Fanout.Send.fail_result nex_talk.Multimsg.Fanout.Send.finish_send
    nex_talk.Multimsg.Fanout.Send.send_deliveries nex_talk.Multimsg.Fanout.Send.send_delivery
    nex_talk.Multimsg.Fanout.insert_sorted nex_talk.Multimsg.Fanout.sorted_policies
    default_fanout_config nex_talk.Multimsg.Types.is_status
    nex_talk.Multimsg.Wire.append_length_prefixed nex_talk.Multimsg.Wire.build_delivery_aad
    wrap_payload_v2 nex_talk.Relay.type_byte nex_talk.Relay.wrap_envelope
    nex_talk.Std.Words.put_uint64
some_sent = refl

send_multi_message-IsSaved_example :
    IsSaved
      (send_multi_message toy accept_all group_sender few_draws
        (codes "G")
        (codes "hi")
        three).1.client
send_multi_message-IsSaved_example =
    send_multi_message-IsSaved toy accept_all group_sender few_draws (codes "G") (codes "hi") three
      sent_result sender_lasts sent_ok some_sent

-- A group whose name has 260 bytes.
long_context : MessageContext
unfolding group_context
long_context = record (group_context 3) { display_name = zeros 260 }

long_sender : Fanout
long_sender = fanout_of alice_client long_context

long_bytes : Bytes
long_bytes = or_nil (marshal_context toy long_context)

long_encoded : marshal_context toy long_context ≡ some long_bytes
unfolding long_bytes long_context toy marshal_context nex_talk.Multimsg.Types.context_marshal_bin_id
long_encoded = refl

long_is_large : ltb 255 (length long_bytes) ≡ true
unfolding long_bytes long_context toy marshal_context nex_talk.Multimsg.Types.context_marshal_bin_id
    nex_talk.Std.Words.put_uint64
long_is_large = refl

long_stored : load_context long_sender.ctx_store (codes "G") ≡ ok long_context
unfolding long_sender fanout_of group_store load_context lookup beq
long_stored = refl

long_result : FanoutResult
long_result =
    result_of
      (send_multi_message toy accept_all long_sender few_draws (codes "G") (codes "hi") three).0

long_sent :
    (send_multi_message toy accept_all long_sender few_draws (codes "G") (codes "hi") three).0
    ≡ ok long_result
unfolding long_result long_sender fanout_of alice_client toy long_context send_multi_message
    nex_talk.Multimsg.Fanout.Send.send_prepared nex_talk.Multimsg.Fanout.Send.prepare_send
    load_context lookup beq verify_context_signature nex_talk.Relay.peer_id_to_ed25519_pub
    nex_talk.Multimsg.Types.sign_context_payload marshal_context
    nex_talk.Multimsg.Types.context_marshal_bin_id get_effective_recipients
    nex_talk.Multimsg.Fanout.keep_allowed nex_talk.Multimsg.Fanout.allows
    nex_talk.Multimsg.Fanout.policy_in nex_talk.Multimsg.Fanout.policy_map
    nex_talk.Multimsg.Fanout.sorted_policies nex_talk.Base.insert nex_talk.Base.bytes_lt
    nex_talk.Client.save_client nex_talk.Client.set_peer nex_talk.Client.update_peer
    nex_talk.Crypto.Ratchet.associated nex_talk.Crypto.Ratchet.count_sent
    nex_talk.Crypto.Ratchet.encrypt nex_talk.Crypto.Ratchet.encrypt_chain
    nex_talk.Crypto.Ratchet.int_to_bytes nex_talk.Crypto.Ratchet.ratchet_step
    nex_talk.Crypto.Ratchet.rotate nex_talk.Crypto.Ratchet.seal_frame
    nex_talk.Crypto.Ratchet.sealed_message nex_talk.Crypto.SecureMessage.hmac_payload
    nex_talk.Crypto.SecureMessage.marshal_bin_id wire_frame accept_all b_muted c_blocked
    empty_deliveries few_draws group_context group_store policies_of
    nex_talk.Multimsg.Deliveries.add_delivery nex_talk.Multimsg.Deliveries.append_id
    nex_talk.Multimsg.Deliveries.has_delivery nex_talk.Multimsg.Deliveries.ids_of
    nex_talk.Multimsg.Deliveries.mark_delivered nex_talk.Multimsg.Deliveries.marshal_deliveries
    nex_talk.Multimsg.Deliveries.marshal_delivery save_delivery
    nex_talk.Multimsg.Deliveries.save_locked any_sent nex_talk.Multimsg.Fanout.Send.deliver
    nex_talk.Multimsg.Fanout.Send.deliver_all nex_talk.Multimsg.Fanout.Send.deliver_encrypted
    nex_talk.Multimsg.Fanout.Send.deliver_offline nex_talk.Multimsg.Fanout.Send.deliver_online
    nex_talk.Multimsg.Fanout.Send.deliver_sealed nex_talk.Multimsg.Fanout.Send.encrypt_with_aad
    nex_talk.Multimsg.Fanout.Send.fail_result nex_talk.Multimsg.Fanout.Send.finish_send
    nex_talk.Multimsg.Fanout.Send.send_deliveries nex_talk.Multimsg.Fanout.Send.send_delivery
    nex_talk.Multimsg.Fanout.insert_sorted default_fanout_config nex_talk.Multimsg.Types.is_status
    nex_talk.Multimsg.Wire.append_length_prefixed nex_talk.Multimsg.Wire.build_delivery_aad
    wrap_payload_v2 nex_talk.Relay.type_byte nex_talk.Relay.wrap_envelope
    nex_talk.Std.Words.put_uint64
long_sent = refl

send_multi_message_too_large_example : any_sent long_result.deliveries ≡ false
send_multi_message_too_large_example =
    send_multi_message_too_large toy accept_all long_sender few_draws (codes "G") (codes "hi")
      long_bytes three long_context long_result long_stored long_encoded
      (ltb→lt 255 (length long_bytes) long_is_large) long_sent

group-IsKeyed : IsKeyed (policies_of group_sender.ctx_store.policies (codes "G"))
unfolding group_sender fanout_of group_store policies_of lookup b_muted c_blocked beq
group-IsKeyed = (refl, refl, (refl, refl, tt))

get_effective_recipients-LeavesOut_example :
    LeavesOut group_sender
      (codes "G")
      three
      (get_effective_recipients group_sender (codes "G") three)
get_effective_recipients-LeavesOut_example =
    get_effective_recipients-LeavesOut group_sender (codes "G") three group-IsKeyed

no_policies : ContextStore
no_policies = record group_store { policies = [] }

none-IsKeyed : (id : Bytes) → IsKeyed (policies_of no_policies.policies id)
unfolding no_policies policies_of lookup
none-IsKeyed id = tt

save_policy-IsKeyed_example :
    IsKeyed (policies_of (save_policy toy no_policies c_blocked).1.policies (codes "G"))
save_policy-IsKeyed_example = save_policy-IsKeyed toy no_policies c_blocked none-IsKeyed (codes "G")
