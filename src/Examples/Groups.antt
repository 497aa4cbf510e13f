-- ===== src/Examples/Groups.antt =====
-- Runs of group messaging: one sender with a session, one receiver.
use nex_talk.Base.{
  if◌then◌else◌, ℕ, ◌≤◌, ◌<◌, ◌^◌, ◌≡◌, ◌≢◌, ◌⊎◌, refl, true, none, some, [], ◌∷◌, arith, Bytes,
  codes, ok, err, lookup, beq,
}
use nex_talk.Multimsg.Types.{
  MessageContext, LocalRecipientPolicy, muted, blocked, MultiResult, stale_context,
  context_not_found, marshal_context,
}
use nex_talk.Multimsg.Wire.{DeliveryMeta, parse_wrapped, wrap_payload_v2, verify_context_signature}
use nex_talk.Multimsg.Wire.Binding.{IsBindable, aad_of, build_delivery_aad-injective}
use nex_talk.Multimsg.Wire.RoundTrip.{parse_wrapped-wrap_payload_v2}
use nex_talk.Multimsg.Contexts.{
  Disk, ContextStore, policies_of, load_context, load_policy, save_context, delete_context,
  save_policy,
}
use nex_talk.Multimsg.Contexts.Versions.{
  save_context_cases, save_context_monotone, delete_context_lem, load-save_policy,
}
use nex_talk.Examples.Toy.{toy, toy-Laws, zeros}

-- The binding of a message from A to B in the group G.
abbrev pub note : DeliveryMeta
note = record {
  message_id = codes "m";
  context_id = codes "G";
  sender = codes "A";
  recipient = codes "B";
  version = 300;
}

unfoldable pub note_fits : IsBindable note
note_fits = record {
  message_fits = omega arith;
  context_fits = omega arith;
  sender_fits = omega arith;
  recipient_fits = omega arith;
  version_fits = omega arith;
}

unfoldable pub group_context : ℕ → MessageContext
group_context version = record {
  context_id = codes "G";
  display_name = codes "team";
  metadata_version = version;
  creator_id = codes "A";
  signature = zeros 64;
}

unfoldable pub some_bytes : MultiResult Bytes → Bytes
some_bytes (ok b) = b
some_bytes (err e) = []

group_wrapped : Bytes
group_wrapped =
    some_bytes (wrap_payload_v2 toy (aad_of note) (some (group_context 300)) (codes "hi"))

pub context_fits : (group_context 300).metadata_version < 2 ^ 64
unfolding group_context
context_fits = omega arith

pub context_signed : verify_context_signature toy (group_context 300) ≡ ok tt
unfolding group_context verify_context_signature toy nex_talk.Relay.peer_id_to_ed25519_pub
    nex_talk.Multimsg.Types.sign_context_payload marshal_context
    nex_talk.Multimsg.Types.context_marshal_bin_id
context_signed = refl

group_written :
    wrap_payload_v2 toy (aad_of note) (some (group_context 300)) (codes "hi") ≡ ok group_wrapped
unfolding group_wrapped wrap_payload_v2 marshal_context
    nex_talk.Multimsg.Types.context_marshal_bin_id toy group_context nex_talk.Std.Words.put_uint64
    some_bytes
group_written = refl

parse_wrapped-wrap_payload_v2_example :
    parse_wrapped toy group_wrapped
    ≡ ok (record { meta = note; context = some (group_context 300); plaintext = codes "hi" })
parse_wrapped-wrap_payload_v2_example =
    parse_wrapped-wrap_payload_v2 toy toy-Laws note (group_context 300) (codes "hi") group_wrapped
      note_fits context_fits context_signed group_written

build_delivery_aad-injective_example : note ≡ note
build_delivery_aad-injective_example =
    build_delivery_aad-injective note note note_fits note_fits refl

-- A store with version 3 of the group, in which B is muted.
abbrev open_disk : Disk
open_disk = record {
  context_records = none;
  policy_records = none;
  contexts_writable = true;
  policies_writable = true;
}

unfoldable pub b_muted : LocalRecipientPolicy
b_muted = record { context_id = codes "G"; recipient = codes "B"; policy = muted; updated_at = 5 }

unfoldable pub c_blocked : LocalRecipientPolicy
c_blocked = record {
  context_id = codes "G";
  recipient = codes "C";
  policy = blocked;
  updated_at = 6;
}

unfoldable pub group_store : ContextStore
group_store = record {
  disk = open_disk;
  contexts = (codes "G", group_context 3) ∷ [];
  policies = (codes "G", (codes "B", b_muted) ∷ (codes "C", c_blocked) ∷ []) ∷ [];
}

group_stored : lookup (codes "G") group_store.contexts ≡ some (group_context 3)
unfolding group_store lookup beq
group_stored = refl

save_context_monotone_example :
    (new : MessageContext) × (lookup
        (codes "G")
        (save_context toy group_store (group_context 4)).1.contexts
      ≡ some new)
    × (3 ≤ new.metadata_version)
save_context_monotone_example =
    unfold group_context in
    save_context_monotone toy group_store (group_context 4) (group_context 3) (codes "G")
      group_stored

save_context_cases_example :
    ((old : MessageContext) × (lookup (codes "G") group_store.contexts ≡ some old)
      × (2 ≤ old.metadata_version)
      × (save_context toy group_store (group_context 2) ≡ (err stale_context, group_store)))
    ⊎ (((old : MessageContext)
          → lookup (codes "G") group_store.contexts ≡ some old
          → old.metadata_version < 2)
        × ((id : Bytes)
            → lookup id (save_context toy group_store (group_context 2)).1.contexts ≡ (
                if beq (codes "G") id
                then some (group_context 2)
                else lookup id group_store.contexts))
        × ((save_context toy group_store (group_context 2)).1.policies ≡ group_store.policies))
save_context_cases_example =
    unfold group_context in save_context_cases toy group_store (group_context 2)

delete_context_lem_example :
    ((load_context (delete_context toy group_store (codes "G")).1 (codes "G"))
      ≡ err context_not_found)
    × (policies_of (delete_context toy group_store (codes "G")).1.policies (codes "G") ≡ [])
    × (codes "H" ≢ codes "G"
        → load_context (delete_context toy group_store (codes "G")).1 (codes "H")
          ≡ load_context group_store (codes "H"))
    × (codes "H" ≢ codes "G"
        → policies_of (delete_context toy group_store (codes "G")).1.policies (codes "H")
          ≡ policies_of group_store.policies (codes "H"))
delete_context_lem_example = delete_context_lem toy group_store (codes "G") (codes "H")

load-save_policy_example :
    load_policy (save_policy toy group_store c_blocked).1 (codes "G") (codes "C") ≡ (
      if beq c_blocked.context_id (codes "G")
      then (if beq c_blocked.recipient (codes "C")
          then ok c_blocked
          else load_policy group_store (codes "G") (codes "C"))
      else load_policy group_store (codes "G") (codes "C"))
load-save_policy_example = load-save_policy toy group_store c_blocked (codes "G") (codes "C")
