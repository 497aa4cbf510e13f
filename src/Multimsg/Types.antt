-- ===== src/Multimsg/Types.antt =====
-- internal/multimsg/types.go: contexts, deliveries, policies and the results of a fan-out, with the
-- record forms that are stored and sent.
use nex_talk.Base.{
  ℕ, zero, suc, ◌+◌, ◌%◌, Bool, true, false, Option, none, some, List, [], ◌∷◌, Bytes, length, ◌==◌,
  ◌&&◌, if◌then◌else◌, Result, ok, ◌>>=◌, ◌>>◌, require, or_fail,
}
use nex_talk.Std.Words.{be_fold}
use nex_talk.External.{External, Field}

pub data RecipientPolicy : Type 0 where
  enabled muted blocked excluded : RecipientPolicy
  unknown : ℕ → RecipientPolicy

-- `RecipientPolicy(b)` and `uint8(p)`; an unknown value is kept.
unfoldable pub policy_of_byte : ℕ → RecipientPolicy
policy_of_byte zero = enabled
policy_of_byte (suc zero) = muted
policy_of_byte (suc (suc zero)) = blocked
policy_of_byte (suc (suc (suc zero))) = excluded
policy_of_byte (suc (suc (suc (suc n)))) = unknown (4 + n)

unfoldable pub byte_of_policy : RecipientPolicy → ℕ
byte_of_policy enabled = 0
byte_of_policy muted = 1
byte_of_policy blocked = 2
byte_of_policy excluded = 3
byte_of_policy (unknown n) = n % 256

pub record MessageContext : Type 0 where
  pub context_id : Bytes
  pub display_name : Bytes
  pub metadata_version : ℕ
  pub creator_id : Bytes
  pub signature : Bytes

-- A nil ciphertext is `none`.
pub record MessageDelivery : Type 0 where
  pub delivery_id : Bytes
  pub message_id : Bytes
  pub recipient : Bytes
  pub channel_id : Bytes
  pub ciphertext : Option Bytes
  pub context_id : Bytes
  pub timestamp : ℕ

pub record LocalRecipientPolicy : Type 0 where
  pub context_id : Bytes
  pub recipient : Bytes
  pub policy : RecipientPolicy
  pub updated_at : ℕ

pub data DeliveryStatus : Type 0 where
  sent pending failed : DeliveryStatus

pub record DeliveryResult : Type 0 where
  pub delivery_id : Bytes
  pub recipient : Bytes
  pub status : DeliveryStatus
  pub ciphertext : Option Bytes

pub record FanoutResult : Type 0 where
  pub message_id : Bytes
  pub sender : Bytes
  pub context : MessageContext
  pub deliveries : List DeliveryResult
  pub timestamp : ℕ

pub record FanoutConfig : Type 0 where
  pub skip_offline : Bool
  pub max_retries : ℕ
  pub require_acknowledgement : Bool

unfoldable pub default_fanout_config : FanoutConfig
default_fanout_config = record {
  skip_offline = false;
  max_retries = 3;
  require_acknowledgement = false;
}

unfoldable pub is_status : DeliveryStatus → DeliveryStatus → Bool
is_status sent sent = true
is_status pending pending = true
is_status failed failed = true
is_status _ _ = false

count_status : DeliveryStatus → List DeliveryResult → ℕ
unfolding is_status
count_status s [] = 0
count_status s (d ∷ ds) = (if is_status d.status s then 1 else 0) + count_status s ds

unfoldable pub success_count : FanoutResult → ℕ
unfolding count_status
success_count r = count_status sent r.deliveries

unfoldable pub failed_count : FanoutResult → ℕ
unfolding count_status
failed_count r = count_status failed r.deliveries

unfoldable pub pending_count : FanoutResult → ℕ
unfolding count_status
pending_count r = count_status pending r.deliveries

unfoldable pub all_sent : FanoutResult → Bool
unfolding failed_count pending_count
all_sent r = failed_count r == 0 && pending_count r == 0

pub data MultiError : Type 0 where
  empty_payload truncated_msg_id truncated_context_id truncated_sender truncated_recipient :
      MultiError
  truncated_version truncated_descriptor bad_descriptor nil_context bad_signature_length :
      MultiError
  bad_creator marshal_failed signature_mismatch descriptor_too_large : MultiError
  context_not_found policy_not_found delivery_not_found delivery_pending duplicate_delivery :
      MultiError
  stale_context not_creator version_overflow zero_version save_failed : MultiError
  no_effective_recipients no_deliveries duplicate_delivery_id : MultiError
  decrypt_failed session_rolled_back sender_mismatch transplanted encrypt_failed : MultiError
  bad_recipient not_multi_msg : MultiError

abbrev pub MultiResult : Type 0 → Type 0
MultiResult A = Result MultiError A

-- ed25519.SignatureSize
abbrev pub signature_size : ℕ
signature_size = 64

abbrev pub field : ℕ → Bytes → Field
field i b = record { id = i; bytes = b }

module _ (x : External) where
  -- (*MessageContext).MarshalBinID
  unfoldable pub context_marshal_bin_id : MessageContext → Option (List Field)
  context_marshal_bin_id c = elim (x.uint64_data c.metadata_version) [
    | none ↦ none
    | some v ↦ some (
        field 1 c.context_id
        ∷ field 2 c.display_name
        ∷ field 3 v
        ∷ field 4 c.creator_id
        ∷ field 5 c.signature
        ∷ [])
  ]

  -- nanopack.MarshalFastID of a context
  unfoldable pub marshal_context : MessageContext → Option Bytes
  marshal_context c = elim (context_marshal_bin_id c) [ none ↦ none | some fs ↦ x.encode_id fs ]

  -- signContextPayload: the bytes of the context with no signature
  unfoldable pub sign_context_payload : MessageContext → Option Bytes
  sign_context_payload c = marshal_context (record c { signature = [] })

  -- SignContext
  unfoldable pub sign_context : MessageContext → Bytes → MultiResult MessageContext
  sign_context c priv = do
    payload ← or_fail (sign_context_payload c) marshal_failed
    ok (record c { signature = x.ed25519_sign priv payload })

  -- VerifyContext
  unfoldable pub verify_context : MessageContext → Bytes → MultiResult (Unit {0})
  verify_context c pub_key = do
    require (length c.signature == signature_size) bad_signature_length
    payload ← or_fail (sign_context_payload c) marshal_failed
    require (x.ed25519_verify pub_key payload c.signature) signature_mismatch

empty_context : MessageContext
empty_context = record {
  context_id = [];
  display_name = [];
  metadata_version = 0;
  creator_id = [];
  signature = [];
}

unmarshal_field : MessageContext → Field → MessageContext
unmarshal_field c f =
    if f.id == 1
    then record c { context_id = f.bytes }
    else if f.id == 2
    then record c { display_name = f.bytes }
    else if f.id == 3
    then (if length f.bytes == 8 then record c { metadata_version = be_fold 0 f.bytes } else c)
    else if f.id == 4
    then record c { creator_id = f.bytes }
    else if f.id == 5
    then record c { signature = f.bytes }
    else c

-- (*MessageContext).UnmarshalBinID
unfoldable pub context_unmarshal_bin_id : MessageContext → List Field → MessageContext
unfolding unmarshal_field
context_unmarshal_bin_id c [] = c
context_unmarshal_bin_id c (f ∷ fs) = context_unmarshal_bin_id (unmarshal_field c f) fs

-- nanopack.UnmarshalFastID into a new context
unfoldable pub unmarshal_context : External → Bytes → Option MessageContext
unfolding context_unmarshal_bin_id empty_context
unmarshal_context x b = elim (x.decode_id b) [
  | none ↦ none
  | some fs ↦ some (context_unmarshal_bin_id empty_context fs)
]
