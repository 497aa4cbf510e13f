-- ===== src/Multimsg/Fanout.antt =====
-- internal/multimsg/fanout.go. The relay is a function that accepts or refuses a frame for a key;
-- `outbox` holds the frames handed to it. Random IDs, keys and the time are arguments.
pub mod Send
pub mod Receive
pub mod Recipients
pub mod EndToEnd
use nex_talk.Base.{
  ℕ, zero, suc, ◌+◌, ◌%◌, ◌^◌, ◌<◌, ◌≡◌, refl, Bool, true, false, not, ◌&&◌, ◌||◌, Option, none,
  some, List, [], ◌∷◌, ◌++◌, arith, Bytes, codes, beq, bytes_lt, is_empty, ◌==◌, leb, if◌then◌else◌,
  Map, lookup, insert, Result, ok, err, ◌>>=◌, ◌>>◌, require, or_fail, take, length, ltb,
}
use nex_talk.External.{External}
use nex_talk.Relay.{wrap_envelope, multi_msg, message, peer_id_to_ed25519_pub}
use nex_talk.Crypto.Ratchet.{SecurePeer, KeyPair}
use nex_talk.Client.{Client}
use nex_talk.Multimsg.Types.{
  RecipientPolicy, enabled, blocked, excluded, MessageContext, MessageDelivery,
  LocalRecipientPolicy, FanoutConfig, MultiError, MultiResult, nil_context, stale_context,
  not_creator, version_overflow, zero_version, sign_context,
}
use nex_talk.Multimsg.Wire.{verify_context_signature}
use nex_talk.Multimsg.Contexts.{ContextStore, policies_of, load_context, load_policy}
use nex_talk.Multimsg.Contexts
use nex_talk.Multimsg.Deliveries.{DeliveryStore}

pub record MessageKey : Type 0 where
  pub sender : Bytes
  pub message_id : Bytes

pub record Fanout : Type 0 where
  pub client : Client
  pub relay_bound : Bool
  pub ctx_store : ContextStore
  pub delivery_store : DeliveryStore
  pub config : FanoutConfig
  pub seen_deliveries : List Bytes
  pub seen_messages : List MessageKey
  pub outbox : List (Bytes × Bytes)

abbrev pub FanoutOutcome : Type 0 → Type 0
FanoutOutcome A = MultiResult A × Fanout

unfoldable pub has_id : List Bytes → Bytes → Bool
has_id [] id = false
has_id (i ∷ ids) id = beq i id || has_id ids id

-- IsDeliverySeen
unfoldable pub is_delivery_seen : Fanout → Bytes → Bool
is_delivery_seen f id = has_id f.seen_deliveries id

-- MarkDeliverySeen
unfoldable pub mark_delivery_seen : Fanout → Bytes → Bool × Fanout
mark_delivery_seen f id =
    if is_delivery_seen f id
    then (false, f)
    else (true, record f { seen_deliveries = id ∷ f.seen_deliveries })

module _ (x : External) where
  -- A save in the context store, behind which `a` is returned.
  unfoldable pub keep_store :
      {A : Type 0} → Fanout → A → MultiResult (Unit {0}) × ContextStore → MultiResult A × Fanout
  keep_store f a (ok u, store) = (ok a, record f { ctx_store = store })
  keep_store f a (err e, store) = (err e, record f { ctx_store = store })

  -- Signing, and the save of what was signed.
  unfoldable pub sign_and_save : Fanout → MessageContext → Bytes → FanoutOutcome MessageContext
  sign_and_save f c priv = elim (sign_context x c priv) [
    | err e ↦ (err e, f)
    | ok signed ↦ keep_store f signed (Contexts.save_context x f.ctx_store signed)
  ]

  -- CreateContext; `id` is what GenerateContextID draws.
  unfoldable pub create_context : Fanout → Bytes → Bytes → Bytes → FanoutOutcome MessageContext
  create_context f id display_name priv =
      sign_and_save f
        (record {
          context_id = id;
          display_name = display_name;
          metadata_version = 1;
          creator_id = f.client.id;
          signature = [];
        })
        priv

  -- UpdateContext of the stored context; the version is a uint64.
  unfoldable pub update_stored :
      Fanout → MessageContext → Bytes → Bytes → FanoutOutcome MessageContext
  update_stored f stored name priv =
      let version = (stored.metadata_version + 1) % 2 ^ 64 in
      if not (beq stored.creator_id f.client.id)
      then (err not_creator, f)
      else if leb version stored.metadata_version
      then (err version_overflow, f)
      else sign_and_save f
          (record {
            context_id = stored.context_id;
            display_name = name;
            metadata_version = version;
            creator_id = stored.creator_id;
            signature = [];
          })
          priv

  -- UpdateContext
  unfoldable pub update_context : Fanout → Bytes → Bytes → Bytes → FanoutOutcome MessageContext
  update_context f id name priv = elim (load_context f.ctx_store id) [
    | err e ↦ (err e, f)
    | ok stored ↦ update_stored f stored name priv
  ]

  -- The tests of ApplyRemoteContext.
  unfoldable pub check_remote : Fanout → MessageContext → MultiResult (Unit {0})
  check_remote f c = do
    require (not (c.metadata_version == 0)) zero_version
    require (not (Contexts.is_stale x f.ctx_store c)) stale_context
    verify_context_signature x c

  -- ApplyRemoteContext of a context that is not nil
  unfoldable pub apply_remote_context : Fanout → MessageContext → FanoutOutcome (Unit {0})
  apply_remote_context f c = elim (check_remote f c) [
    | err e ↦ (err e, f)
    | ok u ↦ keep_store f tt (Contexts.save_context x f.ctx_store c)
  ]

  -- SetRecipientPolicy at time `now`
  unfoldable pub set_recipient_policy :
      Fanout → Bytes → Bytes → RecipientPolicy → ℕ → FanoutOutcome (Unit {0})
  set_recipient_policy f id recipient policy now = keep_store f tt (
      Contexts.save_policy x f.ctx_store
        (record { context_id = id; recipient = recipient; policy = policy; updated_at = now }))

-- GetRecipientPolicy: enabled where none is set.
unfoldable pub get_recipient_policy : Fanout → Bytes → Bytes → RecipientPolicy
get_recipient_policy f id recipient = elim (load_policy f.ctx_store id recipient) [
  | err e ↦ enabled
  | ok p ↦ p.policy
]

-- sortPolicies: by recipient.
unfoldable pub insert_sorted :
    LocalRecipientPolicy → List LocalRecipientPolicy → List LocalRecipientPolicy
insert_sorted p [] = p ∷ []
insert_sorted p (q ∷ qs) =
    let rest = insert_sorted p qs in
    if bytes_lt p.recipient q.recipient then p ∷ q ∷ qs else q ∷ rest

-- ListPolicies: the values of a context's map, sorted.
unfoldable pub sorted_policies : Map LocalRecipientPolicy → List LocalRecipientPolicy
unfolding insert_sorted
sorted_policies [] = []
sorted_policies ((k, p) ∷ m) = insert_sorted p (sorted_policies m)

-- The policyMap of GetEffectiveRecipients.
unfoldable pub policy_map : Map RecipientPolicy → List LocalRecipientPolicy → Map RecipientPolicy
policy_map m [] = m
policy_map m (p ∷ ps) = policy_map (insert p.recipient p.policy m) ps

-- `policyMap[r]`, which is PolicyEnabled on a missing key, is neither blocked nor excluded.
unfoldable pub allows : RecipientPolicy → Bool
allows blocked = false
allows excluded = false
allows _ = true

unfoldable pub policy_in : Map RecipientPolicy → Bytes → RecipientPolicy
policy_in m r = elim (lookup r m) [ none ↦ enabled | some p ↦ p ]

unfoldable pub keep_allowed : Map RecipientPolicy → List Bytes → List Bytes
keep_allowed m [] = []
keep_allowed m (r ∷ rs) =
    let rest = keep_allowed m rs in if allows (policy_in m r) then r ∷ rest else rest

-- GetEffectiveRecipients
unfoldable pub get_effective_recipients : Fanout → Bytes → List Bytes → List Bytes
get_effective_recipients f id all =
    keep_allowed (policy_map [] (sorted_policies (policies_of f.ctx_store.policies id))) all
