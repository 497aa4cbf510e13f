-- ===== src/Multimsg/Contexts.antt =====
-- internal/multimsg/store.go: FileContextStore, and MemoryContextStore beside it. A method returns
-- its result and the store as it leaves it. `Disk` is what the two record files hold, and whether
-- the next writes of them succeed.
pub mod Versions
use nex_talk.Base.{
  ℕ, zero, suc, ◌+◌, ◌<◌, ◌≤◌, ◌^◌, ◌≡◌, ◌≢◌, refl, Bool, true, false, not, Option, none, some,
  List, [], ◌∷◌, ◌++◌, arith, Bytes, beq, length, leb, ltb, ◌==◌, if◌then◌else◌, Map, lookup,
  insert, delete, Result, ok, err, ◌>>=◌, ◌>>◌, require, or_fail,
}
use nex_talk.Std.Words.{put_uint64, be_fold}
use nex_talk.External.{External, Field}
use nex_talk.Multimsg.Types.{
  MessageContext, LocalRecipientPolicy, RecipientPolicy, policy_of_byte, byte_of_policy, MultiError,
  MultiResult, context_not_found, policy_not_found, marshal_failed, save_failed, stale_context,
  field, marshal_context, unmarshal_context,
}

-- The records of `<id>.contexts.np` and `<id>.policies.np`, `none` where the file is missing.
pub record Disk : Type 0 where
  pub context_records : Option (List Bytes)
  pub policy_records : Option (List Bytes)
  pub contexts_writable : Bool
  pub policies_writable : Bool

pub record ContextStore : Type 0 where
  pub disk : Disk
  pub contexts : Map MessageContext
  pub policies : Map (Map LocalRecipientPolicy)

abbrev pub StoreResult : Type 0 → Type 0
StoreResult A = MultiResult A × ContextStore

-- The policies of a context, none if it has no entry.
unfoldable pub policies_of : Map (Map LocalRecipientPolicy) → Bytes → Map LocalRecipientPolicy
policies_of ps id = elim (lookup id ps) [ none ↦ [] | some m ↦ m ]

-- insertPolicyLocked
unfoldable pub insert_policy :
    Map (Map LocalRecipientPolicy) → LocalRecipientPolicy → Map (Map LocalRecipientPolicy)
insert_policy ps p = insert p.context_id (insert p.recipient p (policies_of ps p.context_id)) ps

-- `if ctxPolicies, ok := policies[contextID]; ok { delete(ctxPolicies, recipient) }`
unfoldable pub remove_policy :
    Map (Map LocalRecipientPolicy) → Bytes → Bytes → Map (Map LocalRecipientPolicy)
remove_policy ps id recipient = elim (lookup id ps) [
  | none ↦ ps
  | some m ↦ insert id (delete recipient m) ps
]

module _ (x : External) where
  -- policyToRecord, with policyBin's MarshalBinID
  unfoldable pub policy_to_record : LocalRecipientPolicy → Option Bytes
  policy_to_record p = x.encode_id (
      field 1 p.context_id
      ∷ field 2 p.recipient
      ∷ field 3 (byte_of_policy p.policy ∷ [])
      ∷ field 4 (put_uint64 p.updated_at)
      ∷ [])

  -- The records of a row of values, or the first failure.
  unfoldable pub marshal_all {ℓ} : {A : Type ℓ} → (A → Option Bytes) → Map A → Option (List Bytes)
  marshal_all f [] = some []
  marshal_all f ((k, a) ∷ m) =
      let rest = marshal_all f m in
      elim (f a) [ none ↦ none | some b ↦ elim rest [ none ↦ none | some bs ↦ some (b ∷ bs) ] ]

  unfoldable pub marshal_policies : Map (Map LocalRecipientPolicy) → Option (List Bytes)
  marshal_policies [] = some []
  marshal_policies ((k, m) ∷ ps) =
      let rest = marshal_policies ps in
      elim (marshal_all policy_to_record m) [
        | none ↦ none
        | some bs ↦ elim rest [ none ↦ none | some cs ↦ some (bs ++ cs) ]
      ]

  -- binstore.Save of either file
  write_contexts : List Bytes → ContextStore → StoreResult (Unit {0})
  write_contexts records s =
      if s.disk.contexts_writable
      then (ok tt, record s { disk = record s.disk { context_records = some records } })
      else (err save_failed, s)

  write_policies : List Bytes → ContextStore → StoreResult (Unit {0})
  write_policies records s =
      if s.disk.policies_writable
      then (ok tt, record s { disk = record s.disk { policy_records = some records } })
      else (err save_failed, s)

  -- The second half of saveLocked.
  unfoldable pub save_policies : ContextStore → StoreResult (Unit {0})
  unfolding write_policies
  save_policies s = elim (marshal_policies s.policies) [
    | none ↦ (err marshal_failed, s)
    | some records ↦ write_policies records s
  ]

  continue : StoreResult (Unit {0}) → StoreResult (Unit {0})
  continue (err e, s) = (err e, s)
  continue (ok u, s) = save_policies s

  -- saveLocked
  unfoldable pub save_locked : ContextStore → StoreResult (Unit {0})
  unfolding write_contexts continue
  save_locked s = elim (marshal_all (marshal_context x) s.contexts) [
    | none ↦ (err marshal_failed, s)
    | some records ↦ continue (write_contexts records s)
  ]

  -- `ctx.MetadataVersion <= existing.MetadataVersion`
  unfoldable pub is_stale : ContextStore → MessageContext → Bool
  is_stale s c = elim (lookup c.context_id s.contexts) [
    | none ↦ false
    | some existing ↦ leb c.metadata_version existing.metadata_version
  ]

  -- SaveContext
  unfoldable pub save_context : ContextStore → MessageContext → StoreResult (Unit {0})
  save_context s c =
      if is_stale s c
      then (err stale_context, s)
      else save_locked (record s { contexts = insert c.context_id c s.contexts })

  -- DeleteContext
  unfoldable pub delete_context : ContextStore → Bytes → StoreResult (Unit {0})
  delete_context s id =
      save_locked (record s { contexts = delete id s.contexts; policies = delete id s.policies })

  -- SavePolicy
  unfoldable pub save_policy : ContextStore → LocalRecipientPolicy → StoreResult (Unit {0})
  save_policy s p = save_locked (record s { policies = insert_policy s.policies p })

  -- DeletePolicy
  unfoldable pub delete_policy : ContextStore → Bytes → Bytes → StoreResult (Unit {0})
  delete_policy s id recipient =
      save_locked (record s { policies = remove_policy s.policies id recipient })

-- LoadContext
unfoldable pub load_context : ContextStore → Bytes → MultiResult MessageContext
load_context s id = or_fail (lookup id s.contexts) context_not_found

-- LoadPolicy
unfoldable pub load_policy : ContextStore → Bytes → Bytes → MultiResult LocalRecipientPolicy
load_policy s id recipient = do
  m ← or_fail (lookup id s.policies) policy_not_found
  or_fail (lookup recipient m) policy_not_found

-- The fold of NewFileContextStore over the records of contexts: what does not decode, or has
-- version 0, is passed over.
unfoldable pub load_contexts : External → List Bytes → Map MessageContext → Map MessageContext
load_contexts x [] m = m
load_contexts x (rec ∷ recs) m = load_contexts x recs (elim (unmarshal_context x rec) [
  | none ↦ m
  | some c ↦ if c.metadata_version == 0 then m else insert c.context_id c m
])
