-- ===== src/Multimsg/Contexts/Versions.antt =====
-- internal/multimsg/store.go: the methods of FileContextStore, case by case.
use nex_talk.Base.{
  ◌<◌, ◌≤◌, ◌≡◌, ◌≢◌, ◌⊎◌, refl, ap, ◌∙◌, false, some, [], arith, Bytes, beq, beq_refl, beq_iff,
  leb, if◌then◌else◌, Map, lookup, insert, delete, lookup-insert, lookup-delete, ok, err, or_fail,
  inl, inr, Bool-cases, Option-cases,
}
use nex_talk.External.{External}
use nex_talk.Multimsg.Types.{
  MessageContext, LocalRecipientPolicy, policy_not_found, context_not_found, stale_context,
}
use nex_talk.Multimsg.Contexts.{
  ContextStore, policies_of, insert_policy, save_policies, save_locked, is_stale, save_context,
  delete_context, save_policy, load_context, load_policy,
}

beq-ne : (a b : Bytes) → b ≢ a → beq a b ≡ false
beq-ne a b h = ground (arith, beq_iff a b)

module _ (x : External) where
  -- Saving touches the files only.
  pub save_locked-keeps :
      (s : ContextStore)
      → ((save_locked x s).1.contexts ≡ s.contexts) × ((save_locked x s).1.policies ≡ s.policies)
  unfolding save_locked save_policies
  save_locked-keeps s = ground arith

  save_context-fresh :
      (s : ContextStore) (c : MessageContext)
      → is_stale x s c ≡ false
      → ((id : Bytes)
          → lookup id (save_context x s c).1.contexts
            ≡ (if beq c.context_id id then some c else lookup id s.contexts))
        × ((save_context x s c).1.policies ≡ s.policies)
  unfolding save_context
  save_context-fresh s c fresh =
      let s' = record s { contexts = insert c.context_id c s.contexts } in
      rw fresh (
        λ id. ap (lookup id) (save_locked-keeps s').0 ∙ lookup-insert c.context_id id c s.contexts,
        (save_locked-keeps s').1,
      )

  -- A context that is not newer than the stored one is refused and nothing changes; any other is
  -- in memory from then on, also where a write fails, and no other context is touched.
  pub save_context_cases :
      (s : ContextStore) (c : MessageContext)
      → ((old : MessageContext) × (lookup c.context_id s.contexts ≡ some old)
          × (c.metadata_version ≤ old.metadata_version)
          × (save_context x s c ≡ (err stale_context, s)))
        ⊎ (((old : MessageContext)
              → lookup c.context_id s.contexts ≡ some old
              → old.metadata_version < c.metadata_version)
            × ((id : Bytes)
                → lookup id (save_context x s c).1.contexts
                  ≡ (if beq c.context_id id then some c else lookup id s.contexts))
            × ((save_context x s c).1.policies ≡ s.policies))
  unfolding save_context is_stale
  save_context_cases s c = elim (Option-cases (lookup c.context_id s.contexts)) [
    | inl absent ↦ inr (
      λ old found. absurd (ground arith),
      (save_context-fresh s c (ground arith)).0,
      (save_context-fresh s c (ground arith)).1,
    )
    | inr (old, found) ↦ elim (Bool-cases (leb c.metadata_version old.metadata_version)) [
      | inl older ↦ inl (old, found, ground arith, ground arith)
      | inr newer ↦ inr (
        λ old' found'. ground arith,
        (save_context-fresh s c (ground arith)).0,
        (save_context-fresh s c (ground arith)).1,
      )
    ]
  ]

  -- No save of a context lowers the version stored under any ID, or drops it.
  pub save_context_monotone :
      (s : ContextStore) (c old : MessageContext) (id : Bytes)
      → lookup id s.contexts ≡ some old
      → (new : MessageContext) × (lookup id (save_context x s c).1.contexts ≡ some new)
        × (old.metadata_version ≤ new.metadata_version)
  save_context_monotone s c old id found = elim (save_context_cases s c) [
    | inl (stored, same, older, refused) ↦ (old, rw refused found, omega arith)
    | inr (newer, stored, kept) ↦ elim (Bool-cases (beq c.context_id id)) [
      | inl this ↦ (
        c,
        rw (stored id, this) refl,
        let same : c.context_id ≡ id = (beq_iff c.context_id id).0 this in
            omega (arith, newer old (rw same found)),
      )
      | inr other ↦ (old, rw (stored id, other) found, omega arith)
    ]
  ]

  -- A deleted context is gone with all its policies, and other contexts keep theirs.
  pub delete_context_lem :
      (s : ContextStore) (id other : Bytes)
      → ((load_context (delete_context x s id).1 id) ≡ err context_not_found)
        × (policies_of (delete_context x s id).1.policies id ≡ [])
        × (other ≢ id → load_context (delete_context x s id).1 other ≡ load_context s other)
        × (other ≢ id
            → policies_of (delete_context x s id).1.policies other ≡ policies_of s.policies other)
  unfolding delete_context load_context policies_of
  delete_context_lem s id other =
      let s' = record s { contexts = delete id s.contexts; policies = delete id s.policies } in
      let (cs, ps) = save_locked-keeps s' in
      (
        rw (cs, lookup-delete, beq_refl),
        rw (ps, policies_of, lookup-delete, beq_refl),
        λ apart. rw (cs, lookup-delete, beq-ne id other apart),
        λ apart. rw (ps, policies_of, lookup-delete, beq-ne id other apart),
      )

  load_policy-policies_of :
      (s : ContextStore) (id recipient : Bytes)
      → load_policy s id recipient
        ≡ or_fail (lookup recipient (policies_of s.policies id)) policy_not_found
  unfolding load_policy policies_of lookup
  load_policy-policies_of s id recipient = elim (Option-cases (lookup id s.policies)) [
    | inl absent ↦ ground arith
    | inr (m, found) ↦ ground arith
  ]

  pub policies_of-insert_policy :
      (ps : Map (Map LocalRecipientPolicy)) (p : LocalRecipientPolicy) (id : Bytes)
      → policies_of (insert_policy ps p) id ≡ (
          if beq p.context_id id
          then insert p.recipient p (policies_of ps p.context_id)
          else policies_of ps id)
  unfolding policies_of insert_policy
  policies_of-insert_policy ps p id =
      ground (
        arith,
        lookup-insert p.context_id id (insert p.recipient p (policies_of ps p.context_id)) ps,
      )

  -- The policy that was saved is the one loaded, and no other recipient's changes, in any context.
  pub load-save_policy :
      (s : ContextStore) (p : LocalRecipientPolicy) (id recipient : Bytes)
      → load_policy (save_policy x s p).1 id recipient ≡ (
          if beq p.context_id id
          then (if beq p.recipient recipient then ok p else load_policy s id recipient)
          else load_policy s id recipient)
  unfolding save_policy
  load-save_policy s p id recipient =
      let s' = record s { policies = insert_policy s.policies p } in
      rw
        (
          load_policy-policies_of (save_policy x s p).1 id recipient,
          load_policy-policies_of s id recipient,
          (save_locked-keeps s').1,
          policies_of-insert_policy s.policies p id,
        )
        (ground (
          arith,
          beq_iff p.context_id id,
          lookup-insert p.recipient recipient p (policies_of s.policies p.context_id),
        ))
