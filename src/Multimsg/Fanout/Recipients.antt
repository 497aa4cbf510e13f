-- ===== src/Multimsg/Fanout/Recipients.antt =====
-- internal/multimsg/fanout.go: GetEffectiveRecipients against GetRecipientPolicy.
use nex_talk.Base.{
  ◌≡◌, refl, sym, ap, ◌∙◌, ◌⊎◌, subst, true, false, Option, none, some, List, [], ◌∷◌, arith, Bytes,
  beq, beq_iff, All, if◌then◌else◌, Map, lookup, insert, lookup-insert, Bool-cases, Option-cases,
  inl, inr,
}
use nex_talk.Multimsg.Types.{
  RecipientPolicy, enabled, muted, blocked, excluded, unknown, LocalRecipientPolicy,
}
use nex_talk.External.{External}
use nex_talk.Multimsg.Contexts.{ContextStore, policies_of, load_policy, save_policy, insert_policy}
use nex_talk.Multimsg.Contexts.Versions.{save_locked-keeps, policies_of-insert_policy}
use nex_talk.Multimsg.Fanout.{
  Fanout, get_recipient_policy, insert_sorted, sorted_policies, policy_map, allows, policy_in,
  keep_allowed, get_effective_recipients,
}

-- Each policy of a map stands under its recipient, and no two under one.
abbrev pub IsKeyed : Map LocalRecipientPolicy → Type 0
IsKeyed [] = Unit {0}
IsKeyed ((k, p) ∷ m) = (p.recipient ≡ k) × (lookup k m ≡ none) × IsKeyed m

or_else : Option RecipientPolicy → Option RecipientPolicy → Option RecipientPolicy
or_else none b = b
or_else (some p) b = some p

-- The last policy of a list for a recipient.
last_policy : Bytes → List LocalRecipientPolicy → Option RecipientPolicy
last_policy r [] = none
last_policy r (p ∷ ps) =
    or_else (last_policy r ps) (if beq p.recipient r then some p.policy else none)

lookup-policy_map :
    (ps : List LocalRecipientPolicy) (m : Map RecipientPolicy) (r : Bytes)
    → lookup r (policy_map m ps) ≡ or_else (last_policy r ps) (lookup r m)
unfolding policy_map last_policy or_else
lookup-policy_map [] m r = refl
lookup-policy_map (p ∷ ps) m r = ground (
  arith,
  lookup-policy_map ps (insert p.recipient p.policy m) r,
  lookup-insert p.recipient r p.policy m,
)

abbrev IsAbsent : Bytes → List LocalRecipientPolicy → Type 0
IsAbsent r ps = All (λ (p : LocalRecipientPolicy). beq p.recipient r ≡ false) ps

last_policy-IsAbsent :
    (ps : List LocalRecipientPolicy) (r : Bytes) → IsAbsent r ps → last_policy r ps ≡ none
unfolding last_policy or_else
last_policy-IsAbsent [] r absent = refl
last_policy-IsAbsent (p ∷ ps) r (other, absent) =
    ground (arith, last_policy-IsAbsent ps r absent, other)

insert_sorted-IsAbsent :
    (p : LocalRecipientPolicy) (ps : List LocalRecipientPolicy) (r : Bytes)
    → beq p.recipient r ≡ false
    → IsAbsent r ps
    → IsAbsent r (insert_sorted p ps)
unfolding insert_sorted
insert_sorted-IsAbsent p [] r apart absent = (apart, tt)
insert_sorted-IsAbsent p (q ∷ qs) r apart (other, absent) =
    ground (arith, insert_sorted-IsAbsent p qs r apart absent, apart, other, absent)

sorted_policies-IsAbsent :
    (m : Map LocalRecipientPolicy) (r : Bytes)
    → IsKeyed m
    → lookup r m ≡ none
    → IsAbsent r (sorted_policies m)
unfolding sorted_policies lookup
sorted_policies-IsAbsent [] r keyed missing = tt
sorted_policies-IsAbsent ((k, p) ∷ m) r (own, alone, keyed) missing =
    insert_sorted-IsAbsent p (sorted_policies m) r (ground (arith, own, missing))
      (sorted_policies-IsAbsent m r keyed (ground (arith, missing)))

last_policy-insert_sorted :
    (p : LocalRecipientPolicy) (ps : List LocalRecipientPolicy) (r : Bytes)
    → (beq p.recipient r ≡ true → IsAbsent r ps)
    → last_policy r (insert_sorted p ps) ≡ last_policy r (p ∷ ps)
unfolding insert_sorted last_policy or_else
last_policy-insert_sorted p [] r alone = refl
last_policy-insert_sorted p (q ∷ qs) r alone = elim (Bool-cases (beq p.recipient r)) [
  | inl same ↦
      let (other, others) = alone same in
      ground (
        arith,
        last_policy-insert_sorted p qs r (λ e. others),
        last_policy-IsAbsent qs r others,
        other,
        same,
      )
  | inr apart ↦
      ground
        (arith, last_policy-insert_sorted p qs r (λ e. absurd (ground (arith, apart, e))), apart)
]

-- The policy of an entry.
policy_at : Option LocalRecipientPolicy → Option RecipientPolicy
policy_at none = none
policy_at (some p) = some p.policy

last_policy-sorted_policies :
    (m : Map LocalRecipientPolicy) (r : Bytes)
    → IsKeyed m
    → last_policy r (sorted_policies m) ≡ policy_at (lookup r m)
unfolding sorted_policies last_policy policy_at lookup or_else
last_policy-sorted_policies [] r keyed = refl
last_policy-sorted_policies ((k, p) ∷ m) r (own, alone, keyed) = elim (Bool-cases (beq k r)) [
  | inl same ↦
      let missing = subst (λ (j : Bytes). lookup j m ≡ none) ((beq_iff k r).0 same) alone in
      let absent = sorted_policies-IsAbsent m r keyed missing in
      ground (
        arith,
        last_policy-insert_sorted p (sorted_policies m) r (λ e. absent),
        last_policy-IsAbsent (sorted_policies m) r absent,
        own,
        same,
      )
  | inr apart ↦ ground (
    arith,
    last_policy-insert_sorted p (sorted_policies m) r (λ e. absurd (ground (arith, own, apart, e))),
    last_policy-sorted_policies m r keyed,
    own,
    apart,
  )
]

-- The policies that keep a recipient out.
abbrev pub IsBarred : RecipientPolicy → Type 0
IsBarred p = (p ≡ blocked) ⊎ (p ≡ excluded)

-- The second list is the first, in order, less the recipients whose own policy keeps them out.
pub data LeavesOut (f : Fanout) (id : Bytes) : List Bytes → List Bytes → Type 0 where
  nobody : LeavesOut f id [] []
  kept :
      {r : Bytes} {all some_of : List Bytes}
      → ¬ IsBarred (get_recipient_policy f id r)
      → LeavesOut f id all some_of
      → LeavesOut f id (r ∷ all) (r ∷ some_of)
  left_out :
      {r : Bytes} {all some_of : List Bytes}
      → IsBarred (get_recipient_policy f id r)
      → LeavesOut f id all some_of
      → LeavesOut f id (r ∷ all) some_of

allows-cases :
    (p : RecipientPolicy) → ((allows p ≡ true) × ¬ IsBarred p) ⊎ ((allows p ≡ false) × IsBarred p)
unfolding allows
allows-cases enabled = inl (refl, λ b. elim b [ inl e ↦ cc | inr e ↦ cc ])
allows-cases muted = inl (refl, λ b. elim b [ inl e ↦ cc | inr e ↦ cc ])
allows-cases blocked = inr (refl, inl refl)
allows-cases excluded = inr (refl, inr refl)
allows-cases (unknown n) = inl (refl, λ b. elim b [ inl e ↦ cc | inr e ↦ cc ])

enabled_by_default : Option RecipientPolicy → RecipientPolicy
enabled_by_default none = enabled
enabled_by_default (some p) = p

policy_in-lookup :
    (m : Map RecipientPolicy) (r : Bytes) → policy_in m r ≡ enabled_by_default (lookup r m)
unfolding policy_in enabled_by_default
policy_in-lookup m r = ground arith

or_else-none : (a : Option RecipientPolicy) → or_else a none ≡ a
unfolding or_else
or_else-none none = refl
or_else-none (some p) = refl

policy_of_map :
    (m : Map LocalRecipientPolicy) (r : Bytes)
    → IsKeyed m
    → policy_in (policy_map [] (sorted_policies m)) r ≡ enabled_by_default (policy_at (lookup r m))
unfolding lookup policy_at
policy_of_map m r keyed =
    policy_in-lookup (policy_map [] (sorted_policies m)) r
    ∙ ap enabled_by_default (
        lookup-policy_map (sorted_policies m) [] r
        ∙ or_else-none (last_policy r (sorted_policies m))
        ∙ last_policy-sorted_policies m r keyed)

policy_of_store :
    (f : Fanout) (id r : Bytes)
    → get_recipient_policy f id r
      ≡ enabled_by_default (policy_at (lookup r (policies_of f.ctx_store.policies id)))
unfolding get_recipient_policy load_policy policies_of enabled_by_default policy_at lookup
policy_of_store f id r = elim (Option-cases (lookup id f.ctx_store.policies)) [
  | inl absent ↦ ground arith
  | inr (m, found) ↦ ground arith
]

keep_allowed-LeavesOut :
    (f : Fanout) (id : Bytes) (all : List Bytes)
    → IsKeyed (policies_of f.ctx_store.policies id)
    → LeavesOut f id all
        (keep_allowed (policy_map [] (sorted_policies (policies_of f.ctx_store.policies id))) all)
unfolding keep_allowed
keep_allowed-LeavesOut f id [] keyed = nobody
keep_allowed-LeavesOut f id (r ∷ rs) keyed =
    let same =
      policy_of_map (policies_of f.ctx_store.policies id) r keyed ∙ sym (policy_of_store f id r) in
    let rest = keep_allowed-LeavesOut f id rs keyed in
    elim (allows-cases (get_recipient_policy f id r)) [
      | inl (through, free) ↦ rw (same, through) (kept free rest)
      | inr (shut, barred) ↦ rw (same, shut) (left_out barred rest)
    ]

-- If the policies of a context are well keyed, its effective recipients are the recipients given, in
-- order, less those whose own policy is blocked or excluded; sorting the policies changes nothing.
pub get_effective_recipients-LeavesOut :
    (f : Fanout) (id : Bytes) (all : List Bytes)
    → IsKeyed (policies_of f.ctx_store.policies id)
    → LeavesOut f id all (get_effective_recipients f id all)
unfolding get_effective_recipients
get_effective_recipients-LeavesOut f id all keyed = keep_allowed-LeavesOut f id all keyed

insert-IsKeyed :
    (p : LocalRecipientPolicy) (m : Map LocalRecipientPolicy)
    → IsKeyed m
    → IsKeyed (insert p.recipient p m)
unfolding insert
insert-IsKeyed p [] keyed = (refl, unfold lookup in refl, tt)
insert-IsKeyed p ((k, q) ∷ m) (own, alone, keyed) = elim (Bool-cases (beq k p.recipient)) [
  | inl same ↦
      let this : k ≡ p.recipient = (beq_iff k p.recipient).0 same in
      rw same (refl, subst (λ (j : Bytes). lookup j m ≡ none) this alone, keyed)
  | inr apart ↦ rw apart (
    own,
    ground (
      arith,
      lookup-insert p.recipient k p m,
      beq_iff k p.recipient,
      beq_iff p.recipient k,
      alone,
      apart,
    ),
    insert-IsKeyed p m keyed,
  )
]

-- Saving a policy keeps the policies of every context well keyed.
pub save_policy-IsKeyed :
    (x : External) (s : ContextStore) (p : LocalRecipientPolicy)
    → ((id : Bytes) → IsKeyed (policies_of s.policies id))
    → (id : Bytes) → IsKeyed (policies_of (save_policy x s p).1.policies id)
unfolding save_policy
save_policy-IsKeyed x s p keyed id =
    let kept = (save_locked-keeps x (record s { policies = insert_policy s.policies p })).1 in
    rw (kept, policies_of-insert_policy x s.policies p id)
      (elim (Bool-cases (beq p.context_id id)) [
        | inl this ↦
            rw this (insert-IsKeyed p (policies_of s.policies p.context_id) (keyed p.context_id))
        | inr other ↦ rw other (keyed id)
      ])
