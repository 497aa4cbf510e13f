-- ===== src/Mailbox/Titles.antt =====
-- internal/mailbox/store.go: the title of a conversation, in saveLocked and Load.
use nex_talk.Base.{
  ◌≡◌, refl, sym, ap, ◌∙◌, not, ◌&&◌, some, List, [], ◌∷◌, ◌++◌, arith, Bytes, beq, beq_iff,
  is_empty, All, if◌then◌else◌, Map, lookup, insert, lookup-insert, ok, Bool-cases, Option-cases,
  inl, inr,
}
use nex_talk.External.{External, Laws}
use nex_talk.Mailbox.Forms.{Message, Thread, is_group_key}
use nex_talk.Mailbox.{
  Store, thread_of, insert_loaded, list_threads, all_records, save_locked, load_records,
}
use nex_talk.Mailbox.Records.{
  IsKeyed, IsStorable, load_messages, load_threads, messages_in, load_records-all_records,
  messages_in-list_threads,
}

-- The first name in a row of messages, if any is there.
pub first_name : List Message → Bytes
first_name [] = []
first_name (m ∷ ms) = if is_empty m.context_name then first_name ms else m.context_name

-- The title that a load leaves: the one it had, else the first name for a group.
title_after : Bytes → Bytes → List Message → Bytes
title_after key title ms = if is_empty title && is_group_key key then first_name ms else title

-- The title behind one loaded message.
adopt : Bytes → Bytes → Message → Bytes
adopt key title m =
    if is_empty title && not (is_empty m.context_name) && is_group_key key
    then m.context_name
    else title

title_after-cons :
    (key title : Bytes) (m : Message) (ms : List Message)
    → title_after key (adopt key title m) ms ≡ title_after key title (m ∷ ms)
unfolding title_after first_name adopt
title_after-cons key title m ms = ground arith

title_after-append :
    (key title : Bytes) (ms ns : List Message)
    → title_after key (title_after key title ms) ns ≡ title_after key title (ms ++ ns)
title_after-append key [] [] ns = unfold title_after first_name in ground arith
title_after-append key (c ∷ cs) [] ns = unfold title_after first_name in ground arith
title_after-append key title (m ∷ ms) ns =
    ap (λ t. title_after key t ns) (sym (title_after-cons key title m ms))
    ∙ title_after-append key (adopt key title m) ms ns
    ∙ title_after-cons key title m (ms ++ ns)

title-insert :
    (ts : Map Thread) (k key : Bytes) (t : Thread)
    → (thread_of (insert k t ts) key).title
      ≡ (if beq k key then t.title else (thread_of ts key).title)
unfolding thread_of
title-insert ts k key t = ground (arith, lookup-insert k key t ts)

title-insert_loaded :
    (ts : Map Thread) (k key : Bytes) (m : Message)
    → (thread_of (insert_loaded ts k m) key).title
      ≡ (if beq k key then adopt key (thread_of ts key).title m else (thread_of ts key).title)
unfolding insert_loaded adopt
title-insert_loaded ts k key m = title-insert ts k key _ ∙ elim (Bool-cases (beq k key)) [
  | inl same ↦
      ap
        (λ (j : Bytes).
          if beq k key then adopt j (thread_of ts j).title m else (thread_of ts key).title)
        ((beq_iff k key).0 same)
  | inr apart ↦ ground (arith, apart)
]

title-load_messages :
    (k key : Bytes) (ms : List Message) (ts : Map Thread)
    → (thread_of (load_messages k ms ts) key).title ≡ (
        if beq k key then title_after key (thread_of ts key).title ms else (thread_of ts key).title)
unfolding load_messages
title-load_messages k key [] ts = unfold title_after first_name in ground arith
title-load_messages k key (m ∷ ms) ts = ground (
  arith,
  title-load_messages k key ms (insert_loaded ts k m),
  title-insert_loaded ts k key m,
  title_after-cons key (thread_of ts key).title m ms,
)

title-load_threads :
    (us : List Thread) (key : Bytes) (ts : Map Thread)
    → (thread_of (load_threads us ts) key).title
      ≡ title_after key (thread_of ts key).title (messages_in key us)
unfolding load_threads messages_in
title-load_threads [] key ts = unfold title_after first_name in ground arith
title-load_threads (t ∷ us) key ts = ground (
  arith,
  title-load_threads us key (load_messages t.key t.messages ts),
  title-load_messages t.key key t.messages ts,
  title_after-append key (thread_of ts key).title t.messages (messages_in key us),
)

module _ (x : External) (laws : Laws x) where
  -- If the map of a store is well keyed and its conversations can be stored, and a save succeeds, then
  -- loading the saved records titles a group by the first name among its messages, whatever its
  -- title was, and leaves any other conversation without a title.
  pub reload_title :
      (s s' : Store) (key : Bytes)
      → IsKeyed s.threads
      → All IsStorable (list_threads s.threads)
      → save_locked x s ≡ (ok tt, s')
      → (recs : List Bytes) × (s'.records ≡ some recs)
        × ((thread_of (load_records x recs []) key).title
            ≡ (if is_group_key key then first_name (thread_of s.threads key).messages else []))
  unfolding save_locked
  reload_title s s' key keyed fit saved =
      elim (Option-cases (all_records x (list_threads s.threads))) [
        | inl bad ↦ absurd (ground (arith, saved, bad))
        | inr (recs, found) ↦ (
          recs,
          ground (arith, saved, found),
          rw
              (
                load_records-all_records x laws (list_threads s.threads) recs [] fit found,
                title-load_threads (list_threads s.threads) key [],
                messages_in-list_threads s.threads key keyed,
              )
              (unfold title_after thread_of lookup in refl),
        )
      ]
