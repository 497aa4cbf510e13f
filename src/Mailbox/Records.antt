-- ===== src/Mailbox/Records.antt =====
-- internal/mailbox/store.go: saveLocked against the loop of Load, for the messages of a conversation.
use nex_talk.Base.{
  subst, ◌<◌, ◌^◌, ◌≡◌, refl, sym, ap, ◌∙◌, true, false, Option, none, some, List, [], ◌∷◌, ◌++◌,
  append_assoc, append-nil, arith, Bytes, beq, beq_iff, is_empty, All, if◌then◌else◌, Map, lookup,
  insert, lookup-insert, ok, Bool-cases, Option-cases, inl, inr,
}
use nex_talk.Std.Words.{be_fold-put_uint64, length-put_uint64}
use nex_talk.External.{External, Laws}
use nex_talk.Mailbox.Forms.{
  Message, Thread, marshal_bin_id, unmarshal_bin_id, empty_bin, to_bin, from_bin,
}
use nex_talk.Mailbox.{
  Store, thread_of, insert_loaded, insert_thread, list_threads, thread_records, all_records,
  write_records, save_locked, load_records,
}

-- A record holds all of a message: the fields are read back as they were written.
pub from_bin-to_bin : (m : Message) (key : Bytes) → from_bin (to_bin m key) ≡ m
unfolding from_bin to_bin
from_bin-to_bin m key = ground arith

thread_key-to_bin : (m : Message) (key : Bytes) → (to_bin m key).thread_key ≡ key
unfolding to_bin
thread_key-to_bin m key = refl

unmarshal-marshal :
    (m : Message) (key : Bytes)
    → m.timestamp < 2 ^ 64
    → unmarshal_bin_id empty_bin (marshal_bin_id (to_bin m key)) ≡ to_bin m key
unfolding unmarshal_bin_id marshal_bin_id empty_bin to_bin
unmarshal-marshal m key fits =
    ground (arith, length-put_uint64 m.timestamp, be_fold-put_uint64 m.timestamp fits)

-- What loading the messages of a thread, or of a row of threads, amounts to.
unfoldable pub load_messages : Bytes → List Message → Map Thread → Map Thread
load_messages key [] ts = ts
load_messages key (m ∷ ms) ts = load_messages key ms (insert_loaded ts key m)

unfoldable pub load_threads : List Thread → Map Thread → Map Thread
load_threads [] ts = ts
load_threads (t ∷ us) ts = load_threads us (load_messages t.key t.messages ts)

-- Keys are not empty, and timestamps are int64 patterns.
abbrev pub IsStorable : Thread → Type 0
IsStorable t = (is_empty t.key ≡ false) × All (λ (m : Message). m.timestamp < 2 ^ 64) t.messages

module _ (x : External) (laws : Laws x) where
  load_records-record :
      (m : Message) (key b : Bytes) (recs : List Bytes) (ts : Map Thread)
      → is_empty key ≡ false
      → m.timestamp < 2 ^ 64
      → x.encode_id (marshal_bin_id (to_bin m key)) ≡ some b
      → load_records x (b ∷ recs) ts ≡ load_records x recs (insert_loaded ts key m)
  unfolding load_records
  load_records-record m key b recs ts named fits e = ground (
    arith,
    laws.decode-encode (marshal_bin_id (to_bin m key)) b e,
    unmarshal-marshal m key fits,
    from_bin-to_bin m key,
    thread_key-to_bin m key,
  )

  thread_records-cons :
      (key : Bytes) (m : Message) (ms : List Message) (rest : Option (List Bytes))
      (recs : List Bytes)
      → thread_records x key (m ∷ ms) rest ≡ some recs
      → (b : Bytes) × (bs : List Bytes) × (x.encode_id (marshal_bin_id (to_bin m key)) ≡ some b)
        × (thread_records x key ms rest ≡ some bs)
        × (recs ≡ b ∷ bs)
  unfolding thread_records
  thread_records-cons key m ms rest recs e =
      elim (Option-cases (x.encode_id (marshal_bin_id (to_bin m key)))) [
        | inl bad ↦ absurd (ground arith)
        | inr (b, written) ↦ elim (Option-cases (thread_records x key ms rest)) [
          | inl bad ↦ absurd (ground arith)
          | inr (bs, more) ↦ (b, bs, written, more, ground arith)
        ]
      ]

  load_records-thread_records :
      (key : Bytes) (ms : List Message) (rest recs : List Bytes) (ts : Map Thread)
      → is_empty key ≡ false
      → All (λ (m : Message). m.timestamp < 2 ^ 64) ms
      → thread_records x key ms (some rest) ≡ some recs
      → load_records x recs ts ≡ load_records x rest (load_messages key ms ts)
  unfolding thread_records load_messages
  load_records-thread_records key [] rest recs ts named fits e =
      let same : rest ≡ recs = ground arith in rw same
  load_records-thread_records key (m ∷ ms) rest recs ts named (fit, fits) e =
      let (b, bs, written, more, split) = thread_records-cons key m ms (some rest) recs e in
      rw split (
        load_records-record m key b bs ts named fit written
        ∙ load_records-thread_records key ms rest bs (insert_loaded ts key m) named fits more)

  thread_records-some :
      (key : Bytes) (ms : List Message) (rest : Option (List Bytes)) (recs : List Bytes)
      → thread_records x key ms rest ≡ some recs
      → (r : List Bytes) × (rest ≡ some r)
  unfolding thread_records
  thread_records-some key [] rest recs e = (recs, e)
  thread_records-some key (m ∷ ms) rest recs e =
      let (b, bs, written, more, split) = thread_records-cons key m ms rest recs e in
      thread_records-some key ms rest bs more

  pub load_records-all_records :
      (us : List Thread) (recs : List Bytes) (ts : Map Thread)
      → All IsStorable us
      → all_records x us ≡ some recs
      → load_records x recs ts ≡ load_threads us ts
  unfolding all_records load_threads
  load_records-all_records [] recs ts fit e =
      let same : [] ≡ recs = ground arith in
      subst (λ rs. load_records x rs ts ≡ ts) same (unfold load_records in refl)
  load_records-all_records (t ∷ us) recs ts ((named, fits), fit) e =
      let (rest, found) = thread_records-some t.key t.messages (all_records x us) recs e in
      load_records-thread_records t.key t.messages rest recs ts named fits (rw found at e)
      ∙ load_records-all_records us rest (load_messages t.key t.messages ts) fit found

-- The messages that a row of threads has under a key.
unfoldable pub messages_in : Bytes → List Thread → List Message
messages_in key [] = []
messages_in key (t ∷ us) =
    let rest = messages_in key us in if beq t.key key then t.messages ++ rest else rest

messages-insert :
    (ts : Map Thread) (k key : Bytes) (t : Thread)
    → (thread_of (insert k t ts) key).messages
      ≡ (if beq k key then t.messages else (thread_of ts key).messages)
unfolding thread_of
messages-insert ts k key t = ground (arith, lookup-insert k key t ts)

messages-insert_loaded :
    (ts : Map Thread) (k key : Bytes) (m : Message)
    → (thread_of (insert_loaded ts k m) key).messages
      ≡ (if beq k key then (thread_of ts key).messages ++ m ∷ [] else (thread_of ts key).messages)
unfolding insert_loaded
messages-insert_loaded ts k key m = messages-insert ts k key _ ∙ elim (Bool-cases (beq k key)) [
  | inl same ↦
      ap
        (λ (j : Bytes).
          if beq k key then (thread_of ts j).messages ++ m ∷ [] else (thread_of ts key).messages)
        ((beq_iff k key).0 same)
  | inr apart ↦ ground (arith, apart)
]

messages-load_messages :
    (k key : Bytes) (ms : List Message) (ts : Map Thread)
    → (thread_of (load_messages k ms ts) key).messages
      ≡ (if beq k key then (thread_of ts key).messages ++ ms else (thread_of ts key).messages)
unfolding load_messages
messages-load_messages k key [] ts = ground (arith, append-nil (thread_of ts key).messages)
messages-load_messages k key (m ∷ ms) ts = ground (
  arith,
  messages-load_messages k key ms (insert_loaded ts k m),
  messages-insert_loaded ts k key m,
  append_assoc (thread_of ts key).messages (m ∷ []) ms,
)

messages-load_threads :
    (us : List Thread) (key : Bytes) (ts : Map Thread)
    → (thread_of (load_threads us ts) key).messages
      ≡ (thread_of ts key).messages ++ messages_in key us
unfolding load_threads messages_in
messages-load_threads [] key ts = sym (append-nil (thread_of ts key).messages)
messages-load_threads (t ∷ us) key ts = ground (
  arith,
  messages-load_threads us key (load_messages t.key t.messages ts),
  messages-load_messages t.key key t.messages ts,
  append_assoc (thread_of ts key).messages t.messages (messages_in key us),
)

-- Each entry of a store's map stands under its thread's key, and no two under one key.
abbrev pub IsKeyed : Map Thread → Type 0
IsKeyed [] = Unit {0}
IsKeyed ((k, t) ∷ ts) = (t.key ≡ k) × (lookup k ts ≡ none) × IsKeyed ts

-- No conversation of the list has the key.
abbrev IsAbsent : Bytes → List Thread → Type 0
IsAbsent key us = All (λ (u : Thread). beq u.key key ≡ false) us

messages_in-insert_thread :
    (t : Thread) (us : List Thread) (key : Bytes)
    → (beq t.key key ≡ true → IsAbsent key us)
    → messages_in key (insert_thread t us) ≡ messages_in key (t ∷ us)
unfolding insert_thread messages_in
messages_in-insert_thread t [] key alone = refl
messages_in-insert_thread t (u ∷ us) key alone = elim (Bool-cases (beq t.key key)) [
  | inl same ↦
      let (other, others) = alone same in
      ground (arith, messages_in-insert_thread t us key (λ e. others), other)
  | inr apart ↦
      ground
        (arith, messages_in-insert_thread t us key (λ e. absurd (ground (arith, apart, e))), apart)
]

insert_thread-IsAbsent :
    (t : Thread) (us : List Thread) (key : Bytes)
    → beq t.key key ≡ false
    → IsAbsent key us
    → IsAbsent key (insert_thread t us)
unfolding insert_thread
insert_thread-IsAbsent t [] key apart absent = (apart, tt)
insert_thread-IsAbsent t (u ∷ us) key apart (other, absent) =
    ground (arith, insert_thread-IsAbsent t us key apart absent, apart, other, absent)

list_threads-IsAbsent :
    (ts : Map Thread) (key : Bytes)
    → IsKeyed ts
    → lookup key ts ≡ none
    → IsAbsent key (list_threads ts)
unfolding list_threads lookup
list_threads-IsAbsent [] key keyed missing = tt
list_threads-IsAbsent ((k, t) ∷ ts) key (own, alone, keyed) missing =
    insert_thread-IsAbsent t (list_threads ts) key (ground (arith, own, missing))
      (list_threads-IsAbsent ts key keyed (ground (arith, missing)))

messages_in-IsAbsent : (us : List Thread) (key : Bytes) → IsAbsent key us → messages_in key us ≡ []
unfolding messages_in
messages_in-IsAbsent [] key absent = refl
messages_in-IsAbsent (u ∷ us) key (other, absent) =
    ground (arith, messages_in-IsAbsent us key absent, other)

pub messages_in-list_threads :
    (ts : Map Thread) (key : Bytes)
    → IsKeyed ts
    → messages_in key (list_threads ts) ≡ (thread_of ts key).messages
unfolding list_threads thread_of messages_in lookup
messages_in-list_threads [] key keyed = refl
messages_in-list_threads ((k, t) ∷ ts) key (own, alone, keyed) = elim (Bool-cases (beq k key)) [
  | inl same ↦
      let missing = subst (λ (j : Bytes). lookup j ts ≡ none) ((beq_iff k key).0 same) alone in
      let absent = list_threads-IsAbsent ts key keyed missing in
      ground (
        arith,
        messages_in-insert_thread t (list_threads ts) key (λ e. absent),
        messages_in-IsAbsent (list_threads ts) key absent,
        append-nil t.messages,
        own,
        same,
      )
  | inr apart ↦ ground (
    arith,
    messages_in-insert_thread t (list_threads ts) key (λ e. absurd (ground (arith, own, apart, e))),
    messages_in-list_threads ts key keyed,
    own,
    apart,
  )
]

module _ (x : External) (laws : Laws x) where
  -- If the map of a store is well keyed and its conversations can be stored, and a save succeeds,
  -- then loading the saved records into an empty map gives every key the messages it had.
  pub load_records-save_locked :
      (s s' : Store) (key : Bytes)
      → IsKeyed s.threads
      → All IsStorable (list_threads s.threads)
      → save_locked x s ≡ (ok tt, s')
      → (recs : List Bytes) × (s'.records ≡ some recs)
        × ((thread_of (load_records x recs []) key).messages ≡ (thread_of s.threads key).messages)
  unfolding save_locked write_records thread_of lookup
  load_records-save_locked s s' key keyed fit saved =
      elim (Option-cases (all_records x (list_threads s.threads))) [
        | inl bad ↦ absurd (ground (arith, saved, bad))
        | inr (recs, found) ↦ (
          recs,
          ground (arith, saved, found),
          rw (load_records-all_records x laws (list_threads s.threads) recs [] fit found) (
              messages-load_threads (list_threads s.threads) key []
              ∙ messages_in-list_threads s.threads key keyed),
        )
      ]
