-- ===== src/Mailbox/Unread.antt =====
-- internal/mailbox/store.go: the count of unread messages in append and Read.
use nex_talk.Base.{
  ℕ, ◌+◌, ◌≡◌, refl, sym, ap, ◌∙◌, map, true, false, Option, none, some, List, [], ◌∷◌, ◌++◌, arith,
  Bytes, beq_refl, is_empty, ◌==◌, if◌then◌else◌, Map, lookup, insert, lookup-insert, ok,
  Bool-cases, inl, inr,
}
use nex_talk.External.{External}
use nex_talk.Mailbox.Forms.{Message, Thread}
use nex_talk.Mailbox.{
  Store, count_unread, unread, thread_of, write_records, save_locked, append_defaults, append,
  direct_message, append_incoming, append_outgoing, group_message, append_group_incoming,
  append_group_outgoing, mark_read, read_thread, read, unread_total,
}

-- Replacing a thread moves the total by the difference.
unread_total-insert :
    (ts : Map Thread) (key : Bytes) (t : Thread)
    → unread_total (insert key t ts) + unread (thread_of ts key) ≡ unread_total ts + unread t
unfolding unread_total insert thread_of lookup unread
unread_total-insert [] key t = omega arith
unread_total-insert ((k, u) ∷ ts) key t = ground (arith, unread_total-insert ts key t)

count_unread-append :
    (ms ns : List Message) → count_unread (ms ++ ns) ≡ count_unread ms + count_unread ns
unfolding count_unread
count_unread-append [] ns = omega arith
count_unread-append (m ∷ ms) ns = omega (arith, count_unread-append ms ns)

count_unread-mark_read : (ms : List Message) → count_unread (mark_read ms) ≡ 0
unfolding count_unread mark_read
count_unread-mark_read [] = refl
count_unread-mark_read (m ∷ ms) = omega (arith, count_unread-mark_read ms)

-- A message that was read.
abbrev pub seen : Message → Message
seen m = record m { is_read = true }

map-mark_read : (ms : List Message) → mark_read ms ≡ map seen ms
unfolding mark_read
map-mark_read [] = refl
map-mark_read (m ∷ ms) = ap (λ rest. seen m ∷ rest) (map-mark_read ms)

seen_lem : (m : Message) → m.is_read ≡ true → m ≡ seen m
seen_lem m h = rw (sym h) refl

map-seen_clean : (ms : List Message) → count_unread ms ≡ 0 → ms ≡ map seen ms
unfolding count_unread
map-seen_clean [] h = refl
map-seen_clean (m ∷ ms) h = elim (Bool-cases m.is_read) [
  | inl known ↦
      ap (λ n. n ∷ ms) (seen_lem m known)
      ∙ ap (λ rest. seen m ∷ rest) (map-seen_clean ms (ground arith))
  | inr unseen ↦ absurd (ground arith)
]

thread_of-some :
    (ts : Map Thread) (key : Bytes) (t : Thread) → lookup key ts ≡ some t → thread_of ts key ≡ t
unfolding thread_of
thread_of-some ts key t found = ground arith

-- 1 for a message that a user has not seen.
abbrev pub weight : Message → ℕ
weight m = if m.is_read then 0 else 1

module _ (x : External) where
  pub save_locked-threads : (s : Store) → (save_locked x s).1.threads ≡ s.threads
  unfolding save_locked
  save_locked-threads s = go _
    where
      go : (r : Option (List Bytes)) → (write_records x s r).1.threads ≡ s.threads
      go none = unfold write_records in refl
      go (some rs) = unfold write_records in ground arith

  append_total :
      (s : Store) (key title : Bytes) (msg : Message) (new_id : Bytes) (now : ℕ)
      → unread_total (append x s key title msg new_id now).1.threads
        ≡ unread_total s.threads + weight (append_defaults x msg new_id now)
  unfolding append unread count_unread
  append_total s key title msg new_id now =
      let t = thread_of s.threads key in
      let t' : Thread = record t {
        title = if is_empty title then t.title else title;
        messages = t.messages ++ append_defaults x msg new_id now ∷ [];
      } in
      rw (save_locked-threads (record s { threads = insert key t' s.threads })) (
        omega (
          arith,
          unread_total-insert s.threads key t',
          count_unread-append t.messages (append_defaults x msg new_id now ∷ []),
        ))

  -- A received message, direct or in a group, adds one to the unread total; a sent one adds none.
  -- This holds also where the write fails.
  pub append_unread_total :
      (s : Store) (peer id name sender body new_id : Bytes) (now : ℕ)
      → (unread_total (append_incoming x s peer body new_id now).1.threads
          ≡ unread_total s.threads + 1)
        × (unread_total (append_outgoing x s peer body new_id now).1.threads
            ≡ unread_total s.threads)
        × (unread_total (append_group_incoming x s id name sender body new_id now).1.threads
            ≡ unread_total s.threads + 1)
        × (unread_total (append_group_outgoing x s id name body new_id now).1.threads
            ≡ unread_total s.threads)
  unfolding append_incoming append_outgoing append_group_incoming append_group_outgoing
      direct_message group_message append_defaults
  append_unread_total s peer id name sender body new_id now = (
    append_total s peer _ _ new_id now,
    append_total s peer _ _ new_id now ∙ omega arith,
    append_total s _ name _ new_id now,
    append_total s _ name _ new_id now ∙ omega arith,
  )

  abbrev ReadOnce : Store → Bytes → Thread → Type 0
  ReadOnce s key t =
      ((read x s key).0 ≡ t.messages)
      × (unread_total (read x s key).1.1.threads + unread t ≡ unread_total s.threads)
      × ((t' : Thread) × (lookup key (read x s key).1.1.threads ≡ some t')
          × (unread t' ≡ 0)
          × (read x (read x s key).1.1 key ≡ (map seen t.messages, (ok tt, (read x s key).1.1))))

  read-clean :
      (s : Store) (key : Bytes) (t : Thread)
      → lookup key s.threads ≡ some t
      → unread t ≡ 0
      → read x s key ≡ (t.messages, (ok tt, s))
  unfolding read read_thread
  read-clean s key t found clean = rw (found, read, clean)

  read_clean :
      (s : Store) (key : Bytes) (t : Thread)
      → lookup key s.threads ≡ some t
      → unread t ≡ 0
      → ReadOnce s key t
  read_clean s key t found clean =
      let e = read-clean s key t found clean in
      rw (e, clean)
        (
          refl,
          omega arith,
          (
            t,
            found,
            clean,
            e ∙ ap (λ ms. (ms, (ok tt, s))) (map-seen_clean t.messages (unfold unread in clean)),
          ),
        )

  read-dirty :
      (s : Store) (key : Bytes) (t : Thread)
      → lookup key s.threads ≡ some t
      → (unread t == 0) ≡ false
      → read x s key ≡ (
        t.messages,
        save_locked x (record s {
          threads = insert key (record t { messages = mark_read t.messages }) s.threads;
        }),
      )
  unfolding read read_thread
  read-dirty s key t found dirty = rw (found, read, dirty)

  read_dirty :
      (s : Store) (key : Bytes) (t : Thread)
      → lookup key s.threads ≡ some t
      → (unread t == 0) ≡ false
      → ReadOnce s key t
  unfolding unread
  read_dirty s key t found dirty =
      let t' : Thread = record t { messages = mark_read t.messages } in
      let e = read-dirty s key t found dirty in
      let kept = save_locked-threads (record s { threads = insert key t' s.threads }) in
      let there : lookup key (insert key t' s.threads) ≡ some t' =
        rw (lookup-insert key key t' s.threads, beq_refl key) in
      let known : thread_of s.threads key ≡ t = thread_of-some s.threads key t found in
      rw (e, kept)
        (
          refl,
          omega (
            arith,
            unread_total-insert s.threads key t',
            count_unread-mark_read t.messages,
            ap unread known,
          ),
          (
            t',
            there,
            count_unread-mark_read t.messages,
            read-clean _ key t' (rw kept there) (count_unread-mark_read t.messages)
                ∙ ap
                    (λ ms. (
                      ms,
                      (ok tt, (save_locked x (record s { threads = insert key t' s.threads })).1),
                    ))
                    (map-mark_read t.messages),
          ),
        )

  -- Reading a conversation returns its messages as they were, takes exactly its unread messages
  -- off the total, and leaves none unread in it; reading again changes nothing, and returns the same
  -- messages, all marked as read.
  pub read_lem :
      (s : Store) (key : Bytes) (t : Thread)
      → lookup key s.threads ≡ some t
      → ((read x s key).0 ≡ t.messages)
        × (unread_total (read x s key).1.1.threads + unread t ≡ unread_total s.threads)
        × ((t' : Thread) × (lookup key (read x s key).1.1.threads ≡ some t')
            × (unread t' ≡ 0)
            × (read x (read x s key).1.1 key ≡ (map seen t.messages, (ok tt, (read x s key).1.1))))
  read_lem s key t found = elim (Bool-cases (unread t == 0)) [
    | inl clean ↦ read_clean s key t found (ground arith)
    | inr dirty ↦ read_dirty s key t found dirty
  ]
