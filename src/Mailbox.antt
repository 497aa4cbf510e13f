-- ===== src/Mailbox.antt =====
-- internal/mailbox/store.go: the conversations of an identity and their record file. A method that
-- writes returns its result and the store as it leaves it; `writable` says whether writes succeed.
-- A new ID and the time, where a message has none, are arguments. Timestamps are int64 patterns.
pub mod Forms
pub mod Records
pub mod Unread
pub mod Titles
use nex_talk.Base.{
  ℕ, zero, suc, ◌+◌, ◌-◌, ◌≡◌, ◌≢◌, refl, Bool, true, false, not, ◌&&◌, ◌||◌, Option, none, some,
  List, [], ◌∷◌, ◌++◌, arith, Bytes, codes, beq, bytes_lt, has_prefix, is_empty, length, take, drop,
  leb, ltb, ◌==◌, if◌then◌else◌, Map, lookup, insert, Result, ok, err, ◌>>=◌, require, or_fail,
}
use nex_talk.Std.Words.{put_uint64, be_fold, int64_lt}
use nex_talk.External.{External, Field}
use nex_talk.Mailbox.Forms.{
  Direction, Kind, Message, Thread, MessageBin, field, marshal_bin_id, unmarshal_bin_id, empty_bin,
  direction_byte, kind_byte, to_bin, from_bin, group_prefix, is_group_key, group_key, incoming,
  outgoing, direct, group,
}

pub record Store : Type 0 where
  pub records : Option (List Bytes)
  pub writable : Bool
  pub threads : Map Thread

pub data MailboxError : Type 0 where
  marshal_failed save_failed no_conversation ambiguous_name ambiguous_prefix : MailboxError

abbrev pub MailboxResult : Type 0 → Type 0
MailboxResult A = Result MailboxError A

abbrev pub StoreResult : Type 0 → Type 0
StoreResult A = MailboxResult A × Store

-- (*Thread).unread
count_unread : List Message → ℕ
count_unread [] = 0
count_unread (m ∷ ms) = (if m.is_read then 0 else 1) + count_unread ms

unfoldable pub unread : Thread → ℕ
unfolding count_unread
unread t = count_unread t.messages

last_timestamp : ℕ → List Message → ℕ
last_timestamp ts [] = ts
last_timestamp ts (m ∷ ms) = last_timestamp m.timestamp ms

-- (*Thread).lastActivity
unfoldable pub last_activity : Thread → ℕ
unfolding last_timestamp
last_activity t = last_timestamp 0 t.messages

-- The thread of a key, a new one if there is none.
unfoldable pub thread_of : Map Thread → Bytes → Thread
thread_of ts key = elim (lookup key ts) [
  | none ↦ record { key = key; title = []; messages = [] }
  | some t ↦ t
]

-- (*Store).insert, as a load makes it
unfoldable pub insert_loaded : Map Thread → Bytes → Message → Map Thread
insert_loaded ts key msg =
    let t = thread_of ts key in
    let named = is_empty t.title && not (is_empty msg.context_name) && is_group_key key in
    insert key
      (record t {
        title = if named then msg.context_name else t.title;
        messages = t.messages ++ msg ∷ [];
      })
      ts

-- The order of saveLocked and List: newest first, then by key.
unfoldable pub comes_before : Thread → Thread → Bool
comes_before a b =
    if last_activity a == last_activity b
    then bytes_lt a.key b.key
    else int64_lt (last_activity b) (last_activity a)

unfoldable pub insert_thread : Thread → List Thread → List Thread
insert_thread t [] = t ∷ []
insert_thread t (u ∷ us) =
    let rest = insert_thread t us in if comes_before t u then t ∷ u ∷ us else u ∷ rest

-- List
unfoldable pub list_threads : Map Thread → List Thread
list_threads [] = []
list_threads ((k, t) ∷ ts) = insert_thread t (list_threads ts)

module _ (x : External) where
  -- The records of one thread behind those of the threads after it.
  unfoldable pub thread_records : Bytes → List Message → Option (List Bytes) → Option (List Bytes)
  thread_records key [] rest = rest
  thread_records key (m ∷ ms) rest =
      let more = thread_records key ms rest in
      elim (x.encode_id (marshal_bin_id (to_bin m key))) [
        | none ↦ none
        | some b ↦ elim more [ none ↦ none | some bs ↦ some (b ∷ bs) ]
      ]

  unfoldable pub all_records : List Thread → Option (List Bytes)
  all_records [] = some []
  all_records (t ∷ ts) = thread_records t.key t.messages (all_records ts)

  write_records : Store → Option (List Bytes) → StoreResult (Unit {0})
  write_records s none = (err marshal_failed, s)
  write_records s (some records) =
      if s.writable then (ok tt, record s { records = some records }) else (err save_failed, s)

  -- saveLocked
  unfoldable pub save_locked : Store → StoreResult (Unit {0})
  unfolding write_records
  save_locked s = write_records s (all_records (list_threads s.threads))

  -- The loop of Load over the records of the file.
  unfoldable pub load_records : List Bytes → Map Thread → Map Thread
  unfolding empty_bin
  load_records [] ts = ts
  load_records (rec ∷ recs) ts = load_records recs (elim (x.decode_id rec) [
    | none ↦ ts
    | some fs ↦
        let b = unmarshal_bin_id empty_bin fs in
        if is_empty b.thread_key then ts else insert_loaded ts b.thread_key (from_bin b)
  ])

  -- appendDefaults, with the ID and the time that it would draw
  unfoldable pub append_defaults : Message → Bytes → ℕ → Message
  append_defaults m new_id now = record m {
    id = if is_empty m.id then new_id else m.id;
    timestamp = if m.timestamp == 0 then now else m.timestamp;
    is_read = elim m.direction [ incoming ↦ m.is_read | outgoing ↦ true ];
  }

  -- append
  unfoldable pub append : Store → Bytes → Bytes → Message → Bytes → ℕ → StoreResult (Unit {0})
  append s key title msg new_id now =
      let t = thread_of s.threads key in
      save_locked (record s {
        threads =
            insert key
              (record t {
                title = if is_empty title then t.title else title;
                messages = t.messages ++ append_defaults msg new_id now ∷ [];
              })
              s.threads;
      })

-- The messages that the four Append methods make.
unfoldable pub direct_message : Direction → Bytes → Message
direct_message dir body = record {
  id = [];
  direction = dir;
  kind = direct;
  body = body;
  timestamp = 0;
  is_read = false;
  sender = [];
  context_id = [];
  context_name = [];
}

unfoldable pub group_message : Direction → Bytes → Bytes → Bytes → Bytes → Message
group_message dir context_id name sender body = record {
  id = [];
  direction = dir;
  kind = group;
  body = body;
  timestamp = 0;
  is_read = false;
  sender = sender;
  context_id = context_id;
  context_name = name;
}

module _ (x : External) where
  -- AppendIncoming
  unfoldable pub append_incoming : Store → Bytes → Bytes → Bytes → ℕ → StoreResult (Unit {0})
  append_incoming s peer body = append x s peer [] (direct_message incoming body)

  -- AppendOutgoing
  unfoldable pub append_outgoing : Store → Bytes → Bytes → Bytes → ℕ → StoreResult (Unit {0})
  append_outgoing s peer body = append x s peer [] (direct_message outgoing body)

  -- AppendGroupIncoming
  unfoldable pub append_group_incoming :
      Store → Bytes → Bytes → Bytes → Bytes → Bytes → ℕ → StoreResult (Unit {0})
  append_group_incoming s context_id name sender body =
      append x s (group_key context_id) name (group_message incoming context_id name sender body)

  -- AppendGroupOutgoing
  unfoldable pub append_group_outgoing :
      Store → Bytes → Bytes → Bytes → Bytes → ℕ → StoreResult (Unit {0})
  append_group_outgoing s context_id name body =
      append x s (group_key context_id) name
        (group_message outgoing context_id name (codes "Me") body)

mark_read : List Message → List Message
mark_read [] = []
mark_read (m ∷ ms) = record m { is_read = true } ∷ mark_read ms

module _ (x : External) where
  -- Read behind the lookup: the messages as they were, all marked read, and a save if one was not.
  unfoldable pub read_thread : Store → Thread → Bytes → List Message × StoreResult (Unit {0})
  unfolding mark_read
  read_thread s t key =
      let s' : Store = record s {
        threads = insert key (record t { messages = mark_read t.messages }) s.threads;
      } in
      (t.messages, if unread t == 0 then (ok tt, s) else save_locked x s')

  -- Read: what it returns beside its error, and the store.
  unfoldable pub read : Store → Bytes → List Message × StoreResult (Unit {0})
  read s key = elim (lookup key s.threads) [
    | none ↦ ([], (err no_conversation, s))
    | some t ↦ read_thread s t key
  ]

-- UnreadTotal
unfoldable pub unread_total : Map Thread → ℕ
unread_total [] = 0
unread_total ((k, t) ∷ ts) = unread t + unread_total ts
