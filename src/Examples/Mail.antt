-- ===== src/Examples/Mail.antt =====
-- Runs of the mailbox: a store with a direct and a group conversation.
use nex_talk.Base.{
  map, if◌then◌else◌, ◌+◌, ◌≡◌, refl, true, false, none, some, List, [], ◌∷◌, arith, Bytes, codes,
  ok, lookup, All,
}
use nex_talk.Mailbox.Forms.{incoming, outgoing, direct, Message, Thread}
use nex_talk.Mailbox.{
  Store, thread_of, list_threads, unread, unread_total, save_locked, load_records, append_incoming,
  append_outgoing, append_group_incoming, append_group_outgoing, read,
}
use nex_talk.Mailbox.Titles.{first_name, reload_title}
use nex_talk.Mailbox.Forms.{group, is_group_key, group_key}
use nex_talk.Mailbox.Unread.{seen, append_unread_total, read_lem}
use nex_talk.Mailbox.Records.{IsKeyed, IsStorable, load_records-save_locked}
use nex_talk.Examples.Toy.{toy, toy-Laws}

abbrev hello : Message
hello = record {
  id = codes "1";
  direction = incoming;
  kind = direct;
  body = codes "hello";
  timestamp = 50;
  is_read = false;
  sender = [];
  context_id = [];
  context_name = [];
}

abbrev answered : Message
answered = record hello { id = codes "2"; direction = outgoing; timestamp = 60; is_read = true }

abbrev peer_thread : Thread
peer_thread = record { key = codes "P"; title = []; messages = hello ∷ answered ∷ [] }

abbrev other_thread : Thread
other_thread = record {
  key = codes "Q";
  title = [];
  messages = record hello { timestamp = 55 } ∷ [];
}

abbrev two_threads : Store
two_threads = record {
  records = none;
  writable = true;
  threads = (codes "P", peer_thread) ∷ (codes "Q", other_thread) ∷ [];
}

two-IsKeyed : IsKeyed two_threads.threads
unfolding lookup nex_talk.Base.beq
two-IsKeyed = (refl, refl, (refl, refl, tt))

two-IsStorable : All IsStorable (list_threads two_threads.threads)
unfolding list_threads nex_talk.Mailbox.insert_thread nex_talk.Mailbox.comes_before
    nex_talk.Mailbox.last_activity nex_talk.Std.Words.int64_lt
two-IsStorable = ((refl, (omega arith, (omega arith, tt))), ((refl, (omega arith, tt)), tt))

saved_store : Store
saved_store = (save_locked toy two_threads).1

two_saved : save_locked toy two_threads ≡ (ok tt, saved_store)
unfolding saved_store toy save_locked nex_talk.Mailbox.all_records list_threads
    nex_talk.Mailbox.insert_thread nex_talk.Mailbox.comes_before nex_talk.Mailbox.last_activity
    nex_talk.Std.Words.int64_lt nex_talk.Mailbox.thread_records
two_saved = refl

load_records-save_locked_example :
    (recs : List Bytes) × (saved_store.records ≡ some recs)
    × ((thread_of (load_records toy recs []) (codes "P")).messages
        ≡ (thread_of two_threads.threads (codes "P")).messages)
load_records-save_locked_example =
    load_records-save_locked toy toy-Laws two_threads saved_store (codes "P") two-IsKeyed
      two-IsStorable two_saved

append_unread_total_example :
    (unread_total (append_incoming toy two_threads (codes "P") (codes "x") (codes "3") 70).1.threads
      ≡ unread_total two_threads.threads + 1)
    × (unread_total
          (append_outgoing toy two_threads (codes "P") (codes "x") (codes "3") 70).1.threads
        ≡ unread_total two_threads.threads)
    × (unread_total
          (append_group_incoming toy two_threads
            (codes "G")
            (codes "team")
            (codes "S")
            (codes "x")
            (codes "3")
            70).1.threads
        ≡ unread_total two_threads.threads + 1)
    × (unread_total
          (append_group_outgoing toy two_threads
            (codes "G")
            (codes "team")
            (codes "x")
            (codes "3")
            70).1.threads
        ≡ unread_total two_threads.threads)
append_unread_total_example =
    append_unread_total toy two_threads (codes "P") (codes "G") (codes "team") (codes "S")
      (codes "x") (codes "3") 70

peer_found : lookup (codes "P") two_threads.threads ≡ some peer_thread
unfolding lookup nex_talk.Base.beq
peer_found = refl

read_lem_example :
    ((read toy two_threads (codes "P")).0 ≡ peer_thread.messages)
    × (unread_total (read toy two_threads (codes "P")).1.1.threads + unread peer_thread
        ≡ unread_total two_threads.threads)
    × ((t' : Thread) × (lookup (codes "P") (read toy two_threads (codes "P")).1.1.threads ≡ some t')
        × (unread t' ≡ 0)
        × (read toy (read toy two_threads (codes "P")).1.1 (codes "P")
            ≡ (map seen peer_thread.messages, (ok tt, (read toy two_threads (codes "P")).1.1))))
read_lem_example = read_lem toy two_threads (codes "P") peer_thread peer_found

-- A group that was renamed from "old" to "new".
abbrev renamed_thread : Thread
renamed_thread = record {
  key = group_key (codes "G");
  title = codes "new";
  messages =
      record hello { kind = group; context_name = codes "old" }
      ∷ record answered { kind = group; context_name = codes "new" }
      ∷ [];
}

abbrev renamed_store : Store
renamed_store = record {
  records = none;
  writable = true;
  threads = (group_key (codes "G"), renamed_thread) ∷ [];
}

renamed-IsKeyed : IsKeyed renamed_store.threads
unfolding lookup
renamed-IsKeyed = (refl, refl, tt)

renamed-IsStorable : All IsStorable (list_threads renamed_store.threads)
unfolding list_threads nex_talk.Mailbox.insert_thread group_key
renamed-IsStorable = ((refl, (omega arith, (omega arith, tt))), tt)

renamed_saved : Store
renamed_saved = (save_locked toy renamed_store).1

renamed_written : save_locked toy renamed_store ≡ (ok tt, renamed_saved)
unfolding renamed_saved toy save_locked nex_talk.Mailbox.all_records list_threads
    nex_talk.Mailbox.insert_thread nex_talk.Mailbox.thread_records
renamed_written = refl

reload_title_example :
    (recs : List Bytes) × (renamed_saved.records ≡ some recs)
    × ((thread_of (load_records toy recs []) (group_key (codes "G"))).title ≡ (
        if is_group_key (group_key (codes "G"))
        then first_name (thread_of renamed_store.threads (group_key (codes "G"))).messages
        else []))
reload_title_example =
    reload_title toy toy-Laws renamed_store renamed_saved (group_key (codes "G")) renamed-IsKeyed
      renamed-IsStorable renamed_written
