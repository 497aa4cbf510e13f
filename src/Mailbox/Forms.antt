-- ===== src/Mailbox/Forms.antt =====
-- internal/mailbox/store.go: messages, conversations and the record form of a message. Timestamps are
-- int64 patterns.
use nex_talk.Base.{
  ℕ, Bool, List, [], ◌∷◌, ◌++◌, Bytes, codes, has_prefix, length, ◌==◌, if◌then◌else◌,
}
use nex_talk.Std.Words.{put_uint64, be_fold}
use nex_talk.External.{Field}

pub data Direction : Type 0 where
  incoming outgoing : Direction

pub data Kind : Type 0 where
  direct group : Kind

pub record Message : Type 0 where
  pub id : Bytes
  pub direction : Direction
  pub kind : Kind
  pub body : Bytes
  pub timestamp : ℕ
  pub is_read : Bool
  pub sender : Bytes
  pub context_id : Bytes
  pub context_name : Bytes

pub record Thread : Type 0 where
  pub key : Bytes
  pub title : Bytes
  pub messages : List Message

-- messageBin
pub record MessageBin : Type 0 where
  pub thread_key : Bytes
  pub id : Bytes
  pub direction : ℕ
  pub kind : ℕ
  pub is_read : ℕ
  pub body : Bytes
  pub sender : Bytes
  pub context_id : Bytes
  pub context_name : Bytes
  pub timestamp : ℕ

abbrev pub field : ℕ → Bytes → Field
field i b = record { id = i; bytes = b }

-- (*messageBin).MarshalBinID
unfoldable pub marshal_bin_id : MessageBin → List Field
marshal_bin_id m =
    field 1 m.thread_key
    ∷ field 2 m.id
    ∷ field 3 (m.direction ∷ [])
    ∷ field 4 (m.kind ∷ [])
    ∷ field 5 (m.is_read ∷ [])
    ∷ field 6 m.body
    ∷ field 7 m.sender
    ∷ field 8 m.context_id
    ∷ field 9 m.context_name
    ∷ field 10 (put_uint64 m.timestamp)
    ∷ []

-- The byte of a field of length one, else the value before.
one_byte : ℕ → Bytes → ℕ
one_byte old [] = old
one_byte old (b ∷ []) = b
one_byte old (b ∷ c ∷ bs) = old

unmarshal_field : MessageBin → Field → MessageBin
unfolding one_byte
unmarshal_field m f =
    if f.id == 1
    then record m { thread_key = f.bytes }
    else if f.id == 2
    then record m { id = f.bytes }
    else if f.id == 3
    then record m { direction = one_byte m.direction f.bytes }
    else if f.id == 4
    then record m { kind = one_byte m.kind f.bytes }
    else if f.id == 5
    then record m { is_read = one_byte m.is_read f.bytes }
    else if f.id == 6
    then record m { body = f.bytes }
    else if f.id == 7
    then record m { sender = f.bytes }
    else if f.id == 8
    then record m { context_id = f.bytes }
    else if f.id == 9
    then record m { context_name = f.bytes }
    else if f.id == 10
    then (if length f.bytes == 8 then record m { timestamp = be_fold 0 f.bytes } else m)
    else m

-- (*messageBin).UnmarshalBinID
unfoldable pub unmarshal_bin_id : MessageBin → List Field → MessageBin
unfolding unmarshal_field
unmarshal_bin_id m [] = m
unmarshal_bin_id m (f ∷ fs) = unmarshal_bin_id (unmarshal_field m f) fs

unfoldable pub empty_bin : MessageBin
empty_bin = record {
  thread_key = [];
  id = [];
  direction = 0;
  kind = 0;
  is_read = 0;
  body = [];
  sender = [];
  context_id = [];
  context_name = [];
  timestamp = 0;
}

unfoldable pub direction_byte : Direction → ℕ
direction_byte incoming = 0
direction_byte outgoing = 1

unfoldable pub kind_byte : Kind → ℕ
kind_byte direct = 0
kind_byte group = 1

-- (*Message).toBin
unfoldable pub to_bin : Message → Bytes → MessageBin
unfolding direction_byte kind_byte
to_bin m key = record {
  thread_key = key;
  id = m.id;
  direction = direction_byte m.direction;
  kind = kind_byte m.kind;
  is_read = if m.is_read then 1 else 0;
  body = m.body;
  sender = m.sender;
  context_id = m.context_id;
  context_name = m.context_name;
  timestamp = m.timestamp;
}

-- fromBin
unfoldable pub from_bin : MessageBin → Message
from_bin b = record {
  id = b.id;
  direction = if b.direction == 1 then outgoing else incoming;
  kind = if b.kind == 1 then group else direct;
  body = b.body;
  timestamp = b.timestamp;
  is_read = b.is_read == 1;
  sender = b.sender;
  context_id = b.context_id;
  context_name = b.context_name;
}

abbrev pub group_prefix : Bytes
group_prefix = codes "ctx:"

-- IsGroupKey, isGroupThread
unfoldable pub is_group_key : Bytes → Bool
is_group_key key = has_prefix key group_prefix

-- GroupKey, groupKey
unfoldable pub group_key : Bytes → Bytes
group_key context_id = group_prefix ++ context_id
