-- ===== src/Contacts.antt =====
-- internal/contacts/store.go: the contacts book. A nil map reads as the empty one, and Add makes it;
-- the JSON of older builds is not read here.
pub mod Refinement
pub mod Reload
use nex_talk.Base.{
  ℕ, ◌≡◌, Bool, true, false, not, Option, none, some, List, [], ◌∷◌, arith, Bytes, ◌==◌,
  if◌then◌else◌, Map, lookup, insert, delete, Result, ok, err, ◌>>=◌, ◌>>◌, require, or_fail,
}
use nex_talk.External.{External, Field}
use nex_talk.Crypto.SecureMessage.{field}
use nex_talk.Binstore.{Envelope, File, FileError}
use nex_talk.Binstore

pub record Contact : Type 0 where
  pub name : Bytes
  pub user_id : Bytes
  pub note : Bytes

-- Store: the map of names.
abbrev pub Book : Type 0
Book = Map Contact

pub data ContactError : Type 0 where
  already_exists not_found serialize_failed : ContactError
  file : FileError → ContactError

-- Add
unfoldable pub add : Book → Bytes → Bytes → Result ContactError (Unit {0}) × Book
add b name user_id = elim (lookup name b) [
  | some c ↦ (err already_exists, b)
  | none ↦ (ok tt, insert name (record { name = name; user_id = user_id; note = [] }) b)
]

-- Remove
unfoldable pub remove : Book → Bytes → Result ContactError (Unit {0}) × Book
remove b name = elim (lookup name b) [ none ↦ (err not_found, b) | some c ↦ (ok tt, delete name b) ]

-- Rename
unfoldable pub rename : Book → Bytes → Bytes → Result ContactError (Unit {0}) × Book
rename b old_name new_name = elim (lookup old_name b) [
  | none ↦ (err not_found, b)
  | some c ↦ elim (lookup new_name b) [
    | some taken ↦ (err already_exists, b)
    | none ↦ (ok tt, insert new_name (record c { name = new_name }) (delete old_name b))
  ]
]

-- SetNote
unfoldable pub set_note : Book → Bytes → Bytes → Result ContactError (Unit {0}) × Book
set_note b name note = elim (lookup name b) [
  | none ↦ (err not_found, b)
  | some c ↦ (ok tt, insert name (record c { note = note }) b)
]

-- Get
unfoldable pub get : Book → Bytes → Result ContactError Contact
get b name = or_fail (lookup name b) not_found

-- Resolve
unfoldable pub resolve : Book → Bytes → Bytes
resolve b name_or_id = elim (lookup name_or_id b) [ none ↦ name_or_id | some c ↦ c.user_id ]

-- schemaID
abbrev pub schema_id : ℕ
schema_id = 40

abbrev pub empty_contact : Contact
empty_contact = record { name = []; user_id = []; note = [] }

-- contactBin.MarshalBinID
unfoldable pub marshal_contact : Contact → List Field
marshal_contact c = field 1 c.name ∷ field 2 c.user_id ∷ field 3 c.note ∷ []

-- One round of contactBin.UnmarshalBinID.
unfoldable pub set_contact_field : Contact → Field → Contact
set_contact_field c f =
    if f.id == 1
    then record c { name = f.bytes }
    else if f.id == 2
    then record c { user_id = f.bytes }
    else if f.id == 3
    then record c { note = f.bytes }
    else c

unfoldable pub unmarshal_contact : Contact → List Field → Contact
unmarshal_contact c [] = c
unmarshal_contact c (f ∷ fs) = unmarshal_contact (set_contact_field c f) fs

module _ (x : External) where
  -- The loop of Save over the map.
  unfoldable pub marshal_book : Book → Result ContactError (List Bytes)
  marshal_book [] = ok []
  marshal_book ((name, c) ∷ b) = do
    rec ← or_fail (x.encode_id (marshal_contact c)) serialize_failed
    recs ← marshal_book b
    ok (rec ∷ recs)

  -- The loop of Load: a record that cannot be read is passed over.
  unfoldable pub load_records : Book → List Bytes → Book
  load_records b [] = b
  load_records b (rec ∷ recs) = elim (x.decode_id rec) [
    | none ↦ load_records b recs
    | some fs ↦ let c = unmarshal_contact empty_contact fs in load_records (insert c.name c b) recs
  ]

lift_file : Result FileError (Unit {0}) × File → Result ContactError (Unit {0}) × File
lift_file (ok u, f) = (ok u, f)
lift_file (err e, f) = (err (file e), f)

module _ (x : External) (v : Envelope) where
  -- Save
  unfoldable pub save : Book → File → Result ContactError (Unit {0}) × File
  unfolding lift_file
  save b f = elim (marshal_book x b) [
    | err e ↦ (err e, f)
    | ok recs ↦ lift_file (Binstore.save v schema_id recs f)
  ]

  -- Load; with no file the book is empty.
  unfoldable pub load : File → Result ContactError Book
  load f = elim (Binstore.load v schema_id f) [
    | ok recs ↦ ok (load_records x [] recs)
    | err e ↦ elim f.content [ none ↦ ok [] | some frame ↦ err (file e) ]
  ]
