-- ===== src/Examples/Book.antt =====
-- Runs of the contacts book.
use nex_talk.Base.{
  ℕ, ◌<◌, ◌^◌, ◌≡◌, refl, true, Option, none, some, List, [], ◌∷◌, arith, Bytes, codes, ok, lookup,
  length,
}
use nex_talk.Binstore.{Envelope, EnvelopeLaws, Packet, File}
use nex_talk.Contacts.{Contact, Book, marshal_book, save, load}
use nex_talk.Contacts.Refinement.{
  Change, adds, removes, renames, sets_note, run_all, spec_all, Holds, run_all-Holds,
}
use nex_talk.Contacts.Reload.{IsBook, load-save}
use nex_talk.Examples.Toy.{toy, toy-Laws}

-- An envelope of one byte, the schema.
open_packet : Bytes → Option Packet
open_packet [] = none
open_packet (s ∷ b) = some (record { major = 1; schema = s; body = b })

abbrev toy_envelope : Envelope
unfolding open_packet
toy_envelope = record { wrap = λ s b. s ∷ b; unwrap = open_packet; version = 1 }

toy-EnvelopeLaws : EnvelopeLaws toy_envelope
unfolding open_packet
toy-EnvelopeLaws = record { unwrap-wrap = λ s b. refl }

abbrev two_contacts : Book
two_contacts =
    (codes "ann", record { name = codes "ann"; user_id = codes "A"; note = [] })
    ∷ (codes "ben", record { name = codes "ben"; user_id = codes "B"; note = codes "work" })
    ∷ []

abbrev some_changes : List Change
some_changes =
    adds (codes "ann") (codes "C")
    ∷ renames (codes "ann") (codes "eve")
    ∷ sets_note (codes "ben") (codes "home")
    ∷ adds (codes "ann") (codes "C")
    ∷ removes (codes "dan")
    ∷ []

run_all-Holds_example :
    ((run_all some_changes two_contacts).0 ≡ (spec_all some_changes (λ k. lookup k two_contacts)).0)
    × Holds
        (run_all some_changes two_contacts).1
        (spec_all some_changes (λ k. lookup k two_contacts)).1
run_all-Holds_example =
    run_all-Holds some_changes two_contacts (λ k. lookup k two_contacts) (λ k. refl)

two-IsBook : IsBook two_contacts
unfolding IsBook lookup nex_talk.Base.beq
two-IsBook = (refl, refl, (refl, refl, tt))

abbrev store_file : File
store_file = record { content = none; writable = true }

-- The records of the two contacts.
abbrev two_records : List Bytes
two_records =
    (3 ∷ 0 ∷ 1 ∷ 1 ∷ b'a' ∷ 1 ∷ b'n' ∷ 1 ∷ b'n' ∷ 0 ∷ 2 ∷ 1 ∷ b'A' ∷ 0 ∷ 3 ∷ [])
    ∷ (3 ∷ 0 ∷ 1 ∷ 1 ∷ b'b' ∷ 1 ∷ b'e' ∷ 1 ∷ b'n' ∷ 0 ∷ 2 ∷ 1 ∷ b'B' ∷ 0 ∷ 3 ∷ 1 ∷ b'w' ∷ 1 ∷ b'o'
        ∷ 1 ∷ b'r' ∷ 1 ∷ b'k' ∷ [])
    ∷ []

two_marshalled : marshal_book toy two_contacts ≡ ok two_records
unfolding marshal_book toy nex_talk.Contacts.marshal_contact
two_marshalled = refl

load-save_example :
    ((save toy toy_envelope two_contacts store_file).0 ≡ ok tt)
    × (b' : Book) × (load toy toy_envelope (save toy toy_envelope two_contacts store_file).1
        ≡ ok b')
    × ((k : Bytes) → lookup k b' ≡ lookup k two_contacts)
load-save_example =
    load-save toy toy-Laws toy_envelope toy-EnvelopeLaws two_contacts store_file two_records
      two-IsBook two_marshalled (omega arith) (omega arith, (omega arith, tt)) refl
