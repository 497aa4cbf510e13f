-- ===== src/Contacts/Reload.antt =====
-- internal/contacts/store.go: Save and Load of a book, and the shape of the map that Load needs.
use nex_talk.Base.{
  ◌<◌, ◌^◌, ◌≡◌, refl, sym, ap, ◌∙◌, subst, true, false, Option, none, some, List, [], ◌∷◌, arith,
  Bytes, beq, beq_iff, if◌then◌else◌, lookup, insert, delete, lookup-insert, lookup-delete,
  Bool-cases, Option-cases, Result-cases, inl, inr, ok, length, All,
}
use nex_talk.External.{External, Laws}
use nex_talk.Binstore.{Envelope, EnvelopeLaws, File, FileError}
use nex_talk.Binstore
use nex_talk.Binstore.RoundTrip
use nex_talk.Contacts.{
  Contact, Book, schema_id, empty_contact, marshal_contact, set_contact_field, unmarshal_contact,
  marshal_book, load_records, lift_file, save, load, add, remove, rename, set_note,
}
use nex_talk.Contacts.Refinement.{Change, adds, removes, renames, sets_note, run}

-- A map of names: each contact stands under its own name, and under no other.
unfoldable pub IsBook : Book → Type 0
IsBook [] = Unit
IsBook ((k, c) ∷ b) = (c.name ≡ k) × (lookup k b ≡ none) × IsBook b

insert-IsBook : (k : Bytes) (c : Contact) (b : Book) → c.name ≡ k → IsBook b → IsBook (insert k c b)
unfolding IsBook insert lookup
insert-IsBook k c [] own h = (own, refl, tt)
insert-IsBook k c ((j, d) ∷ b) own (named, once, h) = elim (Bool-cases (beq j k)) [
  | inl same ↦
      rw (same, insert) (own, subst (λ i. lookup i b ≡ none) ((beq_iff j k).0 same) once, h)
  | inr other ↦
      let apart : beq k j ≡ false = ground (arith, beq_iff j k, beq_iff k j) in
      rw (other, insert) (named, rw (lookup-insert k j c b, apart) once, insert-IsBook k c b own h)
]

delete-IsBook : (k : Bytes) (b : Book) → IsBook b → IsBook (delete k b)
unfolding IsBook delete lookup
delete-IsBook k [] h = tt
delete-IsBook k ((j, d) ∷ b) (named, once, h) = elim (Bool-cases (beq j k)) [
  | inl same ↦ rw (same, delete) (delete-IsBook k b h)
  | inr other ↦
      rw (other, delete) (named, rw (lookup-delete k j b, once) (ground arith), delete-IsBook k b h)
]

lookup-IsBook : (k : Bytes) (b : Book) (c : Contact) → IsBook b → lookup k b ≡ some c → c.name ≡ k
unfolding IsBook lookup
lookup-IsBook k [] c h found = absurd (ground arith)
lookup-IsBook k ((j, d) ∷ b) c (named, once, h) found = elim (Bool-cases (beq j k)) [
  | inl same ↦
      let that : d ≡ c = ground arith in
      subst (λ (e : Contact). e.name ≡ k) that (named ∙ (beq_iff j k).0 same)
  | inr other ↦ lookup-IsBook k b c h (ground arith)
]

-- Every change keeps the book a map of names.
run-IsBook : (t : Change) (b : Book) → IsBook b → IsBook (run t b).1
unfolding run add remove rename set_note
run-IsBook (adds name user_id) b h = elim (Option-cases (lookup name b)) [
  | inl free ↦ rw (run, add, free) (insert-IsBook name _ b refl h)
  | inr (c, taken) ↦ rw (run, add, taken) h
]
run-IsBook (removes name) b h = elim (Option-cases (lookup name b)) [
  | inl free ↦ rw (run, remove, free) h
  | inr (c, taken) ↦ rw (run, remove, taken) (delete-IsBook name b h)
]
run-IsBook (renames old_name new_name) b h = elim (Option-cases (lookup old_name b)) [
  | inl free ↦ rw (run, rename, free) h
  | inr (c, taken) ↦ elim (Option-cases (lookup new_name b)) [
    | inl free ↦
        rw (run, rename, taken, free)
          (insert-IsBook new_name _ (delete old_name b) refl (delete-IsBook old_name b h))
    | inr (d, other) ↦ rw (run, rename, taken, other) h
  ]
]
run-IsBook (sets_note name note) b h = elim (Option-cases (lookup name b)) [
  | inl free ↦ rw (run, set_note, free) h
  | inr (c, taken) ↦
      rw (run, set_note, taken) (insert-IsBook name _ b (lookup-IsBook name b c h taken) h)
]

unmarshal-marshal : (c : Contact) → unmarshal_contact empty_contact (marshal_contact c) ≡ c
unfolding unmarshal_contact marshal_contact set_contact_field
unmarshal-marshal c = refl

abbrev or_else : Option Contact → Option Contact → Option Contact
or_else none d = d
or_else (some c) d = some c

or_else-none : (o : Option Contact) → or_else o none ≡ o
or_else-none none = refl
or_else-none (some c) = refl

-- A contact that is loaded before the others is found under its name and changes no other.
lookup_merged :
    (j k : Bytes) (c : Contact) (b held : Book)
    → c.name ≡ j
    → lookup j b ≡ none
    → or_else (lookup k b) (lookup k (insert c.name c held))
      ≡ or_else (if beq j k then some c else lookup k b) (lookup k held)
lookup_merged j k c b held named once = elim (Bool-cases (beq j k)) [
  | inl same ↦
      let absent : lookup k b ≡ none = subst (λ i. lookup i b ≡ none) ((beq_iff j k).0 same) once in
      let own : beq c.name k ≡ true = subst (λ n. beq n k ≡ true) (sym named) same in
      rw (same, absent, lookup-insert c.name k c held, own) refl
  | inr other ↦
      let apart : beq c.name k ≡ false = subst (λ n. beq n k ≡ false) (sym named) other in
      rw (other, lookup-insert c.name k c held, apart) refl
]

module _ (x : External) (laws : Laws x) where
  marshal_book-cons :
      (k : Bytes) (c : Contact) (b : Book) (recs : List Bytes)
      → marshal_book x ((k, c) ∷ b) ≡ ok recs
      → (rec : Bytes) × (rest : List Bytes) × (x.encode_id (marshal_contact c) ≡ some rec)
        × (marshal_book x b ≡ ok rest)
        × (rec ∷ rest ≡ recs)
  unfolding marshal_book
  marshal_book-cons k c b recs e = elim (Option-cases (x.encode_id (marshal_contact c))) [
    | inl bad ↦ absurd (ground arith)
    | inr (rec, written) ↦ elim (Result-cases (marshal_book x b)) [
      | inl (rest, others) ↦ (rec, rest, written, others, ground arith)
      | inr (bad, failed) ↦ absurd (ground arith)
    ]
  ]

  load_records-marshal_book :
      (b held : Book) (recs : List Bytes)
      → IsBook b
      → marshal_book x b ≡ ok recs
      → (k : Bytes) → lookup k (load_records x held recs) ≡ or_else (lookup k b) (lookup k held)
  unfolding IsBook load_records lookup marshal_book
  load_records-marshal_book [] held recs h e k =
      let same : [] ≡ recs = ground arith in
      subst (λ rs. lookup k (load_records x held rs) ≡ lookup k held) same refl
  load_records-marshal_book ((j, c) ∷ b) held recs (named, once, h) e k =
      let (rec, rest, written, others, same) = marshal_book-cons j c b recs e in
      let read = laws.decode-encode (marshal_contact c) rec written in
      let later = load_records-marshal_book b (insert c.name c held) rest h others k in
      let step : load_records x held (rec ∷ rest) ≡ load_records x (insert c.name c held) rest =
        rw (load_records, read, unmarshal-marshal c) refl in
      subst
        (λ rs. lookup k (load_records x held rs) ≡ or_else (lookup k ((j, c) ∷ b)) (lookup k held))
        same (ap (lookup k) step ∙ later ∙ lookup_merged j k c b held named once)

module _ (x : External) (laws : Laws x) (v : Envelope) (envelope : EnvelopeLaws v) where
  save_open :
      (b : Book) (f : File) (recs : List Bytes)
      → marshal_book x b ≡ ok recs
      → f.writable ≡ true
      → save x v b f ≡ (ok tt, (Binstore.save v schema_id recs f).1)
  unfolding save lift_file Binstore.save
  save_open b f recs e open_file = rw (save, e) (rw (Binstore.save, open_file) refl)

  load_read :
      (g : File) (recs : List Bytes)
      → Binstore.load v schema_id g ≡ ok recs
      → load x v g ≡ ok (load_records x [] recs)
  unfolding load
  load_read g recs e = rw (load, e) refl

  saved_open :
      (recs : List Bytes) (f : File)
      → f.writable ≡ true
      → (Binstore.save v schema_id recs f).0 ≡ ok tt
  unfolding Binstore.save
  saved_open recs f open_file = ground arith

  -- A map of names that was saved is loaded with the same contact, or none, under every name, as long
  -- as its records can be encoded and their number and lengths are uint64s.
  pub load-save :
      (b : Book) (f : File) (recs : List Bytes)
      → IsBook b
      → marshal_book x b ≡ ok recs
      → length recs < 2 ^ 64
      → All (λ (r : Bytes). length r < 2 ^ 64) recs
      → f.writable ≡ true
      → ((save x v b f).0 ≡ ok tt)
        × (b' : Book) × (load x v (save x v b f).1 ≡ ok b')
        × ((k : Bytes) → lookup k b' ≡ lookup k b)
  unfolding lookup
  load-save b f recs h e short shorts open_file =
      let written = save_open b f recs e open_file in
      let read =
        Binstore.RoundTrip.load-save v envelope schema_id recs f short shorts
          (saved_open recs f open_file) in
      rw written (
        refl,
        load_records x [] recs,
        load_read _ recs read,
        λ k. load_records-marshal_book x laws b [] recs h e k ∙ or_else-none (lookup k b),
      )
