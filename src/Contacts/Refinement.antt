-- ===== src/Contacts/Refinement.antt =====
-- internal/contacts/store.go: the book as a function from names to contacts, and each change of the
-- book as a change of that function.
use nex_talk.Base.{
  ◌≡◌, refl, Option, none, some, List, [], ◌∷◌, Bytes, beq, if◌then◌else◌, lookup, insert, delete,
  lookup-insert, lookup-delete, Option-cases, inl, inr, Result, ok, err,
}
use nex_talk.Contacts.{
  Contact, Book, ContactError, already_exists, not_found, add, remove, rename, set_note,
}

-- A change of the book, and its run.
pub data Change : Type 0 where
  adds : Bytes → Bytes → Change
  removes : Bytes → Change
  renames : Bytes → Bytes → Change
  sets_note : Bytes → Bytes → Change

unfoldable pub run : Change → Book → Result ContactError (Unit {0}) × Book
run (adds name user_id) b = add b name user_id
run (removes name) b = remove b name
run (renames old_name new_name) b = rename b old_name new_name
run (sets_note name note) b = set_note b name note

-- What a book promises: at most one contact for a name.
abbrev pub Directory : Type 0
Directory = Bytes → Option Contact

abbrev pub put : Directory → Bytes → Option Contact → Directory
put f name c k = if beq name k then c else f k

unfoldable pub spec : Change → Directory → Result ContactError (Unit {0}) × Directory
spec (adds name user_id) f = elim (f name) [
  | some c ↦ (err already_exists, f)
  | none ↦ (ok tt, put f name (some (record { name = name; user_id = user_id; note = [] })))
]
spec (removes name) f = elim (f name) [
  | none ↦ (err not_found, f)
  | some c ↦ (ok tt, put f name none)
]
spec (renames old_name new_name) f = elim (f old_name) [
  | none ↦ (err not_found, f)
  | some c ↦ elim (f new_name) [
    | some taken ↦ (err already_exists, f)
    | none ↦ (ok tt, put (put f old_name none) new_name (some (record c { name = new_name })))
  ]
]
spec (sets_note name note) f = elim (f name) [
  | none ↦ (err not_found, f)
  | some c ↦ (ok tt, put f name (some (record c { note = note })))
]

-- The book holds what the directory promises.
abbrev pub Holds : Book → Directory → Type 0
Holds b f = (k : Bytes) → lookup k b ≡ f k

insert-Holds :
    (b : Book) (f : Directory) (name : Bytes) (c : Contact)
    → Holds b f
    → Holds (insert name c b) (put f name (some c))
insert-Holds b f name c h k = rw (lookup-insert name k c b, h k) refl

delete-Holds :
    (b : Book) (f : Directory) (name : Bytes) → Holds b f → Holds (delete name b) (put f name none)
delete-Holds b f name h k = rw (lookup-delete name k b, h k) refl

-- The results agree, and the book holds the directory.
abbrev Agree :
    Result ContactError (Unit {0}) × Book → Result ContactError (Unit {0}) × Directory → Type 0
Agree o p = (o.0 ≡ p.0) × Holds o.1 p.1

run-Agree : (t : Change) (b : Book) (f : Directory) → Holds b f → Agree (run t b) (spec t f)
unfolding run spec add remove rename set_note
run-Agree (adds name user_id) b f h = elim (Option-cases (f name)) [
  | inl free ↦ rw (run, add, spec, h name, free) (refl, insert-Holds b f name _ h)
  | inr (c, taken) ↦ rw (run, add, spec, h name, taken) (refl, h)
]
run-Agree (removes name) b f h = elim (Option-cases (f name)) [
  | inl free ↦ rw (run, remove, spec, h name, free) (refl, h)
  | inr (c, taken) ↦ rw (run, remove, spec, h name, taken) (refl, delete-Holds b f name h)
]
run-Agree (renames old_name new_name) b f h = elim (Option-cases (f old_name)) [
  | inl free ↦ rw (run, rename, spec, h old_name, free) (refl, h)
  | inr (c, taken) ↦ elim (Option-cases (f new_name)) [
    | inl free ↦
        rw (run, rename, spec, h old_name, taken, h new_name, free)
          (
            refl,
            insert-Holds (delete old_name b) (put f old_name none) new_name _
                (delete-Holds b f old_name h),
          )
    | inr (d, other) ↦ rw (run, rename, spec, h old_name, taken, h new_name, other) (refl, h)
  ]
]
run-Agree (sets_note name note) b f h = elim (Option-cases (f name)) [
  | inl free ↦ rw (run, set_note, spec, h name, free) (refl, h)
  | inr (c, taken) ↦ rw (run, set_note, spec, h name, taken) (refl, insert-Holds b f name _ h)
]

-- The results of a run of changes, and what it leaves.
unfoldable pub run_all : List Change → Book → List (Result ContactError (Unit {0})) × Book
run_all [] b = ([], b)
run_all (t ∷ ts) b =
    let (result, b') = run t b in let (results, b'') = run_all ts b' in (result ∷ results, b'')

unfoldable pub spec_all :
    List Change → Directory → List (Result ContactError (Unit {0})) × Directory
spec_all [] f = ([], f)
spec_all (t ∷ ts) f =
    let (result, f') = spec t f in let (results, f'') = spec_all ts f' in (result ∷ results, f'')

-- Whatever is added, removed, renamed and noted, the book answers as a directory of names does: the
-- results are the same, errors included, and so is what is found under every name afterwards.
pub run_all-Holds :
    (ts : List Change) (b : Book) (f : Directory)
    → Holds b f
    → ((run_all ts b).0 ≡ (spec_all ts f).0) × Holds (run_all ts b).1 (spec_all ts f).1
unfolding run_all spec_all
run_all-Holds [] b f h = (refl, h)
run_all-Holds (t ∷ ts) b f h =
    let (same, h') = run-Agree t b f h in
    let (rest, h'') = run_all-Holds ts (run t b).1 (spec t f).1 h' in (rw (same, rest) refl, h'')
