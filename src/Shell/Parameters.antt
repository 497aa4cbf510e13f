-- ===== src/Shell/Parameters.antt =====
-- internal/shellcmd/flags.go: Parse. The closure `set` runs only on a parameter with a value, so its
-- branch for a switch is never taken and is left out.
pub mod Positional
use nex_talk.Base.{
  ℕ, ◌≡◌, Bool, true, false, not, ◌&&◌, Option, none, some, List, [], ◌∷◌, ◌++◌, arith, Bytes,
  codes, is_empty, ◌==◌, if◌then◌else◌, Map, lookup, insert, Result, ok, err, ◌>>=◌, ◌>>◌, require,
}

-- Flag, without its help text.
pub record Flag : Type 0 where
  pub name : Bytes
  pub default : Bytes
  pub required : Bool
  pub is_bool : Bool

pub data ParseError : Type 0 where
  needs_value : Bytes → ParseError
  unknown_parameter : Bytes → ParseError
  missing_required : List Bytes → ParseError

pub record Parsed : Type 0 where
  pub positional : List Bytes
  pub values : Map Bytes

-- `byName`
unfoldable pub by_name : Map Flag → List Flag → Map Flag
by_name m [] = m
by_name m (f ∷ spec) = by_name (insert f.name f m) spec

-- The values before the first word.
unfoldable pub first_values : Map Bytes → List Flag → Map Bytes
first_values m [] = m
first_values m (f ∷ spec) =
    let given =
      if not f.is_bool && not (is_empty f.default) then insert f.name f.default m else m in
    first_values (if f.is_bool then insert f.name (codes "false") given else given) spec

-- `strings.HasPrefix(w, "-")`
unfoldable pub has_dash : Bytes → Bool
has_dash [] = false
has_dash (c ∷ w) = c == 45

abbrev pub add_positional : Parsed → Bytes → Parsed
add_positional p w = record p { positional = p.positional ++ w ∷ [] }

abbrev pub set_value : Parsed → Bytes → Bytes → Parsed
set_value p name value = record p { values = insert name value p.values }

-- The loop over the words.
unfoldable pub parse_words : Map Flag → Parsed → List Bytes → Result ParseError Parsed
parse_words names p [] = ok p
parse_words names p (w ∷ []) = elim (lookup w names) [
  | none ↦ if has_dash w then err (unknown_parameter w) else ok (add_positional p w)
  | some f ↦ if f.is_bool then ok (set_value p f.name (codes "true")) else err (needs_value f.name)
]
parse_words names p (w ∷ v ∷ words) = elim (lookup w names) [
  | none ↦ elim (has_dash w) [
    | true ↦ err (unknown_parameter w)
    | false ↦ parse_words names (add_positional p w) (v ∷ words)
  ]
  | some f ↦ elim f.is_bool [
    | true ↦ parse_words names (set_value p f.name (codes "true")) (v ∷ words)
    | false ↦ parse_words names (set_value p f.name v) words
  ]
]

-- `values[name]` of a string map
unfoldable pub value_of : Map Bytes → Bytes → Bytes
value_of m name = elim (lookup name m) [ none ↦ [] | some v ↦ v ]

-- The required parameters that have no value.
unfoldable pub missing_names : Map Bytes → List Flag → List Bytes
missing_names m [] = []
missing_names m (f ∷ spec) =
    let rest = missing_names m spec in
    if f.required && is_empty (value_of m f.name) then f.name ∷ rest else rest

unfoldable pub check_required : List Bytes → Parsed → Result ParseError Parsed
check_required [] p = ok p
check_required (name ∷ names) p = err (missing_required (name ∷ names))

-- Parse
unfoldable pub parse : List Bytes → List Flag → Result ParseError Parsed
parse argv spec = do
  p ← parse_words (by_name [] spec) (record { positional = []; values = first_values [] spec }) argv
  check_required (missing_names p.values spec) p
