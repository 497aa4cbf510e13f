-- ===== src/Shell/Parameters/Positional.antt =====
-- internal/shellcmd/flags.go: what Parse leaves as positional arguments and as values.
use nex_talk.Base.{
  ◌≡◌, refl, subst, false, ◌&&◌, none, List, [], ◌∷◌, arith, Bytes, codes, is_empty, Map, lookup,
  ok, All, All-append, Option-cases, Bool-cases, Result-cases, inl, inr,
}
use nex_talk.Shell.Parameters.{
  Flag, Parsed, by_name, first_values, has_dash, add_positional, set_value, parse_words, value_of,
  missing_names, check_required, parse,
}

-- A word that names no parameter and does not begin with a dash.
abbrev IsArgument : Map Flag → Bytes → Type 0
IsArgument names w = (lookup w names ≡ none) × (has_dash w ≡ false)

parse_words-positional :
    (names : Map Flag) (p q : Parsed) (words : List Bytes)
    → All (IsArgument names) p.positional
    → parse_words names p words ≡ ok q
    → All (IsArgument names) q.positional
unfolding parse_words
parse_words-positional names p q [] h e =
    let same : p ≡ q = ground arith in
    subst (λ (r : Parsed). All (IsArgument names) r.positional) same h
parse_words-positional names p q (w ∷ []) h e = elim (Option-cases (lookup w names)) [
  | inl free ↦ elim (Bool-cases (has_dash w)) [
    | inl dashed ↦ absurd (ground arith)
    | inr plain ↦
        let same : add_positional p w ≡ q = ground arith in
        subst (λ (r : Parsed). All (IsArgument names) r.positional) same
          (All-append (IsArgument names) p.positional (w ∷ []) h ((free, plain), tt))
  ]
  | inr (f, named) ↦ elim (Bool-cases f.is_bool) [
    | inl switch ↦
        let same : set_value p f.name (codes "true") ≡ q = ground arith in
        subst (λ (r : Parsed). All (IsArgument names) r.positional) same h
    | inr valued ↦ absurd (ground arith)
  ]
]
parse_words-positional names p q (w ∷ v ∷ words) h e = elim (Option-cases (lookup w names)) [
  | inl free ↦ elim (Bool-cases (has_dash w)) [
    | inl dashed ↦ absurd (ground arith)
    | inr plain ↦
        parse_words-positional names (add_positional p w) q (v ∷ words)
          (All-append (IsArgument names) p.positional (w ∷ []) h ((free, plain), tt))
          (rw (parse_words, free, plain) at e)
  ]
  | inr (f, named) ↦ elim (Bool-cases f.is_bool) [
    | inl switch ↦
        parse_words-positional names (set_value p f.name (codes "true")) q (v ∷ words) h
          (rw (parse_words, named, switch) at e)
    | inr valued ↦
        parse_words-positional names (set_value p f.name v) q words h
          (rw (parse_words, named, valued) at e)
  ]
]

-- No required parameter is without a value.
unfoldable HasRequired : Map Bytes → List Flag → Type 0
HasRequired m spec = All (λ (f : Flag). (f.required && is_empty (value_of m f.name)) ≡ false) spec

missing_names-none :
    (m : Map Bytes) (spec : List Flag) → missing_names m spec ≡ [] → HasRequired m spec
unfolding missing_names HasRequired
missing_names-none m [] h = tt
missing_names-none m (f ∷ spec) h = (ground arith, missing_names-none m spec (ground arith))

check_required-ok :
    (names : List Bytes) (p q : Parsed) → check_required names p ≡ ok q → (names ≡ []) × (p ≡ q)
unfolding check_required
check_required-ok [] p q h = (refl, ground arith)
check_required-ok (name ∷ names) p q h = absurd (ground arith)

-- Where Parse succeeds, no positional argument names a parameter or begins with a dash, and no required
-- parameter is without a value.
parse-ok :
    (argv : List Bytes) (spec : List Flag) (q : Parsed)
    → parse argv spec ≡ ok q
    → All (IsArgument (by_name [] spec)) q.positional × HasRequired q.values spec
unfolding parse
parse-ok argv spec q e =
    let first : Parsed = record { positional = []; values = first_values [] spec } in
    elim (Result-cases (parse_words (by_name [] spec) first argv)) [
      | inr (bad, failed) ↦ absurd (ground arith)
      | inl (p, read) ↦
          let (present, same) =
            check_required-ok (missing_names p.values spec) p q (ground arith) in
          subst
            (λ (r : Parsed).
              All (IsArgument (by_name [] spec)) r.positional × HasRequired r.values spec)
            same
            (
              parse_words-positional (by_name [] spec) first p argv tt read,
              missing_names-none p.values spec present,
            )
    ]
