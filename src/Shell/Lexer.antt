-- ===== src/Shell/Lexer.antt =====
-- internal/shellcmd/lexer.go: SplitLine. A line is its characters.
pub mod Quoting
use nex_talk.Base.{
  ℕ, ◌≡◌, Bool, true, false, ◌||◌, Option, none, some, List, [], ◌∷◌, ◌++◌, arith, Bytes, ◌==◌,
  if◌then◌else◌, Result, ok, err,
}

-- The variables of the loop.
pub record Lexer : Type 0 where
  pub out : List Bytes
  pub word : Bytes
  pub quote : Option ℕ
  pub have : Bool

pub data LexError : Type 0 where
  unterminated_quote : ℕ → LexError

abbrev pub start : Lexer
start = record { out = []; word = []; quote = none; have = false }

abbrev pub double_quote : ℕ
double_quote = 34

abbrev pub single_quote : ℕ
single_quote = 39

-- flush
unfoldable pub flush : Lexer → Lexer
flush l = if l.have then record l { out = l.out ++ l.word ∷ []; word = []; have = false } else l

unfoldable pub is_blank : ℕ → Bool
is_blank c = c == 32 || c == 9 || c == 13 || c == 10

-- One round of the loop: within a quote, and outside.
unfoldable pub step_quoted : Lexer → ℕ → ℕ → Lexer
step_quoted l q c =
    if c == q
    then record l { quote = none; have = true }
    else record l { word = l.word ++ c ∷ []; have = true }

unfoldable pub step_plain : Lexer → ℕ → Lexer
step_plain l c =
    if c == single_quote || c == double_quote
    then record l { quote = some c; have = true }
    else if is_blank c
    then flush l
    else record l { word = l.word ++ c ∷ []; have = true }

unfoldable pub step : Lexer → ℕ → Lexer
step l c = elim l.quote [ none ↦ step_plain l c | some q ↦ step_quoted l q c ]

unfoldable pub scan : Lexer → Bytes → Lexer
scan l [] = l
scan l (c ∷ line) = scan (step l c) line

-- The return of SplitLine.
unfoldable pub finish : Lexer → Result LexError (List Bytes)
finish l = elim l.quote [ some q ↦ err (unterminated_quote q) | none ↦ ok (flush l).out ]

-- SplitLine
unfoldable pub split_line : Bytes → Result LexError (List Bytes)
split_line line = finish (scan start line)
