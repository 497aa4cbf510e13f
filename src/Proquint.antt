-- ===== src/Proquint.antt =====
-- crypto/encoding_proquint.go: bytes as words of five letters. A text is its bytes: on a word of five
-- bytes that are fewer characters the code panics where this refuses the word.
pub mod RoundTrip
use nex_talk.Base.{
  ℕ, zero, suc, ◌+◌, ◌*◌, ◌/◌, ◌%◌, ◌≡◌, Bool, true, false, Option, none, some, List, [], ◌∷◌, ◌++◌,
  arith, Bytes, codes, ◌==◌, if◌then◌else◌, length, Result, ok, err, ◌>>=◌, ◌>>◌, require, or_fail,
}

abbrev pub consonants : Bytes
consonants = codes "bdfghjklmnprstvz"

abbrev pub vowels : Bytes
vowels = codes "aiou"

pub data ProquintError : Type 0 where
  invalid_word_length invalid_character : ProquintError

-- `letters[i]`
unfoldable pub letter : Bytes → ℕ → ℕ
letter [] i = 0
letter (c ∷ cs) zero = c
letter (c ∷ cs) (suc i) = letter cs i

-- The maps from letters to numbers.
unfoldable pub number : Bytes → ℕ → Option ℕ
number [] c = none
number (d ∷ cs) c =
    let rest = number cs c in
    if d == c then some 0 else elim rest [ none ↦ none | some i ↦ some (suc i) ]

-- The word of a 16-bit value: bits 12 to 15, 10 and 11, 6 to 9, 4 and 5, 0 to 3.
unfoldable pub word_of : ℕ → Bytes
word_of val =
    letter consonants (val / 4096 % 16)
    ∷ letter vowels (val / 1024 % 4)
    ∷ letter consonants (val / 64 % 16)
    ∷ letter vowels (val / 16 % 4)
    ∷ letter consonants (val % 16)
    ∷ []

-- The loop of ToProquint; the second byte of the last pair may be missing.
unfoldable pub words_of : Bytes → List Bytes
words_of [] = []
words_of (a ∷ []) = word_of (a * 256) ∷ []
words_of (a ∷ b ∷ bytes) = word_of (a * 256 + b) ∷ words_of bytes

-- strings.Join by a hyphen
unfoldable pub join_words : List Bytes → Bytes
join_words [] = []
join_words (w ∷ []) = w
join_words (w ∷ v ∷ ws) = w ++ b'-' ∷ join_words (v ∷ ws)

-- ToProquint
unfoldable pub to_proquint : Bytes → Bytes
to_proquint bytes = join_words (words_of bytes)

-- A byte in front of the first word.
unfoldable pub extend_first : ℕ → List Bytes → List Bytes
extend_first c [] = (c ∷ []) ∷ []
extend_first c (w ∷ ws) = (c ∷ w) ∷ ws

-- strings.Split at hyphens
unfoldable pub split_words : Bytes → List Bytes
split_words [] = [] ∷ []
split_words (c ∷ s) =
    let rest = split_words s in if c == b'-' then [] ∷ rest else extend_first c rest

-- The numbers of a word, and their value.
unfoldable pub value_of : Bytes → Result ProquintError ℕ
value_of (a ∷ b ∷ c ∷ d ∷ e ∷ []) = do
  c1 ← or_fail (number consonants a) invalid_character
  v1 ← or_fail (number vowels b) invalid_character
  c2 ← or_fail (number consonants c) invalid_character
  v2 ← or_fail (number vowels d) invalid_character
  c3 ← or_fail (number consonants e) invalid_character
  ok (c1 * 4096 + v1 * 1024 + c2 * 64 + v2 * 16 + c3)
value_of w = err invalid_word_length

-- The loop of FromProquint.
unfoldable pub read_words : List Bytes → Result ProquintError Bytes
read_words [] = ok []
read_words (w ∷ ws) = do val ← value_of w; rest ← read_words ws; ok (val / 256 ∷ val % 256 ∷ rest)

-- FromProquint
unfoldable pub from_proquint : Bytes → Result ProquintError Bytes
from_proquint input = read_words (split_words input)
