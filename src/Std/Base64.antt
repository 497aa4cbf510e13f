-- ===== src/Std/Base64.antt =====
-- encoding/base64's StdEncoding.
pub mod RoundTrip
use nex_talk.Base.{
  ℕ, zero, suc, ◌+◌, ◌-◌, ◌*◌, ◌/◌, ◌%◌, ◌≤◌, ◌<◌, ◌≡◌, ◌≢◌, refl, Bool, true, false, ◌&&◌, ◌||◌,
  Option, none, some, List, [], ◌∷◌, ◌++◌, arith, Bytes, leb, ltb, ◌==◌, if◌then◌else◌, codes, All,
}
use mathlib.Core.Option

-- A character of the alphabet.
digit : ℕ → ℕ
digit v =
    if ltb v 26
    then b'A' + v
    else if ltb v 52
    then b'a' + (v - 26)
    else if ltb v 62
    then b'0' + (v - 52)
    else if v == 62
    then b'+'
    else b'/'

unfoldable pub base64 : Bytes → Bytes
unfolding digit
base64 [] = []
base64 (a ∷ []) = digit (a / 4) ∷ digit (a % 4 * 16) ∷ b'=' ∷ b'=' ∷ []
base64 (a ∷ b ∷ []) = digit (a / 4) ∷ digit (a % 4 * 16 + b / 16) ∷ digit (b % 16 * 4) ∷ b'=' ∷ []
base64 (a ∷ b ∷ c ∷ s) =
    digit (a / 4)
    ∷ digit (a % 4 * 16 + b / 16)
    ∷ digit (b % 16 * 4 + c / 64)
    ∷ digit (c % 64)
    ∷ base64 s

-- The value of a character, if it is one of the alphabet.
undigit : ℕ → Option ℕ
undigit c =
    if leb b'A' c && leb c b'Z'
    then some (c - b'A')
    else if leb b'a' c && leb c b'z'
    then some (c - b'a' + 26)
    else if leb b'0' c && leb c b'9'
    then some (c - b'0' + 52)
    else if c == b'+'
    then some 62
    else if c == b'/'
    then some 63
    else none

-- `\r` and `\n` are skipped wherever they stand.
skip_newlines : Bytes → Bytes
skip_newlines [] = []
skip_newlines (c ∷ s) = let rest = skip_newlines s in if c == 10 || c == 13 then rest else c ∷ rest

infixl 5 ◌then◌
abbrev ◌then◌ : {A B : Type 0} → Option A → (A → Option B) → Option B
none then f = none
some a then f = f a

-- The last one or two bytes, before padding.
last_one : ℕ → ℕ → Option Bytes
last_one a b = undigit a then λ x. undigit b then λ y. some ((x * 4 + y / 16) % 256 ∷ [])

last_two : ℕ → ℕ → ℕ → Option Bytes
last_two a b c = undigit a then λ x. undigit b then λ y.
    undigit c then λ z. some ((x * 4 + y / 16) % 256 ∷ (y % 16 * 16 + z / 4) % 256 ∷ [])

quantum : ℕ → ℕ → ℕ → ℕ → Option Bytes
quantum a b c d = undigit a then λ x. undigit b then λ y. undigit c then λ z. undigit d then λ w.
    some ((x * 4 + y / 16) % 256 ∷ (y % 16 * 16 + z / 4) % 256 ∷ (z % 4 * 64 + w) % 256 ∷ [])

prepend : Bytes → Option Bytes → Option Bytes
prepend s none = none
prepend s (some t) = some (s ++ t)

groups : Bytes → Option Bytes
groups [] = some []
groups (a ∷ []) = none
groups (a ∷ b ∷ []) = none
groups (a ∷ b ∷ c ∷ []) = none
groups (a ∷ b ∷ c ∷ d ∷ s) =
    let rest = groups s in
    if d == b'='
    then (elim s [ [] ↦ if c == b'=' then last_one a b else last_two a b c | x ∷ xs ↦ none ])
    else (quantum a b c d then λ q. prepend q rest)

-- `DecodeString`; `none` is its error.
unfoldable pub unbase64 : Bytes → Option Bytes
unfolding groups skip_newlines prepend last_one last_two quantum undigit
unbase64 s = groups (skip_newlines s)

abbrev pub IsByte : ℕ → Type 0
IsByte b = b < 256

abbrev pub IsAscii : ℕ → Type 0
IsAscii b = b < 128

undigit-digit : (v : ℕ) → v < 64 → undigit (digit v) ≡ some v
unfolding undigit digit
undigit-digit v h = ground arith

digit_plain : (v : ℕ) → v < 64 → (digit v ≢ b'=') × (digit v ≢ 10) × (digit v ≢ 13)
unfolding digit
digit_plain v h = ground arith
