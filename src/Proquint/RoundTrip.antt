-- ===== src/Proquint/RoundTrip.antt =====
-- crypto/encoding_proquint.go: ToProquint against FromProquint.
use nex_talk.Base.{
  ℕ, zero, suc, ◌+◌, ◌*◌, ◌/◌, ◌%◌, ◌<◌, ◌≡◌, refl, ap, ◌∙◌, Bool, true, false, not, ◌&&◌, some,
  List, [], ◌∷◌, ◌++◌, arith, Bytes, ◌==◌, length, All, ok,
}
use nex_talk.Std.Base64.{IsByte}
use nex_talk.Proquint.{
  consonants, vowels, letter, number, word_of, words_of, join_words, to_proquint, extend_first,
  split_words, value_of, read_words, from_proquint,
}

-- No letter stands twice.
absent : ℕ → Bytes → Bool
absent c [] = true
absent c (d ∷ cs) = not (d == c) && absent c cs

distinct : Bytes → Bool
unfolding absent
distinct [] = true
distinct (c ∷ cs) = absent c cs && distinct cs

letter-absent :
    (c : ℕ) (cs : Bytes) (i : ℕ) → absent c cs ≡ true → i < length cs → (c == letter cs i) ≡ false
unfolding absent letter
letter-absent c [] i h k = absurd (omega arith)
letter-absent c (d ∷ cs) zero h k = ground arith
letter-absent c (d ∷ cs) (suc i) h k = letter-absent c cs i (ground arith) (omega arith)

number-letter :
    (cs : Bytes) (i : ℕ) → distinct cs ≡ true → i < length cs → number cs (letter cs i) ≡ some i
unfolding number letter distinct
number-letter [] i h k = absurd (omega arith)
number-letter (c ∷ cs) zero h k = ground arith
number-letter (c ∷ cs) (suc i) h k =
    let here = letter-absent c cs i (ground arith) (omega arith) in
    let there = number-letter cs i (ground arith) (omega arith) in rw (here, there) refl

value_of-word_of : (val : ℕ) → val < 65536 → value_of (word_of val) ≡ ok val
unfolding value_of word_of distinct
value_of-word_of val h =
    rw
      (
        number-letter consonants (val / 4096 % 16) refl (omega arith),
        number-letter vowels (val / 1024 % 4) refl (omega arith),
        number-letter consonants (val / 64 % 16) refl (omega arith),
        number-letter vowels (val / 16 % 4) refl (omega arith),
        number-letter consonants (val % 16) refl (omega arith),
      )
      (ap ok (omega arith))

IsPlain : ℕ → Type 0
IsPlain c = (c == b'-') ≡ false

letter-IsPlain : (cs : Bytes) (i : ℕ) → All IsPlain cs → IsPlain (letter cs i)
unfolding letter IsPlain
letter-IsPlain [] i h = refl
letter-IsPlain (c ∷ cs) zero (h, hs) = h
letter-IsPlain (c ∷ cs) (suc i) (h, hs) = letter-IsPlain cs i hs

consonants-IsPlain : All IsPlain consonants
unfolding IsPlain
consonants-IsPlain = (
  refl,
  (
    refl,
    (
      refl,
      (
        refl,
        (
          refl,
          (
            refl,
            (refl, (refl, (refl, (refl, (refl, (refl, (refl, (refl, (refl, (refl, tt)))))))))),
          ),
        ),
      ),
    ),
  ),
)

vowels-IsPlain : All IsPlain vowels
unfolding IsPlain
vowels-IsPlain = (refl, (refl, (refl, (refl, tt))))

word_of-IsPlain : (val : ℕ) → All IsPlain (word_of val)
unfolding word_of
word_of-IsPlain val = (
  letter-IsPlain consonants (val / 4096 % 16) consonants-IsPlain,
  (
    letter-IsPlain vowels (val / 1024 % 4) vowels-IsPlain,
    (
      letter-IsPlain consonants (val / 64 % 16) consonants-IsPlain,
      (
        letter-IsPlain vowels (val / 16 % 4) vowels-IsPlain,
        (letter-IsPlain consonants (val % 16) consonants-IsPlain, tt),
      ),
    ),
  ),
)

split_word : (w : Bytes) → All IsPlain w → split_words w ≡ w ∷ []
unfolding split_words extend_first IsPlain
split_word [] h = refl
split_word (c ∷ w) (h, hs) = rw (h, split_word w hs) refl

split_words-append : (w s : Bytes) → All IsPlain w → split_words (w ++ b'-' ∷ s) ≡ w ∷ split_words s
unfolding split_words extend_first IsPlain
split_words-append [] s h = refl
split_words-append (c ∷ w) s (h, hs) = rw (h, split_words-append w s hs) refl

split_words-join_words :
    (w : Bytes) (ws : List Bytes)
    → All IsPlain w
    → All (All IsPlain) ws
    → split_words (join_words (w ∷ ws)) ≡ w ∷ ws
unfolding join_words
split_words-join_words w [] h hs = split_word w h
split_words-join_words w (v ∷ ws) h (hv, hs) =
    split_words-append w (join_words (v ∷ ws)) h
    ∙ ap (λ vs. w ∷ vs) (split_words-join_words v ws hv hs)

-- What is read back: an odd row of bytes gets a zero byte.
unfoldable pub padded : Bytes → Bytes
padded [] = []
padded (a ∷ []) = a ∷ 0 ∷ []
padded (a ∷ b ∷ bytes) = a ∷ b ∷ padded bytes

words_of-IsPlain : (bytes : Bytes) → All (All IsPlain) (words_of bytes)
unfolding words_of
words_of-IsPlain [] = tt
words_of-IsPlain (a ∷ []) = (word_of-IsPlain (a * 256), tt)
words_of-IsPlain (a ∷ b ∷ bytes) = (word_of-IsPlain (a * 256 + b), words_of-IsPlain bytes)

read_words-words_of :
    (bytes : Bytes) → All IsByte bytes → read_words (words_of bytes) ≡ ok (padded bytes)
unfolding read_words words_of padded
read_words-words_of [] h = refl
read_words-words_of (a ∷ []) (h, hs) =
    rw (read_words, value_of-word_of (a * 256) (omega (arith, h))) (ground (arith, h))
read_words-words_of (a ∷ b ∷ bytes) (h, (k, hs)) =
    let rest = read_words-words_of bytes hs in
    rw (read_words, value_of-word_of (a * 256 + b) (omega (arith, h, k)), rest)
      (ground (arith, h, k))

split_words_of :
    (bytes : Bytes)
    → (0 < length bytes)
    → split_words (join_words (words_of bytes)) ≡ words_of bytes
unfolding words_of join_words word_of
split_words_of [] h = absurd (omega arith)
split_words_of (a ∷ []) h = split_word (word_of (a * 256)) (word_of-IsPlain (a * 256))
split_words_of (a ∷ b ∷ bytes) h =
    split_words-join_words (word_of (a * 256 + b)) (words_of bytes) (word_of-IsPlain (a * 256 + b))
      (words_of-IsPlain bytes)

-- The proquint of a row of bytes that is not empty is read back to it, with a zero byte behind a
-- row of odd length.
pub from_proquint-to_proquint :
    (bytes : Bytes)
    → 0 < length bytes
    → All IsByte bytes
    → from_proquint (to_proquint bytes) ≡ ok (padded bytes)
unfolding from_proquint to_proquint
from_proquint-to_proquint bytes some_bytes h =
    ap read_words (split_words_of bytes some_bytes) ∙ read_words-words_of bytes h
