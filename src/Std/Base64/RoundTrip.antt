-- ===== src/Std/Base64/RoundTrip.antt =====
-- The reader of base64 text against its writer.
use nex_talk.Base.{
  ℕ, ◌+◌, ◌*◌, ◌/◌, ◌%◌, ◌<◌, ◌≡◌, ◌≢◌, ◌∙◌, ap, refl, some, [], ◌∷◌, ◌++◌, arith, Bytes, All,
}
use nex_talk.Std.Base64.{
  digit, base64, skip_newlines, last_one, last_two, quantum, prepend, groups, unbase64, IsByte,
  IsAscii, undigit-digit, digit_plain,
}

skip-digit : (v : ℕ) (s : Bytes) → v < 64 → skip_newlines (digit v ∷ s) ≡ digit v ∷ skip_newlines s
unfolding skip_newlines
skip-digit v s h = ground (arith, digit_plain v h)

skip-pad : (s : Bytes) → skip_newlines (b'=' ∷ s) ≡ b'=' ∷ skip_newlines s
unfolding skip_newlines
skip-pad s = refl

skip-base64 : (s : Bytes) → All IsByte s → skip_newlines (base64 s) ≡ base64 s
unfolding base64
skip-base64 [] h = unfold skip_newlines in refl
skip-base64 (a ∷ []) h =
    rw (skip-digit (a / 4) _ (omega arith), skip-digit (a % 4 * 16) _ (omega arith))
      (unfold skip_newlines in refl)
skip-base64 (a ∷ b ∷ []) h =
    rw
      (
        skip-digit (a / 4) _ (omega arith),
        skip-digit (a % 4 * 16 + b / 16) _ (omega arith),
        skip-digit (b % 16 * 4) _ (omega arith),
      )
      (unfold skip_newlines in refl)
skip-base64 (a ∷ b ∷ c ∷ s) h = rw (
  skip-digit (a / 4) _ (omega arith),
  skip-digit (a % 4 * 16 + b / 16) _ (omega arith),
  skip-digit (b % 16 * 4 + c / 64) _ (omega arith),
  skip-digit (c % 64) _ (omega arith),
  skip-base64 s h.1.1.1,
)

last_one-digit : (a : ℕ) → IsByte a → last_one (digit (a / 4)) (digit (a % 4 * 16)) ≡ some (a ∷ [])
unfolding last_one
last_one-digit a h =
    rw (undigit-digit (a / 4) (omega arith), undigit-digit (a % 4 * 16) (omega arith))
      (ground arith)

last_two-digit :
    (a b : ℕ)
    → IsByte a
    → IsByte b
    → last_two (digit (a / 4)) (digit (a % 4 * 16 + b / 16)) (digit (b % 16 * 4))
      ≡ some (a ∷ b ∷ [])
unfolding last_two
last_two-digit a b h k =
    rw
      (
        undigit-digit (a / 4) (omega arith),
        undigit-digit (a % 4 * 16 + b / 16) (omega arith),
        undigit-digit (b % 16 * 4) (omega arith),
      )
      (ground arith)

quantum-digit :
    (a b c : ℕ)
    → IsByte a
    → IsByte b
    → IsByte c
    → quantum
        (digit (a / 4))
        (digit (a % 4 * 16 + b / 16))
        (digit (b % 16 * 4 + c / 64))
        (digit (c % 64))
      ≡ some (a ∷ b ∷ c ∷ [])
unfolding quantum
quantum-digit a b c h k l =
    rw
      (
        undigit-digit (a / 4) (omega arith),
        undigit-digit (a % 4 * 16 + b / 16) (omega arith),
        undigit-digit (b % 16 * 4 + c / 64) (omega arith),
        undigit-digit (c % 64) (omega arith),
      )
      (ground arith)

groups_padded : (a b c : ℕ) → c ≢ b'=' → groups (a ∷ b ∷ c ∷ b'=' ∷ []) ≡ last_two a b c
unfolding groups
groups_padded a b c h = ground arith

groups_whole :
    (a b c d : ℕ) (s q t : Bytes)
    → d ≢ b'='
    → quantum a b c d ≡ some q
    → groups s ≡ some t
    → groups (a ∷ b ∷ c ∷ d ∷ s) ≡ some (q ++ t)
unfolding groups prepend
groups_whole a b c d s q t h e f = ground arith

groups-base64 : (s : Bytes) → All IsByte s → groups (base64 s) ≡ some s
unfolding base64
groups-base64 [] h = unfold groups in refl
groups-base64 (a ∷ []) h = unfold groups in last_one-digit a h.0
groups-base64 (a ∷ b ∷ []) h =
    groups_padded _ _ (digit (b % 16 * 4)) (digit_plain (b % 16 * 4) (omega arith)).0
    ∙ last_two-digit a b h.0 h.1.0
groups-base64 (a ∷ b ∷ c ∷ s) h =
    groups_whole _ _ _ (digit (c % 64)) (base64 s) (a ∷ b ∷ c ∷ []) s
      (digit_plain (c % 64) (omega arith)).0 (quantum-digit a b c h.0 h.1.0 h.1.1.0)
      (groups-base64 s h.1.1.1)

-- Decoding the base64 text of any bytes gives the bytes back.
pub unbase64-base64 : (s : Bytes) → All IsByte s → unbase64 (base64 s) ≡ some s
unfolding unbase64
unbase64-base64 s h = ap groups (skip-base64 s h) ∙ groups-base64 s h

digit_lt : (v : ℕ) → IsAscii (digit v)
unfolding digit
digit_lt v = ground arith

-- The text of base64 is ASCII.
pub base64-IsAscii : (s : Bytes) → All IsAscii (base64 s)
unfolding base64
base64-IsAscii [] = tt
base64-IsAscii (a ∷ []) =
    (digit_lt (a / 4), (digit_lt (a % 4 * 16), (omega arith, (omega arith, tt))))
base64-IsAscii (a ∷ b ∷ []) =
    (digit_lt (a / 4), (digit_lt (a % 4 * 16 + b / 16), (digit_lt (b % 16 * 4), (omega arith, tt))))
base64-IsAscii (a ∷ b ∷ c ∷ s) = (
  digit_lt (a / 4),
  (
    digit_lt (a % 4 * 16 + b / 16),
    (digit_lt (b % 16 * 4 + c / 64), (digit_lt (c % 64), base64-IsAscii s)),
  ),
)
