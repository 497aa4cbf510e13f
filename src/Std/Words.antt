-- ===== src/Std/Words.antt =====
-- encoding/binary's big-endian words, and the comparison of int64 values.
use nex_talk.Base.{
  ℕ, ◌+◌, ◌*◌, ◌/◌, ◌%◌, ◌^◌, ◌<◌, ◌≡◌, refl, Bool, [], ◌∷◌, arith, Bytes, ltb, length,
}

-- `binary.BigEndian.PutUint64`, and shifts by 56, 48, … 0 of a uint64.
unfoldable pub put_uint64 : ℕ → Bytes
put_uint64 n =
    (n / 2 ^ 56 % 256)
    ∷ (n / 2 ^ 48 % 256)
    ∷ (n / 2 ^ 40 % 256)
    ∷ (n / 2 ^ 32 % 256)
    ∷ (n / 2 ^ 24 % 256)
    ∷ (n / 2 ^ 16 % 256)
    ∷ (n / 2 ^ 8 % 256)
    ∷ (n % 256)
    ∷ []

-- `v = v<<8 | uint64(b)` over the bytes, in uint64; with 8 bytes, `binary.BigEndian.Uint64`.
unfoldable pub be_fold : ℕ → Bytes → ℕ
be_fold v [] = v
be_fold v (b ∷ bs) = be_fold ((v * 256 + b) % 2 ^ 64) bs

pub be_fold-put_uint64 : (n : ℕ) → n < 2 ^ 64 → be_fold 0 (put_uint64 n) ≡ n
unfolding be_fold put_uint64
be_fold-put_uint64 n h = omega arith

pub length-put_uint64 : (n : ℕ) → length (put_uint64 n) ≡ 8
unfolding put_uint64
length-put_uint64 n = refl

-- An int64 is its two's complement pattern; `a < b` on int64.
unfoldable pub int64_lt : ℕ → ℕ → Bool
int64_lt a b = ltb ((a + 2 ^ 63) % 2 ^ 64) ((b + 2 ^ 63) % 2 ^ 64)
