-- ===== src/Filetransfer/Chunks.antt =====
-- internal/filetransfer/filetransfer.go: the chunks of a cipher.
use nex_talk.Base.{
  ℕ, zero, suc, ◌-◌, ◌<◌, ◌≤◌, ◌≡◌, refl, sym, ap, some, [], ◌∷◌, ◌++◌, arith, Bytes, length, take,
  drop, All,
}
use nex_talk.Filetransfer.{split_chunks, chunks_of, join_chunks}

take-drop : (n : ℕ) (xs : Bytes) → take n xs ++ drop n xs ≡ xs
take-drop zero xs = refl
take-drop (suc n) [] = refl
take-drop (suc n) (x ∷ xs) = ap (λ ys. x ∷ ys) (take-drop n xs)

length-drop : (n : ℕ) (xs : Bytes) → length (drop n xs) ≡ length xs - n
length-drop zero xs = ground arith
length-drop (suc n) [] = ground arith
length-drop (suc n) (x ∷ xs) = ground (arith, length-drop n xs)

length-take : (n : ℕ) (xs : Bytes) → length (take n xs) ≤ n
length-take zero xs = omega arith
length-take (suc n) [] = omega arith
length-take (suc n) (x ∷ xs) = omega (arith, length-take n xs)

length-take_bounds :
    (n x : ℕ) (xs : Bytes) → 0 < n → (0 < length (take n (x ∷ xs))) × (length (take n (x ∷ xs)) ≤ n)
length-take_bounds zero x xs h = absurd (omega arith)
length-take_bounds (suc n) x xs h = (omega arith, omega (arith, length-take n xs))

split_chunks-nil : (rounds size : ℕ) → split_chunks rounds size [] ≡ []
unfolding split_chunks
split_chunks-nil zero size = refl
split_chunks-nil (suc rounds) size = refl

-- More rounds than bytes change nothing.
split_chunks-more :
    (n m size : ℕ) (cipher : Bytes)
    → 0 < size
    → length cipher ≤ n
    → length cipher ≤ m
    → split_chunks n size cipher ≡ split_chunks m size cipher
unfolding split_chunks
split_chunks-more zero m size [] h a b = sym (split_chunks-nil m size)
split_chunks-more zero m size (x ∷ xs) h a b = absurd (omega arith)
split_chunks-more (suc n) zero size [] h a b = refl
split_chunks-more (suc n) zero size (x ∷ xs) h a b = absurd (omega arith)
split_chunks-more (suc n) (suc m) size [] h a b = refl
split_chunks-more (suc n) (suc m) size (x ∷ xs) h a b =
    ap (λ rest. take size (x ∷ xs) ∷ rest)
      (split_chunks-more n m size (drop size (x ∷ xs)) h (omega (arith, length-drop size (x ∷ xs)))
        (omega (arith, length-drop size (x ∷ xs))))

join_chunks-split_chunks :
    (rounds size : ℕ) (cipher : Bytes)
    → 0 < size
    → length cipher ≤ rounds
    → join_chunks (split_chunks rounds size cipher) ≡ some cipher
unfolding split_chunks join_chunks
join_chunks-split_chunks zero size [] h a = refl
join_chunks-split_chunks zero size (x ∷ xs) h a = absurd (omega arith)
join_chunks-split_chunks (suc rounds) size [] h a = refl
join_chunks-split_chunks (suc rounds) size (x ∷ xs) h a =
    let rest =
      join_chunks-split_chunks rounds size (drop size (x ∷ xs)) h
        (omega (arith, length-drop size (x ∷ xs))) in
    ground (arith, rest, take-drop size (x ∷ xs), length-take_bounds size x xs h)

split_chunks-bounds :
    (rounds size : ℕ) (cipher : Bytes)
    → 0 < size
    → All (λ (c : Bytes). (0 < length c) × (length c ≤ size)) (split_chunks rounds size cipher)
unfolding split_chunks
split_chunks-bounds zero size cipher h = tt
split_chunks-bounds (suc rounds) size [] h = tt
split_chunks-bounds (suc rounds) size (x ∷ xs) h =
    (length-take_bounds size x xs h, split_chunks-bounds rounds size (drop size (x ∷ xs)) h)

-- The loop of EncryptFile ends within one round for each byte of the cipher, for any positive size:
-- more rounds change nothing, the chunks are the cipher again, and each has a byte and at most the
-- size.
pub chunks_of_complete :
    (rounds size : ℕ) (cipher : Bytes)
    → 0 < size
    → length cipher ≤ rounds
    → (split_chunks rounds size cipher ≡ chunks_of size cipher)
      × (join_chunks (chunks_of size cipher) ≡ some cipher)
      × All (λ (c : Bytes). (0 < length c) × (length c ≤ size)) (chunks_of size cipher)
unfolding chunks_of
chunks_of_complete rounds size cipher h a = (
  split_chunks-more rounds (length cipher) size cipher h a (omega arith),
  join_chunks-split_chunks (length cipher) size cipher h (omega arith),
  split_chunks-bounds (length cipher) size cipher h,
)
