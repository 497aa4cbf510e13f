-- ===== src/Shell/Distance/Reference.antt =====
-- internal/shellcmd/suggest.go: the rows of levenshtein against the recursive distance.
use nex_talk.Base.{
  ℕ, ◌+◌, ◌≡◌, refl, ap, ◌∙◌, List, [], ◌∷◌, arith, Bytes, length, if◌then◌else◌, ltb, ◌==◌,
}
use nex_talk.Shell.Distance.{
  cost, least, fill_row, next_row, last_row, count_from, last_of, levenshtein,
}

unfoldable pub lesser : ℕ → ℕ → ℕ
lesser m n = if ltb n m then n else m

least-lesser : (del ins sub : ℕ) → least del ins sub ≡ lesser (lesser del ins) sub
unfolding least lesser
least-lesser del ins sub = ground arith

add-cost : (n x y : ℕ) → n + cost x y ≡ (if x == y then n else n + 1)
unfolding cost
add-cost n x y = ground arith

-- The least number of edits that turn one row of characters into the other, each row read from its
-- end: the last character is deleted, inserted or replaced.
unfoldable pub distance : Bytes → Bytes → ℕ
distance [] ys = length ys
distance (x ∷ xs) [] = length xs + 1
distance (x ∷ xs) (y ∷ ys) =
    let both = distance xs ys in
    lesser (lesser (distance xs (y ∷ ys) + 1) (distance (x ∷ xs) ys + 1))
      (if x == y then both else both + 1)

cell-distance :
    (x y : ℕ) (xs ys : Bytes)
    → least (distance xs (y ∷ ys) + 1) (distance (x ∷ xs) ys + 1) (distance xs ys + cost x y)
      ≡ distance (x ∷ xs) (y ∷ ys)
unfolding distance
cell-distance x y xs ys =
    least-lesser (distance xs (y ∷ ys) + 1) (distance (x ∷ xs) ys + 1) (distance xs ys + cost x y)
    ∙ ap (lesser (lesser (distance xs (y ∷ ys) + 1) (distance (x ∷ xs) ys + 1)))
        (add-cost (distance xs ys) x y)

-- The distances to the longer and longer beginnings of a row, behind one that was read.
distances : Bytes → Bytes → Bytes → List ℕ
unfolding distance
distances xs read [] = []
distances xs read (y ∷ ys) = distance xs (y ∷ read) ∷ distances xs (y ∷ read) ys

fill_row-distances :
    (x : ℕ) (xs read ys : Bytes)
    → fill_row x ys (distance xs read) (distances xs read ys) (distance (x ∷ xs) read)
      ≡ distances (x ∷ xs) read ys
unfolding fill_row distances distance
fill_row-distances x xs read [] = refl
fill_row-distances x xs read (y ∷ ys) =
    rw (cell-distance x y xs read)
      (ap (λ ds. distance (x ∷ xs) (y ∷ read) ∷ ds) (fill_row-distances x xs (y ∷ read) ys))

-- Row i: the distances of the first i characters.
row_of : Bytes → Bytes → List ℕ
unfolding distance distances
row_of xs ys = distance xs [] ∷ distances xs [] ys

distance-nil : (xs : Bytes) → distance xs [] ≡ length xs
unfolding distance
distance-nil [] = refl
distance-nil (x ∷ xs) = ground arith

next_row-row_of :
    (i x : ℕ) (xs ys : Bytes)
    → i ≡ length xs + 1
    → next_row i x ys (row_of xs ys) ≡ row_of (x ∷ xs) ys
unfolding next_row row_of distance
next_row-row_of i x xs ys h = rw h (ap (λ ds. (length xs + 1) ∷ ds) (fill_row-distances x xs [] ys))

reverse_onto : Bytes → Bytes → Bytes
reverse_onto xs [] = xs
reverse_onto xs (y ∷ ys) = reverse_onto (y ∷ xs) ys

last_row-row_of :
    (i : ℕ) (read xs ys : Bytes)
    → i ≡ length read + 1
    → last_row i xs ys (row_of read ys) ≡ row_of (reverse_onto read xs) ys
unfolding last_row reverse_onto
last_row-row_of i read [] ys h = refl
last_row-row_of i read (x ∷ xs) ys h =
    rw (next_row-row_of i x read ys h) (last_row-row_of (i + 1) (x ∷ read) xs ys (omega arith))

count_from-distances :
    (j : ℕ) (read ys : Bytes)
    → j ≡ length read
    → count_from j ys ≡ distance [] read ∷ distances [] read ys
unfolding count_from distances distance
count_from-distances j read [] h = rw h refl
count_from-distances j read (y ∷ ys) h = rw h (
    ap (λ ds. length read ∷ ds)
      (count_from-distances (length read + 1) (y ∷ read) ys (omega arith)))

last_of-distances :
    (xs read ys : Bytes)
    → last_of (distance xs read ∷ distances xs read ys) ≡ distance xs (reverse_onto read ys)
unfolding last_of distances reverse_onto
last_of-distances xs read [] = refl
last_of-distances xs read (y ∷ ys) = last_of-distances xs (y ∷ read) ys

unfoldable pub reverse : Bytes → Bytes
unfolding reverse_onto
reverse xs = reverse_onto [] xs

-- The two rows that levenshtein keeps give the edit distance of its recursive definition, which reads
-- both texts from their end.
pub levenshtein-distance : (a b : Bytes) → levenshtein a b ≡ distance (reverse a) (reverse b)
unfolding levenshtein reverse row_of
levenshtein-distance a b =
    ap (λ row. last_of (last_row 1 a b row)) (count_from-distances 0 [] b refl)
    ∙ ap last_of (last_row-row_of 1 [] a b refl)
    ∙ last_of-distances (reverse_onto [] a) [] b
