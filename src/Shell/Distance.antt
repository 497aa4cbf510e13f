-- ===== src/Shell/Distance.antt =====
-- internal/shellcmd/suggest.go: the edit distance behind "did you mean". A text is its characters.
pub mod Reference
use nex_talk.Base.{
  ℕ, zero, suc, ◌+◌, ◌*◌, ◌≡◌, Bool, true, false, ◌||◌, ◌&&◌, List, [], ◌∷◌, arith, Bytes, ltb, leb,
  ◌==◌, if◌then◌else◌, length,
}

-- `cost`
unfoldable pub cost : ℕ → ℕ → ℕ
cost x y = if x == y then 0 else 1

-- The least of del, ins and sub, by the two tests of the loop.
unfoldable pub least : ℕ → ℕ → ℕ → ℕ
least del ins sub =
    let first = if ltb ins del then ins else del in if ltb sub first then sub else first

-- The inner loop: `cur` from j on, by what is left of b, `prev[j-1]`, `prev` from j on and `cur[j-1]`.
unfoldable pub fill_row : ℕ → Bytes → ℕ → List ℕ → ℕ → List ℕ
fill_row x [] diagonal prev left = []
fill_row x (y ∷ ys) diagonal [] left = []
fill_row x (y ∷ ys) diagonal (up ∷ prev) left =
    let cell = least (up + 1) (left + 1) (diagonal + cost x y) in cell ∷ fill_row x ys up prev cell

-- `cur` of round i
unfoldable pub next_row : ℕ → ℕ → Bytes → List ℕ → List ℕ
next_row i x ys [] = i ∷ []
next_row i x ys (diagonal ∷ prev) = i ∷ fill_row x ys diagonal prev i

-- The outer loop, from round i on.
unfoldable pub last_row : ℕ → Bytes → Bytes → List ℕ → List ℕ
last_row i [] ys prev = prev
last_row i (x ∷ xs) ys prev = last_row (i + 1) xs ys (next_row i x ys prev)

-- `prev[j] = j`
unfoldable pub count_from : ℕ → Bytes → List ℕ
count_from j [] = j ∷ []
count_from j (y ∷ ys) = j ∷ count_from (j + 1) ys

-- `prev[len(br)]`
unfoldable pub last_of : List ℕ → ℕ
last_of [] = 0
last_of (n ∷ []) = n
last_of (n ∷ m ∷ ns) = last_of (m ∷ ns)

-- levenshtein
unfoldable pub levenshtein : Bytes → Bytes → ℕ
levenshtein a b = last_of (last_row 1 a b (count_from 0 b))

-- The threshold of Suggest on a word and a candidate.
unfoldable pub is_near : Bytes → Bytes → Bool
is_near word candidate =
    let d = levenshtein word candidate in
    leb d 2 || (ltb 4 (length word) && leb (d * 2) (length candidate))
